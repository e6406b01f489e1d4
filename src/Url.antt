-- ===== src/Url.antt =====
-- The percent encoding of yuyu/util.cc, `StringUtil::UrlEncode` and `StringUtil::UrlDecode`. A
-- string is the list of its bytes, and `ss` the string that is only made when something changes.
pub mod Escape
pub mod RoundTrip
mod Tests
use yuyu.Common.Bits.{bit_and, bit_or}
use yuyu.Common.{
  ℕ, ◌+◌, ◌-◌, ◌*◌, ◌/◌, ◌%◌, ◌^◌, ap, Bool, not, ◌&&◌, ◌||◌, Option, none, some, List, [], ◌∷◌,
  ◌++◌, ltb, leb, ◌==◌, if◌then◌else◌,
}

abbrev pub is_digit : ℕ → Bool
is_digit c = leb 48 c && leb c 57

abbrev pub is_letter : ℕ → Bool
is_letter c = (leb 65 c && leb c 90) || (leb 97 c && leb c 122)

-- The entries of `uri_chars` that are 1: `-`, `.`, the digits, `=`, the letters, `_` and `~`.
unfoldable pub is_unreserved : ℕ → Bool
is_unreserved c =
    (c == 45)
    || ((c == 46) || (is_digit c || ((c == 61) || (is_letter c || ((c == 95) || (c == 126))))))

-- `isxdigit` in the C locale.
unfoldable pub is_xdigit : ℕ → Bool
is_xdigit c = is_digit c || ((leb 65 c && leb c 70) || (leb 97 c && leb c 102))

unfoldable pub xdigit_chars : ℕ → ℕ
xdigit_chars c =
    if is_digit c
    then c - 48
    else if leb 65 c && leb c 70
    then c - 55
    else if leb 97 c && leb c 102
    then c - 87
    else 0

-- `hexdigits[d]`
unfoldable pub hexdigits : ℕ → ℕ
hexdigits d = if ltb d 10 then 48 + d else 55 + d

-- What `ss` holds, or the part of the string that is passed while `ss` is null.
abbrev pub so_far : List ℕ → Option (List ℕ) → List ℕ
so_far done none = done
so_far done (some ss) = ss

-- What is appended for a character that is not kept.
unfoldable pub escape : Bool → ℕ → List ℕ
escape space_as_plus c =
    if (c == 32) && space_as_plus
    then 43 ∷ []
    else 37 ∷ hexdigits (c / 16) ∷ hexdigits (bit_and c 0xf) ∷ []

-- `ss` behind a character that is kept.
abbrev pub keep : ℕ → Option (List ℕ) → Option (List ℕ)
keep c none = none
keep c (some ss) = some (ss ++ (c ∷ []))

pub encode_loop : Bool → List ℕ → List ℕ → Option (List ℕ) → Option (List ℕ)
encode_loop space_as_plus done [] ss = ss
encode_loop space_as_plus done (c ∷ rest) ss =
    encode_loop space_as_plus (done ++ (c ∷ [])) rest
      (if not (is_unreserved c) then some (so_far done ss ++ escape space_as_plus c) else keep c ss)

unfoldable pub url_encode : List ℕ → Bool → List ℕ
url_encode str space_as_plus = so_far str (encode_loop space_as_plus [] str none)

-- `ss` behind a character that begins no escape.
abbrev pub plain : Bool → List ℕ → ℕ → Option (List ℕ) → Option (List ℕ)
plain space_as_plus done c ss =
    if (c == 43) && space_as_plus then some (so_far done ss ++ (32 ∷ [])) else keep c ss

-- Whether the three characters are an escape, for one that is not read as a space.
abbrev pub is_escape : Bool → ℕ → ℕ → ℕ → Bool
is_escape space_as_plus c x y =
    not ((c == 43) && space_as_plus) && ((c == 37) && (is_xdigit x && is_xdigit y))

unfoldable pub unescape : ℕ → ℕ → ℕ
unescape x y = bit_or (xdigit_chars x * 2 ^ 4) (xdigit_chars y) % 256

-- With fewer than two characters behind it, a `%` is kept.
pub decode_loop : Bool → List ℕ → List ℕ → Option (List ℕ) → Option (List ℕ)
decode_loop p done [] ss = ss
decode_loop p done (c ∷ []) ss = plain p done c ss
decode_loop p done (c ∷ x ∷ []) ss = decode_loop p (done ++ (c ∷ [])) (x ∷ []) (plain p done c ss)
decode_loop p done (c ∷ x ∷ y ∷ rest) ss =
    let skip =
      decode_loop p (done ++ (c ∷ x ∷ y ∷ [])) rest
        (some (so_far done ss ++ (unescape x y ∷ []))) in
    let step = decode_loop p (done ++ (c ∷ [])) (x ∷ y ∷ rest) (plain p done c ss) in
    if is_escape p c x y then skip else step

unfoldable pub url_decode : List ℕ → Bool → List ℕ
url_decode str space_as_plus = so_far str (decode_loop space_as_plus [] str none)
