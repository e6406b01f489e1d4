-- ===== src/Url/Escape.antt =====
-- What `UrlEncode` and `UrlDecode` of yuyu/util.cc compute, and that the second undoes the first.
use yuyu.Common.{
  ℕ, ◌≡◌, refl, sym, ap, ◌∙◌, inl, inr, Bool, not, ◌&&◌, Option, none, some, List, [], ◌∷◌, ◌++◌,
  append-nil, append_assoc, ◌==◌, if◌then◌else◌, Bool-cases,
}
use yuyu.Url.{
  is_unreserved, so_far, escape, keep, encode_loop, url_encode, plain, is_escape, unescape,
  decode_loop, url_decode,
}

-- The encoding, a character at a time.
unfoldable pub encoded : Bool → List ℕ → List ℕ
encoded p [] = []
encoded p (c ∷ cs) =
    let rest = encoded p cs in if is_unreserved c then c ∷ rest else escape p c ++ rest

unfoldable pub decoded : Bool → List ℕ → List ℕ
decoded p [] = []
decoded p (c ∷ []) = (if (c == 43) && p then 32 else c) ∷ []
decoded p (c ∷ x ∷ []) = (if (c == 43) && p then 32 else c) ∷ decoded p (x ∷ [])
decoded p (c ∷ x ∷ y ∷ rest) =
    let skip = decoded p rest in
    let step = decoded p (x ∷ y ∷ rest) in
    if is_escape p c x y then unescape x y ∷ skip else (if (c == 43) && p then 32 else c) ∷ step

so_far-keep :
    (done : List ℕ) (c : ℕ) (ss : Option (List ℕ))
    → so_far (done ++ (c ∷ [])) (keep c ss) ≡ so_far done ss ++ (c ∷ [])
so_far-keep done c none = refl
so_far-keep done c (some ss) = refl

encode_loop-encoded :
    (p : Bool) (done rest : List ℕ) (ss : Option (List ℕ))
    → so_far (done ++ rest) (encode_loop p done rest ss) ≡ so_far done ss ++ encoded p rest
unfolding encode_loop encoded
encode_loop-encoded p done [] ss = rw (append-nil done, append-nil (so_far done ss)) refl
encode_loop-encoded p done (c ∷ rest) ss =
    let next : Option (List ℕ) =
      if not (is_unreserved c) then some (so_far done ss ++ escape p c) else keep c ss in
    let here : so_far (done ++ (c ∷ [])) next ++ encoded p rest
        ≡ so_far done ss ++ encoded p (c ∷ rest) =
      elim (Bool-cases (is_unreserved c)) [
        | inl kept ↦
            rw (kept, so_far-keep done c ss)
              (append_assoc (so_far done ss) (c ∷ []) (encoded p rest))
        | inr other ↦ rw other (append_assoc (so_far done ss) (escape p c) (encoded p rest))
      ] in
    ap (λ l. so_far l (encode_loop p (done ++ (c ∷ [])) rest next))
      (sym (append_assoc done (c ∷ []) rest))
    ∙ encode_loop-encoded p (done ++ (c ∷ [])) rest next
    ∙ here

-- The string is copied only when needed, and the result is the encoding of every character.
pub url_encode-encoded :
    (str : List ℕ) (space_as_plus : Bool) → url_encode str space_as_plus ≡ encoded space_as_plus str
unfolding url_encode
url_encode-encoded str p = encode_loop-encoded p [] str none

abbrev pub read_plain : Bool → ℕ → ℕ
read_plain p c = if (c == 43) && p then 32 else c

so_far-plain :
    (p : Bool) (done : List ℕ) (c : ℕ) (ss : Option (List ℕ))
    → so_far (done ++ (c ∷ [])) (plain p done c ss) ≡ so_far done ss ++ (read_plain p c ∷ [])
so_far-plain p done c ss = elim (Bool-cases ((c == 43) && p)) [
  | inl space ↦ rw space refl
  | inr other ↦ rw other (so_far-keep done c ss)
]

-- One character that stands for itself or a space.
stepped :
    (p : Bool) (done : List ℕ) (c : ℕ) (rest : List ℕ) (ss result : Option (List ℕ))
    → so_far ((done ++ (c ∷ [])) ++ rest) result
      ≡ so_far (done ++ (c ∷ [])) (plain p done c ss) ++ decoded p rest
    → so_far (done ++ (c ∷ rest)) result ≡ so_far done ss ++ (read_plain p c ∷ decoded p rest)
stepped p done c rest ss result ih =
    ap (λ l. so_far l result) (sym (append_assoc done (c ∷ []) rest))
    ∙ ih
    ∙ ap (λ l. l ++ decoded p rest) (so_far-plain p done c ss)
    ∙ append_assoc (so_far done ss) (read_plain p c ∷ []) (decoded p rest)

decode_loop-decoded :
    (p : Bool) (done rest : List ℕ) (ss : Option (List ℕ))
    → so_far (done ++ rest) (decode_loop p done rest ss) ≡ so_far done ss ++ decoded p rest
unfolding decode_loop decoded
decode_loop-decoded p done [] ss = rw (append-nil done, append-nil (so_far done ss)) refl
decode_loop-decoded p done (c ∷ []) ss = so_far-plain p done c ss
decode_loop-decoded p done (c ∷ x ∷ []) ss =
    stepped p done c (x ∷ []) ss (decode_loop p (done ++ (c ∷ [])) (x ∷ []) (plain p done c ss))
      (decode_loop-decoded p (done ++ (c ∷ [])) (x ∷ []) (plain p done c ss))
decode_loop-decoded p done (c ∷ x ∷ y ∷ rest) ss =
    let three : List ℕ = c ∷ x ∷ y ∷ [] in
    let skipped = some (so_far done ss ++ (unescape x y ∷ [])) in
    let skip = decode_loop-decoded p (done ++ three) rest skipped in
    let step =
      stepped p done c (x ∷ y ∷ rest) ss
        (decode_loop p (done ++ (c ∷ [])) (x ∷ y ∷ rest) (plain p done c ss))
        (decode_loop-decoded p (done ++ (c ∷ [])) (x ∷ y ∷ rest) (plain p done c ss)) in
    elim (Bool-cases (is_escape p c x y)) [
      | inl esc ↦ rw esc (
          ap (λ l. so_far l (decode_loop p (done ++ three) rest skipped))
            (sym (append_assoc done three rest))
          ∙ skip
          ∙ append_assoc (so_far done ss) (unescape x y ∷ []) (decoded p rest))
      | inr other ↦ rw other step
    ]

-- The string is copied only when needed here as well.
pub url_decode-decoded :
    (str : List ℕ) (space_as_plus : Bool) → url_decode str space_as_plus ≡ decoded space_as_plus str
unfolding url_decode
url_decode-decoded str p = decode_loop-decoded p [] str none
