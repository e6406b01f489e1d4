-- ===== src/Url/RoundTrip.antt =====
-- Decoding what `UrlEncode` of yuyu/util.cc made.
use yuyu.Common.Bits.{bit_and, bit_and-mask, bit_or-low}
use yuyu.Common.{
  ℕ, ◌/◌, ◌%◌, ◌<◌, ◌≡◌, refl, ap, ◌∙◌, inl, inr, Bool, true, false, ◌&&◌, List, [], ◌∷◌, ◌++◌,
  arith, ◌==◌, Bool-cases, All,
}
use yuyu.Url.{
  is_unreserved, is_xdigit, xdigit_chars, hexdigits, escape, url_encode, is_escape, unescape,
  url_decode,
}
use yuyu.Url.Escape.{encoded, decoded, read_plain, url_encode-encoded, url_decode-decoded}

-- A character that is no percent sign begins no escape.
decoded-step :
    (p : Bool) (c : ℕ) (rest : List ℕ)
    → (c == 37) ≡ false
    → decoded p (c ∷ rest) ≡ read_plain p c ∷ decoded p rest
unfolding decoded
decoded-step p c [] h = refl
decoded-step p c (x ∷ []) h = refl
decoded-step p c (x ∷ y ∷ rest) h =
    let no_escape : is_escape p c x y ≡ false = rw h ground arith in rw no_escape refl

decoded-kept :
    (p : Bool) (c : ℕ) (rest : List ℕ)
    → is_unreserved c ≡ true
    → decoded p (c ∷ rest) ≡ c ∷ decoded p rest
unfolding is_unreserved
decoded-kept p c rest h =
    let no_percent : (c == 37) ≡ false = ground arith in
    let no_plus : (c == 43) ≡ false = ground arith in
    decoded-step p c rest no_percent ∙ rw no_plus refl

decoded-space : (p : Bool) (rest : List ℕ) → p ≡ true → decoded p (43 ∷ rest) ≡ 32 ∷ decoded p rest
decoded-space p rest plus = decoded-step p 43 rest refl ∙ rw plus refl

-- The digits of an escape are hexadecimal, and are read as they were written.
digit_read : (d : ℕ) → d < 16 → (is_xdigit (hexdigits d) ≡ true) × (xdigit_chars (hexdigits d) ≡ d)
unfolding is_xdigit xdigit_chars hexdigits
digit_read d h = (ground arith, ground arith)

unescape-digits : (c : ℕ) → c < 256 → unescape (hexdigits (c / 16)) (hexdigits (bit_and c 0xf)) ≡ c
unfolding unescape
unescape-digits c h =
    let low = bit_and-mask 4 c in
    let high_read = digit_read (c / 16) (omega arith) in
    let low_read = digit_read (c % 16) (omega arith) in
    rw (low, high_read.1, low_read.1, bit_or-low 4 (c / 16) (c % 16) (omega arith)) omega arith

both : (c : ℕ) (p : Bool) → ((c == 32) && p) ≡ true → (c ≡ 32) × (p ≡ true)
both c true h = (ground arith, refl)
both c false h = absurd (ground arith)

decoded-escape :
    (p : Bool) (c : ℕ) (rest : List ℕ)
    → c < 256
    → decoded p (escape p c ++ rest) ≡ c ∷ decoded p rest
unfolding escape decoded
decoded-escape p c rest h = elim (Bool-cases ((c == 32) && p)) [
  | inl space ↦ let (blank, plus) = both c p space in rw (space, blank) (decoded-space p rest plus)
  | inr other ↦
      let xs = digit_read (c / 16) (omega arith) in
      let low : is_xdigit (hexdigits (bit_and c 0xf)) ≡ true =
        rw (bit_and-mask 4 c) (digit_read (c % 16) (omega arith)).0 in
      rw (other, xs.0, low, unescape-digits c h) refl
]

decoded-encoded :
    (p : Bool) (str : List ℕ) → All (λ c. c < 256) str → decoded p (encoded p str) ≡ str
unfolding encoded decoded
decoded-encoded p [] h = refl
decoded-encoded p (c ∷ cs) h = elim (Bool-cases (is_unreserved c)) [
  | inl kept ↦
      rw kept (decoded-kept p c (encoded p cs) kept ∙ ap (λ l. c ∷ l) (decoded-encoded p cs h.1))
  | inr other ↦
      rw other (decoded-escape p c (encoded p cs) h.0 ∙ ap (λ l. c ∷ l) (decoded-encoded p cs h.1))
]

-- Every string of bytes is decoded to what it was before it was encoded, with `+` for a space or
-- without.
pub url_decode-url_encode :
    (str : List ℕ) (space_as_plus : Bool)
    → All (λ c. c < 256) str
    → url_decode (url_encode str space_as_plus) space_as_plus ≡ str
url_decode-url_encode str p h =
    ap (λ s. url_decode s p) (url_encode-encoded str p)
    ∙ url_decode-decoded (encoded p str) p
    ∙ decoded-encoded p str h
