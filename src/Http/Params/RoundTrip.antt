-- ===== src/Http/Params/RoundTrip.antt =====
-- A query string that is put together from keys and encoded values is taken apart into them by
-- PARSE_PARAM of yuyu/http/http.cc, with UrlDecode of yuyu/util.cc.
use yuyu.Url.{hexdigits, is_unreserved, url_encode, escape}
use yuyu.Url.Escape.{encoded, url_encode-encoded}
use yuyu.Url.RoundTrip.{url_decode-url_encode}
use yuyu.Http.{Text}
use yuyu.Http.Fields.{MapType, insert_key}
use yuyu.Http.Params.{
  split_at, parse_loop, parse_param, parse_loop-none, parse_loop-last, parse_loop-pair,
}
use yuyu.Common.{
  ℕ, zero, suc, ◌<◌, ◌≡◌, refl, ap, ◌∙◌, inl, inr, Bool, true, false, none, some, List, [], ◌∷◌,
  ◌++◌, arith, ◌==◌, Bool-cases, length, All, length-append,
}

abbrev pub Lacks : ℕ → Text → Type 0
Lacks c s = All (λ d. (d == c) ≡ false) s

pub split_at-found : (c : ℕ) (s t : Text) → Lacks c s → split_at c (s ++ (c ∷ t)) ≡ some (s, t)
unfolding split_at
split_at-found c [] t h = ground arith
split_at-found c (d ∷ s) t h = ground (arith, split_at-found c s t h.1)

pub split_at-nowhere : (c : ℕ) (s : Text) → Lacks c s → split_at c s ≡ none
unfolding split_at
split_at-nowhere c [] h = refl
split_at-nowhere c (d ∷ s) h = ground (arith, split_at-nowhere c s h.1)

Lacks-append : (c : ℕ) (s t : Text) → Lacks c s → Lacks c t → Lacks c (s ++ t)
Lacks-append c [] t h k = k
Lacks-append c (d ∷ s) t h k = (h.0, Lacks-append c s t h.1 k)

escape-Lacks : (p : Bool) (c : ℕ) → Lacks 38 (escape p c)
unfolding escape hexdigits
escape-Lacks p c = ground arith

unreserved-ne : (c : ℕ) → is_unreserved c ≡ true → (c == 38) ≡ false
unfolding is_unreserved
unreserved-ne c h = ground arith

length-behind : (key val rest : Text) → length rest < length (key ++ (61 ∷ (val ++ (38 ∷ rest))))
length-behind key val rest =
    omega (arith, length-append key (61 ∷ (val ++ (38 ∷ rest))), length-append val (38 ∷ rest))

-- The ampersand is not left by the encoding.
encoded-Lacks : (p : Bool) (s : Text) → Lacks 38 (encoded p s)
unfolding encoded
encoded-Lacks p [] = tt
encoded-Lacks p (c ∷ s) = elim (Bool-cases (is_unreserved c)) [
  | inl kept ↦ rw kept ((unreserved-ne c kept, encoded-Lacks p s))
  | inr other ↦
      rw other (Lacks-append 38 (escape p c) (encoded p s) (escape-Lacks p c) (encoded-Lacks p s))
]

url_encode-Lacks : (s : Text) → Lacks 38 (url_encode s true)
url_encode-Lacks s = rw (url_encode-encoded s true) (encoded-Lacks true s)

-- The pairs as a query string.
pub render : List (Text × Text) → Text
render [] = []
render ((key, val) ∷ []) = key ++ (61 ∷ url_encode val true)
render ((key, val) ∷ pair ∷ more) =
    key ++ (61 ∷ (url_encode val true ++ (38 ∷ render (pair ∷ more))))

-- The pairs one after another put into a map; the first one of a key counts.
abbrev pub collect : List (Text × Text) → MapType → MapType
collect [] m = m
collect ((key, val) ∷ more) m = collect more (insert_key key val m)

abbrev pub IsPair : Text × Text → Type 0
IsPair (key, val) = Lacks 61 key × All (λ c. c < 256) val

collected :
    (pairs : List (Text × Text)) (fuel : ℕ) (m : MapType)
    → All IsPair pairs
    → length (render pairs) < fuel
    → parse_loop fuel 38 (λ s. s) (render pairs) m ≡ collect pairs m
unfolding render
collected pairs zero m h f = absurd (omega arith)
collected [] (suc fuel) m h f = parse_loop-none 38 (λ s. s) [] m fuel (split_at-nowhere 61 [] tt)
collected ((key, val) ∷ []) (suc fuel) m h f =
    parse_loop-last 38 (λ s. s) _ m fuel key (url_encode val true) (split_at-found 61 key _ (h.0).0)
      (split_at-nowhere 38 _ (url_encode-Lacks val))
    ∙ ap (λ v. insert_key key v m) (url_decode-url_encode val true (h.0).1)
collected ((key, val) ∷ pair ∷ more) (suc fuel) m h f =
    parse_loop-pair 38 (λ s. s) _ m fuel key _ (url_encode val true) (render (pair ∷ more))
      (split_at-found 61 key _ (h.0).0)
      (split_at-found 38 _ (render (pair ∷ more)) (url_encode-Lacks val))
    ∙ ap (λ v. parse_loop fuel 38 (λ s. s) (render (pair ∷ more)) (insert_key key v m))
        (url_decode-url_encode val true (h.0).1)
    ∙ collected (pair ∷ more) fuel (insert_key key val m) h.1
        (omega (arith, length-behind key (url_encode val true) (render (pair ∷ more)), f))

-- A query string made of pairs with UrlEncode, whose keys have no equals sign, is taken apart into
-- these pairs: they are put into the map in their order, the first value of a key counts, and what
-- was in the map before stays.
pub parse_param-render :
    (pairs : List (Text × Text)) (m : MapType)
    → All IsPair pairs
    → parse_param 38 (λ s. s) (render pairs) m ≡ collect pairs m
unfolding parse_param
parse_param-render pairs m h = collected pairs (suc (length (render pairs))) m h (omega arith)
