-- ===== src/Http/Methods.antt =====
-- The names of the methods of yuyu/http/http.cc, read and printed.
use yuyu.Http.{
  Text, c_str, HttpMethod, invalid_method, number, method_map, text_eq, find_method,
  string_to_http_method, chars_to_http_method, http_method_to_string,
}
use yuyu.Common.{
  ◌≡◌, refl, sym, ap, ◌∙◌, ◌≢◌, inl, inr, true, true≢false, List, [], ◌∷◌, ◌++◌, arith, Bool-cases,
  All,
}

-- Every method but the invalid one is read back from its name by StringToHttpMethod, and by
-- CharsToHttpMethod also from a string that goes on behind the name: no name is a prefix of another
-- one that is tried later.
pub methods-read_back :
    (m : HttpMethod) (rest : Text)
    → m ≢ invalid_method
    → (string_to_http_method (http_method_to_string m) ≡ m)
      × (chars_to_http_method (http_method_to_string m ++ rest) ≡ m)
unfolding string_to_http_method chars_to_http_method http_method_to_string number
methods-read_back invalid_method rest h = absurd (h refl)
methods-read_back _ rest h = (refl, refl)

pub text_eq→eq : (s t : Text) → text_eq s t ≡ true → s ≡ t
text_eq→eq [] [] h = refl
text_eq→eq [] (d ∷ t) h = absurd (true≢false (sym h))
text_eq→eq (c ∷ s) [] h = absurd (true≢false (sym h))
text_eq→eq (c ∷ s) (d ∷ t) h = ground (arith, text_eq→eq s t)

names_listed : All (λ ((n, name) : HttpMethod × Text). http_method_to_string n ≡ name) method_map
unfolding http_method_to_string number
names_listed = ground arith

find_method-named :
    (t : Text) (names : List (HttpMethod × Text)) (m : HttpMethod)
    → find_method (λ name. text_eq name t) names ≡ m
    → m ≢ invalid_method
    → All (λ ((n, name) : HttpMethod × Text). http_method_to_string n ≡ name) names
    → http_method_to_string m ≡ t
find_method-named t [] m e h all = absurd (h (sym e))
find_method-named t ((n, name) ∷ more) m e h all = elim (Bool-cases (text_eq name t)) [
  | inl same ↦
      let found : n ≡ m = ground arith in
      ap http_method_to_string (sym found) ∙ all.0 ∙ text_eq→eq name t same
  | inr other ↦ find_method-named t more m (ground arith) h all.1
]

-- What StringToHttpMethod reads as a method that is not the invalid one is its name, up to a zero
-- byte.
pub http_method_to_string-string_to_http_method :
    (s : Text)
    → string_to_http_method s ≢ invalid_method
    → http_method_to_string (string_to_http_method s) ≡ c_str s
unfolding string_to_http_method
http_method_to_string-string_to_http_method s h =
    find_method-named (c_str s) method_map (string_to_http_method s) refl h names_listed
