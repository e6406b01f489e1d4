-- ===== src/Http/Parser.antt =====
-- The callbacks of yuyu/http/http_parser.cc, which the generated parsers call while they go through
-- the buffer: `at` is the buffer from the token on, and `length` the length of the token.
use yuyu.Http.{Text, codes, HttpMethod, invalid_method, chars_to_http_method}
use yuyu.Http.Message.{
  HttpRequest, HttpResponse, set_header, response_set_header, new_http_request, new_http_response,
}
use yuyu.Common.{
  ℕ, zero, suc, ◌+◌, ◌-◌, ◌*◌, ◌≤◌, ◌≡◌, refl, sym, ◌∙◌, ◌≢◌, ◌⊎◌, inl, inr, Bool, true, false,
  true≢false, ◌&&◌, ◌||◌, Option, none, some, [], ◌∷◌, arith, leb, ◌==◌, if◌then◌else◌, Bool-cases,
  length, take, All,
}

pub record HttpRequestParser : Type 0 where
  pub message : HttpRequest
  pub error : ℕ

pub record HttpResponseParser : Type 0 where
  pub message : HttpResponse
  pub error : ℕ

unfoldable pub new_request_parser : HttpRequestParser
new_request_parser = record { message = new_http_request 17 true; error = 0 }

unfoldable pub new_response_parser : HttpResponseParser
new_response_parser = record { message = new_http_response 17 true; error = 0 }

-- `strncmp(s, t, n) == 0`
unfoldable pub strncmp_eq : Text → Text → ℕ → Bool
strncmp_eq s t zero = true
strncmp_eq [] [] (suc n) = true
strncmp_eq [] (d ∷ t) (suc n) = d == 0
strncmp_eq (c ∷ s) [] (suc n) = c == 0
strncmp_eq (c ∷ s) (d ∷ t) (suc n) = (c == d) && ((c == 0) || strncmp_eq s t n)

-- A token as a std::string.
abbrev pub token : Text → ℕ → Text
token at length = take length at

unfoldable pub is_invalid : HttpMethod → Bool
is_invalid invalid_method = true
is_invalid _ = false

unfoldable pub on_request_method : Text → ℕ → HttpRequestParser → HttpRequestParser
unfolding is_invalid
on_request_method at length p =
    let m = chars_to_http_method at in
    if is_invalid m
    then record p { error = 1000 }
    else record p { message = record p.message { method = m } }

unfoldable pub on_request_fragment : Text → ℕ → HttpRequestParser → HttpRequestParser
on_request_fragment at length p = record p {
  message = record p.message { fragment = token at length };
}

unfoldable pub on_request_path : Text → ℕ → HttpRequestParser → HttpRequestParser
on_request_path at length p = record p { message = record p.message { path = token at length } }

unfoldable pub on_request_query : Text → ℕ → HttpRequestParser → HttpRequestParser
on_request_query at length p = record p { message = record p.message { query = token at length } }

-- The version that a token names.
unfoldable pub read_version : Text → ℕ → Option ℕ
unfolding strncmp_eq
read_version at length =
    if strncmp_eq at (codes "HTTP/1.1") length
    then some 17
    else if strncmp_eq at (codes "HTTP/1.0") length
    then some 16
    else none

unfoldable pub on_request_version : Text → ℕ → HttpRequestParser → HttpRequestParser
unfolding read_version
on_request_version at length p = elim (read_version at length) [
  | none ↦ record p { error = 1001 }
  | some v ↦ record p { message = record p.message { version = v } }
]

unfoldable pub on_request_http_field : Text → ℕ → Text → ℕ → HttpRequestParser → HttpRequestParser
on_request_http_field field flen value vlen p =
    if flen == 0
    then p
    else record p { message = set_header (token field flen) (token value vlen) p.message }

unfoldable pub on_response_reason : Text → ℕ → HttpResponseParser → HttpResponseParser
on_response_reason at length p = record p {
  message = record p.message { reason = token at length };
}

-- `atoi` for a text that begins with digits and stands for an int.
abbrev pub atoi_loop : ℕ → Text → ℕ
atoi_loop n [] = n
atoi_loop n (c ∷ s) = if leb 48 c && leb c 57 then atoi_loop (n * 10 + (c - 48)) s else n

unfoldable pub on_response_status : Text → ℕ → HttpResponseParser → HttpResponseParser
on_response_status at length p = record p { message = record p.message { status = atoi_loop 0 at } }

unfoldable pub on_response_version : Text → ℕ → HttpResponseParser → HttpResponseParser
unfolding read_version
on_response_version at length p = elim (read_version at length) [
  | none ↦ record p { error = 1001 }
  | some v ↦ record p { message = record p.message { version = v } }
]

unfoldable pub on_response_http_field :
    Text → ℕ → Text → ℕ → HttpResponseParser → HttpResponseParser
on_response_http_field field flen value vlen p =
    if flen == 0
    then p
    else record p { message = response_set_header (token field flen) (token value vlen) p.message }

-- Equal up to `n` characters, for texts without a zero byte that are long enough.
strncmp-take :
    (s t : Text) (n : ℕ)
    → n ≤ length s
    → n ≤ length t
    → All (λ c. (c == 0) ≡ false) t
    → ((strncmp_eq s t n ≡ true) → take n s ≡ take n t)
      × (take n s ≡ take n t → strncmp_eq s t n ≡ true)
unfolding strncmp_eq
strncmp-take s t zero h k z = (λ e. refl, λ e. refl)
strncmp-take [] t (suc n) h k z = absurd (omega arith)
strncmp-take (c ∷ s) [] (suc n) h k z = absurd (omega arith)
strncmp-take (c ∷ s) (d ∷ t) (suc n) h k z =
    ground (arith, strncmp-take s t n (omega arith) (omega arith) z.1)

abbrev v11 : Text
v11 = codes "HTTP/1.1"

abbrev v10 : Text
v10 = codes "HTTP/1.0"

-- For a token of eight characters the version becomes 1.1 or 1.0 when the token says so, and no
-- error is set; for any other token the error becomes 1001 and the request stays as it is.
pub on_request_version-lem :
    (at : Text) (p : HttpRequestParser)
    → 8 ≤ length at
    → ((take 8 at ≡ codes "HTTP/1.1")
        × (on_request_version at 8 p ≡ record p { message = record p.message { version = 17 } }))
      ⊎ (((take 8 at ≡ codes "HTTP/1.0")
            × (on_request_version at 8 p
                ≡ record p { message = record p.message { version = 16 } }))
          ⊎ ((take 8 at ≢ codes "HTTP/1.1")
              × (take 8 at ≢ codes "HTTP/1.0")
              × (on_request_version at 8 p ≡ record p { error = 1001 })))
unfolding on_request_version read_version
on_request_version-lem at p h =
    let one =
      strncmp-take at v11 8 h (omega arith)
        (refl, (refl, (refl, (refl, (refl, (refl, (refl, (refl, tt)))))))) in
    let old =
      strncmp-take at v10 8 h (omega arith)
        (refl, (refl, (refl, (refl, (refl, (refl, (refl, (refl, tt)))))))) in
    elim (Bool-cases (strncmp_eq at v11 8)) [
      | inl new ↦ inl (one.0 new, ground arith)
      | inr not_new ↦ elim (Bool-cases (strncmp_eq at v10 8)) [
        | inl ten ↦ inr (inl (old.0 ten, ground arith))
        | inr neither ↦ inr (
            inr (
              λ e. true≢false (sym (one.1 e) ∙ not_new),
              λ e. true≢false (sym (old.1 e) ∙ neither),
              ground arith,
            ))
      ]
    ]
