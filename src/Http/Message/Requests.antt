-- ===== src/Http/Message/Requests.antt =====
-- The headers and parameters of an HttpRequest of yuyu/http/http.cc.
use yuyu.Http.{Text, codes}
use yuyu.Http.Fields.{find_key, or_default, strcasecmp}
use yuyu.Http.Lookup.{find_key-assign_key, is_same_key, less_irrefl}
use yuyu.Http.Params.{parse_param, find_key-parse_loop}
use yuyu.Http.Message.{
  HttpRequest, get_header, set_header, init_query_param, init_body_param, get_param, set_param,
  init, is_same,
}
use yuyu.Common.{ℕ, suc, ◌≡◌, ap, ◌∙◌, true, not, some, [], ◌∷◌, arith, if◌then◌else◌, length}

-- A header that has been set is found under its key in any case of the letters, and every other
-- header is what it was.
pub get_header-set_header :
    (key other val def : Text) (r : HttpRequest)
    → get_header other def (set_header key val r)
      ≡ (if is_same_key key other then val else get_header other def r)
unfolding get_header set_header
get_header-set_header key other val def r =
    ground (arith, find_key-assign_key key other val r.headers)

init_query_param-keeps :
    (key val : Text) (r : HttpRequest)
    → find_key key r.params ≡ some val
    → find_key key (init_query_param r).params ≡ some val
unfolding init_query_param parse_param
init_query_param-keeps key val r h =
    ground
      (arith, find_key-parse_loop (suc (length r.query)) 38 (λ s. s) r.query key val r.params h)

init_body_param-keeps :
    (key val : Text) (r : HttpRequest)
    → find_key key r.params ≡ some val
    → find_key key (init_body_param r).params ≡ some val
unfolding init_body_param parse_param
init_body_param-keeps key val r h =
    ground (arith, find_key-parse_loop (suc (length r.body)) 38 (λ s. s) r.body key val r.params h)

init_query_param-flag : (r : HttpRequest) → (init_query_param r).query_parsed ≡ true
unfolding init_query_param
init_query_param-flag r = ground arith

init_body_param-flags :
    (r : HttpRequest)
    → ((init_body_param r).body_parsed ≡ true) × ((init_body_param r).query_parsed ≡ r.query_parsed)
unfolding init_body_param
init_body_param-flags r = ground arith

init_query_param-again : (r : HttpRequest) → r.query_parsed ≡ true → init_query_param r ≡ r
unfolding init_query_param
init_query_param-again r h = ground arith

init_body_param-again : (r : HttpRequest) → r.body_parsed ≡ true → init_body_param r ≡ r
unfolding init_body_param
init_body_param-again r h = ground arith

-- The query and the body are parsed once.
parsed_once :
    (r : HttpRequest)
    → init_body_param (init_query_param (init_body_param (init_query_param r)))
      ≡ init_body_param (init_query_param r)
parsed_once r =
    let (body, query) = init_body_param-flags (init_query_param r) in
    ap init_body_param (
      init_query_param-again (init_body_param (init_query_param r))
        (query ∙ init_query_param-flag r))
    ∙ init_body_param-again (init_body_param (init_query_param r)) body

set_param-found :
    (key val : Text) (r : HttpRequest) → find_key key (set_param key val r).params ≡ some val
unfolding set_param
set_param-found key val r =
    ground (arith, find_key-assign_key key key val r.params, less_irrefl key)

-- A parameter that has been set is returned by getParam, also when the query and the body are only
-- parsed then and have another value for it, and asking again returns the same and changes nothing.
pub get_param-set_param :
    (key val def : Text) (r : HttpRequest)
    → ((get_param key def (set_param key val r)).0 ≡ val)
      × (get_param key def (get_param key def (set_param key val r)).1
          ≡ get_param key def (set_param key val r))
unfolding get_param
get_param-set_param key val def r =
    let r₁ = set_param key val r in
    let kept =
      init_body_param-keeps key val (init_query_param r₁)
        (init_query_param-keeps key val r₁ (set_param-found key val r)) in
    (
      ap (or_default def) kept,
      ap (λ (q : HttpRequest). (or_default def (find_key key q.params), q)) (parsed_once r₁),
    )

-- After `init` a connection header that is not empty has decided: the connection is kept just when
-- the header is `keep-alive` in any case of the letters.
pub init-set_header :
    (key : Text) (c : ℕ) (val : Text) (r : HttpRequest)
    → is_same_key key (codes "connection") ≡ true
    → (init (set_header key (c ∷ val) r)).close
      ≡ not (is_same (strcasecmp (c ∷ val) (codes "keep-alive")))
unfolding init
init-set_header key c val r h =
    ground (arith, get_header-set_header key (codes "connection") (c ∷ val) [] r)
