-- ===== src/HttpClient/Hosts.antt =====
-- The headers of the requests of yuyu/http/http_connection.cc.
use yuyu.Common.{
  ◌≡◌, refl, ap, ◌∙◌, inl, inr, Bool, true, false, not, ◌&&◌, ◌||◌, Option, none, some, List, [],
  ◌∷◌, arith, if◌then◌else◌, Bool-cases,
}
use yuyu.Http.{Text, codes, c_str, HttpMethod}
use yuyu.Http.Fields.{
  Order, same, before, after, is_before, strcasecmp, compare_texts, compare_texts-same, less_key,
  find_key, flip, compare_texts-flip,
}
use yuyu.Http.Lookup.{is_same_key, find_key-assign_key}
use yuyu.Http.Message.{HttpRequest, new_http_request, set_header, is_text_empty}
use yuyu.HttpClient.{is_same}
use yuyu.HttpClient.Requests.{Uri, get_path, named, add_headers, finish_request, uri_request}

-- The last value among the headers with a name, or what there was.
abbrev pub last_named : Text → List (Text × Text) → Option Text → Option Text
last_named name [] before_ = before_
last_named name ((key, val) ∷ headers) before_ =
    last_named name headers (if named key name then some val else before_)

-- Whether a header with a name has a value that satisfies a test.
abbrev pub any_named : Text → (Text → Bool) → List (Text × Text) → Bool
any_named name test [] = false
any_named name test ((key, val) ∷ headers) =
    (named key name && test val) || any_named name test headers

is_same-same : (o : Order) → is_same o ≡ true → o ≡ same
is_same-same same h = refl
is_same-same before h = cc
is_same-same after h = cc

-- A key that has a name has the names of that name.
named-named : (key a b : Text) → named key a ≡ true → named key b ≡ named a b
unfolding strcasecmp
named-named key a b h =
    ap is_same ((compare_texts-same (c_str key) (c_str a) (c_str b) (is_same-same _ h)).0)

-- A name in other letters.
named_again : (key a b : Text) → named a b ≡ true → named key a ≡ named key b
unfolding strcasecmp
named_again key a b h =
    ap is_same ((compare_texts-same (c_str a) (c_str b) (c_str key) (is_same-same _ h)).1)

both_ways : (o : Order) → (not (is_before o) && not (is_before (flip o))) ≡ is_same o
both_ways same = refl
both_ways before = refl
both_ways after = refl

is_same_key-named : (key name : Text) → is_same_key key name ≡ named key name
unfolding less_key strcasecmp
is_same_key-named key name =
    ap (λ o. not (is_before (compare_texts (c_str key) (c_str name))) && not (is_before o))
      (compare_texts-flip (c_str key) (c_str name))
    ∙ both_ways (compare_texts (c_str key) (c_str name))

abbrev filled : Text → Bool
filled val = not (is_text_empty val)

abbrev keep_alive : Text → Bool
keep_alive val = named val (codes "keep-alive")

connection-host :
    (key : Text) → named key (codes "connection") ≡ true → named key (codes "host") ≡ false
unfolding strcasecmp
connection-host key h = named-named key (codes "connection") (codes "host") h

is_same_key-Host : (key : Text) → is_same_key key (codes "Host") ≡ named key (codes "host")
unfolding strcasecmp
is_same_key-Host key =
    is_same_key-named key (codes "Host") ∙ named_again key (codes "Host") (codes "host") refl

is_same_key-Connection :
    (key : Text) → is_same_key key (codes "Connection") ≡ named key (codes "connection")
unfolding strcasecmp
is_same_key-Connection key =
    is_same_key-named key (codes "Connection")
    ∙ named_again key (codes "Connection") (codes "connection") refl

-- What the loop over the headers makes.
pub record Added (headers : List (Text × Text)) (has_host : Bool) (req : HttpRequest)
    (r : Bool × HttpRequest) : Type 0 where
  pub has : r.0 ≡ (has_host || any_named (codes "host") filled headers)
  pub host :
      find_key (codes "Host") r.1.headers
      ≡ last_named (codes "host") headers (find_key (codes "Host") req.headers)
  pub connection :
      find_key (codes "Connection") r.1.headers ≡ find_key (codes "Connection") req.headers
  pub close : r.1.close ≡ (req.close && not (any_named (codes "connection") keep_alive headers))

abbrev closed_if : Bool → HttpRequest → HttpRequest
closed_if keep req = if keep then record req { close = false } else req

closed_if-headers : (keep : Bool) (req : HttpRequest) → (closed_if keep req).headers ≡ req.headers
closed_if-headers true req = refl
closed_if-headers false req = refl

closed_if-close :
    (keep rest : Bool) (req : HttpRequest)
    → ((closed_if keep req).close && not rest) ≡ (req.close && not ((true && keep) || rest))
closed_if-close true rest req = ground arith
closed_if-close false rest req = ground arith

Added-skip :
    (key val : Text) (headers : List (Text × Text)) (has_host : Bool) (req : HttpRequest)
    (r : Bool × HttpRequest)
    → named key (codes "connection") ≡ true
    → Added headers has_host (closed_if (keep_alive val) req) r
    → Added ((key, val) ∷ headers) has_host req r
Added-skip key val headers has_host req r h a =
    let same_headers = closed_if-headers (keep_alive val) req in
    let not_host = connection-host key h in
    record {
      has = rw not_host a.has;
      host = rw not_host (
          a.host
          ∙ ap (λ m. last_named (codes "host") headers (find_key (codes "Host") m)) same_headers);
      connection = a.connection ∙ ap (find_key (codes "Connection")) same_headers;
      close = rw h (
          a.close
          ∙ closed_if-close (keep_alive val) (any_named (codes "connection") keep_alive headers)
              req);
    }

has_step :
    (has_host is_host full rest : Bool)
    → ((if not has_host && is_host then full else has_host) || rest)
      ≡ (has_host || ((is_host && full) || rest))
has_step true is_host full rest = refl
has_step false is_host full rest = ground arith

Added-keep :
    (key val : Text) (headers : List (Text × Text)) (has_host : Bool) (req : HttpRequest)
    (r : Bool × HttpRequest)
    → named key (codes "connection") ≡ false
    → Added headers
        (if not has_host && named key (codes "host") then filled val else has_host)
        (set_header key val req)
        r
    → Added ((key, val) ∷ headers) has_host req r
unfolding set_header
Added-keep key val headers has_host req r h a = record {
  has =
      a.has
      ∙ has_step has_host (named key (codes "host")) (filled val)
          (any_named (codes "host") filled headers);
  host =
      a.host
      ∙ ap (last_named (codes "host") headers) (
          find_key-assign_key key (codes "Host") val req.headers
          ∙ ap (λ b. if b then some val else find_key (codes "Host") req.headers)
              (is_same_key-Host key));
  connection =
      a.connection
      ∙ find_key-assign_key key (codes "Connection") val req.headers
      ∙ ap (λ b. if b then some val else find_key (codes "Connection") req.headers)
          (is_same_key-Connection key ∙ h);
  close = rw h a.close;
}

add_headers-Added :
    (headers : List (Text × Text)) (has_host : Bool) (req : HttpRequest)
    → Added headers has_host req (add_headers headers has_host req)
unfolding add_headers
add_headers-Added [] has_host req = record {
  has = ground arith;
  host = refl;
  connection = refl;
  close = ground arith;
}
add_headers-Added ((key, val) ∷ headers) has_host req =
    elim (Bool-cases (named key (codes "connection"))) [
      | inl skipped ↦ rw skipped (
          Added-skip key val headers has_host req _ skipped
            (add_headers-Added headers has_host (closed_if (keep_alive val) req)))
      | inr kept ↦
          let has' : Bool =
            if not has_host && named key (codes "host") then filled val else has_host in
          rw kept (
            Added-keep key val headers has_host req _ kept
              (add_headers-Added headers has' (set_header key val req)))
    ]

finish_request-lem :
    (host body : Text) (has_host : Bool) (req : HttpRequest)
    → (find_key (codes "Host") (finish_request host body (has_host, req)).headers
        ≡ (if has_host then find_key (codes "Host") req.headers else some host))
      × (find_key (codes "Connection") (finish_request host body (has_host, req)).headers
          ≡ find_key (codes "Connection") req.headers)
      × ((finish_request host body (has_host, req)).close ≡ req.close)
unfolding finish_request set_header less_key strcasecmp
finish_request-lem host body true req = (refl, refl, refl)
finish_request-lem host body false req = (
  find_key-assign_key (codes "Host") (codes "Host") host req.headers,
  find_key-assign_key (codes "Host") (codes "Connection") host req.headers,
  refl,
)

-- The headers of the request that DoRequest sends: if a header named host, in any letters, has a
-- value, the last such header is passed on, and otherwise the host of the Uri; a header named
-- connection never is, and the connection is kept open just when one of these says keep-alive.
pub uri_request-headers :
    (method : HttpMethod) (uri : Uri) (headers : List (Text × Text)) (body : Text)
    → (find_key (codes "Host") (uri_request method uri headers body).headers ≡ (
        if any_named (codes "host") filled headers
        then last_named (codes "host") headers none
        else some uri.host))
      × (find_key (codes "Connection") (uri_request method uri headers body).headers ≡ none)
      × ((uri_request method uri headers body).close
          ≡ not (any_named (codes "connection") keep_alive headers))
unfolding uri_request new_http_request find_key
uri_request-headers method uri headers body =
    let start : HttpRequest = record (new_http_request 17 true) {
      path = get_path uri;
      query = uri.query;
      fragment = uri.fragment;
      method = method;
    } in
    let r = add_headers headers false start in
    let a = add_headers-Added headers false start in
    let (host, connection, close) = finish_request-lem uri.host body r.0 r.1 in
    (
      host
          ∙ ap (λ b. if b then find_key (codes "Host") r.1.headers else some uri.host) a.has
          ∙ ap (λ v. if any_named (codes "host") filled headers then v else some uri.host) a.host,
      connection ∙ a.connection,
      close ∙ a.close,
    )
