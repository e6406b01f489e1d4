-- ===== src/HttpClient/Requests.antt =====
-- The requests of yuyu/http/http_connection.cc: how they are made, and which error they end with.
-- Sockets and the texts of the system's errors are arguments; the parts of a Uri that a request uses
-- come from the generated parser of yuyu/uri.rl.
use yuyu.Common.{
  ℕ, Bool, true, false, not, ◌&&◌, ◌||◌, Option, none, some, List, [], ◌∷◌, ◌++◌, ◌==◌,
  if◌then◌else◌,
}
use yuyu.Common.Int.{ℤ, pos, negsuc}
use yuyu.Http.{Text, codes, text_eq, HttpMethod, get, post}
use yuyu.Http.Fields.{strcasecmp}
use yuyu.Http.Message.{HttpRequest, HttpResponse, new_http_request, set_header, is_text_empty}
use yuyu.HttpClient.{is_same}

pub record Uri : Type 0 where
  pub scheme : Text
  pub host : Text
  pub path : Text
  pub query : Text
  pub fragment : Text
  pub port : ℕ

-- `getPath` and `getPort`
unfoldable pub get_path : Uri → Text
get_path uri = if is_text_empty uri.path then codes "/" else uri.path

unfoldable pub get_port : Uri → ℕ
get_port uri =
    if not (uri.port == 0)
    then uri.port
    else if text_eq uri.scheme (codes "http") || text_eq uri.scheme (codes "ws")
    then 80
    else if text_eq uri.scheme (codes "https") || text_eq uri.scheme (codes "wss")
    then 443
    else uri.port

pub data Error : Type 0 where
  ok invalid_url invalid_host connect_fail send_close_by_peer send_socket_error timeout : Error
  create_socket_error pool_get_connection pool_invalid_connection : Error

pub record HttpResult : Type 0 where
  pub result : Error
  pub response : Option HttpResponse
  pub error : Text

abbrev pub failed_with : Error → Text → HttpResult
failed_with result error = record { result = result; response = none; error = error }

abbrev pub named : Text → Text → Bool
named key name = is_same (strcasecmp key name)

-- The loop over the headers: `has_host`, and the request.
unfoldable pub add_headers : List (Text × Text) → Bool → HttpRequest → Bool × HttpRequest
add_headers [] has_host req = (has_host, req)
add_headers ((key, val) ∷ headers) has_host req =
    let connection =
      add_headers headers has_host
        (if named val (codes "keep-alive") then record req { close = false } else req) in
    let other =
      add_headers headers
        (if not has_host && named key (codes "host") then not (is_text_empty val) else has_host)
        (set_header key val req) in
    if named key (codes "connection") then connection else other

-- With the header that is needed, and the body.
unfoldable pub finish_request : Text → Text → Bool × HttpRequest → HttpRequest
finish_request host body (has_host, req) =
    record (if has_host then req else set_header (codes "Host") host req) { body = body }

-- The request that `HttpConnection::DoRequest` makes.
unfoldable pub uri_request : HttpMethod → Uri → List (Text × Text) → Text → HttpRequest
unfolding finish_request add_headers new_http_request get_path
uri_request method uri headers body = finish_request uri.host body (
    add_headers headers false (record (new_http_request 17 true) {
      path = get_path uri;
      query = uri.query;
      fragment = uri.fragment;
      method = method;
    }))

-- The request that `HttpConnectionPool::doRequest` makes.
unfoldable pub pool_request :
    HttpMethod → (host vhost : Text) → Text → List (Text × Text) → Text → HttpRequest
unfolding finish_request add_headers new_http_request
pool_request method host vhost url headers body =
    finish_request (if is_text_empty vhost then host else vhost) body (
      add_headers headers false
        (record (new_http_request 17 true) { path = url; method = method; close = false }))

-- The url that the pool makes of a Uri.
unfoldable pub uri_text : Uri → Text
unfolding get_path
uri_text uri =
    get_path uri
    ++ ((if is_text_empty uri.query then [] else codes "?")
        ++ (uri.query ++ ((if is_text_empty uri.fragment then [] else codes "#") ++ uri.fragment)))

-- What a request does outside, over a state `S`; `A` are addresses and `K` connections.
pub record Net (S A K : Type 0) : Type 0 where
  pub create_address : Uri → S → Option A × S
  pub create_socket : (is_ssl : Bool) → A → S → Option K × S
  pub connect_to : K → A → S → Bool × S
  pub set_recv_timeout : K → ℕ → S → S
  pub send_request : K → HttpRequest → S → ℤ × S
  pub receive : K → S → Option HttpResponse × S
  pub address_text : A → Text
  pub port_text : ℕ → Text
  pub system_error : S → Text

module _ {S A K : Type 0} (net : Net S A K) where
  -- From `sendRequest` on; `peer` is the text of the address.
  unfoldable pub exchange : K → Text → HttpRequest → ℕ → S → HttpResult × S
  exchange sock peer req timeout_ms s =
      let (rt, s₁) = net.send_request sock req s in
      let (rsp, s₂) = net.receive sock s₁ in
      elim rt [
        | negsuc n ↦ (
          failed_with send_socket_error
              (codes "send request socket error errno=" ++ net.system_error s₁),
          s₁,
        )
        | pos n ↦
            if n == 0
            then (
              failed_with send_close_by_peer (codes "send request closed by peer: " ++ peer),
              s₁,
            )
            else elim rsp [
              | none ↦ (
                failed_with timeout (
                    codes "recv response timeout: "
                    ++ (peer ++ (codes " timeout_ms:" ++ net.port_text timeout_ms))),
                s₂,
              )
              | some r ↦ (record { result = ok; response = some r; error = codes "ok" }, s₂)
            ]
      ]

  unfoldable pub do_request : HttpRequest → Uri → ℕ → S → HttpResult × S
  unfolding exchange
  do_request req uri timeout_ms s =
      let (addr, s₁) = net.create_address uri s in
      elim addr [
        | none ↦ (failed_with invalid_host (codes "invalid host: " ++ uri.host), s₁)
        | some a ↦
            let (sock, s₂) = net.create_socket (text_eq uri.scheme (codes "https")) a s₁ in
            elim sock [
              | none ↦ (
                failed_with create_socket_error (
                    codes "create socket fail: "
                    ++ (net.address_text a ++ (codes " errno=" ++ net.system_error s₂))),
                s₂,
              )
              | some k ↦
                  let (connected, s₃) = net.connect_to k a s₂ in
                  if connected
                  then exchange k (net.address_text a) req timeout_ms
                      (net.set_recv_timeout k timeout_ms s₃)
                  else (failed_with connect_fail (codes "connect fail: " ++ net.address_text a), s₃)
            ]
      ]

  -- The variants from a text; `parse_uri` is `Uri::Create`.
  unfoldable pub do_request_text :
      (Text → Option Uri) → HttpMethod → Text → ℕ → List (Text × Text) → Text → S → HttpResult × S
  unfolding do_request uri_request
  do_request_text parse_uri method url timeout_ms headers body s = elim (parse_uri url) [
    | none ↦ (failed_with invalid_url (codes "invalid url: " ++ url), s)
    | some uri ↦ do_request (uri_request method uri headers body) uri timeout_ms s
  ]

  unfoldable pub do_get :
      (Text → Option Uri) → Text → ℕ → List (Text × Text) → Text → S → HttpResult × S
  unfolding do_request_text
  do_get parse_uri url timeout_ms headers body s =
      do_request_text parse_uri get url timeout_ms headers body s

  unfoldable pub do_post :
      (Text → Option Uri) → Text → ℕ → List (Text × Text) → Text → S → HttpResult × S
  unfolding do_request_text
  do_post parse_uri url timeout_ms headers body s =
      do_request_text parse_uri post url timeout_ms headers body s

  -- The pool's; `get_connection` is the pool's, `sock` the socket of a connection.
  unfoldable pub do_pool_request :
      (get_connection : S → Option K × S)
      → (has_socket : K → Bool) → (peer : K → Text) → (host : Text) → (port : ℕ) → HttpRequest
      → ℕ
      → S
      → HttpResult × S
  unfolding exchange
  do_pool_request get_connection has_socket peer host port req timeout_ms s =
      let (conn, s₁) = get_connection s in
      let where_to = codes "pool host:" ++ (host ++ (codes " port:" ++ net.port_text port)) in
      elim conn [
        | none ↦ (failed_with pool_get_connection where_to, s₁)
        | some k ↦
            if has_socket k
            then exchange k (peer k) req timeout_ms (net.set_recv_timeout k timeout_ms s₁)
            else (failed_with pool_invalid_connection where_to, s₁)
      ]
