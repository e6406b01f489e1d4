-- ===== src/Http/Message.antt =====
-- `HttpRequest` and `HttpResponse` of yuyu/http/http.cc. The three bits of m_parserParamFlag are three
-- flags. `Time2Str` is an argument; it returns the text that strftime makes.
pub mod Requests
use yuyu.Text.{trim}
use yuyu.Http.{
  Text, c_str, codes, HttpMethod, get, http_method_to_string, http_status_to_string, has_prefix,
}
use yuyu.Http.Fields.{
  Order, same, strcasecmp, to_lower, MapType, find_key, assign_key, erase_key, or_default,
}
use yuyu.Http.Params.{parse_param}
use yuyu.Common.{
  ℕ, zero, suc, ◌+◌, ◌-◌, ◌/◌, ◌%◌, ap, Bool, true, false, not, ◌&&◌, ◌||◌, Option, List, [], ◌∷◌,
  ◌++◌, map, ltb, if◌then◌else◌, length, set,
}

pub record HttpRequest : Type 0 where
  pub method : HttpMethod
  pub version : ℕ  -- uint8_t
  pub close : Bool
  pub websocket : Bool
  pub query_parsed : Bool
  pub body_parsed : Bool
  pub cookies_parsed : Bool
  pub path : Text
  pub query : Text
  pub fragment : Text
  pub body : Text
  pub headers : MapType
  pub params : MapType
  pub cookies : MapType

pub record HttpResponse : Type 0 where
  pub status : ℕ
  pub version : ℕ  -- uint8_t
  pub close : Bool
  pub websocket : Bool
  pub body : Text
  pub reason : Text
  pub headers : MapType
  pub cookies : List Text

unfoldable pub new_http_request : ℕ → Bool → HttpRequest
new_http_request version close = record {
  method = get;
  version = version;
  close = close;
  websocket = false;
  query_parsed = false;
  body_parsed = false;
  cookies_parsed = false;
  path = codes "/";
  query = [];
  fragment = [];
  body = [];
  headers = [];
  params = [];
  cookies = [];
}

unfoldable pub new_http_response : ℕ → Bool → HttpResponse
new_http_response version close = record {
  status = 200;
  version = version;
  close = close;
  websocket = false;
  body = [];
  reason = [];
  headers = [];
  cookies = [];
}

unfoldable pub create_response : HttpRequest → HttpResponse
unfolding new_http_response
create_response r = new_http_response r.version r.close

unfoldable pub get_header : Text → Text → HttpRequest → Text
get_header key def r = or_default def (find_key key r.headers)

unfoldable pub set_header : Text → Text → HttpRequest → HttpRequest
set_header key val r = record r { headers = assign_key key val r.headers }

unfoldable pub del_header : Text → HttpRequest → HttpRequest
del_header key r = record r { headers = erase_key key r.headers }

-- With the value that is stored through the pointer, if there is a header.
unfoldable pub has_header : Text → HttpRequest → Option Text
has_header key r = find_key key r.headers

abbrev pub is_text_empty : Text → Bool
is_text_empty [] = true
is_text_empty (c ∷ s) = false

unfoldable pub init_query_param : HttpRequest → HttpRequest
init_query_param r =
    if r.query_parsed
    then r
    else record r { params = parse_param 38 (λ s. s) r.query r.params; query_parsed = true }

-- `strcasestr(str, part) != nullptr`
unfoldable pub strcasestr : Text → Text → Bool
strcasestr [] part = has_prefix (map to_lower part) []
strcasestr (c ∷ s) part = has_prefix (map to_lower part) (map to_lower (c ∷ s)) || strcasestr s part

unfoldable pub init_body_param : HttpRequest → HttpRequest
unfolding get_header strcasestr
init_body_param r =
    if r.body_parsed
    then r
    else if not (
        strcasestr (c_str (get_header (codes "content-type") [] r))
          (codes "application/x-www-form-urlencoded"))
    then record r { body_parsed = true }
    else record r { params = parse_param 38 (λ s. s) r.body r.params; body_parsed = true }

-- The default delimiters of `Trim`.
abbrev pub blanks : Text
blanks = codes " \t\r\n"

unfoldable pub init_cookies : HttpRequest → HttpRequest
unfolding get_header
init_cookies r =
    let cookie = get_header (codes "cookie") [] r in
    if r.cookies_parsed
    then r
    else if is_text_empty cookie
    then record r { cookies_parsed = true }
    else record r {
      cookies = parse_param 59 (λ s. trim s blanks) cookie r.cookies;
      cookies_parsed = true;
    }

unfoldable pub init_param : HttpRequest → HttpRequest
unfolding init_query_param init_body_param init_cookies
init_param r = init_cookies (init_body_param (init_query_param r))

unfoldable pub get_param : Text → Text → HttpRequest → Text × HttpRequest
unfolding init_query_param init_body_param
get_param key def r =
    let r' = init_body_param (init_query_param r) in (or_default def (find_key key r'.params), r')

unfoldable pub has_param : Text → HttpRequest → Option Text × HttpRequest
unfolding init_query_param init_body_param
has_param key r = let r' = init_body_param (init_query_param r) in (find_key key r'.params, r')

unfoldable pub set_param : Text → Text → HttpRequest → HttpRequest
set_param key val r = record r { params = assign_key key val r.params }

unfoldable pub del_param : Text → HttpRequest → HttpRequest
del_param key r = record r { params = erase_key key r.params }

unfoldable pub get_cookie : Text → Text → HttpRequest → Text × HttpRequest
unfolding init_cookies
get_cookie key def r = let r' = init_cookies r in (or_default def (find_key key r'.cookies), r')

unfoldable pub has_cookie : Text → HttpRequest → Option Text × HttpRequest
unfolding init_cookies
has_cookie key r = let r' = init_cookies r in (find_key key r'.cookies, r')

unfoldable pub set_cookie : Text → Text → HttpRequest → HttpRequest
set_cookie key val r = record r { cookies = assign_key key val r.cookies }

unfoldable pub del_cookie : Text → HttpRequest → HttpRequest
del_cookie key r = record r { cookies = erase_key key r.cookies }

abbrev pub is_same : Order → Bool
is_same same = true
is_same _ = false

-- `init`: the header decides whether the connection is closed, if there is one.
unfoldable pub init : HttpRequest → HttpRequest
unfolding get_header
init r =
    let conn = get_header (codes "connection") [] r in
    if is_text_empty conn
    then r
    else record r { close = not (is_same (strcasecmp conn (codes "keep-alive"))) }

-- A number in decimal digits.
abbrev pub digits : ℕ → ℕ → Text
digits zero n = []
digits (suc fuel) n =
    let front = digits fuel (n / 10) in
    if ltb n 10 then (48 + n) ∷ [] else front ++ ((48 + n % 10) ∷ [])

unfoldable pub decimal : ℕ → Text
decimal n = digits (suc n) n

abbrev pub crlf : Text
crlf = 13 ∷ 10 ∷ []

abbrev pub connection_line : Bool → Text
connection_line close =
    codes "connection: " ++ (if close then codes "close" else codes "keep-alive") ++ crlf

-- The lines of the headers, without that of the connection.
unfoldable pub dump_headers : Bool → MapType → Text
dump_headers websocket [] = []
dump_headers websocket ((key, val) ∷ more) =
    let rest = dump_headers websocket more in
    if not websocket && is_same (strcasecmp key (codes "connection"))
    then rest
    else key ++ codes ": " ++ val ++ crlf ++ rest

unfoldable pub dump_body : Text → Text
unfolding decimal
dump_body body =
    if is_text_empty body
    then crlf
    else codes "content-length: " ++ decimal (length body) ++ crlf ++ crlf ++ body

unfoldable pub dump_version : ℕ → Text
unfolding decimal
dump_version version =
    codes "HTTP/" ++ decimal (version / 16) ++ codes "." ++ decimal (version % 16)

unfoldable pub dump_request : HttpRequest → Text
unfolding dump_headers dump_body dump_version
dump_request r =
    http_method_to_string r.method
    ++ codes " "
    ++ r.path
    ++ (if is_text_empty r.query then [] else codes "?")
    ++ r.query
    ++ (if is_text_empty r.fragment then [] else codes "#")
    ++ r.fragment
    ++ codes " "
    ++ dump_version r.version
    ++ crlf
    ++ (if r.websocket then [] else connection_line r.close)
    ++ dump_headers r.websocket r.headers
    ++ dump_body r.body

unfoldable pub dump_cookies : List Text → Text
dump_cookies [] = []
dump_cookies (cookie ∷ more) = codes "Set-Cookie: " ++ cookie ++ crlf ++ dump_cookies more

unfoldable pub dump_response : HttpResponse → Text
unfolding dump_headers dump_body dump_version dump_cookies
dump_response r =
    dump_version r.version
    ++ codes " "
    ++ decimal r.status
    ++ codes " "
    ++ (if is_text_empty r.reason then http_status_to_string r.status else r.reason)
    ++ crlf
    ++ dump_headers r.websocket r.headers
    ++ dump_cookies r.cookies
    ++ (if r.websocket then [] else connection_line r.close)
    ++ dump_body r.body

unfoldable pub response_get_header : Text → Text → HttpResponse → Text
response_get_header key def r = or_default def (find_key key r.headers)

unfoldable pub response_set_header : Text → Text → HttpResponse → HttpResponse
response_set_header key val r = record r { headers = assign_key key val r.headers }

unfoldable pub response_del_header : Text → HttpResponse → HttpResponse
response_del_header key r = record r { headers = erase_key key r.headers }

unfoldable pub set_redirect : Text → HttpResponse → HttpResponse
unfolding response_set_header
set_redirect uri r = response_set_header (codes "Location") uri (record r { status = 302 })

abbrev pub when_set : Text → Text → Text
when_set name [] = []
when_set name (c ∷ s) = name ++ (c ∷ s)

-- The text of a cookie.
unfoldable pub cookie_text : (time2str : ℕ → Text) → Text → Text → ℕ → Text → Text → Bool → Text
cookie_text time2str key val expired path domain secure =
    key
    ++ codes "="
    ++ val
    ++ (if ltb 0 expired then codes ";expires=" ++ time2str expired ++ codes " GMT" else [])
    ++ when_set (codes ";domain=") domain
    ++ when_set (codes ";path=") path
    ++ (if secure then codes ";secure" else [])

unfoldable pub response_set_cookie :
    (time2str : ℕ → Text) → Text → Text → ℕ → Text → Text → Bool → HttpResponse → HttpResponse
unfolding cookie_text
response_set_cookie time2str key val expired path domain secure r = record r {
  cookies = r.cookies ++ (cookie_text time2str key val expired path domain secure ∷ []);
}
