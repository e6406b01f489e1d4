-- ===== src/Http.antt =====
-- The messages of yuyu/http/http.h and yuyu/http/http.cc: the methods and statuses here, the maps
-- of headers, parameters and cookies, the parsing of parameters and the printing below. A string is
-- the list of its bytes. A status is its number, since any int may be cast to HttpStatus.
pub mod Methods
pub mod Fields
pub mod Lookup
pub mod Params
pub mod Message
pub mod Parser
mod Tests
use Prim.Native.Char.{code}
use Prim.Native.String.{String}
use yuyu.Common.{
  ℕ, ◌-◌, ◌<◌, ap, Bool, true, false, not, ◌&&◌, none, some, List, [], ◌∷◌, map, ◌==◌,
  if◌then◌else◌, get_elem?, set, All,
}

abbrev pub Text : Type 0
Text = List ℕ

-- The bytes of a literal.
abbrev pub codes : String → Text
codes String.[] = []
codes (String.◌∷◌ c s) = code c ∷ codes s

pub data HttpMethod : Type 0 where
  delete get head post put connect : HttpMethod
  options trace copy lock mkcol move : HttpMethod
  propfind proppatch search unlock bind rebind : HttpMethod
  unbind acl report mkactivity checkout merge : HttpMethod
  msearch notify subscribe unsubscribe patch purge : HttpMethod
  mkcalendar link unlink source invalid_method : HttpMethod

-- HTTP_METHOD_MAP, in its order.
abbrev pub method_map : List (HttpMethod × Text)
method_map =
    (delete, codes "DELETE")
    ∷ (get, codes "GET")
    ∷ (head, codes "HEAD")
    ∷ (post, codes "POST")
    ∷ (put, codes "PUT")
    ∷ (connect, codes "CONNECT")
    ∷ (options, codes "OPTIONS")
    ∷ (trace, codes "TRACE")
    ∷ (copy, codes "COPY")
    ∷ (lock, codes "LOCK")
    ∷ (mkcol, codes "MKCOL")
    ∷ (move, codes "MOVE")
    ∷ (propfind, codes "PROPFIND")
    ∷ (proppatch, codes "PROPPATCH")
    ∷ (search, codes "SEARCH")
    ∷ (unlock, codes "UNLOCK")
    ∷ (bind, codes "BIND")
    ∷ (rebind, codes "REBIND")
    ∷ (unbind, codes "UNBIND")
    ∷ (acl, codes "ACL")
    ∷ (report, codes "REPORT")
    ∷ (mkactivity, codes "MKACTIVITY")
    ∷ (checkout, codes "CHECKOUT")
    ∷ (merge, codes "MERGE")
    ∷ (msearch, codes "M-SEARCH")
    ∷ (notify, codes "NOTIFY")
    ∷ (subscribe, codes "SUBSCRIBE")
    ∷ (unsubscribe, codes "UNSUBSCRIBE")
    ∷ (patch, codes "PATCH")
    ∷ (purge, codes "PURGE")
    ∷ (mkcalendar, codes "MKCALENDAR")
    ∷ (link, codes "LINK")
    ∷ (unlink, codes "UNLINK")
    ∷ (source, codes "SOURCE")
    ∷ []

-- The number of a method. That of INVALID_METHOD follows the last one.
unfoldable pub number : HttpMethod → ℕ
number delete = 0
number get = 1
number head = 2
number post = 3
number put = 4
number connect = 5
number options = 6
number trace = 7
number copy = 8
number lock = 9
number mkcol = 10
number move = 11
number propfind = 12
number proppatch = 13
number search = 14
number unlock = 15
number bind = 16
number rebind = 17
number unbind = 18
number acl = 19
number report = 20
number mkactivity = 21
number checkout = 22
number merge = 23
number msearch = 24
number notify = 25
number subscribe = 26
number unsubscribe = 27
number patch = 28
number purge = 29
number mkcalendar = 30
number link = 31
number unlink = 32
number source = 33
number invalid_method = 34

-- What `c_str` shows of a string: the bytes up to a zero byte.
abbrev pub c_str : Text → Text
c_str [] = []
c_str (c ∷ s) = if c == 0 then [] else c ∷ c_str s

-- `strcmp` as an equality test.
abbrev pub text_eq : Text → Text → Bool
text_eq [] [] = true
text_eq (c ∷ s) (d ∷ t) = (c == d) && text_eq s t
text_eq _ _ = false

-- `strncmp(prefix, m, strlen(prefix)) == 0`
abbrev pub has_prefix : Text → Text → Bool
has_prefix [] m = true
has_prefix (c ∷ prefix) [] = false
has_prefix (c ∷ prefix) (d ∷ m) = (c == d) && has_prefix prefix m

-- The chain of tests that a macro over the map expands to.
abbrev pub find_method : (Text → Bool) → List (HttpMethod × Text) → HttpMethod
find_method test [] = invalid_method
find_method test ((m, name) ∷ more) = if test name then m else find_method test more

unfoldable pub string_to_http_method : Text → HttpMethod
string_to_http_method m = find_method (λ name. text_eq name (c_str m)) method_map

unfoldable pub chars_to_http_method : Text → HttpMethod
chars_to_http_method m = find_method (λ name. has_prefix name m) method_map

unfoldable pub http_method_to_string : HttpMethod → Text
unfolding number
http_method_to_string m = elim (get_elem? method_map (number m)) [
  | none ↦ codes "<unknown>"
  | some (_, name) ↦ name
]

-- HTTP_STATUS_MAP: the number of a status and its reason.
abbrev pub status_map : List (ℕ × Text)
status_map =
    (100, codes "Continue")
    ∷ (101, codes "Switching Protocols")
    ∷ (102, codes "Processing")
    ∷ (200, codes "OK")
    ∷ (201, codes "Created")
    ∷ (202, codes "Accepted")
    ∷ (203, codes "Non-Authoritative Information")
    ∷ (204, codes "No Content")
    ∷ (205, codes "Reset Content")
    ∷ (206, codes "Partial Content")
    ∷ (207, codes "Multi-Status")
    ∷ (208, codes "Already Reported")
    ∷ (226, codes "IM Used")
    ∷ (300, codes "Multiple Choices")
    ∷ (301, codes "Moved Permanently")
    ∷ (302, codes "Found")
    ∷ (303, codes "See Other")
    ∷ (304, codes "Not Modified")
    ∷ (305, codes "Use Proxy")
    ∷ (307, codes "Temporary Redirect")
    ∷ (308, codes "Permanent Redirect")
    ∷ (400, codes "Bad Request")
    ∷ (401, codes "Unauthorized")
    ∷ (402, codes "Payment Required")
    ∷ (403, codes "Forbidden")
    ∷ (404, codes "Not Found")
    ∷ (405, codes "Method Not Allowed")
    ∷ (406, codes "Not Acceptable")
    ∷ (407, codes "Proxy Authentication Required")
    ∷ (408, codes "Request Timeout")
    ∷ (409, codes "Conflict")
    ∷ (410, codes "Gone")
    ∷ (411, codes "Length Required")
    ∷ (412, codes "Precondition Failed")
    ∷ (413, codes "Payload Too Large")
    ∷ (414, codes "URI Too Long")
    ∷ (415, codes "Unsupported Media Type")
    ∷ (416, codes "Range Not Satisfiable")
    ∷ (417, codes "Expectation Failed")
    ∷ (421, codes "Misdirected Request")
    ∷ (422, codes "Unprocessable Entity")
    ∷ (423, codes "Locked")
    ∷ (424, codes "Failed Dependency")
    ∷ (426, codes "Upgrade Required")
    ∷ (428, codes "Precondition Required")
    ∷ (429, codes "Too Many Requests")
    ∷ (431, codes "Request Header Fields Too Large")
    ∷ (451, codes "Unavailable For Legal Reasons")
    ∷ (500, codes "Internal Server Error")
    ∷ (501, codes "Not Implemented")
    ∷ (502, codes "Bad Gateway")
    ∷ (503, codes "Service Unavailable")
    ∷ (504, codes "Gateway Timeout")
    ∷ (505, codes "HTTP Version Not Supported")
    ∷ (506, codes "Variant Also Negotiates")
    ∷ (507, codes "Insufficient Storage")
    ∷ (508, codes "Loop Detected")
    ∷ (510, codes "Not Extended")
    ∷ (511, codes "Network Authentication Required")
    ∷ []

abbrev pub find_status : ℕ → List (ℕ × Text) → Text
find_status s [] = codes "<unknown>"
find_status s ((number, reason) ∷ more) = if number == s then reason else find_status s more

unfoldable pub http_status_to_string : ℕ → Text
http_status_to_string s = find_status s status_map
