-- ===== src/HttpClient/Tests.antt =====
-- Runs of yuyu/http/http_connection.cc.
use yuyu.Common.{
  ℕ, zero, suc, ◌-◌, ◌≡◌, refl, true, false, Option, none, some, List, [], ◌∷◌, ◌==◌, if◌then◌else◌,
}
use yuyu.Common.Int.{pos}
use yuyu.Stream.{Reader}
use yuyu.Http.{Text, codes}
use yuyu.Http.Message.{HttpResponse, new_http_response, response_set_header, response_get_header}
use yuyu.HttpSession.{parse_buffer, recv_head}
use yuyu.HttpClient.{
  set_decoded, decode, ChunkParser, Zlib, recv_response, recv_chunk_head, take_chunk, read_left,
}
use yuyu.Http.Fields.{strcasecmp, find_key, assign_key}
use yuyu.Http.{get}
use yuyu.HttpClient.Requests.{Uri, uri_request}
use yuyu.HttpClient.Hosts.{uri_request-headers}

-- A stream that gives a byte at a time.
abbrev drip : Reader Text
drip zero s = ((pos 0, []), s)
drip (suc k) [] = ((pos 0, []), [])
drip (suc k) (x ∷ xs) = ((pos 1, x ∷ []), xs)

abbrev to_dot : Text → ℕ
to_dot [] = 0
to_dot (c ∷ s) = if c == 46 then 1 else suc (to_dot s)

abbrev ends_in_dot : Text → Option ℕ
ends_in_dot [] = none
ends_in_dot (c ∷ s) = if c == 46 then some 0 else ends_in_dot s

abbrev digit : Text → Option ℕ × ℕ
digit [] = (none, 0)
digit (c ∷ s) = (some (c - 48), 1)

abbrev number : Option ℕ → ℕ
number none = 0
number (some n) = n

-- A header that ends with a dot, and chunks whose head is a digit.
abbrev dotted : ChunkParser (Option ℕ)
dotted = record {
  header = record {
    start = none;
    execute = λ p buffer. (ends_in_dot buffer, to_dot buffer);
    has_error = λ p. false;
    is_finished = λ p. elim p [ none ↦ false | some n ↦ true ];
    get_content_length = λ p. 0;
    get_data = λ p.
        response_set_header (codes "Content-Encoding") (codes "GZIP") (new_http_response 17 true);
  };
  execute_chunk = λ p buffer. digit buffer;
  chunked = λ p. true;
  content_len = number;
  chunks_done = λ p. number p == 0;
}

-- A decoder that marks what it gets.
abbrev marking : Zlib
marking = record { gzip = λ body. 42 ∷ body; deflate = λ body. body }

abbrev wire : Text
wire = codes "ab.3xyz##2uv##0##!"

abbrev body_of : Option (Option HttpResponse × Text) → Option (Text × Text)
body_of none = none
body_of (some (none, s)) = none
body_of (some (some rsp, s)) = some (rsp.body, s)

chunks_joined :
    body_of (recv_response drip dotted 64 marking 40 wire) ≡ some (codes "*xyzuv", codes "!")
unfolding recv_response new_http_response response_set_header set_decoded decode response_get_header
    recv_head parse_buffer recv_chunk_head take_chunk read_left strcasecmp find_key assign_key
chunks_joined = refl

abbrev uri : Uri
uri = record {
  scheme = codes "http";
  host = codes "a.b";
  path = [];
  query = [];
  fragment = [];
  port = 0;
}

abbrev headers : List (Text × Text)
headers =
    (codes "Connection", codes "Keep-Alive") ∷ (codes "HOST", []) ∷ (codes "x", codes "y") ∷ []

uri_request-headers_example :
    (find_key (codes "Host") (uri_request get uri headers []).headers ≡ some (codes "a.b"))
    × (find_key (codes "Connection") (uri_request get uri headers []).headers ≡ none)
    × ((uri_request get uri headers []).close ≡ false)
unfolding strcasecmp
uri_request-headers_example = uri_request-headers get uri headers []
