-- ===== src/HttpSession.antt =====
-- yuyu/http/http_session.cc and the loop of yuyu/http/http_server.cc, over the virtual `read` of the
-- stream and the generated parser, which are arguments.
pub mod Receiving
mod Tests
use yuyu.Common.Int.{ℤ, pos, negsuc, signed}
use yuyu.Stream.{Reader, read_fix_size}
use yuyu.Http.{Text, codes}
use yuyu.Http.Message.{HttpRequest, HttpResponse, init, new_http_response, response_set_header}
use yuyu.Common.{
  ℕ, zero, suc, ◌+◌, ◌-◌, ◌⊎◌, inl, inr, Bool, true, not, ◌||◌, Option, none, some, List, [], ◌∷◌,
  ◌++◌, leb, ◌==◌, if◌then◌else◌, length, set, take, drop,
}

-- HttpRequestParser, or HttpResponseParser: `execute` returns how many bytes it has used, and the
-- parser has called the callbacks for them.
pub record Parser (P D : Type 0) : Type 0 where
  pub start : P
  pub execute : P → Text → P × ℕ
  pub has_error : P → Bool
  pub is_finished : P → Bool
  pub get_content_length : P → ℕ
  pub get_data : P → D

-- The session is closed and no request returned, or the header is there with the bytes behind it.
pub data Head (P : Type 0) : Type 0 where
  closed : Head P
  received : P → Text → Head P

-- A length from `read` that is not positive.
abbrev pub is_end : ℤ → Bool
is_end (negsuc k) = true
is_end (pos n) = n == 0

module _ {S P D : Type 0} (read : Reader S) (parser : Parser P D) (buff_size : ℕ) where
  -- What a round makes of the buffer: `inl` ends the loop.
  unfoldable pub parse_buffer : P → Text → Head P ⊎ (P × Text)
  parse_buffer p buffer =
      let (p', nparse) = parser.execute p buffer in
      let pending = drop nparse buffer in
      if parser.has_error p'
      then inl closed
      else if length pending == buff_size
      then inl closed
      else if parser.is_finished p'
      then inl (received p' pending)
      else inr (p', pending)

  -- The loop for the header with the unparsed bytes `pending`; `none` is the end of the fuel.
  unfoldable pub recv_head : ℕ → P → Text → S → Option (Head P × S)
  recv_head zero p pending s = none
  recv_head (suc fuel) p pending s =
      let ((len, bytes), s') = read (buff_size - length pending) s in
      if is_end len then some (closed, s') else elim (parse_buffer p (pending ++ bytes)) [
        | inl head ↦ some (head, s')
        | inr (p', pending') ↦ recv_head fuel p' pending' s'
      ]

  -- The body of `content_length` bytes, from the bytes behind the header and the stream; the inner
  -- `none` closes the session.
  pub recv_body : ℕ → Text → S → Option (Option Text × S)
  recv_body content_length pending s =
      if leb content_length (length pending)
      then some (some (take content_length pending), s)
      else elim (read_fix_size read (content_length - length pending) s) [
        | none ↦ none
        | some (result, (bytes, s')) ↦
            if is_end result then some (none, s') else some (some (pending ++ bytes), s')
      ]

  -- The content length becomes an int64_t.
  abbrev pub has_body : P → Bool
  has_body p = not (is_end (signed 64 (parser.get_content_length p)))

module _ {S P : Type 0} (read : Reader S) (parser : Parser P HttpRequest) (buff_size : ℕ) where
  abbrev pub with_body : P → Option Text → Option HttpRequest
  with_body p none = none
  with_body p (some body) = some (init (record (parser.get_data p) { body = body }))

  -- From the end of the loop on.
  unfoldable pub behind_head : Option (Head P × S) → Option (Option HttpRequest × S)
  behind_head none = none
  behind_head (some (closed, s')) = some (none, s')
  behind_head (some (received p pending, s')) =
      if has_body read parser buff_size p
      then elim (recv_body read parser buff_size (parser.get_content_length p) pending s') [
        | none ↦ none
        | some (body, s'') ↦ some (with_body p body, s'')
      ]
      else some (some (init (parser.get_data p)), s')

  unfoldable pub recv_request : ℕ → S → Option (Option HttpRequest × S)
  unfolding recv_head behind_head
  recv_request fuel s = behind_head (recv_head read parser buff_size fuel parser.start [] s)

-- `handleClient`: `recv` is recvRequest, `handle` the dispatch, which gets the request and the
-- response by pointer, `send` is sendResponse and `close` is that of the session.
module _ {S : Type 0} (recv : S → Option HttpRequest × S)
    (handle : HttpRequest → HttpResponse → S → HttpRequest × (HttpResponse × S))
    (send : HttpResponse → S → S) (close : S → S) (is_keepalive : Bool) (name : Text) where
  unfoldable pub first_response : HttpRequest → HttpResponse
  first_response req =
      response_set_header (codes "Server") name
        (new_http_response req.version (req.close || not is_keepalive))

  -- The loop, with the requests that were handled, as the servlet left them. It runs as long as the
  -- client sends requests; the number counts rounds, and `none` is where it is used up.
  unfoldable pub serve_requests : ℕ → S → Option (List HttpRequest × S)
  serve_requests zero s = none
  serve_requests (suc fuel) s =
      let (request, s') = recv s in
      elim request [
        | none ↦ some ([], s')
        | some req ↦
            let (req', (rsp, s'')) = handle req (first_response req) s' in
            let s₃ = send rsp s'' in
            if not is_keepalive || req'.close
            then some (req' ∷ [], s₃)
            else elim (serve_requests fuel s₃) [
              | none ↦ none
              | some (more, s₄) ↦ some (req' ∷ more, s₄)
            ]
      ]

  unfoldable pub handle_client : ℕ → S → Option (List HttpRequest × S)
  unfolding serve_requests
  handle_client fuel s = elim (serve_requests fuel s) [
    | none ↦ none
    | some (log, s') ↦ some (log, close s')
  ]
