-- ===== src/HttpClient.antt =====
-- The responses of yuyu/http/http_connection.cc: recvResponse over the virtual `read` of the stream
-- and the generated parser, which are arguments, as are the decoders of zlib.
pub mod Chunks
pub mod Missing
pub mod Data
pub mod Joining
pub mod Receiving
pub mod Requests
pub mod Hosts
mod Tests
use yuyu.Common.{
  ℕ, zero, suc, ◌+◌, ◌-◌, inl, inr, Bool, true, false, not, ◌||◌, Option, none, some, [], ◌∷◌, ◌++◌,
  ltb, leb, ◌==◌, if◌then◌else◌, length, set, take, drop,
}
use yuyu.Stream.{Reader, size}
use yuyu.Http.{Text, codes}
use yuyu.Http.Fields.{Order, same, strcasecmp}
use yuyu.Http.Message.{HttpResponse, response_get_header}
use yuyu.HttpSession.{
  Parser, Head, closed, received, is_end, parse_buffer, recv_head, recv_body, has_body,
}

-- HttpResponseParser. `header` is the parser of the header, and `execute_chunk` is `execute` with
-- `chunck`, which begins with the parser set back. The other three are fields of `getParser()`, of
-- which `content_len` is an int that is not negative.
pub record ChunkParser (P : Type 0) : Type 0 where
  pub header : Parser P HttpResponse
  pub execute_chunk : P → Text → P × ℕ
  pub chunked : P → Bool
  pub content_len : P → ℕ
  pub chunks_done : P → Bool

-- The same parser in the loop over the chunks.
abbrev pub chunk_head : {P : Type 0} → ChunkParser P → Parser P HttpResponse
chunk_head parser = record parser.header { execute = parser.execute_chunk }

-- `left > buff_size ? buff_size : left`
abbrev pub at_most : ℕ → ℕ → ℕ
at_most buff_size left = if ltb buff_size left then buff_size else left

abbrev pub prepend_bytes : {S : Type 0} → Text → Option (Option Text × S) → Option (Option Text × S)
prepend_bytes bytes none = none
prepend_bytes bytes (some (none, s)) = some (none, s)
prepend_bytes bytes (some (some more, s)) = some (some (bytes ++ more), s)

-- `body.resize(body.size() - 2)`
abbrev pub without_two : Text → Text
without_two body = take (length body - 2) body

-- The decoders: what gzip and deflate make of a body.
pub record Zlib : Type 0 where
  pub gzip : Text → Text
  pub deflate : Text → Text

abbrev pub is_same : Order → Bool
is_same same = true
is_same _ = false

unfoldable pub decode : Zlib → Text → Text → Text
decode zlib content_encoding body =
    if is_same (strcasecmp content_encoding (codes "gzip"))
    then zlib.gzip body
    else if is_same (strcasecmp content_encoding (codes "deflate"))
    then zlib.deflate body
    else body

-- The body of the response, where there is one.
unfoldable pub set_decoded : Zlib → Text → HttpResponse → HttpResponse
unfolding decode
set_decoded zlib [] rsp = rsp
set_decoded zlib (c ∷ body) rsp = record rsp {
  body = decode zlib (response_get_header (codes "content-encoding") [] rsp) (c ∷ body);
}

module _ {S P : Type 0} (read : Reader S) (parser : ChunkParser P) (buff_size : ℕ) where
  -- The inner loop, for the head of a chunk. It reads before it parses, but for the first time when
  -- bytes are waiting.
  pub recv_chunk_head : ℕ → Bool → P → Text → S → Option (Head P × S)
  recv_chunk_head zero begin p pending s = none
  recv_chunk_head (suc fuel) begin p pending s =
      let ((rt, bytes), s') = read (buff_size - length pending) s in
      elim (not begin || (length pending == 0)) [
        | true ↦
            if is_end rt
            then some (closed, s')
            else elim (parse_buffer read (chunk_head parser) buff_size p (pending ++ bytes)) [
              | inl head ↦ some (head, s')
              | inr (p', pending') ↦ recv_chunk_head fuel false p' pending' s'
            ]
        | false ↦ elim (parse_buffer read (chunk_head parser) buff_size p pending) [
          | inl head ↦ some (head, s)
          | inr (p', pending') ↦ recv_chunk_head fuel false p' pending' s
        ]
      ]

  -- The loop for the `left` bytes of a chunk that are not in the buffer; the inner `none` closes the
  -- connection.
  pub read_left : ℕ → ℕ → S → Option (Option Text × S)
  read_left zero left s = none
  read_left (suc fuel) left s =
      let ((rt, bytes), s') = read (at_most buff_size left) s in
      let rest = read_left fuel (left - size rt) s' in
      if left == 0
      then some (some [], s)
      else if is_end rt
      then some (none, s')
      else prepend_bytes bytes rest

  -- The data of a chunk and the two bytes behind it: the body with it, and what stays in the buffer.
  pub take_chunk : ℕ → ℕ → Text → Text → S → Option (Option (Text × Text) × S)
  take_chunk fuel content_len body pending s =
      if leb (content_len + 2) (length pending)
      then some (some (body ++ take content_len pending, drop (content_len + 2) pending), s)
      else elim (read_left fuel (content_len + 2 - length pending) s) [
        | none ↦ none
        | some (none, s') ↦ some (none, s')
        | some (some bytes, s') ↦ some (some (without_two (body ++ (pending ++ bytes)), []), s')
      ]

  -- The outer loop; `inner` is the fuel of the loops in it.
  pub recv_chunks : ℕ → ℕ → P → Text → Text → S → Option (Option (P × Text) × S)
  recv_chunks inner zero p body pending s = none
  recv_chunks inner (suc fuel) p body pending s = elim (recv_chunk_head inner true p pending s) [
    | none ↦ none
    | some (closed, s') ↦ some (none, s')
    | some (received p' pending', s') ↦
        elim (take_chunk inner (parser.content_len p') body pending' s') [
          | none ↦ none
          | some (none, s'') ↦ some (none, s'')
          | some (some (body', rest), s'') ↦
              if parser.chunks_done p'
              then some (some (p', body'), s'')
              else recv_chunks inner fuel p' body' rest s''
        ]
  ]

  -- The body that the header `p` announces.
  unfoldable pub recv_content : ℕ → P → Text → S → Option (Option (P × Text) × S)
  unfolding recv_chunks
  recv_content fuel p pending s = elim (parser.chunked p) [
    | true ↦ recv_chunks fuel fuel p [] pending s
    | false ↦
        if has_body read parser.header buff_size p
        then elim (recv_body read parser.header buff_size (parser.header.get_content_length p)
            pending s) [
              | none ↦ none
              | some (none, s') ↦ some (none, s')
              | some (some body, s') ↦ some (some (p, body), s')
            ]
        else some (some (p, []), s)
  ]

  unfoldable pub recv_response : Zlib → ℕ → S → Option (Option HttpResponse × S)
  unfolding recv_content
  recv_response zlib fuel s =
      elim (recv_head read parser.header buff_size fuel parser.header.start [] s) [
        | none ↦ none
        | some (closed, s') ↦ some (none, s')
        | some (received p pending, s') ↦ elim (recv_content fuel p pending s') [
          | none ↦ none
          | some (none, s'') ↦ some (none, s'')
          | some (some (p', body), s'') ↦
              some (some (set_decoded zlib body (parser.header.get_data p')), s'')
        ]
      ]
