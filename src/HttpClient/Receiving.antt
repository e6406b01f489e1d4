-- ===== src/HttpClient/Receiving.antt =====
-- What recvResponse of yuyu/http/http_connection.cc returns, and that it ends.
use yuyu.Common.{ℕ, ◌≡◌, true, false, Option, none, some, [], ◌++◌, ◌≤◌, length, take}
use yuyu.Stream.{Reader}
use yuyu.Http.{Text}
use yuyu.Http.Message.{HttpResponse}
use yuyu.HttpSession.{received, has_body, recv_head}
use yuyu.HttpClient.{ChunkParser, Zlib, set_decoded}
use yuyu.HttpClient.Chunks.{Carries}
use yuyu.HttpClient.Joining.{Unchunked}

module _ {S P : Type 0} (read : Reader S) (parser : ChunkParser P) (buff_size : ℕ)
    (content : S → Text) (c : Carries read content) where
  -- Where the loop for the header ended: the parser `p` has used the bytes in front, and `pending`
  -- was read behind them.
  pub record HeaderAt (fuel : ℕ) (s : S) (p : P) (pending : Text) (s' : S) : Type 0 where
    pub run :
        recv_head read parser.header buff_size fuel parser.header.start [] s
        ≡ some (received p pending, s')
    pub used : Text
    pub cut : content s ≡ used ++ (pending ++ content s')

  -- What is handed out of a stream: the parser of the header decides what body there is.
  pub data Delivered (zlib : Zlib) (fuel : ℕ) (s : S) (rsp : HttpResponse) : Type 0 where
    with_chunks :
        (p p' : P) (pending body : Text) (s' : S)
        → HeaderAt fuel s p pending s'
        → parser.chunked p ≡ true
        → Unchunked read parser buff_size content fuel p pending s' body p'
        → rsp ≡ set_decoded zlib body (parser.header.get_data p')
        → Delivered zlib fuel s rsp
    with_whole_body :
        (p : P) (pending : Text) (s' : S)
        → HeaderAt fuel s p pending s'
        → parser.chunked p ≡ false
        → parser.header.get_content_length p ≤ length (pending ++ content s')
        → rsp
          ≡ set_decoded zlib
              (take (parser.header.get_content_length p) (pending ++ content s'))
              (parser.header.get_data p)
        → Delivered zlib fuel s rsp
    without_body :
        (p : P) (pending : Text) (s' : S)
        → HeaderAt fuel s p pending s'
        → parser.chunked p ≡ false
        → has_body read parser.header buff_size p ≡ false
        → rsp ≡ set_decoded zlib [] (parser.header.get_data p)
        → Delivered zlib fuel s rsp

  pub record Received (zlib : Zlib) (fuel : ℕ) (s : S) (r : Option (Option HttpResponse × S))
      : Type 0 where
    pub response : Option HttpResponse
    pub after : S
    pub run : r ≡ some (response, after)
    pub delivered : (rsp : HttpResponse) → response ≡ some rsp → Delivered zlib fuel s rsp

  -- From the header on.
  abbrev decoded : Zlib → Option (Option (P × Text) × S) → Option (Option HttpResponse × S)
  decoded zlib r = elim r [
    | none ↦ none
    | some (none, s'') ↦ some (none, s'')
    | some (some (p', body), s'') ↦
        some (some (set_decoded zlib body (parser.header.get_data p')), s'')
  ]

  abbrev sized : P → Option (Option Text × S) → Option (Option (P × Text) × S)
  sized p r = elim r [
    | none ↦ none
    | some (none, s') ↦ some (none, s')
    | some (some body, s') ↦ some (some (p, body), s')
  ]
