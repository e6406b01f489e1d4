-- ===== src/HttpSession/Receiving.antt =====
-- What recvRequest of yuyu/http/http_session.cc returns, and that it ends.
use yuyu.Common.Int.{ℤ, pos, negsuc, signed}
use mathlib.Core.Option.{some-injective, none-ne-some}
use yuyu.Stream.{Reader, size, read_fix_size}
use yuyu.Stream.Whole.{read_fix_size-Ended}
use yuyu.Stream.Positive.{read_fix_size-positive}
use yuyu.Stream.Carrying.{HandsOut, read_fix_size-next}
use yuyu.HttpClient.Chunks.{Carries, Carries-Obeys}
use yuyu.Http.{Text}
use yuyu.Http.Message.{HttpRequest, init}
use yuyu.HttpSession.{Parser, received, is_end, recv_head, recv_body, has_body}
use yuyu.Common.{
  ℕ, ◌-◌, ◌%◌, ◌^◌, ◌<◌, ◌≤◌, append_assoc, ◌≡◌, refl, sym, ap, ◌∙◌, inl, inr, true, false,
  true≢false, Option, none, some, [], ◌++◌, arith, leb, if◌then◌else◌, leb→le, leb-false→lt,
  Bool-cases, length, take, length-append, take_all, take_append_left,
}

module _ {S P D : Type 0} (read : Reader S) (parser : Parser P D) (buff_size : ℕ)
    (content : S → Text) where
  -- The body that is needed, from what is there and from the stream.
  pub record BodyRead (n : ℕ) (pending : Text) (s : S) : Type 0 where
    pub body : Option Text
    pub after : S
    pub result : recv_body read parser buff_size n pending s ≡ some (body, after)
    pub exact :
        (b : Text)
        → body ≡ some b
        → (n ≤ length (pending ++ content s)) × (b ≡ take n (pending ++ content s))

  -- What `readFixSize` returns decides.
  abbrev decided : ℤ → Text → Text → S → Option (Option Text × S)
  decided result pending bytes s' =
      if is_end result then some (none, s') else some (some (pending ++ bytes), s')

  abbrev fixed_result : ℕ → Option ℤ → ℤ
  fixed_result left stop = elim stop [ none ↦ signed 32 (left % 2 ^ 32) | some len ↦ len ]

  decided-ended :
      (result : ℤ) (pending bytes : Text) (s' : S)
      → is_end result ≡ true
      → decided result pending bytes s' ≡ some (none, s')
  decided-ended result pending bytes s' h = rw h refl

  decided-whole :
      (result : ℤ) (pending bytes : Text) (s' : S)
      → is_end result ≡ false
      → decided result pending bytes s' ≡ some (some (pending ++ bytes), s')
  decided-whole result pending bytes s' h = rw h refl

  recv_body-short :
      (n : ℕ) (pending bytes : Text) (s s' : S) (result : ℤ)
      → leb n (length pending) ≡ false
      → read_fix_size read (n - length pending) s ≡ some (result, (bytes, s'))
      → recv_body read parser buff_size n pending s ≡ decided result pending bytes s'
  unfolding recv_body
  recv_body-short n pending bytes s s' result h e = ground arith

  recv_body-enough :
      (n : ℕ) (pending : Text) (s : S)
      → leb n (length pending) ≡ true
      → recv_body read parser buff_size n pending s ≡ some (some (take n pending), s)
  unfolding recv_body
  recv_body-enough n pending s h = ground arith

  is_end-negative : (len : ℤ) → 0 < size len → is_end len ≡ false
  is_end-negative (negsuc k) h = absurd (omega arith)
  is_end-negative (pos n) h = ground arith

  is_end-positive : (len : ℤ) → is_end len ≡ false → 0 < size len
  is_end-positive (negsuc k) h = absurd (true≢false h)
  is_end-positive (pos n) h = ground arith

  HandsOut-of : Carries read content → HandsOut read content
  HandsOut-of c k s positive = (c k s (is_end-negative (read k s).0.0 positive)).0

  -- A body that was put together is what was there and then what the stream has next, up to its
  -- length.
  pub recv_body-BodyRead :
      (n : ℕ) (pending : Text) (s : S) → Carries read content → BodyRead n pending s
  recv_body-BodyRead n pending s c =
      let o = Carries-Obeys read content c in
      elim (Bool-cases (leb n (length pending))) [
        | inl enough ↦
            let fits : n ≤ length pending = leb→le _ _ enough in
            record {
              body = some (take n pending);
              after = s;
              result = recv_body-enough n pending s enough;
              exact = λ b e. (
                omega (arith, fits, length-append pending (content s)),
                sym (some-injective _ _ e) ∙ sym (take_append_left n pending (content s) fits),
              );
            }
        | inr short ↦
            let (stop, bytes, s', run, bound, whole) =
              read_fix_size-Ended read (n - length pending) s o in
            let outcome : ℤ = fixed_result (n - length pending) stop in
            elim (Bool-cases (is_end outcome)) [
              | inl ended ↦ record {
                body = none;
                after = s';
                result =
                    recv_body-short n pending bytes s s' outcome short run
                    ∙ decided-ended outcome pending bytes s' ended;
                exact = λ b e. absurd (none-ne-some b e);
              }
              | inr more ↦
                  let all : length bytes ≡ n - length pending =
                    read_fix_size-positive read (n - length pending) s s' outcome bytes o run
                      (is_end-positive outcome more) in
                  let before = leb-false→lt _ _ short in
                  record {
                    body = some (pending ++ bytes);
                    after = s';
                    result =
                        recv_body-short n pending bytes s s' outcome short run
                        ∙ decided-whole outcome pending bytes s' more;
                    exact = λ b e.
                        let next =
                          read_fix_size-next read content (n - length pending) s s' outcome bytes o
                            (HandsOut-of c) run (is_end-positive outcome more) in
                        let size_lem : length (pending ++ bytes) ≡ n =
                          omega (arith, length-append pending bytes, all, before) in
                        let wire : pending ++ content s ≡ (pending ++ bytes) ++ content s' =
                          ap (◌++◌ pending) next ∙ sym (append_assoc pending bytes (content s')) in
                        (
                          omega (
                            arith,
                            ap length wire,
                            length-append (pending ++ bytes) (content s'),
                            size_lem,
                          ),
                          sym (some-injective _ _ e)
                              ∙ sym (take_all n (pending ++ bytes) (omega (arith, size_lem)))
                              ∙ sym (
                                  take_append_left n (pending ++ bytes) (content s')
                                    (omega (arith, size_lem)))
                              ∙ ap (take n) (sym wire),
                        );
                  }
            ]
      ]

module _ {S P : Type 0} (read : Reader S) (parser : Parser P HttpRequest) (buff_size : ℕ)
    (content : S → Text) where
  -- Where the loop for the header ended: the parser `p` has used the bytes in front, and `pending`
  -- was read behind them.
  pub record HeaderAt (fuel : ℕ) (s : S) (p : P) (pending : Text) (s' : S) : Type 0 where
    pub run : recv_head read parser buff_size fuel parser.start [] s ≡ some (received p pending, s')
    pub used : Text
    pub cut : content s ≡ used ++ (pending ++ content s')

  -- What is handed out: the request of the parser, with `init`, and when a length was announced, with
  -- a body of just so many bytes, those behind the header.
  pub data Delivered (fuel : ℕ) (s : S) (req : HttpRequest) : Type 0 where
    without_body :
        (p : P) (pending : Text) (s' : S)
        → HeaderAt fuel s p pending s'
        → has_body read parser buff_size p ≡ false
        → req ≡ init (parser.get_data p)
        → Delivered fuel s req
    with_whole_body :
        (p : P) (pending : Text) (s' : S)
        → HeaderAt fuel s p pending s'
        → has_body read parser buff_size p ≡ true
        → parser.get_content_length p ≤ length (pending ++ content s')
        → req
          ≡ init (record (parser.get_data p) {
            body = take (parser.get_content_length p) (pending ++ content s');
          })
        → Delivered fuel s req

  pub record Received (fuel : ℕ) (s : S) (r : Option (Option HttpRequest × S)) : Type 0 where
    pub request : Option HttpRequest
    pub after : S
    pub result : r ≡ some (request, after)
    pub delivered : (req : HttpRequest) → request ≡ some req → Delivered fuel s req
