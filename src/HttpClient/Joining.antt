-- ===== src/HttpClient/Joining.antt =====
-- The loop of recvResponse in yuyu/http/http_connection.cc over the chunks of a body.
use yuyu.Common.{
  ℕ, zero, suc, ◌+◌, ◌≤◌, ◌<◌, ◌≡◌, refl, sym, ap, ◌∙◌, inl, inr, true, false, Option, none, some,
  ◌++◌, append_assoc, arith, if◌then◌else◌, Bool-cases, length, take, drop, length-append,
  length-drop,
}
use mathlib.Core.Path.{subst}
use mathlib.Core.Option.{some-injective, none-ne-some}
use yuyu.Stream.{Reader}
use yuyu.Http.{Text}
use yuyu.HttpSession.{received, closed}
use yuyu.HttpClient.{ChunkParser, recv_chunk_head, take_chunk, recv_chunks}
use yuyu.HttpClient.Chunks.{Carries}
use yuyu.HttpClient.Data.{Taken, take_chunk-Taken, recv_chunk_head-HeadFound}

module _ {S P : Type 0} (read : Reader S) (parser : ChunkParser P) (buff_size : ℕ)
    (content : S → Text) where
  -- The head of a chunk that the loop for it has read from `pending` and the stream: the parser is
  -- then `p`, `pending'` was read behind the head, and the data of the chunk with two bytes more is
  -- there.
  pub record ChunkAt (inner : ℕ) (p₀ : P) (pending : Text) (s : S) (p : P) (pending' : Text)
      (s' : S) : Type 0 where
    pub run :
        recv_chunk_head read parser buff_size inner true p₀ pending s
        ≡ some (received p pending', s')
    pub used : Text
    pub cut : pending ++ content s ≡ used ++ (pending' ++ content s')
    pub fits : parser.content_len p + 2 ≤ length (pending' ++ content s')

  -- The body that a run of chunks carries, up to the last one, and the parser behind it.
  pub data Unchunked (inner : ℕ) : P → Text → S → Text → P → Type 0 where
    last :
        {p₀ : P} {pending : Text} {s : S} (p : P) (pending' : Text) (s' : S)
        → ChunkAt inner p₀ pending s p pending' s'
        → parser.chunks_done p ≡ true
        → Unchunked inner p₀ pending s (take (parser.content_len p) (pending' ++ content s')) p
    more :
        {p₀ end : P} {pending body : Text} {s : S} (p : P) (pending' : Text) (s' : S)
        → ChunkAt inner p₀ pending s p pending' s'
        → parser.chunks_done p ≡ false
        → (rest : Text) (s'' : S)
        → rest ++ content s'' ≡ drop (parser.content_len p + 2) (pending' ++ content s')
        → Unchunked inner p rest s'' body end
        → Unchunked inner p₀ pending s
            (take (parser.content_len p) (pending' ++ content s') ++ body)
            end

module _ {S P : Type 0} (read : Reader S) (parser : ChunkParser P) (buff_size : ℕ)
    (content : S → Text) (c : Carries read content) where
  pub record AllChunks (inner : ℕ) (p₀ : P) (pending : Text) (s : S) (body : Text)
      (r : Option (Option (P × Text) × S)) : Type 0 where
    pub result : Option (P × Text)
    pub after : S
    pub run : r ≡ some (result, after)
    pub exact :
        (p : P) (body' : Text)
        → result ≡ some (p, body')
        → (all : Text) × (body' ≡ body ++ all)
          × Unchunked read parser buff_size content inner p₀ pending s all p

  abbrev chunk_taken :
      ℕ → ℕ → P → Option (Option (Text × Text) × S) → Option (Option (P × Text) × S)
  chunk_taken inner fuel p taken = elim taken [
    | none ↦ none
    | some (none, s'') ↦ some (none, s'')
    | some (some (body', rest), s'') ↦
        if parser.chunks_done p
        then some (some (p, body'), s'')
        else recv_chunks read parser buff_size inner fuel p body' rest s''
  ]

  recv_chunks-closed :
      (inner fuel : ℕ) (p : P) (body pending : Text) (s s' : S)
      → recv_chunk_head read parser buff_size inner true p pending s ≡ some (closed, s')
      → recv_chunks read parser buff_size inner (suc fuel) p body pending s ≡ some (none, s')
  unfolding recv_chunks
  recv_chunks-closed inner fuel p body pending s s' e = rw (recv_chunks, e) refl

  recv_chunks-received :
      (inner fuel : ℕ) (p p' : P) (body pending pending' : Text) (s s' : S)
      → recv_chunk_head read parser buff_size inner true p pending s
        ≡ some (received p' pending', s')
      → recv_chunks read parser buff_size inner (suc fuel) p body pending s
        ≡ chunk_taken inner fuel p'
            (take_chunk read parser buff_size inner (parser.content_len p') body pending' s')
  unfolding recv_chunks
  recv_chunks-received inner fuel p p' body pending pending' s s' e = rw (recv_chunks, e) refl

  AllChunks-none :
      (inner : ℕ) (p₀ : P) (pending : Text) (s s' : S) (body : Text)
      → AllChunks inner p₀ pending s body (some (none, s'))
  AllChunks-none inner p₀ pending s s' body = record {
    result = none;
    after = s';
    run = refl;
    exact = λ p body' e. absurd (none-ne-some _ e);
  }

  -- Behind a chunk that was cut.
  chunk_taken-AllChunks :
      (inner fuel : ℕ) (p₀ p : P) (body pending pending' : Text) (s s' : S)
      (taken : Option (Option (Text × Text) × S))
      → ((fits : parser.content_len p + 2 ≤ length (pending' ++ content s'))
          → ChunkAt read parser buff_size content inner p₀ pending s p pending' s')
      → Taken read parser buff_size content c
          (parser.content_len p)
          body
          (pending' ++ content s')
          taken
      → ((body' rest : Text) (s'' : S)
          → rest ++ content s'' ≡ drop (parser.content_len p + 2) (pending' ++ content s')
          → parser.content_len p + 2 ≤ length (pending' ++ content s')
          → AllChunks inner p rest s'' body'
              (recv_chunks read parser buff_size inner fuel p body' rest s''))
      → AllChunks inner p₀ pending s body (chunk_taken inner fuel p taken)
  chunk_taken-AllChunks inner fuel p₀ p body pending pending' s s' taken at t later =
      elim t.cut
          as (λ o. t.cut ≡ o → AllChunks inner p₀ pending s body (chunk_taken inner fuel p taken)) [
            | none ↦ λ e.
                rw (t.run ∙ ap (λ o. some (o, t.after)) e)
                  (AllChunks-none inner p₀ pending s t.after body)
            | some (body', rest) ↦ λ e.
                let (fits, joined, left) = t.exact body' rest e in
                rw (t.run ∙ ap (λ o. some (o, t.after)) e)
                  (elim (Bool-cases (parser.chunks_done p)) [
                    | inl done ↦ rw done record {
                      result = some (p, body');
                      after = t.after;
                      run = refl;
                      exact = λ p₂ b e₂. (
                        take (parser.content_len p) (pending' ++ content s'),
                        ap (λ x. x.1) (sym (some-injective _ _ e₂)) ∙ joined,
                        subst
                            (λ q.
                              Unchunked read parser buff_size content inner p₀ pending s
                                (take (parser.content_len p) (pending' ++ content s')) q)
                            (ap (λ x. x.0) (some-injective _ _ e₂))
                            (last p pending' s' (at fits) done),
                      );
                    }
                    | inr goes_on ↦
                        let m = later body' rest t.after left fits in
                        rw goes_on record {
                          result = m.result;
                          after = m.after;
                          run = m.run;
                          exact = λ p₂ b e₂.
                              let (all, same, chunks) = m.exact p₂ b e₂ in
                              (
                                take (parser.content_len p) (pending' ++ content s') ++ all,
                                same ∙ ap (λ x. x ++ all) joined ∙ append_assoc body _ all,
                                more p pending' s' (at fits) goes_on rest t.after left chunks,
                              );
                        }
                  ])
          ]
        refl

  pub recv_chunks-AllChunks :
      (inner fuel : ℕ) (p : P) (body pending : Text) (s : S)
      → length (pending ++ content s) + 1 < inner
      → length (pending ++ content s) < fuel
      → AllChunks inner p pending s body
          (recv_chunks read parser buff_size inner fuel p body pending s)
  recv_chunks-AllChunks inner zero p body pending s k h = absurd (omega arith)
  recv_chunks-AllChunks inner (suc fuel) p body pending s k h =
      let f =
        recv_chunk_head-HeadFound read parser buff_size content c inner p pending s
          (omega (arith, k, length-append pending (content s))) in
      elim f.head
          as (λ o.
            f.head ≡ o
            → AllChunks inner p pending s body
                (recv_chunks read parser buff_size inner (suc fuel) p body pending s)) [
                  | closed ↦ λ e.
                      rw
                        (recv_chunks-closed inner fuel p body pending s f.after
                          (f.run ∙ ap (λ o. some (o, f.after)) e))
                        (AllChunks-none inner p pending s f.after body)
                  | received p' pending' ↦ λ e.
                      let (used, cut, finished, clean) = f.found p' pending' e in
                      let behind = pending' ++ content f.after in
                      let size_lem : length behind ≤ length (pending ++ content s) =
                        omega (arith, ap length cut, length-append used behind) in
                      rw
                        (recv_chunks-received inner fuel p p' body pending pending' s f.after
                          (f.run ∙ ap (λ o. some (o, f.after)) e))
                        (chunk_taken-AllChunks inner fuel p p' body pending pending' s f.after _
                          (λ fits. record {
                            run = f.run ∙ ap (λ o. some (o, f.after)) e;
                            used = used;
                            cut = cut;
                            fits = fits;
                          })
                          (take_chunk-Taken read parser buff_size content c inner
                            (parser.content_len p') body pending' f.after
                            (omega (arith, k, size_lem, length-append pending' (content f.after))))
                          (λ body' rest s' left fits.
                            let shorter : length (rest ++ content s')
                                < length (pending ++ content s) =
                              omega (
                                arith,
                                ap length left,
                                length-drop (parser.content_len p' + 2) behind,
                                fits,
                                size_lem,
                              ) in
                            recv_chunks-AllChunks inner fuel p' body' rest s'
                              (omega (arith, shorter, k)) (omega (arith, shorter, h))))
                ]
        refl
