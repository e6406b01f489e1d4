-- ===== src/HttpClient/Data.antt =====
-- The head and the data of a chunk, from what is waiting and from the stream.
use yuyu.Common.{
  ℕ, zero, suc, ◌+◌, ◌-◌, ◌≤◌, ◌<◌, ◌≡◌, refl, sym, ap, ◌∙◌, inl, inr, true, false, Option, none,
  some, [], ◌++◌, append_assoc, arith, leb, ◌==◌, if◌then◌else◌, leb→le, Bool-cases, length, take,
  drop, length-append, drop_all, take_append_left, drop_append_left, take_append_right,
}
use yuyu.Common.{leb-false→lt}
use mathlib.Core.Option.{some-injective, none-ne-some}
use yuyu.Stream.{Reader}
use yuyu.Http.{Text}
use yuyu.HttpSession.{closed, is_end, parse_buffer, recv_head}
use yuyu.HttpClient.{ChunkParser, chunk_head, without_two, recv_chunk_head, read_left, take_chunk}
use yuyu.HttpClient.Chunks.{
  Carries, HeadFound, after_parse, after_parse-HeadFound, parse_buffer-Parsed, recv_head-HeadFound,
}
use yuyu.HttpClient.Missing.{read_left-LeftRead}

-- The body with the data of a chunk, from `all`, its data with the two bytes behind it.
without_two-take :
    (n : ℕ) (body all behind : Text)
    → length all ≡ n + 2
    → without_two (body ++ all) ≡ body ++ take n (all ++ behind)
without_two-take n body all behind h =
    ap (λ k. take k (body ++ all)) (omega (arith, length-append body all, h))
    ∙ take_append_right n body all
    ∙ ap (◌++◌ body) (sym (take_append_left n all behind (omega (arith, h))))

module _ {S P : Type 0} (read : Reader S) (parser : ChunkParser P) (buff_size : ℕ)
    (content : S → Text) (c : Carries read content) where
  -- Once bytes were asked for, the loop is that for the header.
  recv_chunk_head-recv_head :
      (fuel : ℕ) (p : P) (pending : Text) (s : S)
      → recv_chunk_head read parser buff_size fuel false p pending s
        ≡ recv_head read (chunk_head parser) buff_size fuel p pending s
  unfolding recv_chunk_head recv_head
  recv_chunk_head-recv_head zero p pending s = refl
  recv_chunk_head-recv_head (suc fuel) p pending s =
      let answer = read (buff_size - length pending) s in
      λ i.
        if is_end answer.0.0
        then some (closed, answer.1)
        else elim (parse_buffer read (chunk_head parser) buff_size p (pending ++ answer.0.1)) [
          | inl head ↦ some (head, answer.1)
          | inr (p', q) ↦ recv_chunk_head-recv_head fuel p' q answer.1 i
        ]

  recv_chunk_head-empty :
      (fuel : ℕ) (p : P) (pending : Text) (s : S)
      → (length pending == 0) ≡ true
      → recv_chunk_head read parser buff_size (suc fuel) true p pending s
        ≡ recv_chunk_head read parser buff_size (suc fuel) false p pending s
  unfolding recv_chunk_head
  recv_chunk_head-empty fuel p pending s h = rw (recv_chunk_head, h) refl

  recv_chunk_head-waiting :
      (fuel : ℕ) (p : P) (pending : Text) (s : S)
      → (length pending == 0) ≡ false
      → recv_chunk_head read parser buff_size (suc fuel) true p pending s
        ≡ after_parse read
            (chunk_head parser)
            buff_size
            (λ p' q. recv_chunk_head read parser buff_size fuel false p' q s)
            s
            (parse_buffer read (chunk_head parser) buff_size p pending)
  unfolding recv_chunk_head
  recv_chunk_head-waiting fuel p pending s h = rw (recv_chunk_head, h) refl

  pub recv_chunk_head-HeadFound :
      (fuel : ℕ) (p : P) (pending : Text) (s : S)
      → length (content s) + 1 < fuel
      → HeadFound read
          (chunk_head parser)
          buff_size
          content
          (pending ++ content s)
          (recv_chunk_head read parser buff_size fuel true p pending s)
  recv_chunk_head-HeadFound zero p pending s h = absurd (omega arith)
  recv_chunk_head-HeadFound (suc fuel) p pending s h = elim (Bool-cases (length pending == 0)) [
    | inl empty ↦
        rw
          (recv_chunk_head-empty fuel p pending s empty
            ∙ recv_chunk_head-recv_head (suc fuel) p pending s)
          (recv_head-HeadFound read (chunk_head parser) buff_size content (suc fuel) p pending s c
            (omega arith))
    | inr waiting ↦ rw (recv_chunk_head-waiting fuel p pending s waiting) (
        after_parse-HeadFound read (chunk_head parser) buff_size content pending s
          (λ p' q. recv_chunk_head read parser buff_size fuel false p' q s)
          (parse_buffer read (chunk_head parser) buff_size p pending)
          (parse_buffer-Parsed read (chunk_head parser) buff_size p pending)
          (λ p' q. rw (recv_chunk_head-recv_head fuel p' q s) (
            recv_head-HeadFound read (chunk_head parser) buff_size content fuel p' q s c
              (omega arith))))
  ]

  -- A chunk of `n` bytes is cut off what is waiting and what is in the stream: its data goes behind
  -- the body, and the two bytes behind it are left out.
  pub record Taken (n : ℕ) (body wire : Text) (r : Option (Option (Text × Text) × S)) : Type 0 where
    pub cut : Option (Text × Text)
    pub after : S
    pub run : r ≡ some (cut, after)
    pub exact :
        (body' rest : Text)
        → cut ≡ some (body', rest)
        → (n + 2 ≤ length wire)
          × (body' ≡ body ++ take n wire)
          × (rest ++ content after ≡ drop (n + 2) wire)

  take_chunk-short :
      (fuel n : ℕ) (body pending : Text) (s s' : S) (bytes : Option Text)
      → leb (n + 2) (length pending) ≡ false
      → read_left read parser buff_size fuel (n + 2 - length pending) s ≡ some (bytes, s')
      → take_chunk read parser buff_size fuel n body pending s
        ≡ some (
          elim bytes [
            | none ↦ none
            | some more ↦ some (without_two (body ++ (pending ++ more)), [])
          ],
          s',
        )
  unfolding take_chunk
  take_chunk-short fuel n body pending s s' none h e = rw (h, e) refl
  take_chunk-short fuel n body pending s s' (some more) h e = rw (h, e) refl

  take_chunk-there :
      (fuel n : ℕ) (body pending : Text) (s : S)
      → leb (n + 2) (length pending) ≡ true
      → take_chunk read parser buff_size fuel n body pending s
        ≡ some (some (body ++ take n pending, drop (n + 2) pending), s)
  unfolding take_chunk
  take_chunk-there fuel n body pending s h = rw h refl

  pub take_chunk-Taken :
      (fuel n : ℕ) (body pending : Text) (s : S)
      → length (content s) < fuel
      → Taken n body (pending ++ content s) (take_chunk read parser buff_size fuel n body pending s)
  take_chunk-Taken fuel n body pending s h = elim (Bool-cases (leb (n + 2) (length pending))) [
    | inl there ↦
        let fits : n + 2 ≤ length pending = leb→le _ _ there in
        record {
          cut = some (body ++ take n pending, drop (n + 2) pending);
          after = s;
          run = take_chunk-there fuel n body pending s there;
          exact = λ body' rest e.
              let same = some-injective _ _ e in
              (
                omega (arith, length-append pending (content s), fits),
                ap (λ x. x.0) (sym same)
                    ∙ ap (◌++◌ body)
                        (sym (take_append_left n pending (content s) (omega (arith, fits)))),
                ap (λ x. x.1 ++ content s) (sym same)
                    ∙ sym (drop_append_left (n + 2) pending (content s) fits),
              );
        }
    | inr short ↦
        let l =
          read_left-LeftRead read parser buff_size content c fuel (n + 2 - length pending) s h in
        let less = leb-false→lt _ _ short in
        elim l.bytes
            as (λ o.
              l.bytes ≡ o
              → Taken n body (pending ++ content s)
                  (take_chunk read parser buff_size fuel n body pending s)) [
                    | none ↦ λ e. record {
                      cut = none;
                      after = l.after;
                      run =
                          take_chunk-short fuel n body pending s l.after none short
                            (l.run ∙ ap (λ o. some (o, l.after)) e);
                      exact = λ body' rest e'. absurd (none-ne-some _ e');
                    }
                    | some more ↦ λ e.
                        let (next, long) = l.whole more e in
                        let wire : pending ++ content s ≡ (pending ++ more) ++ content l.after =
                          ap (◌++◌ pending) next ∙ sym (append_assoc pending more _) in
                        let all : length (pending ++ more) ≡ n + 2 =
                          omega (arith, length-append pending more, long, less) in
                        record {
                          cut = some (without_two (body ++ (pending ++ more)), []);
                          after = l.after;
                          run =
                              take_chunk-short fuel n body pending s l.after (some more) short
                                (l.run ∙ ap (λ o. some (o, l.after)) e);
                          exact = λ body' rest e'.
                              let same = some-injective _ _ e' in
                              (
                                rw wire (
                                    omega (
                                      arith,
                                      length-append (pending ++ more) (content l.after),
                                      all,
                                    )),
                                ap (λ x. x.0) (sym same)
                                    ∙ without_two-take n body (pending ++ more) (content l.after)
                                        all
                                    ∙ ap (λ w. body ++ take n w) (sym wire),
                                ap (λ x. x.1 ++ content l.after) (sym same)
                                    ∙ sym (
                                        ap (λ w. w ++ content l.after)
                                          (drop_all (n + 2) (pending ++ more) (omega (arith, all))))
                                    ∙ sym (
                                        drop_append_left (n + 2) (pending ++ more) (content l.after)
                                          (omega (arith, all)))
                                    ∙ ap (drop (n + 2)) (sym wire),
                              );
                        }
                  ]
          refl
  ]
