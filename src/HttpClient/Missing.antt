-- ===== src/HttpClient/Missing.antt =====
-- The loop of recvResponse in yuyu/http/http_connection.cc for the bytes of a chunk that are missing.
use yuyu.Common.{
  ℕ, zero, suc, ◌-◌, ◌≤◌, ◌<◌, ◌≡◌, refl, sym, ap, ◌∙◌, inl, inr, Option, none, some, [], ◌++◌,
  append_assoc, arith, ◌==◌, ==→eq, Bool-cases, length, length-append,
}
use mathlib.Core.Option.{some-injective, none-ne-some}
use yuyu.Stream.{Reader, size}
use yuyu.Http.{Text}
use yuyu.HttpSession.{is_end}
use yuyu.HttpClient.{ChunkParser, at_most, prepend_bytes, read_left}
use yuyu.HttpClient.Chunks.{Carries, is_end-size}

-- The bytes that were still missing.
pub record LeftRead {S : Type 0} (content : S → Text) (left : ℕ) (s : S)
    (r : Option (Option Text × S)) : Type 0 where
  pub bytes : Option Text
  pub after : S
  pub run : r ≡ some (bytes, after)
  pub whole : (b : Text) → bytes ≡ some b → (content s ≡ b ++ content after) × (length b ≡ left)

at_most-le : (buff_size left : ℕ) → at_most buff_size left ≤ left
at_most-le buff_size left = ground arith

prepend_bytes-LeftRead :
    {S : Type 0} (content : S → Text) (left k : ℕ) (first : Text) (s s' : S)
    (r : Option (Option Text × S))
    → content s ≡ first ++ content s'
    → length first ≡ k
    → k ≤ left
    → LeftRead content (left - k) s' r
    → LeftRead content left s (prepend_bytes first r)
prepend_bytes-LeftRead content left k first s s' r next exact fits h =
    elim h.bytes as (λ o. h.bytes ≡ o → LeftRead content left s (prepend_bytes first r)) [
      | none ↦ λ e. record {
        bytes = none;
        after = h.after;
        run = ap (prepend_bytes first) (h.run ∙ ap (λ o. some (o, h.after)) e);
        whole = λ b e'. absurd (none-ne-some b e');
      }
      | some more ↦ λ e.
          let (rest, long) = h.whole more e in
          record {
            bytes = some (first ++ more);
            after = h.after;
            run = ap (prepend_bytes first) (h.run ∙ ap (λ o. some (o, h.after)) e);
            whole = λ b e'.
                let same = some-injective _ _ e' in
                (
                  next
                      ∙ ap (◌++◌ first) rest
                      ∙ sym (append_assoc first more _)
                      ∙ ap (λ x. x ++ content h.after) same,
                  ap length (sym same) ∙ omega (arith, length-append first more, long, exact, fits),
                );
          }
    ]
      refl

module _ {S P : Type 0} (read : Reader S) (parser : ChunkParser P) (buff_size : ℕ)
    (content : S → Text) (c : Carries read content) where
  pub read_left-LeftRead :
      (fuel left : ℕ) (s : S)
      → length (content s) < fuel
      → LeftRead content left s (read_left read parser buff_size fuel left s)
  unfolding read_left
  read_left-LeftRead zero left s h = absurd (omega arith)
  read_left-LeftRead (suc fuel) left s h = elim (Bool-cases (left == 0)) [
    | inl done ↦ rw done record {
      bytes = some [];
      after = s;
      run = refl;
      whole = λ b e.
          let same = some-injective _ _ e in
          (ap (λ x. x ++ content s) same, ap length (sym same) ∙ sym (==→eq _ _ done));
    }
    | inr more ↦
        let k = at_most buff_size left in
        let s' = (read k s).1 in
        elim (Bool-cases (is_end (read k s).0.0)) [
          | inl ended ↦
              rw (more, ended)
                record {
                  bytes = none;
                  after = s';
                  run = refl;
                  whole = λ b e. absurd (none-ne-some b e);
                }
          | inr there ↦
              let (next, exact, fits) = c k s there in
              let some_bytes = is_end-size (read k s).0.0 there in
              let short : length (content s') < fuel = omega (
                arith,
                h,
                ap length next,
                length-append (read k s).0.1 (content s'),
                exact,
                some_bytes,
              ) in
              rw (more, there)
                (prepend_bytes-LeftRead content left (size (read k s).0.0) (read k s).0.1 s s' _
                  next exact (omega (arith, fits, at_most-le buff_size left))
                  (read_left-LeftRead fuel (left - size (read k s).0.0) s' short))
        ]
  ]
