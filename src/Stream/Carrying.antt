-- ===== src/Stream/Carrying.antt =====
-- Which bytes of a stream the loop of `readFixSize` in yuyu/stream.cc takes.
use yuyu.Common.Int.{ℤ, pos, negsuc}
use mathlib.Core.Path.{subst}
use mathlib.Core.Option.{some-injective}
use yuyu.Stream.{Reader, Moved, prepend, size, read_loop, read_fix_size}
use yuyu.Stream.Whole.{Obeys, read_loop-Ended, fix_result}
use yuyu.Stream.Positive.{IsStop, read_loop-IsStop}
use yuyu.Common.{
  ℕ, zero, suc, ◌-◌, ◌<◌, ◌≡◌, refl, sym, ap, ◌∙◌, inl, inr, false, Option, none, some, List, [],
  ◌++◌, append_assoc, arith, ◌==◌, if◌then◌else◌, Bool-cases,
}

-- The bytes that `read` puts down are what the stream has next.
abbrev pub HandsOut : {S : Type 0} → Reader S → (S → List ℕ) → Type 0
HandsOut {S = S} read content =
    (k : ℕ) (s : S) → 0 < size (read k s).0.0 → content s ≡ (read k s).0.1 ++ content (read k s).1

abbrev IsNext : {S : Type 0} → (S → List ℕ) → S → Option (Moved S) → Type 0
IsNext content s none = Unit {0}
IsNext content s (some (none, (bytes, s'))) = content s ≡ bytes ++ content s'
IsNext content s (some (some len, moved)) = Unit {0}

IsNext-prepend :
    {S : Type 0} (content : S → List ℕ) (bytes : List ℕ) (s s' : S) (r : Option (Moved S))
    → content s ≡ bytes ++ content s'
    → IsNext content s' r
    → IsNext content s (prepend bytes r)
IsNext-prepend content bytes s s' none e h = tt
IsNext-prepend content bytes s s' (some (none, (more, s''))) e h =
    e ∙ ap (◌++◌ bytes) h ∙ sym (append_assoc bytes more (content s''))
IsNext-prepend content bytes s s' (some (some len, moved)) e h = tt

abbrev answered : {S : Type 0} → ℤ → List ℕ → S → Option (Moved S) → Option (Moved S)
answered len bytes s' rest = elim len [
  | negsuc k ↦ some (some (negsuc k), ([], s'))
  | pos n ↦ if n == 0 then some (some (pos 0), ([], s')) else prepend bytes rest
]

answered-IsNext :
    {S : Type 0} (content : S → List ℕ) (len : ℤ) (bytes : List ℕ) (s s' : S)
    (rest : Option (Moved S))
    → (0 < size len → content s ≡ bytes ++ content s')
    → IsNext content s' rest
    → IsNext content s (answered len bytes s' rest)
answered-IsNext content (negsuc k) bytes s s' rest e h = tt
answered-IsNext content (pos zero) bytes s s' rest e h = tt
answered-IsNext content (pos (suc n)) bytes s s' rest e h =
    let some_bytes : (suc n == 0) ≡ false = ground arith in
    rw some_bytes (IsNext-prepend content bytes s s' rest (e (omega arith)) h)

read_loop-IsNext :
    {S : Type 0} (read : Reader S) (content : S → List ℕ) (fuel left : ℕ) (s : S)
    → HandsOut read content
    → IsNext content s (read_loop read fuel left s)
unfolding read_loop
read_loop-IsNext read content zero left s c = elim (Bool-cases (left == 0)) [
  | inl e ↦ rw e refl
  | inr e ↦ rw e tt
]
read_loop-IsNext read content (suc fuel) left s c = elim (Bool-cases (left == 0)) [
  | inl e ↦ rw e refl
  | inr e ↦
      let answer = read left s in
      rw e (
        answered-IsNext content answer.0.0 answer.0.1 s answer.1 _ (c left s)
          (read_loop-IsNext read content fuel (left - size answer.0.0) answer.1 c))
]

next_of_positive :
    {S : Type 0} (read : Reader S) (content : S → List ℕ) (n : ℕ) (s s' : S) (result : ℤ)
    (bytes : List ℕ) (r : Moved S)
    → read_loop read n n s ≡ some r
    → IsStop (some r)
    → IsNext content s (some r)
    → read_fix_size read n s ≡ some (result, (bytes, s'))
    → 0 < size result
    → content s ≡ bytes ++ content s'
next_of_positive read content n s s' result bytes (none, (took, s₁)) run stop next e positive =
    let same = some-injective _ _ (sym (fix_result read n s (none, (took, s₁)) run) ∙ e) in
    next ∙ ap (λ x. x.1.0 ++ content x.1.1) same
next_of_positive read content n s s' result bytes (some len, moved) run stop next e positive =
    let same : len ≡ result =
      ap (λ x. x.0) (some-injective _ _ (sym (fix_result read n s (some len, moved) run) ∙ e)) in
    let zero_size : size result ≡ 0 = ap size (sym same) ∙ stop in absurd (omega arith)

-- When a positive result is returned, the bytes are those that the stream had next.
pub read_fix_size-next :
    {S : Type 0} (read : Reader S) (content : S → List ℕ) (n : ℕ) (s s' : S) (result : ℤ)
    (bytes : List ℕ)
    → Obeys read
    → HandsOut read content
    → read_fix_size read n s ≡ some (result, (bytes, s'))
    → 0 < size result
    → content s ≡ bytes ++ content s'
read_fix_size-next read content n s s' result bytes o c e positive =
    let (r, run, ended) = read_loop-Ended read n n s o (omega arith) in
    next_of_positive read content n s s' result bytes r run
      (subst IsStop run (read_loop-IsStop read n n s))
      (subst (IsNext content s) run (read_loop-IsNext read content n n s c)) e positive
