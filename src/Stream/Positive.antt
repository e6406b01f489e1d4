-- ===== src/Stream/Positive.antt =====
-- What a positive result of `readFixSize` in yuyu/stream.cc means.
use yuyu.Common.Int.{ℤ, pos, negsuc}
use mathlib.Core.Path.{subst}
use mathlib.Core.Option.{some-injective}
use yuyu.Stream.{Reader, Moved, prepend, size, read_loop, read_fix_size}
use yuyu.Stream.Whole.{Obeys, Ended, read_loop-Ended, fix_result}
use yuyu.Common.{
  ℕ, zero, suc, ◌-◌, ◌<◌, ◌≡◌, refl, sym, ap, ◌∙◌, inl, inr, false, Option, none, some, List, [],
  arith, ◌==◌, if◌then◌else◌, Bool-cases, length,
}

-- A stop that the loop reports, if it reports one, is not positive.
abbrev pub IsStop : {S : Type 0} → Option (Moved S) → Type 0
IsStop none = Unit {0}
IsStop (some (none, moved)) = Unit {0}
IsStop (some (some len, moved)) = size len ≡ 0

IsStop-prepend :
    {S : Type 0} (bytes : List ℕ) (r : Option (Moved S)) → IsStop r → IsStop (prepend bytes r)
IsStop-prepend bytes none h = tt
IsStop-prepend bytes (some (none, moved)) h = tt
IsStop-prepend bytes (some (some len, moved)) h = h

abbrev answered : {S : Type 0} → ℤ → List ℕ → S → Option (Moved S) → Option (Moved S)
answered len bytes s' rest = elim len [
  | negsuc k ↦ some (some (negsuc k), ([], s'))
  | pos n ↦ if n == 0 then some (some (pos 0), ([], s')) else prepend bytes rest
]

answered-IsStop :
    {S : Type 0} (len : ℤ) (bytes : List ℕ) (s' : S) (rest : Option (Moved S))
    → IsStop rest
    → IsStop (answered len bytes s' rest)
answered-IsStop (negsuc k) bytes s' rest h = refl
answered-IsStop (pos zero) bytes s' rest h = refl
answered-IsStop (pos (suc n)) bytes s' rest h =
    let some_bytes : (suc n == 0) ≡ false = ground arith in
    rw some_bytes (IsStop-prepend bytes rest h)

pub read_loop-IsStop :
    {S : Type 0} (read : Reader S) (fuel left : ℕ) (s : S) → IsStop (read_loop read fuel left s)
unfolding read_loop
read_loop-IsStop read zero left s = elim (Bool-cases (left == 0)) [
  | inl e ↦ rw e tt
  | inr e ↦ rw e tt
]
read_loop-IsStop read (suc fuel) left s = elim (Bool-cases (left == 0)) [
  | inl e ↦ rw e tt
  | inr e ↦
      let answer = read left s in
      rw e (
        answered-IsStop answer.0.0 answer.0.1 answer.1 _
          (read_loop-IsStop read fuel (left - size answer.0.0) answer.1))
]

whole_of_positive :
    {S : Type 0} (read : Reader S) (n : ℕ) (s s' : S) (result : ℤ) (bytes : List ℕ) (r : Moved S)
    → read_loop read n n s ≡ some r
    → Ended n r
    → IsStop (some r)
    → read_fix_size read n s ≡ some (result, (bytes, s'))
    → 0 < size result
    → length bytes ≡ n
whole_of_positive read n s s' result bytes (none, moved) run ended stop e positive =
    let same = some-injective _ _ (sym (fix_result read n s (none, moved) run) ∙ e) in
    ap (λ x. length x.1.0) (sym same) ∙ ended.whole refl
whole_of_positive read n s s' result bytes (some len, moved) run ended stop e positive =
    let same : len ≡ result =
      ap (λ x. x.0) (some-injective _ _ (sym (fix_result read n s (some len, moved) run) ∙ e)) in
    let zero_size : size result ≡ 0 = ap size (sym same) ∙ stop in absurd (omega arith)

-- When `read` keeps to its documentation, a positive result of `readFixSize` means that all bytes
-- are there.
pub read_fix_size-positive :
    {S : Type 0} (read : Reader S) (n : ℕ) (s s' : S) (result : ℤ) (bytes : List ℕ)
    → Obeys read
    → read_fix_size read n s ≡ some (result, (bytes, s'))
    → 0 < size result
    → length bytes ≡ n
read_fix_size-positive read n s s' result bytes o e positive =
    let (r, run, ended) = read_loop-Ended read n n s o (omega arith) in
    let stop : IsStop (some r) = subst IsStop run (read_loop-IsStop read n n s) in
    whole_of_positive read n s s' result bytes r run ended stop e positive
