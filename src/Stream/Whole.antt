-- ===== src/Stream/Whole.antt =====
-- The loops of yuyu/stream.cc end, and their success means that all bytes went through.
use yuyu.Common.Int.{ℤ, pos, negsuc, signed}
use mathlib.Core.Option.{none-ne-some}
use yuyu.Common.{
  ℕ, zero, suc, ◌-◌, ◌%◌, ◌^◌, ◌≤◌, ◌<◌, ◌≡◌, refl, sym, inl, inr, true, false, Option, none, some,
  List, [], ◌++◌, arith, ◌==◌, if◌then◌else◌, ==→eq, Bool-cases, length, length-append,
}
use yuyu.Stream.{Reader, Moved, prepend, size, read_loop, read_fix_size}

-- What `read` documents: a positive length is that of the bytes it put down, and at most what it
-- was asked for.
abbrev pub Obeys : {S : Type 0} → Reader S → Type 0
Obeys {S = S} read =
    (k : ℕ) (s : S)
    → (size (read k s).0.0 ≤ k)
      × (0 < size (read k s).0.0 → length (read k s).0.1 ≡ size (read k s).0.0)

-- How a loop for `n` bytes ended.
pub record Ended {S : Type 0} (n : ℕ) (r : Moved S) : Type 0 where
  pub at_most : length r.1.0 ≤ n
  pub whole : r.0 ≡ none → length r.1.0 ≡ n

Ended-prepend :
    {S : Type 0} (n k : ℕ) (bytes : List ℕ) (r : Moved S)
    → length bytes ≡ k
    → k ≤ n
    → Ended (n - k) r
    → Ended n (r.0, (bytes ++ r.1.0, r.1.1))
Ended-prepend n k bytes r size_lem fits e = record {
  at_most = omega (arith, length-append bytes r.1.0, size_lem, fits, e.at_most);
  whole = λ h. omega (arith, length-append bytes r.1.0, size_lem, fits, e.whole h);
}

-- A round, by the length that it was answered with.
abbrev rounded : {S : Type 0} → ℤ → List ℕ → S → Option (Moved S) → Option (Moved S)
rounded len bytes s' rest = elim len [
  | negsuc k ↦ some (some (negsuc k), ([], s'))
  | pos n ↦ if n == 0 then some (some (pos 0), ([], s')) else prepend bytes rest
]

round-Ended :
    {S : Type 0} (n : ℕ) (len : ℤ) (bytes : List ℕ) (s' : S) (rest : Option (Moved S))
    → size len ≤ n
    → (0 < size len → length bytes ≡ size len)
    → (0 < size len → (r : Moved S) × (rest ≡ some r) × Ended (n - size len) r)
    → (r : Moved S) × (rounded len bytes s' rest ≡ some r) × Ended n r
round-Ended n (negsuc k) bytes s' rest fits obeys later = (
  (some (negsuc k), ([], s')),
  refl,
  record { at_most = omega arith; whole = λ e. absurd (none-ne-some (negsuc k) (sym e)) },
)
round-Ended n (pos zero) bytes s' rest fits obeys later = (
  (some (pos 0), ([], s')),
  refl,
  record { at_most = omega arith; whole = λ e. absurd (none-ne-some (pos 0) (sym e)) },
)
round-Ended n (pos (suc k)) bytes s' rest fits obeys later =
    let some_bytes : 0 < suc k = omega arith in
    let not_zero : (suc k == 0) ≡ false = ground arith in
    let (r, run, e) = later some_bytes in
    (
      (r.0, (bytes ++ r.1.0, r.1.1)),
      rw (not_zero, run) refl,
      Ended-prepend n (suc k) bytes r (obeys some_bytes) fits e,
    )

pub read_loop-Ended :
    {S : Type 0} (read : Reader S) (fuel left : ℕ) (s : S)
    → Obeys read
    → left ≤ fuel
    → (r : Moved S) × (read_loop read fuel left s ≡ some r) × Ended left r
unfolding read_loop
read_loop-Ended read zero left s o h =
    let finished : (left == 0) ≡ true = ground arith in
    (
      (none, ([], s)),
      rw finished refl,
      record { at_most = omega arith; whole = λ e. omega (arith, ==→eq _ _ finished) },
    )
read_loop-Ended read (suc fuel) left s o h = elim (Bool-cases (left == 0)) [
  | inl finished ↦ (
    (none, ([], s)),
    rw finished refl,
    record { at_most = omega arith; whole = λ e. omega (arith, ==→eq _ _ finished) },
  )
  | inr more ↦
      let answer = read left s in
      let (fits, obeys) = o left s in
      let (r, run, e) =
        round-Ended left answer.0.0 answer.0.1 answer.1
          (read_loop read fuel (left - size answer.0.0) answer.1) fits obeys
          (λ some_bytes.
            read_loop-Ended read fuel (left - size answer.0.0) answer.1 o
              (omega (arith, h, some_bytes))) in
      (r, rw more run, e)
]

pub fix_result :
    {S : Type 0} (read : Reader S) (n : ℕ) (s : S) (r : Moved S)
    → read_loop read n n s ≡ some r
    → read_fix_size read n s
      ≡ some (elim r.0 [ none ↦ signed 32 (n % 2 ^ 32) | some len ↦ len ], r.1)
unfolding read_fix_size
fix_result read n s (none, moved) e = rw (read_fix_size, e) refl
fix_result read n s (some len, moved) e = rw (read_fix_size, e) refl

-- With a `read` that keeps to its documentation `readFixSize` always ends.
-- It never takes more bytes than it was asked for, and when no answer of `read` stopped it, it
-- returns the length, as an `int`, and has taken exactly so many.
pub read_fix_size-Ended :
    {S : Type 0} (read : Reader S) (n : ℕ) (s : S)
    → Obeys read
    → (stop : Option ℤ) × (bytes : List ℕ) × (s' : S) × (read_fix_size read n s
        ≡ some (elim stop [ none ↦ signed 32 (n % 2 ^ 32) | some len ↦ len ], (bytes, s')))
      × (length bytes ≤ n)
      × (stop ≡ none → length bytes ≡ n)
read_fix_size-Ended read n s o =
    let (r, run, e) = read_loop-Ended read n n s o (omega arith) in
    (r.0, r.1.0, r.1.1, fix_result read n s r run, e.at_most, e.whole)
