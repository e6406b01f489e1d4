-- ===== src/Stream/Writing.antt =====
-- What `writeFixSize` of yuyu/stream.cc hands to the stream.
use yuyu.Common.{
  ℕ, zero, suc, ◌%◌, ◌^◌, ◌≤◌, ◌<◌, ◌≡◌, refl, sym, ap, ◌∙◌, inl, inr, true, false, Option, none,
  some, List, [], ◌∷◌, ◌++◌, append-nil, append_assoc, arith, ◌==◌, if◌then◌else◌, Bool-cases,
  length, take, drop, length-drop, take-drop,
}
use yuyu.Common.Int.{ℤ, pos, negsuc, signed}
use mathlib.Core.Option.{none-ne-some, some-injective}
use yuyu.Stream.{Writer, Moved, prepend, size, write_loop, write_fix_size}

-- What `write` documents: a positive length is that of the first bytes of the buffer, which the
-- other side, `sink`, gets behind what it has.
abbrev pub Accepts : {S : Type 0} → Writer S → (S → List ℕ) → Type 0
Accepts {S = S} write sink =
    (buffer : List ℕ) (s : S)
    → (size (write buffer s).0 ≤ length buffer)
      × (sink (write buffer s).1 ≡ sink s ++ take (size (write buffer s).0) buffer)

-- How the loop over `buffer` ended: the bytes that went through are its first ones, they have
-- arrived, and all have unless a length that is not positive stopped it.
pub record Went {S : Type 0} (sink : S → List ℕ) (buffer : List ℕ) (s : S) (r : Moved S)
    : Type 0 where
  pub left : List ℕ
  pub first : buffer ≡ r.1.0 ++ left
  pub arrived : sink r.1.1 ≡ sink s ++ r.1.0
  pub whole : r.0 ≡ none → left ≡ []
  pub stopped : (len : ℤ) → r.0 ≡ some len → size len ≡ 0

Went-stop :
    {S : Type 0} (sink : S → List ℕ) (buffer : List ℕ) (s s' : S) (len : ℤ)
    → size len ≡ 0
    → sink s' ≡ sink s ++ take (size len) buffer
    → Went sink buffer s (some len, ([], s'))
Went-stop sink buffer s s' len zero_size there = record {
  left = buffer;
  first = refl;
  arrived = there ∙ ap (λ n. sink s ++ take n buffer) zero_size;
  whole = λ e. absurd (none-ne-some len (sym e));
  stopped = λ other e. ap size (sym (some-injective _ _ e)) ∙ zero_size;
}

Went-prepend :
    {S : Type 0} (sink : S → List ℕ) (buffer : List ℕ) (n : ℕ) (s s' : S) (r : Moved S)
    → sink s' ≡ sink s ++ take n buffer
    → Went sink (drop n buffer) s' r
    → Went sink buffer s (r.0, (take n buffer ++ r.1.0, r.1.1))
Went-prepend sink buffer n s s' r there w = record {
  left = w.left;
  first =
      sym (take-drop n buffer)
      ∙ ap (◌++◌ (take n buffer)) w.first
      ∙ sym (append_assoc (take n buffer) r.1.0 w.left);
  arrived = w.arrived ∙ ap (λ x. x ++ r.1.0) there ∙ append_assoc (sink s) (take n buffer) r.1.0;
  whole = w.whole;
  stopped = w.stopped;
}

abbrev rounded : {S : Type 0} → ℤ → List ℕ → S → Option (Moved S) → Option (Moved S)
rounded len buffer s' rest = elim len [
  | negsuc k ↦ some (some (negsuc k), ([], s'))
  | pos n ↦ if n == 0 then some (some (pos 0), ([], s')) else prepend (take n buffer) rest
]

rounded-Went :
    {S : Type 0} (sink : S → List ℕ) (buffer : List ℕ) (s s' : S) (len : ℤ)
    (rest : Option (Moved S))
    → sink s' ≡ sink s ++ take (size len) buffer
    → (0 < size len → (r : Moved S) × (rest ≡ some r) × Went sink (drop (size len) buffer) s' r)
    → (r : Moved S) × (rounded len buffer s' rest ≡ some r) × Went sink buffer s r
rounded-Went sink buffer s s' (negsuc k) rest there later =
    ((some (negsuc k), ([], s')), refl, Went-stop sink buffer s s' (negsuc k) refl there)
rounded-Went sink buffer s s' (pos zero) rest there later =
    ((some (pos 0), ([], s')), refl, Went-stop sink buffer s s' (pos 0) refl there)
rounded-Went sink buffer s s' (pos (suc k)) rest there later =
    let not_zero : (suc k == 0) ≡ false = ground arith in
    let (r, run, w) = later (omega arith) in
    (
      (r.0, (take (suc k) buffer ++ r.1.0, r.1.1)),
      rw (not_zero, run) refl,
      Went-prepend sink buffer (suc k) s s' r there w,
    )

Went-done :
    {S : Type 0} (sink : S → List ℕ) (buffer : List ℕ) (s : S)
    → (length buffer == 0) ≡ true
    → Went sink buffer s (none, ([], s))
Went-done sink [] s h = record {
  left = [];
  first = refl;
  arrived = sym (append-nil (sink s));
  whole = λ e. refl;
  stopped = λ len e. absurd (none-ne-some len e);
}
Went-done sink (x ∷ buffer) s h = absurd (ground arith)

write_loop-Went :
    {S : Type 0} (write : Writer S) (sink : S → List ℕ) (fuel : ℕ) (buffer : List ℕ) (s : S)
    → Accepts write sink
    → length buffer ≤ fuel
    → (r : Moved S) × (write_loop write fuel buffer s ≡ some r) × Went sink buffer s r
unfolding write_loop
write_loop-Went write sink zero buffer s a h =
    let finished : (length buffer == 0) ≡ true = ground arith in
    ((none, ([], s)), rw finished refl, Went-done sink buffer s finished)
write_loop-Went write sink (suc fuel) buffer s a h = elim (Bool-cases (length buffer == 0)) [
  | inl finished ↦ ((none, ([], s)), rw finished refl, Went-done sink buffer s finished)
  | inr more ↦
      let len = (write buffer s).0 in
      let s' = (write buffer s).1 in
      let (fits, there) = a buffer s in
      let (r, run, w) =
        rounded-Went sink buffer s s' len (write_loop write fuel (drop (size len) buffer) s') there
          (λ some_bytes.
            write_loop-Went write sink fuel (drop (size len) buffer) s' a
              (omega (arith, h, some_bytes, fits, length-drop (size len) buffer))) in
      (r, rw more run, w)
]

-- The result, from the length that stopped the loop.
abbrev pub outcome : ℕ → Option ℤ → ℤ
outcome n none = signed 32 (n % 2 ^ 32)
outcome n (some len) = len

write_fix_size-run :
    {S : Type 0} (write : Writer S) (buffer : List ℕ) (s : S) (r : Moved S)
    → write_loop write (length buffer) buffer s ≡ some r
    → write_fix_size write buffer s ≡ some (outcome (length buffer) r.0, r.1)
unfolding write_fix_size
write_fix_size-run write buffer s (none, moved) e = rw (write_fix_size, e) refl
write_fix_size-run write buffer s (some len, moved) e = rw (write_fix_size, e) refl

positive_result :
    (n : ℕ) (left : List ℕ) (stop : Option ℤ)
    → (stop ≡ none → left ≡ [])
    → ((len : ℤ) → stop ≡ some len → size len ≡ 0)
    → 0 < size (outcome n stop)
    → (left ≡ []) × (outcome n stop ≡ signed 32 (n % 2 ^ 32))
positive_result n left none whole stopped h = (whole refl, refl)
positive_result n left (some len) whole stopped h = let e = stopped len refl in absurd (omega arith)

-- With a `write` that keeps to its documentation `writeFixSize` ends. The other side has got the
-- first bytes of the buffer, in order and each once. A positive result is the length, as an int, and
-- means that it has got them all.
pub write_fix_size-Went :
    {S : Type 0} (write : Writer S) (sink : S → List ℕ) (buffer : List ℕ) (s : S)
    → Accepts write sink
    → (result : ℤ) × (moved : List ℕ) × (left : List ℕ) × (s' : S) × (write_fix_size write buffer s
        ≡ some (result, (moved, s')))
      × (buffer ≡ moved ++ left)
      × (sink s' ≡ sink s ++ moved)
      × (0 < size result → (left ≡ []) × (result ≡ signed 32 (length buffer % 2 ^ 32)))
write_fix_size-Went write sink buffer s a =
    let (r, run, w) = write_loop-Went write sink (length buffer) buffer s a (omega arith) in
    (
      outcome (length buffer) r.0,
      r.1.0,
      w.left,
      r.1.1,
      write_fix_size-run write buffer s r run,
      w.first,
      w.arrived,
      positive_result (length buffer) w.left r.0 w.whole w.stopped,
    )
