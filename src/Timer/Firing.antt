-- ===== src/Timer/Firing.antt =====
-- The second half of `listExpiredCb` in yuyu/timer.cc: the callbacks of the expired timers are
-- collected, and the recurring ones go back into the set.
use yuyu.Common.{
  is_some, ℕ, ◌≡◌, refl, sym, ap, ◌∙◌, inl, inr, Bool, true, false, true≢false, ◌||◌, Option, List,
  [], ◌∷◌, ◌++◌, map, append-nil, append_assoc, arith, ◌==◌, if◌then◌else◌, ==→eq, Bool-cases,
}
use yuyu.Timer.{Timer, TimerManager, put, insert, fire, fire_all}
use yuyu.Timer.Order.{Sorted, contains, insert-Sorted, contains-insert}
use yuyu.Timer.Invariant.{put-same, put-other, lacks-cons, Sorted-put}

-- No timer stands twice.
abbrev pub Distinct : List ℕ → Type 0
Distinct [] = Unit
Distinct (x ∷ xs) = (contains x xs ≡ false) × Distinct xs

-- The state of the loop: the timers `xs` are out of the set and still to be fired.
pub record Pending {C : Type 0} (xs : List ℕ) (m : TimerManager C) : Type 0 where
  pub sorted : Sorted m.store m.timers
  pub armed :
      (b : ℕ) → is_some (m.store b).cb ≡ true → (contains b m.timers || contains b xs) ≡ true
  pub apart : (b : ℕ) → contains b xs ≡ true → contains b m.timers ≡ false
  pub distinct : Distinct xs

contains_self : (x : ℕ) (xs : List ℕ) → contains x (x ∷ xs) ≡ true
contains_self x xs = ground arith

module _ {C : Type 0} (x : ℕ) (xs : List ℕ) (m : TimerManager C) (p : Pending (x ∷ xs) m) where
  out : contains x m.timers ≡ false
  out = p.apart x (contains_self x xs)

  unlike : (b : ℕ) → contains b xs ≡ true → (b == x) ≡ false
  unlike b h = elim (Bool-cases (b == x)) [
    | inl same ↦ absurd (true≢false (sym h ∙ rw (==→eq b x same) p.distinct.0))
    | inr other ↦ other
  ]

  apart_tail : (b : ℕ) → contains b xs ≡ true → contains b m.timers ≡ false
  apart_tail b h = p.apart b (rw (unlike b h) h)

  armed_other :
      (t : Timer C) (b : ℕ)
      → (b == x) ≡ false
      → is_some (put x t m.store b).cb ≡ true
      → (contains b m.timers || contains b xs) ≡ true
  armed_other t b other h = rw other at (p.armed b (rw (put-other m.store x t b other) at h))

  -- A timer goes back into the set, with any change.
  settle_again :
      (t : Timer C)
      → Pending xs
          (record m { store = put x t m.store; timers = insert (put x t m.store) x m.timers })
  settle_again t = record {
    sorted =
        insert-Sorted (put x t m.store) x m.timers (Sorted-put m.store x t m.timers out p.sorted);
    armed = λ b h. rw (contains-insert (put x t m.store) b x m.timers) (elim (Bool-cases (b == x)) [
      | inl same ↦ rw same refl
      | inr other ↦ rw other (armed_other t b other h)
    ]);
    apart =
        λ b h. contains-insert (put x t m.store) b x m.timers ∙ rw (unlike b h) (apart_tail b h);
    distinct = p.distinct.1;
  }

  -- A timer without a callback may stay outside.
  settle_once :
      (t : Timer C) → is_some t.cb ≡ false → Pending xs (record m { store = put x t m.store })
  settle_once t none_left = record {
    sorted = Sorted-put m.store x t m.timers out p.sorted;
    armed = λ b h. elim (Bool-cases (b == x)) [
      | inl same ↦ absurd (
          true≢false (
            sym h
            ∙ ap (λ a. is_some (put x t m.store a).cb) (==→eq b x same)
            ∙ ap (λ u. is_some u.cb) (put-same m.store x t)
            ∙ none_left))
      | inr other ↦ armed_other t b other h
    ];
    apart = apart_tail;
    distinct = p.distinct.1;
  }

if-Pending :
    {C : Type 0} (r : Bool) (xs : List ℕ) (m m' : TimerManager C)
    → Pending xs m
    → Pending xs m'
    → Pending xs (if r then m else m')
if-Pending true xs m m' p p' = p
if-Pending false xs m m' p p' = p'

-- A round settles one timer.
fire-Pending :
    {C : Type 0} (now x : ℕ) (xs : List ℕ) (m : TimerManager C)
    → Pending (x ∷ xs) m
    → Pending xs (fire now x m)
unfolding fire
fire-Pending now x xs m p =
    if-Pending (m.store x).recurring xs _ _ (settle_again x xs m p _) (settle_once x xs m p _ refl)

-- It changes no other timer.
fire-other :
    {C : Type 0} (now x b : ℕ) (m : TimerManager C)
    → (b == x) ≡ false
    → (fire now x m).store b ≡ m.store b
unfolding fire
fire-other now x b m h = elim (Bool-cases (m.store x).recurring) [
  | inl again ↦ rw again (put-other m.store x _ b h)
  | inr once ↦ rw once (put-other m.store x _ b h)
]

-- The callback of a timer.
abbrev pub callback : {C : Type 0} → TimerManager C → ℕ → Option C
callback m a = (m.store a).cb

same_callbacks :
    {C : Type 0} (now x : ℕ) (xs : List ℕ) (m : TimerManager C)
    → contains x xs ≡ false
    → map (callback (fire now x m)) xs ≡ map (callback m) xs
same_callbacks now x [] m h = refl
same_callbacks now x (y ∷ ys) m h =
    let (here, there) = lacks-cons x y ys h in
    λ i. (fire-other now x y m here i).cb ∷ same_callbacks now x ys m there i

-- All of the loop.
pub fire_all-Pending :
    {C : Type 0} (now : ℕ) (xs : List ℕ) (cbs : List (Option C)) (m : TimerManager C)
    → Pending xs m
    → ((fire_all now xs cbs m).0 ≡ cbs ++ map (callback m) xs)
      × Pending [] (fire_all now xs cbs m).1
unfolding fire_all
fire_all-Pending now [] cbs m p = (sym (append-nil cbs), p)
fire_all-Pending now (x ∷ xs) cbs m p =
    let (taken, left) =
      fire_all-Pending now xs (cbs ++ ((m.store x).cb ∷ [])) (fire now x m)
        (fire-Pending now x xs m p) in
    (
      taken
          ∙ ap (λ zs. (cbs ++ (callback m x ∷ [])) ++ zs) (same_callbacks now x xs m p.distinct.0)
          ∙ append_assoc cbs (callback m x ∷ []) (map (callback m) xs),
      left,
    )
