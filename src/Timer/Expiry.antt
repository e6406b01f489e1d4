-- ===== src/Timer/Expiry.antt =====
-- Which timers of yuyu/timer.cc have expired, and when the next one will.
use yuyu.Common.{
  ℕ, ◌-◌, ◌≤◌, ◌<◌, ◌≡◌, refl, ap, inl, inr, true, false, none, some, List, [], ◌∷◌, ◌++◌, arith,
  leb, ◌==◌, if◌then◌else◌, ==→eq, Bool-cases,
}
use yuyu.Timer.{
  Timer, Store, TimerManager, put, less, lower_bound, skip_equal, expire, get_next_timer,
}
use yuyu.Timer.Order.{Below, Sorted, contains, less-next, Below-contains}
use yuyu.Timer.Invariant.{IsValid, put-same, put-other, lacks-cons}

module _ {C : Type 0} (s : Store C) (now : ℕ) where
  -- The timers whose time has come, and the others, in their order.
  unfoldable pub due : List ℕ → List ℕ
  due [] = []
  due (y ∷ ys) = let rest = due ys in if leb (s y).next now then y ∷ rest else rest

  unfoldable pub later : List ℕ → List ℕ
  later [] = []
  later (y ∷ ys) = let rest = later ys in if leb (s y).next now then rest else y ∷ rest

  -- Behind a timer that is not due there is none.
  pub none_due :
      (y : ℕ) (ys : List ℕ) → now < (s y).next → Below s y ys → (due ys ≡ []) × (later ys ≡ ys)
  unfolding due later
  none_due y [] h b = (refl, refl)
  none_due y (z ∷ zs) h b =
      let not_due : leb (s z).next now ≡ false = ground (arith, less-next s y z b.0) in
      let (e, f) = none_due y zs h b.1 in (rw not_due e, rw (not_due, f) refl)

  abbrev NotOver : List ℕ → Type 0
  NotOver [] = Unit
  NotOver (y ∷ ys) = (now ≤ (s y).next) × NotOver ys

  not_over : (y : ℕ) (ys : List ℕ) → now ≤ (s y).next → Below s y ys → NotOver ys
  not_over y [] h b = tt
  not_over y (z ∷ zs) h b = (omega (arith, less-next s y z b.0), not_over y zs h b.1)

  -- From the first timer that is not over, the loop takes those that are due.
  skip_equal-due :
      (ys : List ℕ) → Sorted s ys → NotOver ys → skip_equal s now ys ≡ (due ys, later ys)
  unfolding skip_equal due later
  skip_equal-due [] o h = refl
  skip_equal-due (y ∷ ys) o h = elim (Bool-cases ((s y).next == now)) [
    | inl equal ↦
        let is_due : leb (s y).next now ≡ true = ground arith in
        let rest = skip_equal-due ys o.1 h.1 in rw (equal, is_due, rest) refl
    | inr other ↦
        let at_least = h.0 in
        let not_due : leb (s y).next now ≡ false = ground arith in
        let (e, f) = none_due y ys (ground arith) o.0 in rw (other, not_due, e, f) refl
  ]

  -- The whole search, with the key at an address that the set does not hold.
  module _ (tmp : ℕ) (key : Timer C) (at : key.next ≡ now) where
    abbrev searched : List ℕ → List ℕ × List ℕ
    searched ys =
        let (before, from) = lower_bound (put tmp key s) tmp ys in
        let (equal, rest) = skip_equal s now from in (before ++ equal, rest)

    key_less :
        (y : ℕ)
        → (y == tmp) ≡ false
        → (less (put tmp key s) (some y) (some tmp) ≡ true → (s y).next ≤ now)
          × (less (put tmp key s) (some y) (some tmp) ≡ false → now ≤ (s y).next)
    unfolding less
    key_less y other =
        rw (put-other s tmp key y other, put-same s tmp key, at)
          ((λ h. ground arith), (λ h. ground arith))

    searched-due :
        (ys : List ℕ) → Sorted s ys → contains tmp ys ≡ false → searched ys ≡ (due ys, later ys)
    unfolding lower_bound skip_equal due later
    searched-due [] o fresh = refl
    searched-due (y ∷ ys) o fresh =
        let (other, there) = lacks-cons tmp y ys fresh in
        let (if_less, if_not) = key_less y other in
        elim (Bool-cases (less (put tmp key s) (some y) (some tmp))) [
          | inl before ↦
              let is_due : leb (s y).next now ≡ true = ground (arith, if_less before) in
              let rest = searched-due ys o.1 there in
              rw (before, is_due) (ap (λ r. (y ∷ r.0, r.1)) rest)
          | inr from ↦
              let here = if_not from in
              rw from (skip_equal-due (y ∷ ys) o (here, not_over y ys here o.0))
        ]

-- With a valid manager and no rollover the search takes exactly the timers whose time is not after
-- `now`, whatever address outside the set the key of the search has.
pub expire-due :
    {C : Type 0} (now tmp : ℕ) (m : TimerManager C)
    → IsValid m
    → contains tmp m.timers ≡ false
    → expire now tmp false m ≡ (due m.store now m.timers, later m.store now m.timers)
unfolding expire
expire-due now tmp m v fresh =
    searched-due m.store now tmp (record { ms = 0; cb = none; recurring = false; next = now }) refl
      m.timers v.sorted fresh

-- With a valid manager that has timers `getNextTimer` returns the time to the first one, and no
-- timer of the set is due sooner.
pub get_next_timer-first :
    {C : Type 0} (now x : ℕ) (xs : List ℕ) (m : TimerManager C)
    → IsValid m
    → m.timers ≡ x ∷ xs
    → ((a : ℕ) → contains a m.timers ≡ true → (get_next_timer now m).0 ≤ (m.store a).next - now)
      × ((get_next_timer now m).0 ≡ (m.store x).next - now)
unfolding get_next_timer
get_next_timer-first now x xs m v e = rw e (
  (λ a h. elim (Bool-cases (a == x)) [
    | inl same ↦ rw (==→eq a x same) ground arith
    | inr other ↦
        let after =
          less-next m.store x a
            (Below-contains m.store x a xs (rw e at v.sorted).0 (rw other at h)) in
        ground (arith, after)
  ]),
  ground arith,
)
