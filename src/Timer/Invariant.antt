-- ===== src/Timer/Invariant.antt =====
-- The calls of yuyu/timer.cc keep the set in order, and keep every armed timer in it.
use yuyu.Common.{
  is_some, ℕ, ◌≡◌, refl, sym, ap, ◌∙◌, inl, inr, Bool, true, false, true≢false, Option, none, some,
  List, [], ◌∷◌, arith, ◌==◌, ==→eq, Bool-cases,
}
use yuyu.Timer.{
  Timer, Store, TimerManager, put, less, insert, new_timer, add, add_timer, cancel, new_manager,
}
use yuyu.Timer.Order.{Below, Sorted, contains, insert-Sorted, contains-insert, find_erase-Erased}

-- The set is sorted by the present times of its timers, and a timer with a callback is in it.
pub record IsValid {C : Type 0} (m : TimerManager C) : Type 0 where
  pub sorted : Sorted m.store m.timers
  pub armed : (a : ℕ) → is_some (m.store a).cb ≡ true → contains a m.timers ≡ true

pub lacks-cons :
    (a x : ℕ) (xs : List ℕ)
    → contains a (x ∷ xs) ≡ false
    → ((x == a) ≡ false) × (contains a xs ≡ false)
lacks-cons a x xs h = elim (Bool-cases (a == x)) [
  | inl same ↦ absurd (true≢false (rw same at h))
  | inr other ↦ (ground arith, rw other at h)
]

module _ {C : Type 0} (s : Store C) (a : ℕ) (t : Timer C) where
  pub put-same : put a t s a ≡ t
  put-same = ground arith

  pub put-other : (b : ℕ) → (b == a) ≡ false → put a t s b ≡ s b
  put-other b h = ground arith

  less-put :
      (x y : ℕ)
      → (x == a) ≡ false
      → (y == a) ≡ false
      → less (put a t s) (some x) (some y) ≡ less s (some x) (some y)
  unfolding less
  less-put x y hx hy = rw (put-other x hx, put-other y hy) refl

  Below-put :
      (x : ℕ) (ys : List ℕ)
      → (x == a) ≡ false
      → contains a ys ≡ false
      → Below s x ys
      → Below (put a t s) x ys
  Below-put x [] hx h b = tt
  Below-put x (y ∷ ys) hx h b =
      let (here, there) = lacks-cons a y ys h in
      (less-put x y hx here ∙ b.0, Below-put x ys hx there b.1)

  -- A timer outside the set may change.
  pub Sorted-put : (xs : List ℕ) → contains a xs ≡ false → Sorted s xs → Sorted (put a t s) xs
  Sorted-put [] h o = tt
  Sorted-put (x ∷ xs) h o =
      let (here, there) = lacks-cons a x xs h in
      (Below-put x xs here there o.0, Sorted-put xs there o.1)

-- Only the times count for the order.
module _ {C : Type 0} (s s' : Store C) (same : (x : ℕ) → (s' x).next ≡ (s x).next) where
  less-times : (x y : ℕ) → less s' (some x) (some y) ≡ less s (some x) (some y)
  unfolding less
  less-times x y = rw (same x, same y) refl

  Below-times : (x : ℕ) (ys : List ℕ) → Below s x ys → Below s' x ys
  Below-times x [] b = tt
  Below-times x (y ∷ ys) b = (less-times x y ∙ b.0, Below-times x ys b.1)

  Sorted-times : (xs : List ℕ) → Sorted s xs → Sorted s' xs
  Sorted-times [] o = tt
  Sorted-times (x ∷ xs) o = (Below-times x xs o.0, Sorted-times xs o.1)

-- Inserting a timer whose place is the only thing amiss.
pub insert-IsValid :
    {C : Type 0} (a : ℕ) (tickled : Bool) (m : TimerManager C)
    → Sorted m.store m.timers
    → ((b : ℕ) → (b == a) ≡ false → is_some (m.store b).cb ≡ true → contains b m.timers ≡ true)
    → IsValid (record m { timers = insert m.store a m.timers; tickled = tickled })
insert-IsValid a tickled m o armed = record {
  sorted = insert-Sorted m.store a m.timers o;
  armed = λ b h. contains-insert m.store b a m.timers ∙ elim (Bool-cases (b == a)) [
    | inl same ↦ rw same refl
    | inr other ↦ rw (other, armed b other h) refl
  ];
}

pub new_manager-IsValid : {C : Type 0} (now : ℕ) → IsValid (new_manager {C = C} now)
unfolding new_manager
new_manager-IsValid now = record { sorted = tt; armed = λ a h. absurd (true≢false (sym h)) }

-- `addTimer` keeps the manager valid, when the address of the new timer is not in the set.
pub add_timer-IsValid :
    {C : Type 0} (a now ms : ℕ) (cb : Option C) (recurring : Bool) (m : TimerManager C)
    → IsValid m
    → contains a m.timers ≡ false
    → IsValid (add_timer a now ms cb recurring m).1
unfolding add_timer add
add_timer-IsValid a now ms cb recurring m v fresh =
    let t = new_timer now ms cb recurring in
    insert-IsValid a _ (record m { store = put a t m.store })
      (Sorted-put m.store a t m.timers fresh v.sorted)
      (λ b other h. v.armed b (sym (ap (λ u. is_some u.cb) (put-other m.store a t b other)) ∙ h))

-- Without its callback a timer keeps its place.
abbrev disarmed : {C : Type 0} → Timer C → Timer C
disarmed t = record t { cb = none }

disarmed-next :
    {C : Type 0} (s : Store C) (a x : ℕ) → (put a (disarmed (s a)) s x).next ≡ (s x).next
disarmed-next s a x = elim (Bool-cases (a == x)) [
  | inl same ↦ rw (same, ==→eq a x same) refl
  | inr other ↦ rw other refl
]

-- With a valid manager `cancel` never erases the end of the set: it says whether there was a
-- callback, keeps the manager valid, and leaves no callback behind.
pub cancel-IsValid :
    {C : Type 0} (a : ℕ) (m : TimerManager C)
    → IsValid m
    → (m' : TimerManager C) × (cancel a m ≡ some (is_some (m.store a).cb, m'))
      × IsValid m'
      × (is_some (m'.store a).cb ≡ false)
unfolding cancel
cancel-IsValid a m v = elim (Bool-cases (is_some (m.store a).cb)) [
  | inl armed ↦
      let t = record (m.store a) { cb = none } in
      let store = put a t m.store in
      let (ys, run, e) =
        find_erase-Erased store a m.timers
          (Sorted-times m.store store (disarmed-next m.store a) m.timers v.sorted)
          (v.armed a armed) in
      (
        record m { store = store; timers = ys },
        rw (armed, run) refl,
        record {
          sorted = e.sorted;
          armed = λ b h. elim (Bool-cases (b == a)) [
            | inl same ↦
                absurd (true≢false (sym h ∙ rw (==→eq b a same, put-same m.store a t) refl))
            | inr other ↦ e.others b other ∙ v.armed b (rw (put-other m.store a t b other) at h)
          ];
        },
        rw (put-same m.store a t) refl,
      )
  | inr idle ↦ (m, rw idle refl, v, idle)
]
