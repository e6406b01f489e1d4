-- ===== src/Timer/Rescheduling.antt =====
-- `refresh` and `reset` of yuyu/timer.cc take a timer out of the set before they change its time,
-- and put it back behind the change.
use yuyu.Common.{
  is_some, ℕ, ◌≡◌, refl, ◌∙◌, inl, inr, Bool, true, not, ◌&&◌, ◌||◌, some, List, ◌==◌,
  if◌then◌else◌, Bool-cases,
}
use yuyu.Timer.{Timer, TimerManager, put, insert, find_erase, add, refresh, reset, add64, sub64}
use yuyu.Timer.Order.{find_erase-Erased}
use yuyu.Timer.Invariant.{IsValid, put-same, put-other, Sorted-put, insert-IsValid}

-- An armed timer is found, and may be put back with any time.
moved-IsValid :
    {C : Type 0} (a : ℕ) (t : Timer C) (m : TimerManager C)
    → IsValid m
    → is_some (m.store a).cb ≡ true
    → (ys : List ℕ) × (find_erase m.store a m.timers ≡ some ys)
      × ((tickled : Bool)
          → IsValid (record m {
            store = put a t m.store;
            timers = insert (put a t m.store) a ys;
            tickled = tickled;
          }))
moved-IsValid a t m v h =
    let (ys, run, e) = find_erase-Erased m.store a m.timers v.sorted (v.armed a h) in
    (
      ys,
      run,
      λ tickled.
          insert-IsValid a tickled (record m { store = put a t m.store; timers = ys })
            (Sorted-put m.store a t ys e.gone e.sorted)
            (λ b other k. e.others b other ∙ v.armed b (rw (put-other m.store a t b other) at k)),
    )

-- With a valid manager `refresh` succeeds exactly on a timer with a callback, whose time is then its
-- period from now, and keeps the manager valid. Without a callback the time is left.
pub refresh-IsValid :
    {C : Type 0} (a now : ℕ) (m : TimerManager C)
    → IsValid m
    → ((refresh a now m).0 ≡ is_some (m.store a).cb)
      × IsValid (refresh a now m).1
      × (((refresh a now m).1.store a).next
          ≡ (if is_some (m.store a).cb then add64 now (m.store a).ms else (m.store a).next))
unfolding refresh
refresh-IsValid a now m v = elim (Bool-cases (is_some (m.store a).cb)) [
  | inl armed ↦
      let t = record (m.store a) { next = add64 now (m.store a).ms } in
      let (ys, run, valid) = moved-IsValid a t m v armed in
      rw (armed, run) (refl, valid m.tickled, rw (put-same m.store a t) refl)
  | inr idle ↦ rw idle (refl, v, refl)
]

-- With a valid manager `reset` succeeds exactly when there is nothing to change or the timer has a
-- callback, and it keeps the manager valid.
pub reset-IsValid :
    {C : Type 0} (a now ms : ℕ) (from_now : Bool) (m : TimerManager C)
    → IsValid m
    → ((reset a now ms from_now m).0.0
        ≡ ((ms == (m.store a).ms) && not from_now) || is_some (m.store a).cb)
      × IsValid (reset a now ms from_now m).1
unfolding reset add
reset-IsValid a now ms from_now m v = elim (Bool-cases ((ms == (m.store a).ms) && not from_now)) [
  | inl nothing ↦ rw nothing (refl, v)
  | inr change ↦ rw change (elim (Bool-cases (is_some (m.store a).cb)) [
    | inl armed ↦
        let start = if from_now then now else sub64 (m.store a).next (m.store a).ms in
        let t = record (m.store a) { ms = ms; next = add64 start ms } in
        let (ys, run, valid) = moved-IsValid a t m v armed in rw (armed, run) (refl, valid _)
    | inr idle ↦ rw idle (refl, v)
  ])
]
