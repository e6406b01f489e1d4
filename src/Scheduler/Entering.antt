-- ===== src/Scheduler/Entering.antt =====
-- From the queue to the swapIn in the `run` of yuyu/scheduler.cc, for one thread with no other
-- thread beside it.
use yuyu.Fiber.{is_over, Code, Fiber, new_fiber, is_reusable, is_exec, reset_fiber, swap_in}
use yuyu.Scheduler.{
  FiberAndThread, Scheduler, Worker, Place, looking, in_fiber, in_cb, load_cb, enter_cb, enter_idle,
  enter,
}
use yuyu.Scheduler.Running.{IsSpare}
use yuyu.Scheduler.Queue.{HasWork}
use yuyu.Common.{
  ℕ, suc, ◌≡◌, inl, inr, true, false, Option, none, some, arith, ◌==◌, if◌then◌else◌, Bool-cases,
  Option-cases, All,
}

-- What holds of a thread and the scheduler between two rounds.
pub record IsQuiet (w : Worker) (s : Scheduler) : Type 0 where
  pub works : All HasWork s.tasks
  pub quiet : (id : ℕ) → is_exec (s.fibers id).state ≡ false
  pub kept : (id : ℕ) → w.cb_fiber ≡ some id → IsSpare (s.fibers id)
  pub rests : is_exec w.idle_state ≡ false

-- The fiber and the code that a task stands for, when it is taken.
abbrev pub callback : Worker → Scheduler → Option Code → Option (ℕ × Code)
callback w s none = none
callback w s (some c) = some (elim w.cb_fiber [ some id ↦ id | none ↦ suc s.last_id ], c)

abbrev pub work_of : Worker → Scheduler → FiberAndThread → Option (ℕ × Code)
work_of w s ft = elim ft.fiber [
  | none ↦ callback w s ft.cb
  | some id ↦
      if is_over (s.fibers id).state then callback w s ft.cb else some (id, (s.fibers id).rest)
]

pub record Inside (id : ℕ) (c : Code) (s s' : Scheduler) : Type 0 where
  pub queue : s'.tasks ≡ s.tasks
  pub code : (s'.fibers id).rest ≡ c
  pub others : (other : ℕ) → (other == id) ≡ false → s'.fibers other ≡ s.fibers other

IsSpare-reusable : (f : Fiber) → IsSpare f → is_reusable f.state ≡ true
IsSpare-reusable f k = ground arith

pub enter_cb-total :
    (c : Code) (w : Worker) (s : Scheduler)
    → IsQuiet w s
    → (r : Place × Worker × Scheduler) × (enter_cb c w s ≡ some r)
unfolding enter_cb load_cb reset_fiber swap_in new_fiber
enter_cb-total c w s v = elim (Option-cases (enter_cb c w s)) [
  | inr r ↦ r
  | inl fails ↦ elim (Option-cases w.cb_fiber) [
    | inl e ↦ ground arith
    | inr (id, e) ↦
        let stack = (v.kept id e).stack in
        let over = IsSpare-reusable (s.fibers id) (v.kept id e) in ground arith
  ]
]

pub record InCb (c : Code) (w : Worker) (s : Scheduler) (p : Place) (w' : Worker) (s' : Scheduler)
    : Type 0 where
  pub id : ℕ
  pub place : p ≡ in_cb id
  pub worker : w' ≡ record w { cb_fiber = some id }
  pub found : callback w s (some c) ≡ some (id, c)
  pub stack : (s'.fibers id).has_stack ≡ true
  pub inside : Inside id c s s'

pub enter_cb-InCb :
    (c : Code) (w w' : Worker) (s s' : Scheduler) (p : Place)
    → IsQuiet w s
    → enter_cb c w s ≡ some (p, w', s')
    → InCb c w s p w' s'
unfolding enter_cb load_cb reset_fiber swap_in new_fiber
enter_cb-InCb c w w' s s' p v r = elim (Option-cases w.cb_fiber) [
  | inl e ↦ record {
    id = suc s.last_id;
    place = ground arith;
    worker = ground arith;
    found = ground arith;
    stack = ground arith;
    inside = record { queue = ground arith; code = ground arith; others = λ other h. ground arith };
  }
  | inr (id, e) ↦
      let has = (v.kept id e).stack in
      let over = IsSpare-reusable (s.fibers id) (v.kept id e) in
      record {
        id = id;
        place = ground arith;
        worker = ground arith;
        found = ground arith;
        stack = ground arith;
        inside = record {
          queue = ground arith;
          code = ground arith;
          others = λ other h. ground arith;
        };
      }
]

-- What became of a task that the loop has taken.
pub data Entered (ft : FiberAndThread) (w : Worker) (s : Scheduler) (p : Place) (w' : Worker)
    (s' : Scheduler) : Type 0 where
  skips :
      work_of w s ft ≡ none
      → p ≡ looking
      → w' ≡ w
      → s'.tasks ≡ s.tasks
      → s'.fibers ≡ s.fibers
      → Entered ft w s p w' s'
  resumes :
      (id : ℕ)
      → is_over (s.fibers id).state ≡ false
      → (s'.fibers id).has_stack ≡ (s.fibers id).has_stack
      → work_of w s ft ≡ some (id, (s.fibers id).rest)
      → p ≡ in_fiber id
      → w' ≡ w
      → Inside id ((s.fibers id).rest) s s'
      → Entered ft w s p w' s'
  calls :
      (c : Code)
      → work_of w s ft ≡ callback w s (some c)
      → InCb c w s p w' s'
      → Entered ft w s p w' s'

pub enter-total :
    (ft : FiberAndThread) (w : Worker) (s : Scheduler)
    → IsQuiet w s
    → (r : Place × Worker × Scheduler) × (enter (some ft) w s ≡ some r)
unfolding enter swap_in enter_idle
enter-total ft w s v = elim (Option-cases (enter (some ft) w s)) [
  | inr r ↦ r
  | inl fails ↦ elim (Option-cases ft.cb) [
    | inl without ↦ elim (Option-cases ft.fiber) [
      | inl e ↦ ground arith
      | inr (id, e) ↦ let q = v.quiet id in ground arith
    ]
    | inr (c, e) ↦
        let (r, done) = enter_cb-total c w s v in
        elim (Option-cases ft.fiber) [
          | inl e' ↦ ground arith
          | inr (id, e') ↦ let q = v.quiet id in ground arith
        ]
  ]
]

pub enter-Entered :
    (ft : FiberAndThread) (w w' : Worker) (s s' : Scheduler) (p : Place)
    → IsQuiet w s
    → enter (some ft) w s ≡ some (p, w', s')
    → Entered ft w s p w' s'
unfolding enter swap_in enter_idle
enter-Entered ft w w' s s' p v r = elim (Option-cases ft.cb) [
  | inl without ↦ elim (Option-cases ft.fiber) [
    | inl e ↦ skips (ground arith) (ground arith) (ground arith) (ground arith) (ground arith)
    | inr (id, e) ↦
        let q = v.quiet id in
        elim (Bool-cases (is_over (s.fibers id).state)) [
          | inl over ↦
              skips (ground arith) (ground arith) (ground arith) (ground arith) (ground arith)
          | inr live ↦
              resumes id live (ground arith) (ground arith) (ground arith) (ground arith) (record {
                queue = ground arith;
                code = ground arith;
                others = λ other h. ground arith;
              })
        ]
  ]
  | inr (c, e) ↦ elim (Option-cases ft.fiber) [
    | inl e' ↦ calls c (ground arith) (enter_cb-InCb c w w' s s' p v (ground arith))
    | inr (id, e') ↦
        let q = v.quiet id in
        elim (Bool-cases (is_over (s.fibers id).state)) [
          | inl over ↦ calls c (ground arith) (enter_cb-InCb c w w' s s' p v (ground arith))
          | inr live ↦
              resumes id live (ground arith) (ground arith) (ground arith) (ground arith) (record {
                queue = ground arith;
                code = ground arith;
                others = λ other h. ground arith;
              })
        ]
  ]
]
