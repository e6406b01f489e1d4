-- ===== src/Scheduler/Running.antt =====
-- One thread in the `run` of yuyu/scheduler.cc with no other thread beside it: its rounds, the
-- assertions on the way, and the tasks it comes to.
use yuyu.Fiber.{
  is_over, Code, Fiber, State, hold, term, ready, except, returns, throws, to_hold, to_ready,
  schedule_fiber, schedule_cb, init, is_exec, reset_fiber, main_returned, main_threw, yield_to_hold,
  yield_to_ready,
}
use yuyu.Scheduler.{
  FiberAndThread, Scheduler, Worker, of_fiber, of_cb, has_work, put, schedule, run_code,
  settle_fiber, settle_cb,
}
use yuyu.Scheduler.Queue.{HasWork}
use yuyu.Common.{
  ℕ, ◌≡◌, refl, sym, ap, ◌∙◌, ◌⊎◌, inl, inr, true, false, true≢false, Bool, none, some, List, [],
  ◌∷◌, ◌++◌, append-nil, append_assoc, arith, ◌==◌, Option-cases, All,
}

-- What a fiber schedules until it swaps out, and what it is then.
abbrev pub scheduled : Code → List FiberAndThread
scheduled returns = []
scheduled throws = []
scheduled (to_hold rest) = []
scheduled (to_ready rest) = []
scheduled (schedule_fiber id thread rest) = of_fiber id thread ∷ scheduled rest
scheduled (schedule_cb cb thread rest) = of_cb cb thread ∷ scheduled rest

unfoldable pub left : Code → Fiber → Fiber
left returns f = main_returned f
left throws f = main_threw f
left (to_hold rest) f = yield_to_hold rest f
left (to_ready rest) f = yield_to_ready rest f
left (schedule_fiber id thread rest) f = left rest f
left (schedule_cb cb thread rest) f = left rest f

pub record Ran (id : ℕ) (c : Code) (s s' : Scheduler) : Type 0 where
  pub queue : s'.tasks ≡ s.tasks ++ scheduled c
  pub store : s'.fibers ≡ put id (left c (s.fibers id)) s.fibers

schedule-tasks :
    (ft : FiberAndThread) (s : Scheduler)
    → has_work ft ≡ true
    → ((schedule ft s).tasks ≡ s.tasks ++ (ft ∷ [])) × ((schedule ft s).fibers ≡ s.fibers)
unfolding schedule
schedule-tasks ft s h = ground arith

pub run_code-Ran : (id : ℕ) (c : Code) (s : Scheduler) → Ran id c s (run_code id c s)
unfolding run_code left
run_code-Ran id returns s = record { queue = sym (append-nil s.tasks); store = refl }
run_code-Ran id throws s = record { queue = sym (append-nil s.tasks); store = refl }
run_code-Ran id (to_hold rest) s = record { queue = sym (append-nil s.tasks); store = refl }
run_code-Ran id (to_ready rest) s = record { queue = sym (append-nil s.tasks); store = refl }
run_code-Ran id (schedule_fiber other thread rest) s =
    let ft = of_fiber other thread in
    let (q, f) = schedule-tasks ft s refl in
    let r = run_code-Ran id rest (schedule ft s) in
    record {
      queue = cc (r.queue, q, append_assoc s.tasks (ft ∷ []) (scheduled rest));
      store = r.store ∙ ap (λ fs. put id (left rest (fs id)) fs) f;
    }
run_code-Ran id (schedule_cb cb thread rest) s =
    let ft = of_cb cb thread in
    let (q, f) = schedule-tasks ft s refl in
    let r = run_code-Ran id rest (schedule ft s) in
    record {
      queue = cc (r.queue, q, append_assoc s.tasks (ft ∷ []) (scheduled rest));
      store = r.store ∙ ap (λ fs. put id (left rest (fs id)) fs) f;
    }

-- The state in which a fiber is left.
pub data HasLeft : State → Type 0 where
  on_hold : HasLeft hold
  is_ready : HasLeft ready
  has_returned : HasLeft term
  has_thrown : HasLeft except

abbrev pub end_state : Code → State
end_state returns = term
end_state throws = except
end_state (to_hold rest) = hold
end_state (to_ready rest) = ready
end_state (schedule_fiber id thread rest) = end_state rest
end_state (schedule_cb cb thread rest) = end_state rest

pub end_state-HasLeft : (c : Code) → HasLeft (end_state c)
end_state-HasLeft returns = has_returned
end_state-HasLeft throws = has_thrown
end_state-HasLeft (to_hold rest) = on_hold
end_state-HasLeft (to_ready rest) = is_ready
end_state-HasLeft (schedule_fiber id thread rest) = end_state-HasLeft rest
end_state-HasLeft (schedule_cb cb thread rest) = end_state-HasLeft rest

pub left-state : (c : Code) (f : Fiber) → (left c f).state ≡ end_state c
unfolding left main_returned main_threw yield_to_hold yield_to_ready
left-state returns f = refl
left-state throws f = refl
left-state (to_hold rest) f = refl
left-state (to_ready rest) f = refl
left-state (schedule_fiber id thread rest) f = left-state rest f
left-state (schedule_cb cb thread rest) f = left-state rest f

pub left-has_stack : (c : Code) (f : Fiber) → (left c f).has_stack ≡ f.has_stack
unfolding left main_returned main_threw yield_to_hold yield_to_ready
left-has_stack returns f = refl
left-has_stack throws f = refl
left-has_stack (to_hold rest) f = refl
left-has_stack (to_ready rest) f = refl
left-has_stack (schedule_fiber id thread rest) f = left-has_stack rest f
left-has_stack (schedule_cb cb thread rest) f = left-has_stack rest f

pub scheduled-HasWork : (c : Code) → All HasWork (scheduled c)
scheduled-HasWork returns = tt
scheduled-HasWork throws = tt
scheduled-HasWork (to_hold rest) = tt
scheduled-HasWork (to_ready rest) = tt
scheduled-HasWork (schedule_fiber id thread rest) = (refl, scheduled-HasWork rest)
scheduled-HasWork (schedule_cb cb thread rest) = (refl, scheduled-HasWork rest)

-- What is left to run of a fiber that yields.
abbrev pub yields : State → Bool
yields hold = true
yields ready = true
yields _ = false

abbrev pub left_over : Code → Code
left_over returns = returns
left_over throws = throws
left_over (to_hold rest) = rest
left_over (to_ready rest) = rest
left_over (schedule_fiber id thread rest) = left_over rest
left_over (schedule_cb cb thread rest) = left_over rest

pub left-rest : (c : Code) (f : Fiber) → yields (end_state c) ≡ true → (left c f).rest ≡ left_over c
unfolding left yield_to_hold yield_to_ready
left-rest returns f h = absurd (true≢false (sym h))
left-rest throws f h = absurd (true≢false (sym h))
left-rest (to_hold rest) f h = refl
left-rest (to_ready rest) f h = refl
left-rest (schedule_fiber id thread rest) f h = left-rest rest f h
left-rest (schedule_cb cb thread rest) f h = left-rest rest f h

-- A fiber in the same state and at the same place.
abbrev pub Stays : Fiber → Fiber → Type 0
Stays f g = (g.state ≡ f.state) × (g.rest ≡ f.rest)

pub settle_fiber-Stays :
    (id : ℕ) (t : Scheduler) (st : State)
    → HasLeft st
    → (t.fibers id).state ≡ st
    → yields st ≡ true
    → Stays (t.fibers id) ((settle_fiber id t).fibers id)
unfolding settle_fiber schedule
settle_fiber-Stays id t st on_hold e h = (ground arith, ground arith)
settle_fiber-Stays id t st is_ready e h = (ground arith, ground arith)
settle_fiber-Stays id t st has_returned e h = absurd (true≢false (sym h))
settle_fiber-Stays id t st has_thrown e h = absurd (true≢false (sym h))

pub settle_cb-Stays :
    (id : ℕ) (w w' : Worker) (t t' : Scheduler) (st : State)
    → HasLeft st
    → (t.fibers id).state ≡ st
    → yields st ≡ true
    → settle_cb id w t ≡ some (w', t')
    → Stays (t.fibers id) (t'.fibers id)
unfolding settle_cb schedule
settle_cb-Stays id w w' t t' st on_hold e h r = (ground arith, ground arith)
settle_cb-Stays id w w' t t' st is_ready e h r = (ground arith, ground arith)
settle_cb-Stays id w w' t t' st has_returned e h r = absurd (true≢false (sym h))
settle_cb-Stays id w w' t t' st has_thrown e h r = absurd (true≢false (sym h))

-- What the loop appends for a fiber that yielded to ready.
abbrev pub again : ℕ → State → List FiberAndThread
again id ready = of_fiber id none ∷ []
again id _ = []

-- The queue has grown by `more`, the fiber `id` is not running, and the others are as they were.
pub record Grown (id : ℕ) (more : List FiberAndThread) (s s' : Scheduler) : Type 0 where
  pub queue : s'.tasks ≡ s.tasks ++ more
  pub own : is_exec (s'.fibers id).state ≡ false
  pub others : (other : ℕ) → (other == id) ≡ false → s'.fibers other ≡ s.fibers other

pub put_other :
    (id other : ℕ) (f : Fiber) (fs : ℕ → Fiber)
    → (other == id) ≡ false
    → put id f fs other ≡ fs other
put_other id other f fs h = rw h refl

pub put_self : (id : ℕ) (f : Fiber) (fs : ℕ → Fiber) → put id f fs id ≡ f
put_self id f fs = ground arith

pub settle_fiber-Grown :
    (id : ℕ) (t : Scheduler) (st : State)
    → HasLeft st
    → (t.fibers id).state ≡ st
    → Grown id (again id st) t (settle_fiber id t)
unfolding settle_fiber schedule
settle_fiber-Grown id t st on_hold e = record {
  queue = ground (arith, append-nil t.tasks);
  own = ground arith;
  others = λ other h. ground arith;
}
settle_fiber-Grown id t st is_ready e = record {
  queue = ground arith;
  own = ground arith;
  others = λ other h. ground arith;
}
settle_fiber-Grown id t st has_returned e = record {
  queue = ground (arith, append-nil t.tasks);
  own = ground arith;
  others = λ other h. ground arith;
}
settle_fiber-Grown id t st has_thrown e = record {
  queue = ground (arith, append-nil t.tasks);
  own = ground arith;
  others = λ other h. ground arith;
}

-- A fiber that `run` may keep for callbacks: it is over, or it has just been reset.
pub record IsSpare (f : Fiber) : Type 0 where
  pub stack : f.has_stack ≡ true
  pub spent : (is_over f.state ≡ true) ⊎ ((f.state ≡ init) × (f.rest ≡ throws))

pub settle_cb-total :
    (id : ℕ) (w : Worker) (t : Scheduler) (st : State)
    → HasLeft st
    → (t.fibers id).state ≡ st
    → (t.fibers id).has_stack ≡ true
    → (r : Worker × Scheduler) × (settle_cb id w t ≡ some r)
unfolding settle_cb reset_fiber
settle_cb-total id w t st on_hold e k = elim (Option-cases (settle_cb id w t)) [
  | inr r ↦ r
  | inl n ↦ ground arith
]
settle_cb-total id w t st is_ready e k = elim (Option-cases (settle_cb id w t)) [
  | inr r ↦ r
  | inl n ↦ ground arith
]
settle_cb-total id w t st has_returned e k = elim (Option-cases (settle_cb id w t)) [
  | inr r ↦ r
  | inl n ↦ ground arith
]
settle_cb-total id w t st has_thrown e k = elim (Option-cases (settle_cb id w t)) [
  | inr r ↦ r
  | inl n ↦ ground arith
]

pub settle_cb-Grown :
    (id : ℕ) (w w' : Worker) (t t' : Scheduler) (st : State)
    → HasLeft st
    → (t.fibers id).state ≡ st
    → settle_cb id w t ≡ some (w', t')
    → Grown id (again id st) t t'
unfolding settle_cb schedule reset_fiber
settle_cb-Grown id w w' t t' st on_hold e r = record {
  queue = ground (arith, append-nil t.tasks);
  own = ground arith;
  others = λ other h. ground arith;
}
settle_cb-Grown id w w' t t' st is_ready e r = record {
  queue = ground (arith, append-nil t.tasks);
  own = ground arith;
  others = λ other h. ground arith;
}
settle_cb-Grown id w w' t t' st has_returned e r = record {
  queue = ground (arith, append-nil t.tasks);
  own = ground arith;
  others = λ other h. ground arith;
}
settle_cb-Grown id w w' t t' st has_thrown e r = record {
  queue = ground (arith, append-nil t.tasks);
  own = ground arith;
  others = λ other h. ground arith;
}

-- The worker keeps the fiber of a callback only when it has reset it.
pub settle_cb-keeps :
    (id : ℕ) (w w' : Worker) (t t' : Scheduler)
    → (t.fibers id).has_stack ≡ true
    → settle_cb id w t ≡ some (w', t')
    → (w'.thread ≡ w.thread)
      × (w'.idle_state ≡ w.idle_state)
      × ((w'.cb_fiber ≡ none) ⊎ ((w'.cb_fiber ≡ w.cb_fiber) × IsSpare (t'.fibers id)))
unfolding settle_cb reset_fiber
settle_cb-keeps id w w' t t' k r = ground arith
