-- ===== src/Scheduler.antt =====
-- The scheduler of yuyu/scheduler.h and yuyu/scheduler.cc: the queue, and the loop of `run` for one
-- thread with no other thread beside it. Fibers are named by their ids. The store of fibers is a
-- function of the id, `last_id` is the counter of ids; a thread is a number and `none` stands for
-- -1; `tickles` counts the calls of `tickle`. A YUYU_ASSERT that fails is `none`. Several threads
-- change the two counts outside the mutex, and they are plain numbers, so nothing is said of them.
pub mod Queue
pub mod Running
pub mod Entering
pub mod Turns
pub mod Rounds
mod Tests
use yuyu.Fiber.{
  Code, Fiber, State, hold, exec, term, ready, except, returns, throws, to_hold, to_ready,
  schedule_fiber, schedule_cb, new_fiber, is_exec, reset_fiber, swap_in, yield_to_ready,
  yield_to_hold, main_returned, main_threw, is_over,
}
use yuyu.Common.{
  is_some, ℕ, zero, suc, ◌+◌, ◌%◌, ap, Bool, true, false, not, ◌&&◌, ◌||◌, Option, none, some, List,
  [], ◌∷◌, ◌++◌, map, ◌==◌, if◌then◌else◌, set, take,
}

pub record FiberAndThread : Type 0 where
  pub fiber : Option ℕ
  pub cb : Option Code
  pub thread : Option ℕ

pub record Scheduler : Type 0 where
  pub tasks : List FiberAndThread
  pub fibers : ℕ → Fiber
  pub last_id : ℕ
  pub active : ℕ  -- size_t
  pub idle_count : ℕ  -- size_t
  pub is_stopping : Bool
  pub auto_stop : Bool
  pub tickles : ℕ

abbrev pub of_fiber : ℕ → Option ℕ → FiberAndThread
of_fiber id thread = record { fiber = some id; cb = none; thread = thread }

abbrev pub of_cb : Code → Option ℕ → FiberAndThread
of_cb cb thread = record { fiber = none; cb = some cb; thread = thread }

-- size_t arithmetic wraps.
abbrev pub count_up : ℕ → ℕ
count_up n = (n + 1) % 18446744073709551616

abbrev pub count_down : ℕ → ℕ
count_down n = (n + 18446744073709551615) % 18446744073709551616

abbrev pub is_empty {ℓ} : {A : Type ℓ} → List A → Bool
is_empty [] = true
is_empty (x ∷ xs) = false

abbrev pub has_work : FiberAndThread → Bool
has_work ft = is_some ft.fiber || is_some ft.cb

abbrev pub tickle : Scheduler → Scheduler
tickle s = record s { tickles = suc s.tickles }

unfoldable pub schedule_no_lock : FiberAndThread → List FiberAndThread → List FiberAndThread × Bool
schedule_no_lock ft tasks = (if has_work ft then tasks ++ (ft ∷ []) else tasks, is_empty tasks)

unfoldable pub schedule : FiberAndThread → Scheduler → Scheduler
unfolding schedule_no_lock
schedule ft s =
    let (tasks, need_tickle) = schedule_no_lock ft s.tasks in
    let s' = record s { tasks = tasks } in if need_tickle then tickle s' else s'

-- The loop over a range, under one lock.
unfoldable pub schedule_range :
    List FiberAndThread → List FiberAndThread → List FiberAndThread × Bool
unfolding schedule_no_lock
schedule_range [] tasks = (tasks, false)
schedule_range (ft ∷ fts) tasks =
    let (tasks', need) = schedule_no_lock ft tasks in
    let (tasks'', later) = schedule_range fts tasks' in (tasks'', need || later)

unfoldable pub schedule_all : List FiberAndThread → Scheduler → Scheduler
unfolding schedule_range
schedule_all fts s =
    let (tasks, need_tickle) = schedule_range fts s.tasks in
    let s' = record s { tasks = tasks } in if need_tickle then tickle s' else s'

-- The task is for another thread.
abbrev pub is_elsewhere : ℕ → FiberAndThread → Bool
is_elsewhere thread ft = elim ft.thread [ none ↦ false | some t ↦ not (t == thread) ]

-- The fiber of the task is running at the moment.
abbrev pub is_executing : (ℕ → Fiber) → FiberAndThread → Bool
is_executing fibers ft = elim ft.fiber [ none ↦ false | some id ↦ is_exec (fibers id).state ]

pub record Pick : Type 0 where
  pub task : Option FiberAndThread
  pub rest : List FiberAndThread
  pub tickle_me : Bool

abbrev pub passed_over : FiberAndThread → Pick → Pick
passed_over ft p = record p { rest = ft ∷ p.rest }

abbrev pub map_pick : (Pick → Pick) → Option Pick → Option Pick
map_pick f none = none
map_pick f (some p) = some (f p)

unfoldable pub pick_loop : ℕ → (ℕ → Fiber) → Bool → List FiberAndThread → Option Pick
pick_loop thread fibers tickle_me [] =
    some (record { task = none; rest = []; tickle_me = tickle_me })
pick_loop thread fibers tickle_me (ft ∷ fts) =
    if is_elsewhere thread ft
    then map_pick (passed_over ft) (pick_loop thread fibers true fts)
    else if not (has_work ft)
    then none
    else if is_executing fibers ft
    then map_pick (passed_over ft) (pick_loop thread fibers tickle_me fts)
    else some (record { task = some ft; rest = fts; tickle_me = tickle_me || not (is_empty fts) })

-- The block under the lock at the head of the loop, with the tickle behind it.
unfoldable pub pick_task : ℕ → Scheduler → Option (Option FiberAndThread × Scheduler)
unfolding pick_loop
pick_task thread s = elim (pick_loop thread s.fibers false s.tasks) [
  | none ↦ none
  | some p ↦
      let s₁ = record s {
        tasks = p.rest;
        active = if is_some p.task then count_up s.active else s.active;
      } in
      some (p.task, if p.tickle_me then tickle s₁ else s₁)
]

-- What a thread keeps while it is in `run`.
pub record Worker : Type 0 where
  pub thread : ℕ
  pub cb_fiber : Option ℕ
  pub idle_state : State

pub data Place : Type 0 where
  looking : Place
  in_fiber : (id : ℕ) → Place
  in_cb : (id : ℕ) → Place
  in_idle : Place
  ended : Place

abbrev pub put : ℕ → Fiber → (ℕ → Fiber) → ℕ → Fiber
put id f fibers other = if other == id then f else fibers other

abbrev pub swap_into : ℕ → Place → Worker → Scheduler → Option (Place × Worker × Scheduler)
swap_into id place w s = elim (swap_in (s.fibers id)) [
  | none ↦ none
  | some f ↦ some (place, w, record s { fibers = put id f s.fibers })
]

-- The fiber that runs a callback: the kept one is reset, or a new one is made.
unfoldable pub load_cb : Code → Worker → Scheduler → Option (ℕ × Scheduler)
load_cb cb w s = elim w.cb_fiber [
  | some id ↦ elim (reset_fiber (some cb) (s.fibers id)) [
    | none ↦ none
    | some f ↦ some (id, record s { fibers = put id f s.fibers })
  ]
  | none ↦
      let id = suc s.last_id in
      some (id, record s { fibers = put id (new_fiber (some cb)) s.fibers; last_id = id })
]

unfoldable pub enter_cb : Code → Worker → Scheduler → Option (Place × Worker × Scheduler)
unfolding load_cb
enter_cb cb w s = elim (load_cb cb w s) [
  | none ↦ none
  | some (id, s') ↦ swap_into id (in_cb id) (record w { cb_fiber = some id }) s'
]

-- The branch without a fiber or callback to run.
unfoldable pub enter_idle : Bool → Worker → Scheduler → Option (Place × Worker × Scheduler)
enter_idle is_active w s =
    if is_active
    then some (looking, w, record s { active = count_down s.active })
    else elim w.idle_state [
      | term ↦ some (ended, w, s)
      | exec ↦ none
      | _ ↦
          some (
            in_idle,
            record w { idle_state = exec },
            record s { idle_count = count_up s.idle_count },
          )
    ]

-- From the test of the task to the swapIn.
unfoldable pub enter :
    Option FiberAndThread → Worker → Scheduler → Option (Place × Worker × Scheduler)
unfolding enter_cb enter_idle
enter none w s = enter_idle false w s
enter (some ft) w s = elim ft.fiber [
  | some id ↦
      if not (is_over (s.fibers id).state)
      then swap_into id (in_fiber id) w s
      else elim ft.cb [ some cb ↦ enter_cb cb w s | none ↦ enter_idle true w s ]
  | none ↦ elim ft.cb [ some cb ↦ enter_cb cb w s | none ↦ enter_idle true w s ]
]

-- The fiber runs until it swaps out.
unfoldable pub run_code : ℕ → Code → Scheduler → Scheduler
run_code id returns s = record s { fibers = put id (main_returned (s.fibers id)) s.fibers }
run_code id throws s = record s { fibers = put id (main_threw (s.fibers id)) s.fibers }
run_code id (to_hold rest) s = record s {
  fibers = put id (yield_to_hold rest (s.fibers id)) s.fibers;
}
run_code id (to_ready rest) s = record s {
  fibers = put id (yield_to_ready rest (s.fibers id)) s.fibers;
}
run_code id (schedule_fiber other thread rest) s =
    run_code id rest (schedule (of_fiber other thread) s)
run_code id (schedule_cb cb thread rest) s = run_code id rest (schedule (of_cb cb thread) s)

unfoldable pub run_fiber : ℕ → Scheduler → Scheduler
unfolding run_code
run_fiber id s = run_code id (s.fibers id).rest s

abbrev pub set_state : ℕ → State → Scheduler → Scheduler
set_state id state s = record s {
  fibers = put id (record (s.fibers id) { state = state }) s.fibers;
}

-- Behind the swapIn of a task's fiber.
unfoldable pub settle_fiber : ℕ → Scheduler → Scheduler
settle_fiber id s =
    let s' = record s { active = count_down s.active } in
    elim (s.fibers id).state [
      | ready ↦ schedule (of_fiber id none) s'
      | term ↦ s'
      | except ↦ s'
      | _ ↦ set_state id hold s'
    ]

-- Behind the swapIn of the fiber of a callback.
unfoldable pub settle_cb : ℕ → Worker → Scheduler → Option (Worker × Scheduler)
settle_cb id w s =
    let s' = record s { active = count_down s.active } in
    let ended_cb : Option (Worker × Scheduler) = elim (reset_fiber none (s.fibers id)) [
      | none ↦ none
      | some f ↦ some (w, record s' { fibers = put id f s.fibers })
    ] in
    elim (s.fibers id).state [
      | ready ↦ some (record w { cb_fiber = none }, schedule (of_fiber id none) s')
      | except ↦ ended_cb
      | term ↦ ended_cb
      | _ ↦ some (record w { cb_fiber = none }, set_state id hold s')
    ]

unfoldable pub stopping : Scheduler → Bool
stopping s = s.auto_stop && s.is_stopping && is_empty s.tasks && s.active == 0

-- The idle fiber runs to its next yield, or ends, and the loop sets its state.
unfoldable pub settle_idle : Worker → Scheduler → Worker × Scheduler
unfolding stopping
settle_idle w s = (
  record w { idle_state = if stopping s then term else hold },
  record s { idle_count = count_down s.idle_count },
)

-- From the swapIn of whatever was entered to the end of the round.
unfoldable pub leave : Place → Worker → Scheduler → Option (Place × Worker × Scheduler)
unfolding settle_fiber settle_cb settle_idle run_fiber
leave looking w s = some (looking, w, s)
leave (in_fiber id) w s = some (looking, w, settle_fiber id (run_fiber id s))
leave (in_cb id) w s = elim (settle_cb id w (run_fiber id s)) [
  | none ↦ none
  | some (w', s') ↦ some (looking, w', s')
]
leave in_idle w s = let (w', s') = settle_idle w s in some (looking, w', s')
leave ended w s = some (ended, w, s)

unfoldable pub dispatch :
    Option FiberAndThread → Worker → Scheduler → Option (Place × Worker × Scheduler)
unfolding leave enter
dispatch task w s = elim (enter task w s) [ none ↦ none | some (p, w', s') ↦ leave p w' s' ]

-- One round of the loop of a thread with no other thread beside it.
unfoldable pub round : Worker → Scheduler → Option (Place × Worker × Scheduler)
unfolding pick_task dispatch
round w s = elim (pick_task w.thread s) [ none ↦ none | some (task, s₁) ↦ dispatch task w s₁ ]

-- The loop for at most so many rounds.
unfoldable pub run_loop : ℕ → Worker → Scheduler → Option (Place × Worker × Scheduler)
unfolding round
run_loop zero w s = some (looking, w, s)
run_loop (suc rounds) w s = elim (round w s) [
  | none ↦ none
  | some (ended, w', s') ↦ some (ended, w', s')
  | some (p, w', s') ↦ run_loop rounds w' s'
]
