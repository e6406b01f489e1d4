-- ===== src/Scheduler/Rounds.antt =====
-- The rounds of one thread in the `run` of yuyu/scheduler.cc with no other thread beside it: no
-- assertion fails, and each task that the thread may run has its turn.
use yuyu.Scheduler.{
  FiberAndThread, Scheduler, Worker, Place, looking, ended, is_elsewhere, is_executing, pick_loop,
  pick_task, dispatch, round, run_loop,
}
use yuyu.Scheduler.Entering.{IsQuiet, work_of}
use yuyu.Scheduler.Turns.{appended, Yielded, Turn, dispatch-Turn}
use yuyu.Scheduler.Queue.{HasWork, pick_loop-cut}
use mathlib.Core.Path.{subst}
use yuyu.Common.{
  ℕ, suc, ◌≡◌, refl, sym, ap, ◌∙◌, inl, inr, true, false, Option, some, List, [], ◌∷◌, ◌++◌,
  append-nil, append_assoc, arith, Option-cases, length, All,
}

-- The head of the queue, when this thread may run it, is what a round takes.
pick_task-total :
    (w : Worker) (s : Scheduler)
    → IsQuiet w s
    → (r : Option FiberAndThread × Scheduler) × (pick_task w.thread s ≡ some r)
unfolding pick_task
pick_task-total w s v = elim (Option-cases (pick_task w.thread s)) [
  | inr r ↦ r
  | inl fails ↦ let c = pick_loop-cut w.thread s.fibers false s.tasks v.works in ground arith
]

is_executing-quiet :
    (w : Worker) (s : Scheduler) (ft : FiberAndThread)
    → IsQuiet w s
    → is_executing s.fibers ft ≡ false
is_executing-quiet w s ft v = elim (Option-cases ft.fiber) [
  | inl e ↦ rw e refl
  | inr (id, e) ↦ rw e (v.quiet id)
]

pick_task-head :
    (w : Worker) (s s₁ : Scheduler) (ft : FiberAndThread) (fts : List FiberAndThread)
    (task : Option FiberAndThread)
    → IsQuiet w s
    → s.tasks ≡ ft ∷ fts
    → is_elsewhere w.thread ft ≡ false
    → pick_task w.thread s ≡ some (task, s₁)
    → (task ≡ some ft) × (s₁.tasks ≡ fts) × (s₁.fibers ≡ s.fibers) × (s₁.last_id ≡ s.last_id)
unfolding pick_task pick_loop
pick_task-head w s s₁ ft fts task v e h r =
    let works : All HasWork (ft ∷ fts) = subst (All HasWork) e v.works in
    let free = is_executing-quiet w s ft v in ground arith

work_of-same :
    (w : Worker) (s s₁ : Scheduler) (ft : FiberAndThread)
    → s₁.fibers ≡ s.fibers
    → s₁.last_id ≡ s.last_id
    → work_of w s₁ ft ≡ work_of w s ft
work_of-same w s s₁ ft store ids = elim (Option-cases ft.fiber) [
  | inl e ↦ ground arith
  | inr (id, e) ↦ let same : s₁.fibers id ≡ s.fibers id = ap (λ fs. fs id) store in ground arith
]

round-dispatch :
    (w : Worker) (s s₁ : Scheduler) (task : Option FiberAndThread)
    → pick_task w.thread s ≡ some (task, s₁)
    → round w s ≡ dispatch task w s₁
unfolding round
round-dispatch w s s₁ task e = ground arith

-- A round takes the head of the queue, when this thread may run it: no assertion fails, the thread
-- comes back to the head of the loop, and the tasks that the work of the head has scheduled follow
-- the rest of the queue, with its fiber at their end if it yielded to ready.
pub round-Turn :
    (w : Worker) (s : Scheduler) (ft : FiberAndThread) (fts : List FiberAndThread)
    → IsQuiet w s
    → s.tasks ≡ ft ∷ fts
    → is_elsewhere w.thread ft ≡ false
    → Turn ft fts w s (round w s)
round-Turn w s ft fts v e h =
    let ((task, s₁), r) = pick_task-total w s v in
    let (head, queue, store, ids) = pick_task-head w s s₁ ft fts task v e h r in
    let v₁ : IsQuiet w s₁ = record {
      works = subst (All HasWork) (sym queue) (subst (All HasWork) e v.works).1;
      quiet = λ id. rw store (v.quiet id);
      kept = λ id k. rw store (v.kept id k);
      rests = v.rests;
    } in
    let t = dispatch-Turn ft w s₁ v₁ in
    record {
      worker = t.worker;
      after = t.after;
      result = round-dispatch w s s₁ task r ∙ ap (λ o. dispatch o w s₁) head ∙ t.result;
      queue =
          t.queue
          ∙ ap (λ q. q ++ appended (work_of w s₁ ft)) queue
          ∙ ap (λ o. fts ++ appended o) (work_of-same w s s₁ ft store ids);
      yielded = subst (λ o. Yielded o t.after) (work_of-same w s s₁ ft store ids) t.yielded;
      quiet = t.quiet;
      same_thread = t.same_thread;
    }

abbrev pub IsHere : ℕ → FiberAndThread → Type 0
IsHere thread ft = is_elsewhere thread ft ≡ false

-- The rounds that take the tasks `fts` one after the other, and what they append. What each of them
-- schedules goes to the end of the queue, behind it its fiber if it yielded to ready; a fiber that
-- yielded is as it left off.
pub data Serves (w' : Worker) (s' : Scheduler)
    : List FiberAndThread → Worker → Scheduler → List FiberAndThread → Type 0 where
  done : Serves w' s' [] w' s' []
  turn :
      {fts more : List FiberAndThread} (ft : FiberAndThread) {w : Worker} {s : Scheduler}
      (w₁ : Worker) (s₁ : Scheduler)
      → round w s ≡ some (looking, w₁, s₁)
      → Yielded (work_of w s ft) s₁
      → Serves w' s' fts w₁ s₁ more
      → Serves w' s' (ft ∷ fts) w s (appended (work_of w s ft) ++ more)

-- The tasks `fts` have had their turns, `rest` is in front, and no assertion has failed.
pub record Served (fts rest : List FiberAndThread) (w : Worker) (s : Scheduler)
    (r : Option (Place × Worker × Scheduler)) : Type 0 where
  pub worker : Worker
  pub after : Scheduler
  pub more : List FiberAndThread
  pub result : r ≡ some (looking, worker, after)
  pub turns : Serves worker after fts w s more
  pub queue : after.tasks ≡ rest ++ more
  pub quiet : IsQuiet worker after

run_loop-suc :
    (k : ℕ) (w w' : Worker) (s s' : Scheduler)
    → round w s ≡ some (looking, w', s')
    → run_loop (suc k) w s ≡ run_loop k w' s'
unfolding run_loop
run_loop-suc k w w' s s' e = ground arith

-- For a thread with no other beside it, whatever the tasks do: in as many rounds as there are tasks
-- in the first part of the queue, all of which it may run, each of these has its turn in its order
-- and no assertion fails. Behind them is what was behind, and then what they have scheduled, with
-- the fibers that yielded to ready; a fiber that yielded stands where it left off.
pub run_loop-Served :
    (fts rest : List FiberAndThread) (w : Worker) (s : Scheduler)
    → IsQuiet w s
    → s.tasks ≡ fts ++ rest
    → All (IsHere w.thread) fts
    → Served fts rest w s (run_loop (length fts) w s)
run_loop-Served [] rest w s v e h = record {
  worker = w;
  after = s;
  more = [];
  result = unfold run_loop in refl;
  turns = done;
  queue = e ∙ sym (append-nil rest);
  quiet = v;
}
run_loop-Served (ft ∷ fts) rest w s v e h =
    let t = round-Turn w s ft (fts ++ rest) v e h.0 in
    let more = appended (work_of w s ft) in
    let here : All (IsHere t.worker.thread) fts = rw t.same_thread (h.1) in
    let r =
      run_loop-Served fts (rest ++ more) t.worker t.after t.quiet
        (t.queue ∙ append_assoc fts rest more) here in
    record {
      worker = r.worker;
      after = r.after;
      more = more ++ r.more;
      result = run_loop-suc (length fts) w t.worker s t.after t.result ∙ r.result;
      turns = turn ft t.worker t.after t.result t.yielded r.turns;
      queue = r.queue ∙ append_assoc rest more r.more;
      quiet = r.quiet;
    }

-- The loop has ended, and nothing is queued.
pub record Ended (r : Option (Place × Worker × Scheduler)) : Type 0 where
  pub worker : Worker
  pub after : Scheduler
  pub result : r ≡ some (ended, worker, after)
  pub queue : after.tasks ≡ []

abbrev stopped : Scheduler → Scheduler
stopped s = record s { tasks = []; is_stopping = true; auto_stop = true; active = 0 }
