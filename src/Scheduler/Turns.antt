-- ===== src/Scheduler/Turns.antt =====
-- From the swapIn to the end of a round in the `run` of yuyu/scheduler.cc, for one thread with no
-- other thread beside it.
use yuyu.Fiber.{is_over, Code, Fiber, State, ready, except, throws}
use yuyu.Scheduler.{
  FiberAndThread, Scheduler, Worker, Place, looking, in_fiber, in_cb, enter, run_fiber,
  settle_fiber, settle_cb, leave, dispatch,
}
use yuyu.Scheduler.Running.{
  scheduled, left, Ran, run_code-Ran, left-has_stack, end_state, end_state-HasLeft, left-state,
  scheduled-HasWork, again, Grown, put_self, put_other, settle_fiber-Grown, IsSpare,
  settle_cb-total, settle_cb-Grown, settle_cb-keeps, yields, left_over, left-rest, Stays,
  settle_fiber-Stays, settle_cb-Stays,
}
use yuyu.Scheduler.Entering.{
  IsQuiet, callback, work_of, Inside, InCb, skips, resumes, calls, enter-total, enter-Entered,
}
use yuyu.Scheduler.Queue.{HasWork}
use mathlib.Core.Option.{some-injective, none-ne-some}
use yuyu.Common.{
  ℕ, ◌≡◌, refl, sym, ap, ◌∙◌, inl, inr, true, false, true≢false, Option, none, some, List, [], ◌∷◌,
  ◌++◌, append-nil, append_assoc, arith, ◌==◌, ==→eq, Bool-cases, All,
}

-- The tasks that a round appends.
abbrev pub appended : Option (ℕ × Code) → List FiberAndThread
appended none = []
appended (some (id, c)) = scheduled c ++ again id (end_state c)

whole-Grown :
    (id : ℕ) (c : Code) (s s₁ s₂ s₃ : Scheduler)
    → Inside id c s s₁
    → Ran id c s₁ s₂
    → Grown id (again id (end_state c)) s₂ s₃
    → Grown id (scheduled c ++ again id (end_state c)) s s₃
whole-Grown id c s s₁ s₂ s₃ i r g = record {
  queue =
      cc (g.queue, r.queue, i.queue, append_assoc s.tasks (scheduled c) (again id (end_state c)));
  own = g.own;
  others = λ other h.
      g.others other h
      ∙ ap (λ fs. fs other) r.store
      ∙ put_other id other _ s₁.fibers h
      ∙ i.others other h;
}

run_fiber-Ran :
    (id : ℕ) (c : Code) (s : Scheduler) → (s.fibers id).rest ≡ c → Ran id c s (run_fiber id s)
unfolding run_fiber
run_fiber-Ran id c s e = rw (← e) (run_code-Ran id ((s.fibers id).rest) s)

Ran-own :
    (id : ℕ) (c : Code) (s s' : Scheduler)
    → Ran id c s s'
    → ((s'.fibers id).state ≡ end_state c) × ((s'.fibers id).has_stack ≡ (s.fibers id).has_stack)
Ran-own id c s s' r =
    let now : s'.fibers id ≡ left c (s.fibers id) =
      ap (λ fs. fs id) r.store ∙ put_self id (left c (s.fibers id)) s.fibers in
    (
      ap (λ (f : Fiber). f.state) now ∙ left-state c (s.fibers id),
      ap (λ (f : Fiber). f.has_stack) now ∙ left-has_stack c (s.fibers id),
    )

All-append :
    (xs ys : List FiberAndThread) → All HasWork xs → All HasWork ys → All HasWork (xs ++ ys)
All-append [] ys h k = k
All-append (x ∷ xs) ys h k = (h.0, All-append xs ys h.1 k)

again-HasWork : (id : ℕ) (st : State) → All HasWork (again id st)
again-HasWork id ready = (refl, tt)
again-HasWork id _ = tt

-- Between the rounds again, when the kept fiber is seen to.
Grown-IsQuiet :
    (id : ℕ) (c : Code) (w w' : Worker) (s s' : Scheduler)
    → IsQuiet w s
    → Grown id (scheduled c ++ again id (end_state c)) s s'
    → w'.idle_state ≡ w.idle_state
    → ((kept : ℕ) → w'.cb_fiber ≡ some kept → IsSpare (s'.fibers kept))
    → IsQuiet w' s'
Grown-IsQuiet id c w w' s s' v g i k = record {
  works = rw g.queue (
      All-append s.tasks _ v.works
        (All-append (scheduled c) _ (scheduled-HasWork c) (again-HasWork id (end_state c))));
  quiet = λ other. elim (Bool-cases (other == id)) [
    | inl same ↦ rw (==→eq other id same) (g.own)
    | inr distinct ↦ rw (g.others other distinct) (v.quiet other)
  ];
  kept = k;
  rests = rw i (v.rests);
}

-- The fiber that ran `c` and yielded is as it left off.
abbrev pub Yielded : Option (ℕ × Code) → Scheduler → Type 0
Yielded work s' =
    (id : ℕ) (c : Code)
    → work ≡ some (id, c)
    → yields (end_state c) ≡ true
    → ((s'.fibers id).state ≡ end_state c) × ((s'.fibers id).rest ≡ left_over c)

-- The task has had its turn.
pub record Turn (ft : FiberAndThread) (fts : List FiberAndThread) (w : Worker) (s : Scheduler)
    (r : Option (Place × Worker × Scheduler)) : Type 0 where
  pub worker : Worker
  pub after : Scheduler
  pub result : r ≡ some (looking, worker, after)
  pub queue : after.tasks ≡ fts ++ appended (work_of w s ft)
  pub yielded : Yielded (work_of w s ft) after
  pub quiet : IsQuiet worker after
  pub same_thread : worker.thread ≡ w.thread

Yielded-of :
    (work : Option (ℕ × Code)) (id : ℕ) (c : Code) (s s₁ s₂ : Scheduler)
    → work ≡ some (id, c)
    → Ran id c s s₁
    → (yields (end_state c) ≡ true → Stays (s₁.fibers id) (s₂.fibers id))
    → Yielded work s₂
Yielded-of work id c s s₁ s₂ found r stays other d e h =
    let both = some-injective (id, c) (other, d) (sym found ∙ e) in
    let same_id : id ≡ other = ap (λ x. x.0) both in
    let same_code : c ≡ d = ap (λ x. x.1) both in
    let h' : yields (end_state c) ≡ true = ap (λ x. yields (end_state x)) same_code ∙ h in
    let (st, rest) = stays h' in
    let now : s₁.fibers id ≡ left c (s.fibers id) =
      ap (λ fs. fs id) r.store ∙ put_self id (left c (s.fibers id)) s.fibers in
    rw (← same_id, ← same_code)
      (
        st ∙ (Ran-own id c s s₁ r).0,
        rest ∙ ap (λ (f : Fiber). f.rest) now ∙ left-rest c (s.fibers id) h',
      )

settle_fiber-except :
    (id : ℕ) (t : Scheduler) → (t.fibers id).state ≡ except → (settle_fiber id t).fibers ≡ t.fibers
unfolding settle_fiber
settle_fiber-except id t e = ground arith

-- The kept fiber when a task's fiber is run: if it is this one, it had been reset, so it throws.
resumed-kept :
    (id kept : ℕ) (w : Worker) (s s₁ : Scheduler) (c : Code)
    → IsQuiet w s
    → is_over (s.fibers id).state ≡ false
    → c ≡ (s.fibers id).rest
    → Inside id c s s₁
    → (s₁.fibers id).has_stack ≡ (s.fibers id).has_stack
    → Grown id (scheduled c ++ again id (end_state c)) s (settle_fiber id (run_fiber id s₁))
    → w.cb_fiber ≡ some kept
    → IsSpare ((settle_fiber id (run_fiber id s₁)).fibers kept)
resumed-kept id kept w s s₁ c v live code i has g e = elim (Bool-cases (kept == id)) [
  | inr distinct ↦ rw (g.others kept distinct) (v.kept kept e)
  | inl same ↦
      let k : IsSpare (s.fibers id) = rw (← ==→eq kept id same) (v.kept kept e) in
      let throwing : c ≡ throws = elim k.spent [
        | inl over ↦ absurd (true≢false (sym over ∙ live))
        | inr (new, without) ↦ code ∙ without
      ] in
      let (st, stack) = Ran-own id c s₁ (run_fiber id s₁) (run_fiber-Ran id c s₁ i.code) in
      let thrown : ((run_fiber id s₁).fibers id).state ≡ except = st ∙ ap end_state throwing in
      let same_store = settle_fiber-except id (run_fiber id s₁) thrown in
      rw (==→eq kept id same, same_store)
        (record { stack = stack ∙ has ∙ k.stack; spent = inl (ap is_over thrown) })
]

leave_cb-lem :
    (id : ℕ) (w w' : Worker) (s s' : Scheduler)
    → settle_cb id w (run_fiber id s) ≡ some (w', s')
    → leave (in_cb id) w s ≡ some (looking, w', s')
unfolding leave
leave_cb-lem id w w' s s' e = ground arith

module _ (ft : FiberAndThread) (w : Worker) (s : Scheduler) (v : IsQuiet w s) where
  skipped-Turn :
      (s₁ : Scheduler)
      → work_of w s ft ≡ none
      → s₁.tasks ≡ s.tasks
      → s₁.fibers ≡ s.fibers
      → Turn ft s.tasks w s (some (looking, w, s₁))
  skipped-Turn s₁ idle queue store = record {
    worker = w;
    after = s₁;
    result = refl;
    queue = queue ∙ sym (append-nil s.tasks) ∙ ap (λ o. s.tasks ++ appended o) (sym idle);
    yielded = λ id c e. absurd (none-ne-some (id, c) (sym idle ∙ e));
    quiet = record {
      works = rw queue (v.works);
      quiet = λ id. rw store (v.quiet id);
      kept = λ id e. rw store (v.kept id e);
      rests = v.rests;
    };
    same_thread = refl;
  }

  resumed-Turn :
      (id : ℕ) (s₁ : Scheduler) (c : Code)
      → c ≡ (s.fibers id).rest
      → is_over (s.fibers id).state ≡ false
      → (s₁.fibers id).has_stack ≡ (s.fibers id).has_stack
      → work_of w s ft ≡ some (id, c)
      → Inside id c s s₁
      → Turn ft s.tasks w s (some (looking, w, settle_fiber id (run_fiber id s₁)))
  resumed-Turn id s₁ c code live has found i =
      let r = run_fiber-Ran id c s₁ i.code in
      let g = whole-Grown id c s s₁ (run_fiber id s₁) _ i r (
        settle_fiber-Grown id (run_fiber id s₁) (end_state c) (end_state-HasLeft c)
          (Ran-own id c s₁ (run_fiber id s₁) r).0) in
      record {
        worker = w;
        after = settle_fiber id (run_fiber id s₁);
        result = refl;
        queue = g.queue ∙ ap (λ o. s.tasks ++ appended o) (sym found);
        yielded =
            Yielded-of _ id c s₁ (run_fiber id s₁) (settle_fiber id (run_fiber id s₁)) found r (
              settle_fiber-Stays id (run_fiber id s₁) (end_state c) (end_state-HasLeft c)
                (Ran-own id c s₁ (run_fiber id s₁) r).0);
        quiet =
            Grown-IsQuiet id c w w s _ v g refl
              (λ kept e. resumed-kept id kept w s s₁ c v live code i has g e);
        same_thread = refl;
      }

  called-Turn :
      (c : Code) (p : Place) (w₁ : Worker) (s₁ : Scheduler)
      → work_of w s ft ≡ callback w s (some c)
      → InCb c w s p w₁ s₁
      → Turn ft s.tasks w s (leave p w₁ s₁)
  unfolding leave
  called-Turn c p w₁ s₁ found i =
      let id = i.id in
      let r = run_fiber-Ran id c s₁ (i.inside.code) in
      let (st, has) = Ran-own id c s₁ (run_fiber id s₁) r in
      let stack = has ∙ i.stack in
      let ((w₂, s₂), e) =
        settle_cb-total id w₁ (run_fiber id s₁) (end_state c) (end_state-HasLeft c) st stack in
      let g =
        whole-Grown id c s s₁ (run_fiber id s₁) s₂ (i.inside) r (
          settle_cb-Grown id w₁ w₂ (run_fiber id s₁) s₂ (end_state c) (end_state-HasLeft c) st e) in
      let (thread, idle, keeps) = settle_cb-keeps id w₁ w₂ (run_fiber id s₁) s₂ stack e in
      let own : w₁.cb_fiber ≡ some id = ap (λ (x : Worker). x.cb_fiber) i.worker in
      record {
        worker = w₂;
        after = s₂;
        result = ap (λ q. leave q w₁ s₁) i.place ∙ leave_cb-lem id w₁ w₂ s₁ s₂ e;
        queue = g.queue ∙ ap (λ o. s.tasks ++ appended o) (sym (found ∙ i.found));
        yielded = Yielded-of _ id c s₁ (run_fiber id s₁) s₂ (found ∙ i.found) r (λ h.
            settle_cb-Stays id w₁ w₂ (run_fiber id s₁) s₂ (end_state c) (end_state-HasLeft c) st h
              e);
        quiet =
            Grown-IsQuiet id c w w₂ s s₂ v g (idle ∙ ap (λ (x : Worker). x.idle_state) i.worker)
              (λ kept k. elim keeps [
                | inl nothing ↦ absurd (none-ne-some kept (sym nothing ∙ k))
                | inr (same, spare) ↦ rw (some-injective kept id (sym k ∙ same ∙ own)) spare
              ]);
        same_thread = thread ∙ ap (λ (x : Worker). x.thread) i.worker;
      }

dispatch-leave :
    (task : Option FiberAndThread) (w w' : Worker) (s s' : Scheduler) (p : Place)
    → enter task w s ≡ some (p, w', s')
    → dispatch task w s ≡ leave p w' s'
unfolding dispatch
dispatch-leave task w w' s s' p e = ground arith

leave_looking : (w : Worker) (s : Scheduler) → leave looking w s ≡ some (looking, w, s)
unfolding leave
leave_looking w s = refl

leave_fiber :
    (id : ℕ) (w : Worker) (s : Scheduler)
    → leave (in_fiber id) w s ≡ some (looking, w, settle_fiber id (run_fiber id s))
unfolding leave
leave_fiber id w s = refl

-- A task that has been taken has its turn.
pub dispatch-Turn :
    (ft : FiberAndThread) (w : Worker) (s : Scheduler)
    → IsQuiet w s
    → Turn ft s.tasks w s (dispatch (some ft) w s)
dispatch-Turn ft w s v =
    let ((p, w₁, s₁), e) = enter-total ft w s v in
    let same_run = dispatch-leave (some ft) w w₁ s s₁ p e in
    elim (enter-Entered ft w w₁ s s₁ p v e) [
      | skips idle place same queue store ↦
          rw (same_run, place, same, leave_looking w s₁) (skipped-Turn ft w s v s₁ idle queue store)
      | resumes id live has found place same i ↦
          rw (same_run, place, same, leave_fiber id w s₁)
            (resumed-Turn ft w s v id s₁ _ refl live has found i)
      | calls c found i ↦ rw same_run (called-Turn ft w s v c p w₁ s₁ found i)
    ]
