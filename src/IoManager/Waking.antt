-- ===== src/IoManager/Waking.antt =====
-- `triggerEvent`, `cancelEvent`, `cancelAll` and the reports of `epoll_wait` in yuyu/iomanager.cc.
use yuyu.Common.{
  is_some, ℕ, ◌+◌, ◌≡◌, refl, sym, ap, ◌∙◌, inl, inr, Bool, true, false, not, true≢false, ◌&&◌,
  Option, none, append-nil, if◌then◌else◌, some, List, [], ◌∷◌, ◌++◌, arith, ◌==◌, Bool-cases,
  Option-cases, length, get_elem?, set,
}
use yuyu.IoManager.{
  Task, fiber_task, cb_task, done, Event, EventContext, FdContext, IoManager, empty, has,
  get_context, put_context, take_task, spent, trigger_event, trigger_at, woken, cancel_event,
}
use yuyu.IoManager.Registry.{Sound, IsValid, All-get}
use yuyu.IoManager.Adding.{
  Sound-Waiting, registered, registered_at, not_both, both, released-IsValid,
}

-- The task is what a waiter asked for: its callback, or else its fiber, on its scheduler.
abbrev pub IsFor : EventContext → ℕ × Task → Type 0
IsFor e (s, cb_task f) = (e.scheduler ≡ some s) × (e.cb ≡ some f)
IsFor e (s, fiber_task f) = (e.scheduler ≡ some s) × (e.cb ≡ none) × (e.fiber ≡ some f)

-- One task for each waiter, in their order.
abbrev pub AreFor : List EventContext → List (ℕ × Task) → Type 0
AreFor [] [] = Unit
AreFor [] (t ∷ ts) = ⊥
AreFor (e ∷ es) [] = ⊥
AreFor (e ∷ es) (t ∷ ts) = IsFor e t × AreFor es ts

pub AreFor-append :
    (es ds : List EventContext) (ts us : List (ℕ × Task))
    → AreFor es ts
    → AreFor ds us
    → AreFor (es ++ ds) (ts ++ us)
AreFor-append [] ds [] us h k = k
AreFor-append [] ds (t ∷ ts) us h k = absurd h
AreFor-append (e ∷ es) ds [] us h k = absurd h
AreFor-append (e ∷ es) ds (t ∷ ts) us h k = (h.0, AreFor-append es ds ts us h.1 k)

-- A waiter is one task, and nothing of it stays.
spent_waiter :
    (e : EventContext) (s : ℕ)
    → e.scheduler ≡ some s
    → is_some e.fiber ≡ not (is_some e.cb)
    → (spent e ≡ empty) × AreFor (e ∷ []) (take_task s e)
spent_waiter e s at h = elim (Option-cases e.cb) [
  | inl no_cb ↦ elim (Option-cases e.fiber) [
    | inl no_fiber ↦ absurd (true≢false (sym (rw (no_cb, no_fiber) at h)))
    | inr (f, fiber) ↦ rw (no_cb, fiber) (refl, ((at, refl, refl), tt))
  ]
  | inr (g, cb) ↦ elim (Option-cases e.fiber) [
    | inl no_fiber ↦ rw (cb, no_fiber) (refl, ((at, refl), tt))
    | inr (f, fiber) ↦ absurd (true≢false (rw (cb, fiber) at h))
  ]
]

-- A trigger of a registered event hands over its waiter: no assertion fails and no pointer is null.
trigger_event-lem :
    (ev : Event) (c : FdContext)
    → Sound c
    → has ev c ≡ true
    → (tasks : List (ℕ × Task)) × (trigger_event ev c ≡ done (put_context ev false empty c, tasks))
      × AreFor (get_context ev c ∷ []) tasks
unfolding trigger_event
trigger_event-lem ev c sound on =
    let e = get_context ev c in
    let (sched, one) = rw on at (Sound-Waiting ev c sound) in
    elim (Option-cases e.scheduler) [
      | inl null ↦ absurd (true≢false (sym sched ∙ ap is_some null))
      | inr (s, at) ↦
          let (gone, single) = spent_waiter e s at one in
          (take_task s e, rw (trigger_event, on, at, gone) refl, single)
    ]

-- What waking the waiters `es` leaves: for each of them its task is added to the queue, and as many
-- events less are pending.
pub record Woken (es : List EventContext) (m m' : IoManager) : Type 0 where
  pub valid : IsValid m'
  pub fewer : m'.pending + length es ≡ m.pending
  pub tasks : List (ℕ × Task)
  pub handed : AreFor es tasks
  pub queue : m'.queue ≡ m.queue ++ tasks

pub unwoken : (m : IoManager) → IsValid m → Woken [] m m
unwoken m v = record {
  valid = v;
  fewer = omega arith;
  tasks = [];
  handed = tt;
  queue = sym (append-nil m.queue);
}

pub trigger_at-Woken :
    (fd : ℕ) (ev : Event) (c : FdContext) (m : IoManager)
    → IsValid m
    → get_elem? m.contexts fd ≡ some c
    → has ev c ≡ true
    → (m' : IoManager) × (trigger_at fd ev c m ≡ done (put_context ev false empty c, m'))
      × Woken (get_context ev c ∷ []) m m'
      × (m'.contexts ≡ set m.contexts fd (put_context ev false empty c))
trigger_at-Woken fd ev c m v at on =
    let (tasks, run, one) = trigger_event-lem ev c (All-get m.contexts fd c v.sound at) on in
    let (valid, down) = released-IsValid fd ev (m.queue ++ tasks) m c v at on in
    (
      woken fd (put_context ev false empty c) tasks m,
      rw (trigger_at, run) refl,
      record { valid = valid; fewer = down; tasks = tasks; handed = one; queue = refl },
      refl,
    )

abbrev pub waiters : Bool → EventContext → List EventContext
waiters true e = e ∷ []
waiters false e = []

-- The waiter for an event, if it is registered, and the contexts without it.
abbrev pub waiting_at : ℕ → Event → IoManager → List EventContext
waiting_at fd ev m = elim (get_elem? m.contexts fd) [
  | none ↦ []
  | some c ↦ waiters (has ev c) (get_context ev c)
]

abbrev pub without_event : ℕ → Event → IoManager → List FdContext
without_event fd ev m = elim (get_elem? m.contexts fd) [
  | none ↦ m.contexts
  | some c ↦ if has ev c then set m.contexts fd (put_context ev false empty c) else m.contexts
]

waiting_lem :
    (fd : ℕ) (ev : Event) (m : IoManager) (o : Option FdContext)
    → get_elem? m.contexts fd ≡ o
    → waiting_at fd ev m ≡ elim o [ none ↦ [] | some c ↦ waiters (has ev c) (get_context ev c) ]
waiting_lem fd ev m o e =
    ap (λ o. elim o [ none ↦ [] | some c ↦ waiters (has ev c) (get_context ev c) ]) e

without_lem :
    (fd : ℕ) (ev : Event) (m : IoManager) (o : Option FdContext)
    → get_elem? m.contexts fd ≡ o
    → without_event fd ev m ≡ elim o [
      | none ↦ m.contexts
      | some c ↦ if has ev c then set m.contexts fd (put_context ev false empty c) else m.contexts
    ]
without_lem fd ev m o e =
    ap
      (λ o. elim o [
        | none ↦ m.contexts
        | some c ↦ if has ev c then set m.contexts fd (put_context ev false empty c) else m.contexts
      ])
      e

-- With a valid registry `cancelEvent` succeeds exactly when the event is registered and `epoll_ctl`
-- succeeds. No assertion fails and no pointer is null. The callback of its waiter, or else its fiber,
-- is then handed to its scheduler, the event is no longer registered, one event less is pending, and
-- the registry stays valid; otherwise nothing changes.
pub cancel_event-Woken :
    (fd : ℕ) (ev : Event) (rt : ℕ) (m : IoManager)
    → IsValid m
    → (m' : IoManager) × (cancel_event fd ev rt m ≡ done (registered fd ev m && (rt == 0), m'))
      × Woken (if rt == 0 then waiting_at fd ev m else []) m m'
      × (m'.contexts ≡ (if rt == 0 then without_event fd ev m else m.contexts))
unfolding cancel_event
cancel_event-Woken fd ev rt m v = elim (Option-cases (get_elem? m.contexts fd)) [
  | inl absent ↦
      let reg : registered fd ev m ≡ false = registered_at fd ev m none absent in
      let run : cancel_event fd ev rt m ≡ done (registered fd ev m && (rt == 0), m) =
        rw (absent, cancel_event, reg) refl in
      elim (Bool-cases (rt == 0)) [
        | inl accepted ↦ (
          m,
          run,
          rw (accepted, waiting_lem fd ev m none absent) (unwoken m v),
          rw (accepted, without_lem fd ev m none absent) refl,
        )
        | inr refused ↦ (m, run, rw refused (unwoken m v), rw refused refl)
      ]
  | inr (c, at) ↦
      let reg : registered fd ev m ≡ has ev c = registered_at fd ev m (some c) at in
      elim (Bool-cases (has ev c && (rt == 0))) [
        | inl goes ↦
            let (on, accepted) = both _ _ goes in
            let (m', run, w, left) = trigger_at-Woken fd ev c m v at on in
            (
              m',
              rw (at, cancel_event, reg, goes, on, accepted, run) refl,
              rw (accepted, waiting_lem fd ev m (some c) at, on) w,
              rw (accepted, without_lem fd ev m (some c) at, on) left,
            )
        | inr stays ↦
            let run : cancel_event fd ev rt m ≡ done (registered fd ev m && (rt == 0), m) =
              rw (at, cancel_event, reg, stays, not_both _ _ stays) refl in
            elim (Bool-cases (rt == 0)) [
              | inl accepted ↦
                  let off : has ev c ≡ false = ground arith in
                  (
                    m,
                    run,
                    rw (accepted, waiting_lem fd ev m (some c) at, off) (unwoken m v),
                    rw (accepted, without_lem fd ev m (some c) at, off) refl,
                  )
              | inr refused ↦ (m, run, rw refused (unwoken m v), rw refused refl)
            ]
      ]
]
