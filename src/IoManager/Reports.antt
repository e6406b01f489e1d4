-- ===== src/IoManager/Reports.antt =====
-- The calls of yuyu/iomanager.cc that may wake both waiters of a descriptor.
use yuyu.Common.{
  ℕ, ◌≡◌, refl, ap, ◌∙◌, inl, inr, Bool, true, false, true≢false, ◌&&◌, ◌||◌, some, arith, ◌==◌,
  if◌then◌else◌, Bool-cases, get_elem?, List, [], ◌++◌, set, append_assoc, length-append, sym,
}
use yuyu.IoManager.{
  done, Event, read_event, write_event, EventContext, FdContext, IoManager, empty, has, get_context,
  put_context, trigger_if, cancel_all, Report, handle_report,
}
use yuyu.IoManager.Registry.{IsValid, get-set, set-same, set-set}
use mathlib.Core.Path.{subst}
use yuyu.IoManager.Adding.{not_both, both}
use yuyu.IoManager.Waking.{AreFor-append, waiters, Woken, unwoken, trigger_at-Woken}

Woken-trans :
    (es ds : List EventContext) (a b c : IoManager)
    → Woken es a b
    → Woken ds b c
    → Woken (es ++ ds) a c
Woken-trans es ds a b c s t = record {
  valid = t.valid;
  fewer = omega (arith, s.fewer, t.fewer, length-append es ds);
  tasks = s.tasks ++ t.tasks;
  handed = AreFor-append es ds s.tasks t.tasks s.handed t.handed;
  queue = t.queue ∙ ap (λ q. q ++ t.tasks) s.queue ∙ append_assoc a.queue s.tasks t.tasks;
}

-- A step that wakes a waiter only where its flag is set.
trigger_if-Woken :
    (wanted : Bool) (fd : ℕ) (ev : Event) (c : FdContext) (m : IoManager)
    → IsValid m
    → get_elem? m.contexts fd ≡ some c
    → (wanted ≡ true → has ev c ≡ true)
    → (m' : IoManager) × (trigger_if wanted fd ev (c, m)
        ≡ done ((if wanted then put_context ev false empty c else c), m'))
      × Woken (waiters wanted (get_context ev c)) m m'
      × (get_elem? m'.contexts fd ≡ some (if wanted then put_context ev false empty c else c))
      × (m'.contexts ≡ set m.contexts fd (if wanted then put_context ev false empty c else c))
unfolding trigger_if
trigger_if-Woken true fd ev c m v at on =
    let (m', run, w, e) = trigger_at-Woken fd ev c m v at (on refl) in
    (m', run, w, rw e (get-set m.contexts fd c (put_context ev false empty c) at), e)
trigger_if-Woken false fd ev c m v at on =
    (m, refl, unwoken m v, at, sym (set-same m.contexts fd c at))

-- The context behind the two steps.
abbrev pub after_read : Bool → FdContext → FdContext
after_read wanted c = if wanted then put_context read_event false empty c else c

abbrev pub after_write : Bool → FdContext → FdContext
after_write wanted c = if wanted then put_context write_event false empty c else c

after_read-writes : (wanted : Bool) (c : FdContext) → (after_read wanted c).writes ≡ c.writes
after_read-writes true c = refl
after_read-writes false c = refl

after_read-write : (wanted : Bool) (c : FdContext) → (after_read wanted c).write ≡ c.write
after_read-write true c = refl
after_read-write false c = refl

-- The waiters that are woken, and the contexts without them.
abbrev pub woken_of : Bool → Bool → FdContext → List EventContext
woken_of first second c = waiters first c.read ++ waiters second c.write

abbrev pub contexts_left : Bool → Bool → ℕ → FdContext → IoManager → List FdContext
contexts_left first second fd c m = set m.contexts fd (after_write second (after_read first c))

both_steps :
    (first second : Bool) (fd : ℕ) (c : FdContext) (m : IoManager)
    → IsValid m
    → get_elem? m.contexts fd ≡ some c
    → (first ≡ true → c.reads ≡ true)
    → (second ≡ true → c.writes ≡ true)
    → (m₁ : IoManager) × (m₂ : IoManager) × (trigger_if first fd read_event (c, m)
        ≡ done (after_read first c, m₁))
      × (trigger_if second fd write_event (after_read first c, m₁)
          ≡ done (after_write second (after_read first c), m₂))
      × Woken (woken_of first second c) m m₂
      × (m₂.contexts ≡ contexts_left first second fd c m)
both_steps first second fd c m v at on_read on_write =
    let (m₁, run₁, w₁, at₁, left₁) = trigger_if-Woken first fd read_event c m v at on_read in
    let (m₂, run₂, w₂, at₂, left₂) =
      trigger_if-Woken second fd write_event (after_read first c) m₁ w₁.valid at₁
        (λ h. after_read-writes first c ∙ on_write h) in
    let w : Woken (waiters second c.write) m₁ m₂ =
      subst (λ e. Woken (waiters second e) m₁ m₂) (after_read-write first c) w₂ in
    (
      m₁,
      m₂,
      run₁,
      run₂,
      Woken-trans (waiters first c.read) (waiters second c.write) m m₁ m₂ w₁ w,
      left₂
          ∙ ap (λ cs. set cs fd (after_write second (after_read first c))) left₁
          ∙ set-set m.contexts fd (after_read first c) (after_write second (after_read first c)),
    )

cleared :
    (c : FdContext)
    → ((after_write c.writes (after_read c.reads c)).reads
        || (after_write c.writes (after_read c.reads c)).writes)
      ≡ false
cleared c = elim (Bool-cases c.reads) [
  | inl r ↦ elim (Bool-cases c.writes) [ inl w ↦ rw (r, w) refl | inr w ↦ rw (r, w) refl ]
  | inr r ↦ elim (Bool-cases c.writes) [ inl w ↦ rw (r, w) refl | inr w ↦ rw (r, w) refl ]
]

nobody :
    (first second z : Bool) (c : FdContext)
    → ((first || second) && z) ≡ false
    → (if z then woken_of first second c else []) ≡ []
nobody true true true c h = absurd (true≢false h)
nobody true false true c h = absurd (true≢false h)
nobody false true true c h = absurd (true≢false h)
nobody false false true c h = refl
nobody first second false c h = refl

unchanged :
    (first second z : Bool) (fd : ℕ) (c : FdContext) (m : IoManager)
    → get_elem? m.contexts fd ≡ some c
    → ((first || second) && z) ≡ false
    → m.contexts ≡ (if z then contexts_left first second fd c m else m.contexts)
unchanged true true true fd c m at h = absurd (true≢false h)
unchanged true false true fd c m at h = absurd (true≢false h)
unchanged false true true fd c m at h = absurd (true≢false h)
unchanged false false true fd c m at h = sym (set-same m.contexts fd c at)
unchanged first second false fd c m at h = refl

-- With a valid registry `cancelAll` on a descriptor within it succeeds exactly when an event is
-- registered and `epoll_ctl` succeeds. No assertion fails; for every waiter of the descriptor its
-- callback or else its fiber is then handed to its scheduler, reading first, as many events less are
-- pending, and the registry stays valid.
pub cancel_all-Woken :
    (fd rt : ℕ) (m : IoManager) (c : FdContext)
    → IsValid m
    → get_elem? m.contexts fd ≡ some c
    → (m' : IoManager) × (cancel_all fd rt m ≡ done ((c.reads || c.writes) && (rt == 0), m'))
      × Woken (if rt == 0 then woken_of c.reads c.writes c else []) m m'
unfolding cancel_all
cancel_all-Woken fd rt m c v at = elim (Bool-cases ((c.reads || c.writes) && (rt == 0))) [
  | inl goes ↦
      let (on, accepted) = both (c.reads || c.writes) (rt == 0) goes in
      let (m₁, m₂, run₁, run₂, w, left) =
        both_steps c.reads c.writes fd c m v at (λ h. h) (λ h. h) in
      let second : trigger_if (after_read c.reads c).writes fd write_event
            (after_read c.reads c, m₁)
          ≡ done (after_write c.writes (after_read c.reads c), m₂) =
        ap (λ p. trigger_if p fd write_event (after_read c.reads c, m₁))
          (after_read-writes c.reads c)
        ∙ run₂ in
      (m₂, rw (at, cancel_all, goes, on, accepted, run₁, second, cleared c) refl, rw accepted w)
  | inr stays ↦ (
    m,
    rw (at, cancel_all, stays, not_both (c.reads || c.writes) (rt == 0) stays) refl,
    rw (nobody c.reads c.writes (rt == 0) c stays) (unwoken m v),
  )
]

-- What is wanted is registered.
wanted_flag :
    (reported failed on : Bool)
    → (reported ≡ true → on ≡ true)
    → ((reported || (failed && on)) ≡ true → on ≡ true)
      × ((on && (reported || (failed && on))) ≡ (reported || (failed && on)))
wanted_flag true failed on h = ((λ e. h refl), rw (h refl) refl)
wanted_flag false true true h = ((λ e. e), refl)
wanted_flag false true false h = ((λ e. e), refl)
wanted_flag false false true h = ((λ e. refl), refl)
wanted_flag false false false h = ((λ e. e), refl)

-- With a valid registry, and reports of no other events than the descriptor is registered for, a
-- report wakes exactly the waiters that it is for, or both on an error, when `epoll_ctl` succeeds:
-- the callback or else the fiber of each is handed to its scheduler, reading first, and just these
-- events are no longer registered. No assertion fails, and the registry stays valid.
pub handle_report-Woken :
    (fd rt : ℕ) (r : Report) (m : IoManager) (c : FdContext)
    → IsValid m
    → get_elem? m.contexts fd ≡ some c
    → (r.readable ≡ true → c.reads ≡ true)
    → (r.writable ≡ true → c.writes ≡ true)
    → (m' : IoManager) × (handle_report fd r rt m ≡ done m')
      × Woken
          (if rt == 0
            then woken_of
                (r.readable || (r.failed && c.reads))
                (r.writable || (r.failed && c.writes))
                c
            else [])
          m
          m'
      × (m'.contexts ≡ (
          if rt == 0
          then contexts_left
              (r.readable || (r.failed && c.reads))
              (r.writable || (r.failed && c.writes))
              fd
              c
              m
          else m.contexts))
unfolding handle_report
handle_report-Woken fd rt r m c v at on_read on_write =
    let first : Bool = r.readable || (r.failed && c.reads) in
    let second : Bool = r.writable || (r.failed && c.writes) in
    let reads = wanted_flag r.readable r.failed c.reads on_read in
    let writes = wanted_flag r.writable r.failed c.writes on_write in
    let (m₁, m₂, run₁, run₂, w, left) = both_steps first second fd c m v at reads.0 writes.0 in
    elim (Bool-cases (((c.reads && first) || (c.writes && second)) && (rt == 0))) [
      | inl goes ↦
          let (on, accepted) = both ((c.reads && first) || (c.writes && second)) (rt == 0) goes in
          (
            m₂,
            rw (at, handle_report, on, accepted, run₁, run₂) refl,
            rw accepted w,
            rw accepted left,
          )
      | inr stays ↦
          let idle = not_both ((c.reads && first) || (c.writes && second)) (rt == 0) stays in
          let silent : ((first || second) && (rt == 0)) ≡ false = rw (reads.1, writes.1) at stays in
          (
            m,
            rw (at, handle_report, idle) refl,
            rw (nobody first second (rt == 0) c silent) (unwoken m v),
            unchanged first second (rt == 0) fd c m at silent,
          )
    ]
