-- ===== src/IoManager.antt =====
-- The event registry of yuyu/iomanager.h and yuyu/iomanager.cc. A descriptor is not negative; the
-- two bits of `events` are two flags; schedulers, fibers and callbacks are named by numbers, and
-- `none` is a null pointer or an empty function. The answer of `epoll_ctl` is an argument, and
-- `queue` collects what is handed to the schedulers. Each call holds the mutex of its descriptor,
-- so it is one step.
pub mod Registry
pub mod Adding
pub mod Waking
pub mod Reports
pub mod Idling
mod Tests
use yuyu.Common.{
  is_some, ℕ, zero, suc, ◌+◌, ◌-◌, ◌*◌, ◌/◌, ◌%◌, ◌^◌, Bool, true, false, not, ◌&&◌, ◌||◌, Option,
  none, some, List, [], ◌∷◌, ◌++◌, ltb, ◌==◌, if◌then◌else◌, length, get_elem?, set, take,
}

-- A call returns, stops at a YUYU_ASSERT, or does what C++ leaves undefined.
pub data Outcome {ℓ} (A : Type ℓ) : Type ℓ where
  done : A → Outcome A
  assertion_failed : Outcome A
  fault : Outcome A

pub data Event : Type 0 where
  read_event : Event
  write_event : Event

pub record EventContext : Type 0 where
  pub scheduler : Option ℕ
  pub fiber : Option ℕ
  pub cb : Option ℕ

pub record FdContext : Type 0 where
  pub read : EventContext
  pub write : EventContext
  pub fd : ℕ
  pub reads : Bool
  pub writes : Bool

pub data Task : Type 0 where
  fiber_task : ℕ → Task
  cb_task : ℕ → Task

pub record IoManager : Type 0 where
  pub contexts : List FdContext
  pub pending : ℕ
  pub queue : List (ℕ × Task)

-- The thread that calls: its scheduler, its fiber, and whether that fiber is in the state EXEC.
pub record Caller : Type 0 where
  pub scheduler : Option ℕ
  pub fiber : ℕ
  pub exec : Bool

abbrev pub empty : EventContext
empty = record { scheduler = none; fiber = none; cb = none }

abbrev pub new_context : ℕ → FdContext
new_context fd = record { read = empty; write = empty; fd = fd; reads = false; writes = false }

-- `events & event`
abbrev pub has : Event → FdContext → Bool
has read_event c = c.reads
has write_event c = c.writes

abbrev pub get_context : Event → FdContext → EventContext
get_context read_event c = c.read
get_context write_event c = c.write

-- The context with one flag and what belongs to it replaced.
abbrev pub put_context : Event → Bool → EventContext → FdContext → FdContext
put_context read_event on e c = record c { read = e; reads = on }
put_context write_event on e c = record c { write = e; writes = on }

-- The contexts that `contextResize` makes.
pub fresh : ℕ → ℕ → List FdContext
fresh fd zero = []
fresh fd (suc n) = new_context fd ∷ fresh (suc fd) n

unfoldable pub context_resize : ℕ → List FdContext → List FdContext
context_resize size cs = take size cs ++ fresh (length cs) (size - length cs)

-- The constructor, as far as the registry goes.
unfoldable pub new_io_manager : IoManager
new_io_manager = record { contexts = context_resize 32 []; pending = 0; queue = [] }

-- `++` and `--` on the atomic `size_t`.
abbrev pub increment : ℕ → ℕ
increment n = (n + 1) % 2 ^ 64

abbrev pub decrement : ℕ → ℕ
decrement n = (n + (2 ^ 64 - 1)) % 2 ^ 64

-- The vector after the first part of `addEvent`; `fd * 1.5` is cut to a whole number.
unfoldable pub reach : ℕ → List FdContext → List FdContext
reach fd cs = if ltb fd (length cs) then cs else context_resize (fd * 3 / 2) cs

-- What `addEvent` puts down for the waiter: the callback, or else the fiber that calls.
abbrev pub waiter : Caller → Option ℕ → EventContext
waiter w none = record { scheduler = w.scheduler; fiber = some w.fiber; cb = none }
waiter w (some f) = record { scheduler = w.scheduler; fiber = none; cb = some f }

-- `!event_ctx.scheduler && !event_ctx.fiber && !event_ctx.cb`
abbrev pub is_vacant : EventContext → Bool
is_vacant e = not (is_some e.scheduler) && (not (is_some e.fiber) && not (is_some e.cb))

-- `addEvent`, whose result is whether it returns 0; `rt` is the answer of `epoll_ctl`.
unfoldable pub add_event :
    ℕ → Event → Option ℕ → Caller → ℕ → IoManager → Outcome (Bool × IoManager)
add_event fd ev cb w rt m =
    let contexts = reach fd m.contexts in
    elim (get_elem? contexts fd) [
      | none ↦ fault
      | some c ↦
          if has ev c
          then assertion_failed
          else if not (rt == 0)
          then done (false, record m { contexts = contexts })
          else if not (is_vacant (get_context ev c)) || (not (is_some cb) && not w.exec)
          then assertion_failed
          else done (
            true,
            record m {
              contexts = set contexts fd (put_context ev true (waiter w cb) c);
              pending = increment m.pending;
            },
          )
    ]

-- What `schedule` takes out of a context: the callback, or else the fiber, if there is one.
abbrev pub take_task : ℕ → EventContext → List (ℕ × Task)
take_task s e = elim e.cb [
  | some f ↦ (s, cb_task f) ∷ []
  | none ↦ elim e.fiber [ some f ↦ (s, fiber_task f) ∷ [] | none ↦ [] ]
]

-- What is left in it: `schedule` swaps one of the two out.
abbrev pub spent : EventContext → EventContext
spent e = elim e.cb [
  | some f ↦ record { scheduler = none; fiber = e.fiber; cb = none }
  | none ↦ record { scheduler = none; fiber = none; cb = none }
]

-- `triggerEvent`: the context behind it, and what was scheduled.
unfoldable pub trigger_event : Event → FdContext → Outcome (FdContext × List (ℕ × Task))
trigger_event ev c =
    let e = get_context ev c in
    if not (has ev c) then assertion_failed else elim e.scheduler [
      | none ↦ fault
      | some s ↦ done (put_context ev false (spent e) c, take_task s e)
    ]

-- The manager behind a trigger.
abbrev pub woken : ℕ → FdContext → List (ℕ × Task) → IoManager → IoManager
woken fd c tasks m = record m {
  contexts = set m.contexts fd c;
  pending = decrement m.pending;
  queue = m.queue ++ tasks;
}

unfoldable pub del_event : ℕ → Event → ℕ → IoManager → Outcome (Bool × IoManager)
del_event fd ev rt m = elim (get_elem? m.contexts fd) [
  | none ↦ done (false, m)
  | some c ↦
      if not (has ev c) || not (rt == 0)
      then done (false, m)
      else done (
        true,
        record m {
          contexts = set m.contexts fd (put_context ev false empty c);
          pending = decrement m.pending;
        },
      )
]

-- The second half of `cancelEvent`, and a step of `cancelAll` and `idle`.
abbrev pub trigger_at : ℕ → Event → FdContext → IoManager → Outcome (FdContext × IoManager)
trigger_at fd ev c m = elim (trigger_event ev c) [
  | done (c', tasks) ↦ done (c', woken fd c' tasks m)
  | assertion_failed ↦ assertion_failed
  | fault ↦ fault
]

unfoldable pub cancel_event : ℕ → Event → ℕ → IoManager → Outcome (Bool × IoManager)
cancel_event fd ev rt m = elim (get_elem? m.contexts fd) [
  | none ↦ done (false, m)
  | some c ↦
      if not (has ev c) || not (rt == 0) then done (false, m) else elim (trigger_at fd ev c m) [
        | done (c', m') ↦ done (true, m')
        | assertion_failed ↦ assertion_failed
        | fault ↦ fault
      ]
]

-- `if (wanted) { triggerEvent(ev); --m_pendingEventCount; }`
unfoldable pub trigger_if :
    Bool → ℕ → Event → FdContext × IoManager → Outcome (FdContext × IoManager)
trigger_if wanted fd ev (c, m) = if wanted then trigger_at fd ev c m else done (c, m)

abbrev pub then_do {ℓ κ} : {A : Type ℓ} {B : Type κ} → Outcome A → (A → Outcome B) → Outcome B
then_do (done a) f = f a
then_do assertion_failed f = assertion_failed
then_do fault f = fault

unfoldable pub cancel_all : ℕ → ℕ → IoManager → Outcome (Bool × IoManager)
cancel_all fd rt m = elim (get_elem? m.contexts fd) [
  | none ↦ done (false, m)
  | some c ↦
      if not (c.reads || c.writes) || not (rt == 0)
      then done (false, m)
      else then_do (trigger_if c.reads fd read_event (c, m)) (λ (c₁, m₁).
        then_do (trigger_if c₁.writes fd write_event (c₁, m₁))
          (λ (c₂, m₂). if c₂.reads || c₂.writes then assertion_failed else done (true, m₂)))
]

-- What `epoll_wait` reports of a descriptor.
pub record Report : Type 0 where
  pub readable : Bool
  pub writable : Bool
  pub failed : Bool

-- The body of the loop of `idle` over the reports, for one that is not of the pipe.
unfoldable pub handle_report : ℕ → Report → ℕ → IoManager → Outcome IoManager
handle_report fd r rt m = elim (get_elem? m.contexts fd) [
  | none ↦ fault
  | some c ↦
      let readable = r.readable || (r.failed && c.reads) in
      let writable = r.writable || (r.failed && c.writes) in
      if not ((c.reads && readable) || (c.writes && writable)) || not (rt == 0)
      then done m
      else then_do (trigger_if readable fd read_event (c, m))
          (λ (c₁, m₁). then_do (trigger_if writable fd write_event (c₁, m₁)) (λ (c₂, m₂). done m₂))
]

-- `stopping`, from the answers of `getNextTimer` and of the scheduler.
unfoldable pub stopping : ℕ → Bool → IoManager → Bool
stopping timeout scheduler_stopping m =
    (timeout == 2 ^ 64 - 1) && ((m.pending == 0) && scheduler_stopping)

-- The time that `idle` waits: the conversion of `next_timeout` to `int` keeps its low 32 bits.
unfoldable pub wait_time : ℕ → ℕ
wait_time next_timeout =
    let low = next_timeout % 2 ^ 32 in
    if next_timeout == 2 ^ 64 - 1
    then 5000
    else if ltb 5000 low && ltb low (2 ^ 31)
    then 5000
    else low
