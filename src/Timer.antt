-- ===== src/Timer.antt =====
-- The timers of yuyu/timer.h and yuyu/timer.cc: `m_timers` is a `std::set` of shared pointers that
-- is ordered by the time and the address, and a timer is changed through any of its pointers.
-- Addresses are numbers and the objects stand in a store. `GetCurrentMS()` is an argument, as is
-- the address of a new object; `C` is the type of the callbacks, and `none` the empty function.
pub mod Order
pub mod Invariant
pub mod Expiry
pub mod Firing
pub mod Listing
mod Tests
pub mod Rescheduling
use yuyu.Common.{
  is_some, ℕ, ◌+◌, ◌-◌, ◌*◌, ◌%◌, ◌^◌, Bool, true, false, not, ◌&&◌, Option, none, some, List, [],
  ◌∷◌, ◌++◌, ltb, leb, ◌==◌, if◌then◌else◌, set,
}

pub record Timer (C : Type 0) : Type 0 where
  pub ms : ℕ
  pub cb : Option C
  pub recurring : Bool
  pub next : ℕ

abbrev pub Store : Type 0 → Type 0
Store C = ℕ → Timer C

abbrev pub put : {C : Type 0} → ℕ → Timer C → Store C → Store C
put a t s b = if a == b then t else s b

-- Arithmetic on `uint64_t`.
abbrev pub add64 : ℕ → ℕ → ℕ
add64 a b = (a + b) % 2 ^ 64

abbrev pub sub64 : ℕ → ℕ → ℕ
sub64 a b = if leb b a then a - b else 2 ^ 64 + a - b

-- `Timer::Comparator`, on pointers of which `none` is null.
pub less : {C : Type 0} → Store C → Option ℕ → Option ℕ → Bool
less s none none = false
less s none (some r) = true
less s (some l) none = false
less s (some l) (some r) =
    let lhs = s l in
    let rhs = s r in
    if ltb lhs.next rhs.next then true else if ltb rhs.next lhs.next then false else ltb l r

pub record TimerManager (C : Type 0) : Type 0 where
  pub store : Store C
  pub timers : List ℕ
  pub tickled : Bool
  pub previous_time : ℕ

-- `m_timers.insert`, which leaves a set that has the key alone.
pub insert : {C : Type 0} → Store C → ℕ → List ℕ → List ℕ
insert s x [] = x ∷ []
insert s x (y ∷ ys) =
    let rest = insert s x ys in
    if less s (some y) (some x)
    then y ∷ rest
    else if less s (some x) (some y)
    then x ∷ y ∷ ys
    else y ∷ ys

-- `m_timers.erase(m_timers.find(x))`; `none` when `find` returns `end()`.
pub find_erase : {C : Type 0} → Store C → ℕ → List ℕ → Option (List ℕ)
find_erase s x [] = none
find_erase s x (y ∷ ys) =
    let rest = find_erase s x ys in
    if less s (some y) (some x)
    then elim rest [ none ↦ none | some zs ↦ some (y ∷ zs) ]
    else if less s (some x) (some y)
    then none
    else some ys

-- `Timer::Timer`
unfoldable pub new_timer : {C : Type 0} → ℕ → ℕ → Option C → Bool → Timer C
new_timer now ms cb recurring = record {
  ms = ms;
  cb = cb;
  recurring = recurring;
  next = add64 now ms;
}

-- `m_timers.begin()` is the timer itself.
abbrev pub is_front : ℕ → List ℕ → Bool
is_front a [] = false
is_front a (x ∷ xs) = a == x

-- The protected `addTimer`; the Boolean is whether it calls `onTimerInsertedAtFront`.
unfoldable pub add : {C : Type 0} → ℕ → TimerManager C → Bool × TimerManager C
add a m =
    let timers = insert m.store a m.timers in
    let at_front = is_front a timers && not m.tickled in
    (at_front, record m { timers = timers; tickled = if at_front then true else m.tickled })

unfoldable pub add_timer :
    {C : Type 0} → ℕ → ℕ → ℕ → Option C → Bool → TimerManager C → Bool × TimerManager C
add_timer a now ms cb recurring m =
    add a (record m { store = put a (new_timer now ms cb recurring) m.store })

-- The callback that `addConditionTimer` makes: `on_timer w cb` is `OnTimer` bound to a weak pointer
-- and a callback.
unfoldable pub add_condition_timer :
    {C W : Type 0}
    → (W → Option C → C)
    → ℕ
    → ℕ
    → ℕ
    → Option C
    → W
    → Bool
    → TimerManager C
    → Bool × TimerManager C
add_condition_timer on_timer a now ms cb weak_cond recurring m =
    add_timer a now ms (some (on_timer weak_cond cb)) recurring m

-- The outcome of a call on a timer; `none` is the erasure of `end()`, which C++ leaves undefined.
unfoldable pub cancel : {C : Type 0} → ℕ → TimerManager C → Option (Bool × TimerManager C)
cancel a m =
    let t = m.store a in
    let store = put a (record t { cb = none }) m.store in
    if is_some t.cb
    then elim (find_erase store a m.timers) [
      | none ↦ none
      | some timers ↦ some (true, record m { store = store; timers = timers })
    ]
    else some (false, m)

unfoldable pub refresh : {C : Type 0} → ℕ → ℕ → TimerManager C → Bool × TimerManager C
refresh a now m =
    let t = m.store a in
    let store = put a (record t { next = add64 now t.ms }) m.store in
    if not (is_some t.cb) then (false, m) else elim (find_erase m.store a m.timers) [
      | none ↦ (false, m)
      | some timers ↦ (true, record m { store = store; timers = insert store a timers })
    ]

-- `reset`, with whether it calls `onTimerInsertedAtFront`.
unfoldable pub reset :
    {C : Type 0} → ℕ → ℕ → ℕ → Bool → TimerManager C → (Bool × Bool) × TimerManager C
reset a now ms from_now m =
    let t = m.store a in
    let start = if from_now then now else sub64 t.next t.ms in
    let store = put a (record t { ms = ms; next = add64 start ms }) m.store in
    if (ms == t.ms) && not from_now
    then ((true, false), m)
    else if not (is_some t.cb)
    then ((false, false), m)
    else elim (find_erase m.store a m.timers) [
      | none ↦ ((false, false), m)
      | some timers ↦
          let (tickle, m') = add a (record m { store = store; timers = timers }) in
          ((true, tickle), m')
    ]

-- `TimerManager::TimerManager`
unfoldable pub new_manager : {C : Type 0} → ℕ → TimerManager C
new_manager now = record {
  store = λ a. record { ms = 0; cb = none; recurring = false; next = 0 };
  timers = [];
  tickled = false;
  previous_time = now;
}

unfoldable pub get_next_timer : {C : Type 0} → ℕ → TimerManager C → ℕ × TimerManager C
get_next_timer now m = (
  elim m.timers [
    | [] ↦ 2 ^ 64 - 1
    | x ∷ xs ↦ if leb (m.store x).next now then 0 else (m.store x).next - now
  ],
  record m { tickled = false },
)

unfoldable pub detect_clock_rollover : {C : Type 0} → ℕ → TimerManager C → Bool × TimerManager C
detect_clock_rollover now m = (
  ltb now m.previous_time && ltb now (sub64 m.previous_time (60 * 60 * 1000)),
  record m { previous_time = now },
)

-- `m_timers.lower_bound(x)`: the keys before it and those from it on.
pub lower_bound : {C : Type 0} → Store C → ℕ → List ℕ → List ℕ × List ℕ
lower_bound s x [] = ([], [])
lower_bound s x (y ∷ ys) =
    let (passed, rest) = lower_bound s x ys in
    if less s (some y) (some x) then (y ∷ passed, rest) else ([], y ∷ ys)

-- The loop over the timers of this very time.
pub skip_equal : {C : Type 0} → Store C → ℕ → List ℕ → List ℕ × List ℕ
skip_equal s now [] = ([], [])
skip_equal s now (y ∷ ys) =
    let (passed, rest) = skip_equal s now ys in
    if (s y).next == now then (y ∷ passed, rest) else ([], y ∷ ys)

-- One round of the loop over the expired timers.
unfoldable pub fire : {C : Type 0} → ℕ → ℕ → TimerManager C → TimerManager C
fire now a m =
    let t = m.store a in
    let again = put a (record t { next = add64 now t.ms }) m.store in
    if t.recurring
    then record m { store = again; timers = insert again a m.timers }
    else record m { store = put a (record t { cb = none }) m.store }

pub fire_all :
    {C : Type 0} → ℕ → List ℕ → List (Option C) → TimerManager C → List (Option C) × TimerManager C
fire_all now [] cbs m = (cbs, m)
fire_all now (a ∷ expired) cbs m =
    fire_all now expired (cbs ++ ((m.store a).cb ∷ [])) (fire now a m)

-- The timers that `listExpiredCb` takes out of the set, and those that stay.
unfoldable pub expire : {C : Type 0} → ℕ → ℕ → Bool → TimerManager C → List ℕ × List ℕ
expire {C = C} now tmp rollover m =
    let key : Timer C = record { ms = 0; cb = none; recurring = false; next = now } in
    let (before, from) = lower_bound (put tmp key m.store) tmp m.timers in
    let (equal, rest) = skip_equal m.store now from in
    if rollover then (m.timers, []) else (before ++ equal, rest)

-- `tmp` is the address of the timer that is made to search for `now`. The test for an empty set is
-- made under the read lock and repeated under the write lock.
unfoldable pub list_expired_cb :
    {C : Type 0} → ℕ → ℕ → TimerManager C → List (Option C) × TimerManager C
list_expired_cb now tmp m = elim m.timers [
  | [] ↦ ([], m)
  | x ∷ xs ↦
      let (rollover, m') = detect_clock_rollover now m in
      let (expired, rest) = expire now tmp rollover m' in
      if not rollover && ltb now (m.store x).next
      then ([], m')
      else fire_all now expired [] (record m' { timers = rest })
]

unfoldable pub has_timer : {C : Type 0} → TimerManager C → Bool
has_timer m = elim m.timers [ [] ↦ false | x ∷ xs ↦ true ]
