-- ===== src/Hook.antt =====
-- The hooks of yuyu/hook.cc: the template do_io, through which all hooked reads and writes go, here,
-- and connect, socket, accept, close and the sleeping calls in the modules below. The original
-- call, addEvent and the wait of the fiber are arguments over a state `S` of the system.
pub mod Waiting
pub mod Connecting
pub mod Descriptors
pub mod Sleeping
mod Tests
mod ConnectTests
use yuyu.Fd.{FdCtx, TimeoutKind, get_timeout}
use yuyu.Common.{
  ℕ, zero, suc, ◌-◌, Bool, true, false, not, ◌&&◌, ◌||◌, Option, none, some, ◌==◌, if◌then◌else◌,
}

-- What the original call answers: a length that is not negative, or -1 with an errno.
pub data Answer : Type 0 where
  returned : ℕ → Answer
  failed : (errno : ℕ) → Answer

-- What do_io returns; `not_added` is the -1 after a failed addEvent, which leaves errno alone.
pub data IoResult : Type 0 where
  answer : Answer → IoResult
  not_added : IoResult

-- `call` is the original function, `add_event` says whether addEvent worked, and `wait` is the time
-- on hold: it says whether the timer has fired, if there is one.
pub record System (S : Type 0) : Type 0 where
  pub call : S → Answer × S
  pub add_event : S → Bool × S
  pub wait : S → Bool × S

abbrev pub eintr : ℕ
eintr = 4

abbrev pub ebadf : ℕ
ebadf = 9

abbrev pub eagain : ℕ
eagain = 11

abbrev pub etimedout : ℕ
etimedout = 110

abbrev pub fails_with : ℕ → Answer → Bool
fails_with errno (returned n) = false
fails_with errno (failed e) = e == errno

-- (uint64_t)-1 is no timeout.
abbrev pub has_timeout : ℕ → Bool
has_timeout to = not (to == 18446744073709551615)

-- The timers that have been added and not cancelled.
abbrev pub add_timer_if : Bool → ℕ → ℕ
add_timer_if true timers = suc timers
add_timer_if false timers = timers

abbrev pub cancel_timer_if : Bool → ℕ → ℕ
cancel_timer_if true timers = timers - 1
cancel_timer_if false timers = timers

module _ {S : Type 0} (sys : System S) (to : ℕ) where
  -- From `retry` on; `none` is the end of the fuel. A call that is interrupted is repeated, and one
  -- that would block waits for the event or the timer.
  unfoldable pub retry : ℕ → ℕ → S → Option (IoResult × (ℕ × S))
  retry zero timers s = none
  retry (suc fuel) timers s =
      let (n, s₁) = sys.call s in
      let (added, s₂) = sys.add_event s₁ in
      let (fired, s₃) = sys.wait s₂ in
      let timer = has_timeout to in
      let timers₁ = add_timer_if timer timers in
      let timers₂ = cancel_timer_if timer timers₁ in
      let interrupted = retry fuel timers s₁ in
      let again = retry fuel timers₂ s₃ in
      if fails_with eintr n
      then interrupted
      else if not (fails_with eagain n)
      then some (answer n, (timers, s₁))
      else if not added
      then some (not_added, (timers₂, s₂))
      else if timer && fired
      then some (answer (failed etimedout), (timers₂, s₃))
      else again

  abbrev pub direct : ℕ → S → Option (IoResult × (ℕ × S))
  direct timers s = let (n, s') = sys.call s in some (answer n, (timers, s'))

-- The tests of do_io before the loop.
unfoldable pub do_io :
    {S : Type 0}
    → System S
    → Bool
    → Option FdCtx
    → TimeoutKind
    → ℕ
    → ℕ
    → S
    → Option (IoResult × (ℕ × S))
unfolding retry
do_io sys hook_enable ctx timeout_so fuel timers s =
    if not hook_enable then direct sys 0 timers s else elim ctx [
      | none ↦ direct sys 0 timers s
      | some c ↦
          if c.is_closed
          then some (answer (failed ebadf), (timers, s))
          else if not c.is_socket || c.user_nonblock
          then direct sys 0 timers s
          else retry sys (get_timeout timeout_so c) fuel timers s
    ]
