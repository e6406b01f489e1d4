-- ===== src/Fiber.antt =====
-- The fibers of yuyu/fiber.h and yuyu/fiber.cc. `Code` is the function of a fiber as the scheduler
-- sees it: where it schedules something, where it yields, and how it ends. `rest` is the saved
-- context, the code that is still to run. `none` stands for an empty function. A YUYU_ASSERT that
-- fails is `none`.
use yuyu.Common.{is_some, ℕ, Bool, true, false, not, ◌&&◌, ◌||◌, Option, none, some, if◌then◌else◌}

pub data State : Type 0 where
  init hold exec term ready except : State

pub data Code : Type 0 where
  returns throws : Code
  to_hold to_ready : (rest : Code) → Code
  schedule_fiber : (id : ℕ) (thread : Option ℕ) (rest : Code) → Code
  schedule_cb : (cb : Code) (thread : Option ℕ) (rest : Code) → Code

-- `has_stack` is false for the fiber of a thread's own stack.
pub record Fiber : Type 0 where
  pub state : State
  pub cb : Option Code
  pub rest : Code
  pub has_stack : Bool

-- To call an empty std::function throws.
abbrev pub code_of : Option Code → Code
code_of none = throws
code_of (some c) = c

-- The context of a thread is its own, so nothing of it is modelled.
unfoldable pub thread_fiber : Fiber
thread_fiber = record { state = exec; cb = none; rest = returns; has_stack = false }

-- The context is set to MainFunc, which calls the function.
unfoldable pub new_fiber : Option Code → Fiber
new_fiber cb = record { state = init; cb = cb; rest = code_of cb; has_stack = true }

-- The states in which a fiber may be reset or deleted.
abbrev pub is_reusable : State → Bool
is_reusable init = true
is_reusable except = true
is_reusable term = true
is_reusable _ = false

abbrev pub is_exec : State → Bool
is_exec exec = true
is_exec _ = false

-- The assertions of the destructor.
unfoldable pub may_delete : Fiber → Bool
may_delete f = if f.has_stack then is_reusable f.state else not (is_some f.cb) && is_exec f.state

unfoldable pub reset_fiber : Option Code → Fiber → Option Fiber
reset_fiber cb f =
    if f.has_stack && is_reusable f.state
    then some (record f { cb = cb; rest = code_of cb; state = init })
    else none

-- A fiber that is over stands behind its last swapOut in MainFunc, where YUYU_ASSERT2 fails when it
-- is resumed.
abbrev pub is_over : State → Bool
is_over term = true
is_over except = true
is_over _ = false

unfoldable pub swap_in : Fiber → Option Fiber
swap_in f = if is_exec f.state || is_over f.state then none else some (record f { state = exec })

-- `call` has no assertion of its own.
unfoldable pub call : Fiber → Option Fiber
call f = if is_over f.state then none else some (record f { state = exec })

-- The context is saved where the fiber yields.
unfoldable pub yield_to_ready : Code → Fiber → Fiber
yield_to_ready rest f = record f { state = ready; rest = rest }

unfoldable pub yield_to_hold : Code → Fiber → Fiber
yield_to_hold rest f = record f { state = hold; rest = rest }

-- The two ends of MainFunc: the function is dropped when it returns and kept when it throws.
unfoldable pub main_returned : Fiber → Fiber
main_returned f = record f { state = term; cb = none }

unfoldable pub main_threw : Fiber → Fiber
main_threw f = record f { state = except }
