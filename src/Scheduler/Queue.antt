-- ===== src/Scheduler/Queue.antt =====
-- The queue of yuyu/scheduler.h: what is appended, and what the loop at the head of `run` takes.
use yuyu.Fiber.{Fiber}
use yuyu.Scheduler.{
  FiberAndThread, Pick, is_empty, has_work, schedule_no_lock, schedule_range, is_elsewhere,
  is_executing, pick_loop,
}
use yuyu.Common.{
  ℕ, ◌≡◌, Bool, true, false, not, ◌&&◌, ◌||◌, Option, none, some, List, [], ◌∷◌, ◌++◌, append-nil,
  append_assoc, arith, if◌then◌else◌, All,
}

module _ {ℓ} {A : Type ℓ} where
  abbrev pub head? : List A → Option A
  head? [] = none
  head? (x ∷ xs) = some x

  abbrev pub tail : List A → List A
  tail [] = []
  tail (x ∷ xs) = xs

  abbrev pub keep : (A → Bool) → List A → List A
  keep p [] = []
  keep p (x ∷ xs) = if p x then x ∷ keep p xs else keep p xs

  abbrev pub any : (A → Bool) → List A → Bool
  any p [] = false
  any p (x ∷ xs) = p x || any p xs

  -- The list up to the first element with the property, and from it.
  abbrev pub before_first : (A → Bool) → List A → List A
  before_first p [] = []
  before_first p (x ∷ xs) = if p x then [] else x ∷ before_first p xs

  abbrev pub from_first : (A → Bool) → List A → List A
  from_first p [] = []
  from_first p (x ∷ xs) = if p x then x ∷ xs else from_first p xs

abbrev pub may_take : ℕ → (ℕ → Fiber) → FiberAndThread → Bool
may_take thread fibers ft = not (is_elsewhere thread ft) && not (is_executing fibers ft)

abbrev pub HasWork : FiberAndThread → Type 0
HasWork ft = has_work ft ≡ true

-- The queue cut at the first task that the thread may take.
abbrev pub cut : ℕ → (ℕ → Fiber) → Bool → List FiberAndThread → Pick
cut thread fibers tickle_me tasks =
    let skipped = before_first (may_take thread fibers) tasks in
    let found = from_first (may_take thread fibers) tasks in
    record {
      task = head? found;
      rest = skipped ++ tail found;
      tickle_me = tickle_me || (any (is_elsewhere thread) skipped || not (is_empty (tail found)));
    }

-- When every entry of the queue has a fiber or a callback, no assertion of the loop fails, and it
-- finds the first task that is not for another thread and whose fiber is not running: it takes just
-- this one out, and asks for a tickle when it passed a task of another thread or leaves one behind.
pub pick_loop-cut :
    (thread : ℕ) (fibers : ℕ → Fiber) (tickle_me : Bool) (tasks : List FiberAndThread)
    → All HasWork tasks
    → pick_loop thread fibers tickle_me tasks ≡ some (cut thread fibers tickle_me tasks)
unfolding pick_loop
pick_loop-cut thread fibers tickle_me [] h = ground arith
pick_loop-cut thread fibers tickle_me (ft ∷ fts) h =
    ground (arith, pick_loop-cut thread fibers true fts, pick_loop-cut thread fibers tickle_me fts)

-- A range of tasks is appended in its order without its empty entries, and a tickle is asked for
-- when there was nothing in the queue and the range is not empty.
pub schedule_range-lem :
    (fts tasks : List FiberAndThread)
    → schedule_range fts tasks ≡ (tasks ++ keep has_work fts, is_empty tasks && not (is_empty fts))
unfolding schedule_range schedule_no_lock
schedule_range-lem [] tasks = ground (arith, append-nil tasks)
schedule_range-lem (ft ∷ fts) tasks = ground (
  arith,
  schedule_range-lem fts (tasks ++ (ft ∷ [])),
  schedule_range-lem fts tasks,
  append_assoc tasks (ft ∷ []) (keep has_work fts),
)
