-- ===== src/Scheduler/Tests.antt =====
-- Runs of the scheduler of yuyu/scheduler.cc.
use yuyu.Fiber.{Code, Fiber, init, returns, throws, to_ready, schedule_cb}
use yuyu.Scheduler.{FiberAndThread, Scheduler, Worker, of_cb, pick_loop, run_loop}
use yuyu.Scheduler.Queue.{cut, pick_loop-cut}
use yuyu.Scheduler.Entering.{IsQuiet}
use yuyu.Scheduler.Rounds.{Served, run_loop-Served}
use mathlib.Core.Option.{none-ne-some}
use yuyu.Common.{ℕ, ◌≡◌, refl, true, false, none, some, List, [], ◌∷◌}

-- No fiber has been made.
abbrev no_fibers : ℕ → Fiber
no_fibers id = record { state = init; cb = none; rest = returns; has_stack = true }

-- A callback that schedules another and yields to ready.
abbrev busy : Code
busy = schedule_cb returns (some 7) (to_ready throws)

abbrev queued : List FiberAndThread
queued = of_cb busy none ∷ of_cb returns (some 7) ∷ []

abbrev loaded : Scheduler
loaded = record {
  tasks = queued;
  fibers = no_fibers;
  last_id = 0;
  active = 0;
  idle_count = 0;
  is_stopping = false;
  auto_stop = false;
  tickles = 0;
}

abbrev worker : Worker
worker = record { thread = 7; cb_fiber = none; idle_state = init }

loaded-IsQuiet : IsQuiet worker loaded
loaded-IsQuiet = record {
  works = (refl, (refl, tt));
  quiet = λ id. refl;
  kept = λ id e. absurd (none-ne-some id e);
  rests = refl;
}

pick_loop_example :
    pick_loop 7 no_fibers false (of_cb returns (some 8) ∷ queued)
    ≡ some (cut 7 no_fibers false (of_cb returns (some 8) ∷ queued))
pick_loop_example =
    pick_loop-cut 7 no_fibers false (of_cb returns (some 8) ∷ queued) (refl, (refl, (refl, tt)))

rounds_example : Served queued [] worker loaded (run_loop 2 worker loaded)
rounds_example = run_loop-Served queued [] worker loaded loaded-IsQuiet refl (refl, (refl, tt))

abbrev asked : Scheduler
asked = record loaded { tasks = []; is_stopping = true; auto_stop = true }
