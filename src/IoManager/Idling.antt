-- ===== src/IoManager/Idling.antt =====
-- How long `idle` of yuyu/iomanager.cc waits.
use yuyu.Common.{ℕ, ◌-◌, ◌^◌, ◌≤◌, ◌<◌, ◌≡◌, ◌⊎◌, inl, inr, arith}
use yuyu.IoManager.{wait_time}

-- For a next timer that is less than 2 ^ 31 milliseconds away, and without a timer, `idle` waits at
-- most five seconds, and not longer than the timer.
pub wait_time_bounds :
    (next_timeout : ℕ)
    → (next_timeout < 2 ^ 31) ⊎ (next_timeout ≡ 2 ^ 64 - 1)
    → (wait_time next_timeout ≤ 5000) × (wait_time next_timeout ≤ next_timeout)
unfolding wait_time
wait_time_bounds next_timeout (inl h) = ground arith
wait_time_bounds next_timeout (inr h) = ground arith

-- From 2 ^ 31 milliseconds to 2 ^ 32 the conversion to int makes a negative number of it, which
-- lets epoll_wait wait without end.
pub wait_time-negative :
    (next_timeout : ℕ)
    → 2 ^ 31 ≤ next_timeout
    → next_timeout < 2 ^ 32
    → (wait_time next_timeout ≡ next_timeout) × (2 ^ 31 ≤ wait_time next_timeout)
unfolding wait_time
wait_time-negative next_timeout h k = ground arith
