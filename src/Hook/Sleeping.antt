-- ===== src/Hook/Sleeping.antt =====
-- The hooks sleep, usleep and nanosleep of yuyu/hook.cc: the time of the timer that they set, in
-- milliseconds.
use yuyu.Common.{ℕ, ◌+◌, ◌-◌, ◌*◌, ◌/◌, ◌%◌, ◌^◌, ◌≤◌, ◌<◌, ◌≡◌, arith, ltb, if◌then◌else◌}

-- `seconds * 1000` on unsigned int.
unfoldable pub sleep_ms : ℕ → ℕ
sleep_ms seconds = seconds * 1000 % 2 ^ 32

unfoldable pub usleep_ms : ℕ → ℕ
usleep_ms usec = usec / 1000

-- As an int, which addTimer gets as uint64_t.
unfoldable pub nanosleep_ms : (sec nsec : ℕ) → ℕ
nanosleep_ms sec nsec =
    let ms = (sec * 1000 + nsec / 1000 / 1000) % 2 ^ 32 in
    if ltb ms (2 ^ 31) then ms else 2 ^ 64 - 2 ^ 32 + ms

-- Up to 49 days sleep, and up to 24 days nanosleep, set the timer to the time that is asked for;
-- usleep and nanosleep cut it to whole milliseconds, so they may wake up to a millisecond early.
pub sleeping_bounds :
    (seconds usec sec nsec : ℕ)
    → seconds < 4294967
    → sec < 2147482
    → nsec < 1000000000
    → (sleep_ms seconds ≡ seconds * 1000)
      × (usleep_ms usec * 1000 ≤ usec)
      × (usec < usleep_ms usec * 1000 + 1000)
      × (nanosleep_ms sec nsec * 1000000 ≤ sec * 1000000000 + nsec)
      × (sec * 1000000000 + nsec < nanosleep_ms sec nsec * 1000000 + 1000000)
unfolding sleep_ms usleep_ms nanosleep_ms
sleeping_bounds seconds usec sec nsec h k l = ground arith
