-- ===== src/Hook/Connecting.antt =====
-- connect_with_timeout of yuyu/hook.cc. The original calls, addEvent and the wait of the fiber are
-- arguments over a state `S` of the system.
use yuyu.Common.{
  ℕ, ◌≡◌, refl, inl, inr, Bool, true, false, not, ◌&&◌, ◌||◌, Option, none, some, arith, ◌==◌,
  if◌then◌else◌, Bool-cases,
}
use yuyu.Fd.{FdCtx}
use yuyu.Hook.{
  Answer, returned, failed, ebadf, etimedout, fails_with, has_timeout, add_timer_if,
  cancel_timer_if,
}

-- `so_error` is getsockopt with SO_ERROR: the error it stores, or the errno with which it fails.
-- `wait` says whether the timer has fired, if there is one.
pub record ConnectSystem (S : Type 0) : Type 0 where
  pub connect : S → Answer × S
  pub add_event : S → Bool × S
  pub wait : S → Bool × S
  pub so_error : S → Answer × S

abbrev pub einprogress : ℕ
einprogress = 115

abbrev pub reported : Answer → Answer
reported (returned error) = if error == 0 then returned 0 else failed error
reported (failed errno) = failed errno

module _ {S : Type 0} (sys : ConnectSystem S) where
  -- From getsockopt on; `timers` counts the timers that are set.
  unfoldable pub check_error : ℕ → S → Answer × (ℕ × S)
  check_error timers s = let (error, s') = sys.so_error s in (reported error, (timers, s'))

  -- From the first answer on that the connection is in progress.
  unfoldable pub await_connect : ℕ → ℕ → S → Answer × (ℕ × S)
  unfolding check_error
  await_connect timeout_ms timers s =
      let timer = has_timeout timeout_ms in
      let timers₁ = add_timer_if timer timers in
      let (added, s₁) = sys.add_event s in
      let (fired, s₂) = sys.wait s₁ in
      let timers₂ = cancel_timer_if timer timers₁ in
      if not added
      then check_error timers₂ s₁
      else if timer && fired
      then (failed etimedout, (timers₂, s₂))
      else check_error timers₂ s₂

  unfoldable pub connect_with_timeout : Bool → Option FdCtx → ℕ → ℕ → S → Answer × (ℕ × S)
  unfolding await_connect
  connect_with_timeout hook_enable ctx timeout_ms timers s =
      let (n, s') = sys.connect s in
      let direct : Answer × (ℕ × S) = (n, (timers, s')) in
      if not hook_enable then direct else elim ctx [
        | none ↦ (failed ebadf, (timers, s))
        | some c ↦
            if c.is_closed
            then (failed ebadf, (timers, s))
            else if not c.is_socket || c.user_nonblock
            then direct
            else if not (fails_with einprogress n)
            then direct
            else await_connect timeout_ms timers s'
      ]

  await_timers :
      (timer : Bool) (timers : ℕ) → cancel_timer_if timer (add_timer_if timer timers) ≡ timers
  await_timers true timers = omega arith
  await_timers false timers = refl

  await_connect-lem :
      (timeout_ms timers : ℕ) (s : S)
      → ((await_connect timeout_ms timers s).1.0 ≡ timers)
        × ((sys.add_event s).0 ≡ true
            → (has_timeout timeout_ms && (sys.wait (sys.add_event s).1).0) ≡ true
            → (await_connect timeout_ms timers s).0 ≡ failed etimedout)
        × ((sys.add_event s).0 ≡ true
            → (has_timeout timeout_ms && (sys.wait (sys.add_event s).1).0) ≡ false
            → (await_connect timeout_ms timers s).0
              ≡ reported (sys.so_error (sys.wait (sys.add_event s).1).1).0)
        × ((sys.add_event s).0 ≡ false
            → (await_connect timeout_ms timers s).0 ≡ reported (sys.so_error (sys.add_event s).1).0)
  unfolding await_connect
  await_connect-lem timeout_ms timers s =
      let s₁ = (sys.add_event s).1 in
      let same = await_timers (has_timeout timeout_ms) timers in
      (
        elim (Bool-cases (sys.add_event s).0) [
          | inr refused ↦ rw refused same
          | inl added ↦ elim (Bool-cases (has_timeout timeout_ms && (sys.wait s₁).0)) [
            | inl late ↦ rw (added, late) same
            | inr in_time ↦ rw (added, in_time) same
          ]
        ],
        λ added late. rw (added, late) refl,
        λ added in_time. rw (added, in_time) refl,
        λ refused. rw refused refl,
      )

  in_progress :
      (c : FdCtx) (timeout_ms timers : ℕ) (s : S)
      → c.is_closed ≡ false
      → (not c.is_socket || c.user_nonblock) ≡ false
      → fails_with einprogress (sys.connect s).0 ≡ true
      → connect_with_timeout true (some c) timeout_ms timers s
        ≡ await_connect timeout_ms timers (sys.connect s).1
  unfolding connect_with_timeout
  in_progress c timeout_ms timers s open_ blocking waits = rw (open_, blocking, waits) refl

  -- When a connection of a blocking socket is in progress, no timer is left behind whatever happens.
  -- If the event is added the answer is ETIMEDOUT when the timer has fired, and else what the socket
  -- says behind the wait; if not, what it says at once.
  pub connect_with_timeout-lem :
      (c : FdCtx) (timeout_ms timers : ℕ) (s : S)
      → c.is_closed ≡ false
      → (not c.is_socket || c.user_nonblock) ≡ false
      → fails_with einprogress (sys.connect s).0 ≡ true
      → ((connect_with_timeout true (some c) timeout_ms timers s).1.0 ≡ timers)
        × ((sys.add_event (sys.connect s).1).0 ≡ true
            → (has_timeout timeout_ms && (sys.wait (sys.add_event (sys.connect s).1).1).0) ≡ true
            → (connect_with_timeout true (some c) timeout_ms timers s).0 ≡ failed etimedout)
        × ((sys.add_event (sys.connect s).1).0 ≡ true
            → (has_timeout timeout_ms && (sys.wait (sys.add_event (sys.connect s).1).1).0) ≡ false
            → (connect_with_timeout true (some c) timeout_ms timers s).0
              ≡ reported (sys.so_error (sys.wait (sys.add_event (sys.connect s).1).1).1).0)
        × ((sys.add_event (sys.connect s).1).0 ≡ false
            → (connect_with_timeout true (some c) timeout_ms timers s).0
              ≡ reported (sys.so_error (sys.add_event (sys.connect s).1).1).0)
  connect_with_timeout-lem c timeout_ms timers s open_ blocking waits =
      rw (in_progress c timeout_ms timers s open_ blocking waits)
        (await_connect-lem timeout_ms timers (sys.connect s).1)
