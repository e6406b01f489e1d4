-- ===== src/Hook/Waiting.antt =====
-- What the loop of do_io in yuyu/hook.cc returns.
use yuyu.Fd.{FdCtx, TimeoutKind, get_timeout}
use yuyu.Hook.{
  failed, IoResult, answer, not_added, System, eintr, ebadf, eagain, etimedout, fails_with,
  has_timeout, add_timer_if, cancel_timer_if, retry, do_io,
}
use yuyu.Common.{
  ℕ, zero, suc, ◌≤◌, ◌<◌, ◌≡◌, refl, inl, inr, true, false, not, ◌&&◌, ◌||◌, Option, none, some,
  arith, Bool-cases,
}

-- Nothing but answers lets the system go on, and each answer that interrupts or would block uses it
-- up.
pub record Drains {S : Type 0} (sys : System S) (left : S → ℕ) : Type 0 where
  pub call_drains :
      (s : S)
      → (fails_with eintr (sys.call s).0 || fails_with eagain (sys.call s).0) ≡ true
      → left (sys.call s).1 < left s
  pub event_keeps : (s : S) → left (sys.add_event s).1 ≤ left s
  pub wait_keeps : (s : S) → left (sys.wait s).1 ≤ left s

-- An answer that the caller may see.
abbrev pub IsFinal : IoResult → Type 0
IsFinal not_added = Unit
IsFinal (answer n) = (fails_with eintr n ≡ false) × (fails_with eagain n ≡ false)

pub record Settled {S : Type 0} (timers : ℕ) (r : Option (IoResult × (ℕ × S))) : Type 0 where
  pub result : IoResult
  pub after : S
  pub ends : r ≡ some (result, (timers, after))
  pub final : IsFinal result

module _ {S : Type 0} (sys : System S) (to : ℕ) (left : S → ℕ) (d : Drains sys left) where
  same_timers :
      (timers : ℕ)
      → cancel_timer_if (has_timeout to) (add_timer_if (has_timeout to) timers) ≡ timers
  same_timers timers = elim (Bool-cases (has_timeout to)) [
    | inl e ↦ rw e (omega arith)
    | inr e ↦ rw e refl
  ]

  retry-Settled :
      (fuel timers : ℕ) (s : S) → left s < fuel → Settled timers (retry sys to fuel timers s)
  unfolding retry
  retry-Settled zero timers s h = absurd (omega arith)
  retry-Settled (suc fuel) timers s h = elim (Bool-cases (fails_with eintr (sys.call s).0)) [
    | inl interrupted ↦
        let r =
          retry-Settled fuel timers (sys.call s).1
            (omega (arith, d.call_drains s (ground arith), h)) in
        rw interrupted r
    | inr through ↦ elim (Bool-cases (fails_with eagain (sys.call s).0)) [
      | inr done ↦ record {
        result = answer (sys.call s).0;
        after = (sys.call s).1;
        ends = rw (through, done) refl;
        final = (through, done);
      }
      | inl blocks ↦
          let s₁ = (sys.call s).1 in
          let s₂ = (sys.add_event s₁).1 in
          let s₃ = (sys.wait s₂).1 in
          let drained : left s₃ < left s =
            omega (arith, d.call_drains s (ground arith), d.event_keeps s₁, d.wait_keeps s₂) in
          elim (Bool-cases (sys.add_event s₁).0) [
            | inr refused ↦ record {
              result = not_added;
              after = s₂;
              ends = rw (through, blocks, refused, same_timers timers) refl;
              final = tt;
            }
            | inl added ↦ elim (Bool-cases (has_timeout to && (sys.wait s₂).0)) [
              | inl late ↦ record {
                result = answer (failed etimedout);
                after = s₃;
                ends = rw (through, blocks, added, late, same_timers timers) refl;
                final = (refl, refl);
              }
              | inr in_time ↦
                  rw (through, blocks, added, in_time, same_timers timers)
                    (retry-Settled fuel timers s₃ (omega (arith, drained, h)))
            ]
          ]
    ]
  ]

do_io-retry :
    {S : Type 0} (sys : System S) (c : FdCtx) (kind : TimeoutKind) (fuel timers : ℕ) (s : S)
    → c.is_closed ≡ false
    → c.is_socket ≡ true
    → c.user_nonblock ≡ false
    → do_io sys true (some c) kind fuel timers s ≡ retry sys (get_timeout kind c) fuel timers s
unfolding do_io
do_io-retry sys c kind fuel timers s open_ socket blocking = ground arith

-- For a socket that is not closed and that the user has not made nonblocking, do_io ends when the
-- system does not interrupt it or make it wait for ever: it never shows the caller an interrupted
-- call or one that would block, and of the timers that it has set none is left behind, on all paths.
pub do_io-Settled :
    {S : Type 0} (sys : System S) (c : FdCtx) (kind : TimeoutKind) (left : S → ℕ) (fuel timers : ℕ)
    (s : S)
    → Drains sys left
    → left s < fuel
    → c.is_closed ≡ false
    → c.is_socket ≡ true
    → c.user_nonblock ≡ false
    → Settled timers (do_io sys true (some c) kind fuel timers s)
do_io-Settled sys c kind left fuel timers s d f open_ socket blocking =
    rw (do_io-retry sys c kind fuel timers s open_ socket blocking)
      (retry-Settled sys (get_timeout kind c) left d fuel timers s f)

-- Without the hook, without a context, for a file that is no socket and for a socket that the user
-- has made nonblocking, do_io is one call of the original function; for a closed descriptor it fails
-- with EBADF and calls nothing.
pub do_io-passes :
    {S : Type 0} (sys : System S) (ctx : Option FdCtx) (c : FdCtx) (kind : TimeoutKind)
    (fuel timers : ℕ) (s : S)
    → (do_io sys false ctx kind fuel timers s
        ≡ some (answer (sys.call s).0, (timers, (sys.call s).1)))
      × (do_io sys true none kind fuel timers s
          ≡ some (answer (sys.call s).0, (timers, (sys.call s).1)))
      × (c.is_closed ≡ false
          → (not c.is_socket || c.user_nonblock) ≡ true
          → do_io sys true (some c) kind fuel timers s
            ≡ some (answer (sys.call s).0, (timers, (sys.call s).1)))
      × (c.is_closed ≡ true
          → do_io sys true (some c) kind fuel timers s ≡ some (answer (failed ebadf), (timers, s)))
unfolding do_io
do_io-passes sys ctx c kind fuel timers s =
    (refl, refl, λ open_ plain. rw (open_, plain) refl, λ closed. rw closed refl)
