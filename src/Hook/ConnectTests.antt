-- ===== src/Hook/ConnectTests.antt =====
-- Runs of connect_with_timeout, socket, close and the sleeping calls of yuyu/hook.cc.
use yuyu.Common.{
  ℕ, ◌+◌, ◌*◌, ◌≤◌, ◌<◌, ◌≡◌, refl, Bool, true, false, ◌&&◌, none, some, arith, ◌==◌, get_elem?,
}
use yuyu.Common.Int.{ℤ, pos}
use yuyu.Fd.{FdCtx, FdManager, new_fd_ctx, new_fd_manager, get}
use yuyu.Hook.{returned, failed, etimedout, has_timeout}
use yuyu.Hook.Connecting.{ConnectSystem, reported, connect_with_timeout, connect_with_timeout-lem}
use yuyu.Hook.Descriptors.{socket_hook, close_hook, socket_hook-close_hook}
use yuyu.Hook.Sleeping.{sleep_ms, usleep_ms, nanosleep_ms, sleeping_bounds}

-- The connection is in progress, and the timer fires if the state says so.
abbrev slow : ConnectSystem Bool
slow = record {
  connect = λ s. (failed 115, s);
  add_event = λ s. (true, s);
  wait = λ s. (s, s);
  so_error = λ s. (returned 111, s);
}

abbrev socket : FdCtx
socket = new_fd_ctx (λ fd. some true) 7

connect_with_timeout_example :
    ((connect_with_timeout slow true (some socket) 500 3 true).1.0 ≡ 3)
    × ((slow.add_event true).0 ≡ true
        → (has_timeout 500 && true) ≡ true
        → (connect_with_timeout slow true (some socket) 500 3 true).0 ≡ failed etimedout)
    × ((slow.add_event true).0 ≡ true
        → (has_timeout 500 && true) ≡ false
        → (connect_with_timeout slow true (some socket) 500 3 true).0 ≡ reported (returned 111))
    × ((slow.add_event true).0 ≡ false
        → (connect_with_timeout slow true (some socket) 500 3 true).0 ≡ reported (returned 111))
unfolding new_fd_ctx
connect_with_timeout_example = connect_with_timeout-lem slow socket 500 3 true refl refl refl

refused : (connect_with_timeout slow true (some socket) 500 3 false).0 ≡ failed 111
unfolding connect_with_timeout new_fd_ctx
refused = refl

abbrev opened : ℕ → ℤ × ℕ
opened s = (pos s, s + 1)

abbrev closed_fd : ℤ → ℕ → ℤ × ℕ
closed_fd fd s = (pos 0, s)

descriptors_example :
    (ctx : FdCtx) × (datas' : FdManager) × (datas'' : FdManager) × (socket_hook
        (λ fd. some true)
        opened
        true
        new_fd_manager
        9
      ≡ some (pos 9, (datas', 10)))
    × (get (λ fd. some true) (pos 9) false datas' ≡ some (some ctx, datas'))
    × (close_hook (λ fd. some true) none closed_fd true (pos 9) datas' 10
        ≡ some (pos 0, (datas'', 10)))
    × (get (λ fd. some true) (pos 9) false datas'' ≡ some (none, datas''))
    × ((other : ℕ) → (other == 9) ≡ false → get_elem? datas'' other ≡ get_elem? datas' other)
descriptors_example =
    socket_hook-close_hook (λ fd. some true) opened none closed_fd 9 new_fd_manager 9 (omega arith)
      refl

sleeping_example :
    (sleep_ms 3 ≡ 3 * 1000)
    × (usleep_ms 1500 * 1000 ≤ 1500)
    × (1500 < usleep_ms 1500 * 1000 + 1000)
    × (nanosleep_ms 1 5 * 1000000 ≤ 1 * 1000000000 + 5)
    × (1 * 1000000000 + 5 < nanosleep_ms 1 5 * 1000000 + 1000000)
sleeping_example = sleeping_bounds 3 1500 1 5 (omega arith) (omega arith) (omega arith)
