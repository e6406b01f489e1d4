-- ===== src/Fd/Tests.antt =====
-- Runs of the descriptor contexts of yuyu/fd_manager.cc and yuyu/hook.cc.
use yuyu.Common.{ℕ, refl, Bool, true, false, Option, some}
use yuyu.Fd.{FdCtx, StatusFlags, new_fd_ctx}
use yuyu.Fd.Flags.{IsManaged, new_fd_ctx-IsManaged}

-- Every descriptor is a socket.
abbrev sockets : ℕ → Option Bool
sockets fd = some true

abbrev socket : FdCtx
socket = new_fd_ctx sockets 70

socket-IsManaged : IsManaged socket
socket-IsManaged = new_fd_ctx-IsManaged sockets 70 refl

new_fd_ctx_example : IsManaged (new_fd_ctx sockets 70)
new_fd_ctx_example = new_fd_ctx-IsManaged sockets 70 refl

-- The user asks for a blocking socket.
abbrev blocking : StatusFlags
blocking = record { nonblock = false; others = 2 }
