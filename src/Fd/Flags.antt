-- ===== src/Fd/Flags.antt =====
-- What a user of a hooked descriptor sees of O_NONBLOCK, in yuyu/hook.cc.
use yuyu.Common.{ℕ, ◌≡◌, refl, Bool, true, false, not, ◌||◌, Option, some}
use yuyu.Fd.{FdCtx, StatusFlags, new_fd_ctx, fcntl_setfl, fcntl_getfl, ioctl_fionbio}

-- The context of an open socket whose descriptor the framework made non-blocking.
pub record IsManaged (c : FdCtx) : Type 0 where
  pub socket_lem : c.is_socket ≡ true
  pub open_lem : c.is_closed ≡ false
  pub sys_lem : c.sys_nonblock ≡ true

-- A new context of a socket is managed.
pub new_fd_ctx-IsManaged :
    (stat : ℕ → Option Bool) (fd : ℕ) → stat fd ≡ some true → IsManaged (new_fd_ctx stat fd)
unfolding new_fd_ctx
new_fd_ctx-IsManaged stat fd e = record {
  socket_lem = rw e refl;
  open_lem = refl;
  sys_lem = rw e refl;
}

-- For an open socket that the framework made non-blocking, `fcntl` with F_SETFL keeps the kernel's
-- flag set whatever the user asks for, F_GETFL then answers with the flags that the user set, and
-- the context stays of that kind.
pub fcntl_getfl-fcntl_setfl :
    (arg : StatusFlags) (c : FdCtx)
    → IsManaged c
    → (c' : FdCtx) × ((fcntl_setfl arg (some c)).0 ≡ some c')
      × ((fcntl_setfl arg (some c)).1.nonblock ≡ true)
      × (fcntl_getfl (fcntl_setfl arg (some c)).1 (some c') ≡ arg)
      × IsManaged c'
unfolding fcntl_setfl fcntl_getfl
fcntl_getfl-fcntl_setfl arg c m =
    let c' : FdCtx = record c { user_nonblock = arg.nonblock } in
    let mine : (c.is_closed || not c.is_socket) ≡ false = rw (m.open_lem, m.socket_lem) refl in
    (
      c',
      rw mine refl,
      rw (mine, m.sys_lem) refl,
      rw mine refl,
      record { socket_lem = m.socket_lem; open_lem = m.open_lem; sys_lem = m.sys_lem },
    )

-- `ioctl` with FIONBIO is seen by F_GETFL on an open socket that the framework made non-blocking,
-- whatever the kernel's flag is.
pub fcntl_getfl-ioctl_fionbio :
    (user_nonblock : Bool) (kernel : StatusFlags) (c : FdCtx)
    → IsManaged c
    → (fcntl_getfl kernel (ioctl_fionbio user_nonblock (some c))).nonblock ≡ user_nonblock
unfolding fcntl_getfl ioctl_fionbio
fcntl_getfl-ioctl_fionbio user_nonblock kernel c m = rw (m.open_lem, m.socket_lem) refl
