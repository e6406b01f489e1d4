-- ===== src/Fd.antt =====
-- The descriptor contexts of yuyu/fd_manager.h and yuyu/fd_manager.cc, and the hooked `fcntl`,
-- `ioctl` and `setsockopt` of yuyu/hook.cc that change them. What `fstat` says is an argument.
pub mod Table
pub mod Flags
mod Tests
use yuyu.Common.Int.{ℤ, pos, negsuc}
use yuyu.Common.{
  is_some, ℕ, zero, suc, ◌+◌, ◌-◌, ◌*◌, ◌/◌, ◌%◌, ◌^◌, Bool, true, false, not, ◌||◌, Option, none,
  some, List, ◌++◌, ltb, leb, if◌then◌else◌, length, get_elem?, set, take, replicate,
}

pub record FdCtx : Type 0 where
  pub is_init : Bool
  pub is_socket : Bool
  pub sys_nonblock : Bool
  pub user_nonblock : Bool
  pub is_closed : Bool
  pub fd : ℕ
  pub recv_timeout : ℕ
  pub send_timeout : ℕ

-- The constructor with `init`: `stat` is `none` where `fstat` fails, and else whether the mode is
-- that of a socket.
unfoldable pub new_fd_ctx : (ℕ → Option Bool) → ℕ → FdCtx
new_fd_ctx stat fd =
    let socket : Bool = elim (stat fd) [ none ↦ false | some s ↦ s ] in
    record {
      is_init = is_some (stat fd);
      is_socket = socket;
      sys_nonblock = socket;
      user_nonblock = false;
      is_closed = false;
      fd = fd;
      recv_timeout = 2 ^ 64 - 1;
      send_timeout = 2 ^ 64 - 1;
    }

-- `SO_RCVTIMEO`, and anything else.
pub data TimeoutKind : Type 0 where
  receive : TimeoutKind
  send : TimeoutKind

unfoldable pub set_timeout : TimeoutKind → ℕ → FdCtx → FdCtx
set_timeout receive v c = record c { recv_timeout = v }
set_timeout send v c = record c { send_timeout = v }

unfoldable pub get_timeout : TimeoutKind → FdCtx → ℕ
get_timeout receive c = c.recv_timeout
get_timeout send c = c.send_timeout

-- `m_datas`, where `none` is a null pointer.
abbrev pub FdManager : Type 0
FdManager = List (Option FdCtx)

abbrev pub new_fd_manager : FdManager
new_fd_manager = replicate 64 none

-- `m_datas.resize`
abbrev pub resize : ℕ → FdManager → FdManager
resize size datas = take size datas ++ replicate (size - length datas) none

abbrev pub store : ℕ → FdCtx → FdManager → Option (Option FdCtx × FdManager)
store fd ctx datas =
    if ltb fd (length datas) then some (some ctx, set datas fd (some ctx)) else none

-- The part under the write lock; `fd * 1.5` is cut to a whole number.
unfoldable pub create : (ℕ → Option Bool) → ℕ → FdManager → Option (Option FdCtx × FdManager)
create stat fd datas =
    store fd (new_fd_ctx stat fd)
      (if leb (length datas) fd then resize (fd * 3 / 2) datas else datas)

-- `get`; an outer `none` is an index out of range, which C++ leaves undefined.
unfoldable pub get : (ℕ → Option Bool) → ℤ → Bool → FdManager → Option (Option FdCtx × FdManager)
get stat (negsuc zero) auto_create datas = some (none, datas)
get stat (negsuc (suc n)) auto_create datas = none
get stat (pos fd) auto_create datas = elim (get_elem? datas fd) [
  | none ↦ if auto_create then create stat fd datas else some (none, datas)
  | some ctx ↦ if is_some ctx || not auto_create then some (ctx, datas) else create stat fd datas
]

unfoldable pub del : ℤ → FdManager → Option FdManager
del (negsuc n) datas = none
del (pos fd) datas = some (if leb (length datas) fd then datas else set datas fd none)

-- The status flags of `fcntl`: O_NONBLOCK, and the others.
pub record StatusFlags : Type 0 where
  pub nonblock : Bool
  pub others : ℕ

-- Whether a hook leaves a descriptor to the original function.
abbrev pub is_foreign : Option FdCtx → Bool
is_foreign none = true
is_foreign (some c) = c.is_closed || not c.is_socket

-- The case F_SETFL of `fcntl`: the context afterwards, and the flags that the original gets.
unfoldable pub fcntl_setfl : StatusFlags → Option FdCtx → Option FdCtx × StatusFlags
fcntl_setfl arg none = (none, arg)
fcntl_setfl arg (some c) = if is_foreign (some c) then (some c, arg) else (
  some (record c { user_nonblock = arg.nonblock }),
  record arg { nonblock = c.sys_nonblock },
)

-- The case F_GETFL, from what the original returns.
unfoldable pub fcntl_getfl : StatusFlags → Option FdCtx → StatusFlags
fcntl_getfl arg none = arg
fcntl_getfl arg (some c) =
    if is_foreign (some c) then arg else record arg { nonblock = c.user_nonblock }

-- The case FIONBIO of `ioctl`.
unfoldable pub ioctl_fionbio : Bool → Option FdCtx → Option FdCtx
ioctl_fionbio user_nonblock none = none
ioctl_fionbio user_nonblock (some c) =
    if is_foreign (some c) then some c else some (record c { user_nonblock = user_nonblock })

-- `setsockopt` at SOL_SOCKET with a timeout of seconds and microseconds, with the hooks on.
unfoldable pub setsockopt_timeout : TimeoutKind → ℕ → ℕ → Option FdCtx → Option FdCtx
setsockopt_timeout kind sec usec none = none
setsockopt_timeout kind sec usec (some c) =
    some (set_timeout kind ((sec * 1000 + usec / 1000) % 2 ^ 64) c)
