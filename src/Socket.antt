-- ===== src/Socket.antt =====
-- The sockets of yuyu/socket.h and yuyu/socket.cc over the hooked system calls, which are arguments.
-- A descriptor is a number, and `none` is -1; an address is of a type `A`, and `none` for a null
-- pointer.
pub mod Owning
pub mod Connecting
pub mod Serving
pub mod Living
pub mod Sample
pub mod Ssl
mod Tests
use yuyu.Common.{ℕ, suc, Bool, true, false, not, ◌&&◌, Option, none, some, ◌==◌, if◌then◌else◌, set}
use yuyu.Common.{is_some}
use yuyu.Common.Int.{ℤ, negsuc}

pub record Socket (A : Type 0) : Type 0 where
  pub sock : Option ℕ
  pub family : ℕ
  pub type_ : ℕ
  pub protocol : ℕ
  pub is_connected : Bool
  pub local_address : Option A
  pub remote_address : Option A

-- SO_REUSEADDR and TCP_NODELAY.
pub data SockOption : Type 0 where
  reuse_addr tcp_nodelay : SockOption

-- The calls over a state `S` of the system. Those with a Boolean answer true for success. `connect`
-- gets the timeout, `peer_name` and `sock_name` the family, and `is_usable` is what FdManager knows:
-- there is a context of a socket that is not closed.
pub record System (S A : Type 0) : Type 0 where
  pub socket : (family type_ protocol : ℕ) → S → Option ℕ × S
  pub set_option : ℕ → SockOption → S → S
  pub bind : ℕ → A → S → Bool × S
  pub listen : ℕ → ℕ → S → Bool × S
  pub connect : ℕ → A → ℕ → S → Bool × S
  pub accept : Option ℕ → S → Option ℕ × S
  pub close : ℕ → S → S
  pub unlink : A → S → S
  pub peer_name : Option ℕ → ℕ → S → Option A
  pub sock_name : Option ℕ → ℕ → S → Option A
  pub is_usable : ℕ → S → Bool
  pub get_family : A → ℕ
  pub is_unix : A → Bool

abbrev pub sock_stream : ℕ
sock_stream = 1

abbrev pub sock_dgram : ℕ
sock_dgram = 2

abbrev pub af_unix : ℕ
af_unix = 1

-- (uint64_t)-1
abbrev pub no_timeout : ℕ
no_timeout = 18446744073709551615

module _ {A : Type 0} where
  unfoldable pub new_socket : (family type_ protocol : ℕ) → Socket A
  new_socket family type_ protocol = record {
    sock = none;
    family = family;
    type_ = type_;
    protocol = protocol;
    is_connected = false;
    local_address = none;
    remote_address = none;
  }

  unfoldable pub is_valid : Socket A → Bool
  is_valid k = is_some k.sock

  unfoldable pub create_tcp : ℕ → Socket A
  unfolding new_socket
  create_tcp family = new_socket family sock_stream 0

module _ {S A : Type 0} (sys : System S A) where
  -- `getLocalAddress` and `getRemoteAddress` as far as they change the socket.
  unfoldable pub get_local_address : Socket A → S → Socket A
  get_local_address k s =
      if is_some k.local_address then k else elim (sys.sock_name k.sock k.family s) [
        | none ↦ k
        | some a ↦ record k { local_address = some a }
      ]

  unfoldable pub get_remote_address : Socket A → S → Socket A
  get_remote_address k s =
      if is_some k.remote_address then k else elim (sys.peer_name k.sock k.family s) [
        | none ↦ k
        | some a ↦ record k { remote_address = some a }
      ]

  -- `initSock` on a descriptor; the answers of setsockopt are not used.
  unfoldable pub init_sock : ℕ → ℕ → S → S
  init_sock type_ fd s =
      let s' = sys.set_option fd reuse_addr s in
      if type_ == sock_stream then sys.set_option fd tcp_nodelay s' else s'

  unfoldable pub new_sock : Socket A → S → Socket A × S
  unfolding init_sock
  new_sock k s =
      let (fd, s') = sys.socket k.family k.type_ k.protocol s in
      elim fd [
        | none ↦ (record k { sock = none }, s')
        | some n ↦ (record k { sock = some n }, init_sock k.type_ n s')
      ]

  unfoldable pub create_udp : ℕ → S → Socket A × S
  unfolding new_socket new_sock
  create_udp family s =
      let (k, s') = new_sock (new_socket family sock_dgram 0) s in
      (record k { is_connected = true }, s')

  unfoldable pub init : ℕ → Socket A → S → Bool × (Socket A × S)
  unfolding init_sock get_local_address get_remote_address
  init fd k s =
      if sys.is_usable fd s
      then (let s' = init_sock k.type_ fd s in
          let k' = get_local_address (record k { sock = some fd; is_connected = true }) s' in
          (true, (get_remote_address k' s', s')))
      else (false, (k, s))

  -- The new socket, or a null pointer.
  unfoldable pub accept : Socket A → S → Option (Socket A) × S
  unfolding init new_socket
  accept k s =
      let (newsock, s') = sys.accept k.sock s in
      elim newsock [
        | none ↦ (none, s')
        | some fd ↦
            let (ok, (child, s'')) = init fd (new_socket k.family k.type_ k.protocol) s' in
            if ok then (some child, s'') else (none, s'')
      ]

  unfoldable pub close : Socket A → S → Bool × (Socket A × S)
  close k s = if not k.is_connected && not (is_some k.sock) then (true, (k, s)) else elim k.sock [
    | none ↦ (false, (record k { is_connected = false }, s))
    | some fd ↦ (false, (record k { sock = none; is_connected = false }, sys.close fd s))
  ]

  -- A descriptor where there is none.
  unfoldable pub ensure_sock : Socket A → S → Socket A × S
  unfolding is_valid new_sock
  ensure_sock k s = if is_valid k then (k, s) else new_sock k s

  -- `::connect` and what follows.
  unfoldable pub connect_fd : ℕ → A → ℕ → Socket A → S → Bool × (Socket A × S)
  unfolding close get_remote_address get_local_address
  connect_fd fd addr timeout_ms k s =
      let (connected, s') = sys.connect fd addr timeout_ms s in
      if connected
      then (let k' = get_remote_address (record k { is_connected = true }) s' in
          (true, (get_local_address k' s', s')))
      else (false, (close k s').1)

  unfoldable pub connect : A → ℕ → Socket A → S → Bool × (Socket A × S)
  unfolding ensure_sock connect_fd
  connect addr timeout_ms k s =
      let (k', s') = ensure_sock (record k { remote_address = some addr }) s in
      elim k'.sock [
        | none ↦ (false, (k', s'))
        | some fd ↦
            if not (sys.get_family addr == k'.family)
            then (false, (k', s'))
            else connect_fd fd addr timeout_ms k' s'
      ]

  unfoldable pub reconnect : ℕ → Socket A → S → Bool × (Socket A × S)
  unfolding connect
  reconnect timeout_ms k s = elim k.remote_address [
    | none ↦ (false, (k, s))
    | some addr ↦ connect addr timeout_ms (record k { local_address = none }) s
  ]

  -- For a Unix address: whether somebody answers there; if not, the file is removed. The socket that
  -- tries is destroyed.
  unfoldable pub probe_unix : A → S → Bool × S
  unfolding connect close create_tcp
  probe_unix addr s =
      let (answered, (probe, s')) = connect addr no_timeout (create_tcp af_unix) s in
      let s'' = if answered then s' else sys.unlink addr s' in (answered, (close probe s'').1.1)

  -- `::bind` and what follows.
  unfoldable pub bind_fd : ℕ → A → Socket A → S → Bool × (Socket A × S)
  unfolding get_local_address
  bind_fd fd addr k s =
      let (bound, s') = sys.bind fd addr s in
      if bound then (true, (get_local_address k s', s')) else (false, (k, s'))

  unfoldable pub bind : A → Socket A → S → Bool × (Socket A × S)
  unfolding ensure_sock probe_unix bind_fd
  bind addr k s =
      let (k', s') = ensure_sock k s in
      elim k'.sock [
        | none ↦ (false, (k', s'))
        | some fd ↦
            let (answered, s'') = probe_unix addr s' in
            if not (sys.get_family addr == k'.family)
            then (false, (k', s'))
            else if not (sys.is_unix addr)
            then bind_fd fd addr k' s'
            else if answered
            then (false, (k', s''))
            else bind_fd fd addr k' s''
      ]

  unfoldable pub listen : ℕ → Socket A → S → Bool × S
  listen backlog k s = elim k.sock [ none ↦ (false, s) | some fd ↦ sys.listen fd backlog s ]

-- `send`, `sendTo`, `recv` and `recvFrom`: `call` is the system's function on the descriptor.
unfoldable pub transfer : {S A : Type 0} → (Option ℕ → S → ℤ × S) → Socket A → S → ℤ × S
transfer call k s = if k.is_connected then call k.sock s else (negsuc 0, s)
