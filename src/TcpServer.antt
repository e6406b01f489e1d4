-- ===== src/TcpServer.antt =====
-- The server of yuyu/tcp_server.cc over the sockets of yuyu/socket.cc and the system's calls. A
-- socket that nothing points to any more is destroyed, which closes it.
pub mod Binding
mod Tests
use yuyu.Common.{
  ℕ, zero, suc, ◌+◌, Bool, true, false, not, Option, none, some, List, [], ◌∷◌, ◌++◌, if◌then◌else◌,
  set,
}
use yuyu.Socket.{Socket, System, create_tcp, bind, listen, close, accept}

-- A socket of the server, and whether it is an SSLSocket.
pub record Listener (A : Type 0) : Type 0 where
  pub socket : Socket A
  pub is_ssl : Bool

pub record TcpServer (A : Type 0) : Type 0 where
  pub socks : List (Listener A)
  pub ssl : Bool
  pub is_stop : Bool
  pub recv_timeout : ℕ

-- SOMAXCONN
abbrev pub backlog : ℕ
backlog = 4096

unfoldable pub new_tcp_server : {A : Type 0} → ℕ → TcpServer A
new_tcp_server read_timeout = record {
  socks = [];
  ssl = false;
  is_stop = true;
  recv_timeout = read_timeout;
}

abbrev pub is_nil : {B : Type 0} → List B → Bool
is_nil [] = true
is_nil (x ∷ xs) = false

module _ {S A : Type 0} (sys : System S A) where
  unfoldable pub destroy : Socket A → S → S
  destroy k s = (close sys k s).1.1

  unfoldable pub destroy_all : List (Listener A) → S → S
  unfolding destroy
  destroy_all [] s = s
  destroy_all (l ∷ ls) s = destroy_all ls (destroy l.socket s)

  -- A round of the loop of `bind`: the socket, if it could be bound and listens.
  unfoldable pub bind_one : Bool → A → S → Option (Listener A) × S
  unfolding destroy
  bind_one ssl addr s =
      let (bound, (k, s₁)) = bind sys addr (create_tcp (sys.get_family addr)) s in
      let (listens, s₂) = listen sys backlog k s₁ in
      if not bound
      then (none, destroy k s₁)
      else if not listens
      then (none, destroy k s₂)
      else (some (record { socket = k; is_ssl = ssl }), s₂)

  -- The loop: the sockets, the addresses that failed, and the system.
  unfoldable pub bind_all :
      Bool → List A → List (Listener A) → List A → S → List (Listener A) × (List A × S)
  bind_all ssl [] socks fails s = (socks, (fails, s))
  bind_all ssl (addr ∷ addrs) socks fails s =
      let (made, s') = bind_one ssl addr s in
      elim made [
        | some l ↦ bind_all ssl addrs (socks ++ (l ∷ [])) fails s'
        | none ↦ bind_all ssl addrs socks (fails ++ (addr ∷ [])) s'
      ]

  -- `bind` with a list; `fails` is a reference.
  unfoldable pub bind_addresses :
      List A → List A → Bool → TcpServer A → S → Bool × (List A × (TcpServer A × S))
  unfolding bind_all destroy_all
  bind_addresses addrs fails ssl server s =
      let (socks, (fails', s')) = bind_all ssl addrs server.socks fails s in
      if not (is_nil fails')
      then (false, (fails', (record server { socks = []; ssl = ssl }, destroy_all socks s')))
      else (true, (fails', (record server { socks = socks; ssl = ssl }, s')))

  unfoldable pub bind_address : A → Bool → TcpServer A → S → Bool × (TcpServer A × S)
  unfolding bind_addresses
  bind_address addr ssl server s =
      let (ok, (fails, rest)) = bind_addresses (addr ∷ []) [] ssl server s in (ok, rest)

  -- `load` is SSLSocket::loadCertificates on a socket.
  unfoldable pub load_certificates : (Socket A → S → Bool × S) → List (Listener A) → S → Bool × S
  load_certificates load [] s = (true, s)
  load_certificates load (l ∷ ls) s =
      let (loaded, s') = load l.socket s in
      let rest = load_certificates load ls s' in
      let others = load_certificates load ls s in
      if not l.is_ssl then others else if loaded then (false, s') else rest

  -- `start`, with the sockets for which startAccept is scheduled.
  unfoldable pub start : TcpServer A → Bool × (TcpServer A × List (Listener A))
  start server =
      if not server.is_stop
      then (true, (server, []))
      else (true, (record server { is_stop = false }, server.socks))

  -- `stop`, and the function that it schedules; `cancel_all` is Socket::cancelAll.
  unfoldable pub stop : TcpServer A → TcpServer A
  stop server = record server { is_stop = true }

  unfoldable pub stop_loop : (Socket A → S → S) → List (Listener A) → S → S
  stop_loop cancel_all [] s = s
  stop_loop cancel_all (l ∷ ls) s =
      stop_loop cancel_all ls (close sys l.socket (cancel_all l.socket s)).1.1

  unfoldable pub stop_task : (Socket A → S → S) → TcpServer A → S → TcpServer A × S
  unfolding stop_loop
  stop_task cancel_all server s =
      (record server { socks = [] }, stop_loop cancel_all server.socks s)

  -- `startAccept`: `stopped` reads m_isStop and `set_timeout` is setRecvTimeout. The clients are
  -- those that are scheduled for handleClient; `none` is the end of the fuel.
  unfoldable pub start_accept :
      (S → Bool) → (Socket A → S → S) → ℕ → Socket A → S → Option (List (Socket A) × S)
  start_accept stopped set_timeout zero k s = none
  start_accept stopped set_timeout (suc fuel) k s =
      let (client, s') = accept sys k s in
      elim (stopped s) [
        | true ↦ some ([], s)
        | false ↦ elim client [
          | none ↦ start_accept stopped set_timeout fuel k s'
          | some c ↦ elim (start_accept stopped set_timeout fuel k (set_timeout c s')) [
            | none ↦ none
            | some (clients, s'') ↦ some (c ∷ clients, s'')
          ]
        ]
      ]
