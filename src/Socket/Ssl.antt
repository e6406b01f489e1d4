-- ===== src/Socket/Ssl.antt =====
-- The TLS sockets of yuyu/socket.cc. The functions of OpenSSL are arguments; of `m_ctx` and `m_ssl`
-- the model keeps whether they are there.
use yuyu.Common.{
  ℕ, ◌+◌, Bool, true, false, not, Option, none, some, List, [], ◌∷◌, ◌==◌, if◌then◌else◌, length,
}
use yuyu.Common.Int.{ℤ, pos, negsuc}
use yuyu.Stream.{size}
use yuyu.HttpSession.{is_end}
use yuyu.Socket.{Socket, System, new_socket, connect, init}

pub record SslSocket (A : Type 0) : Type 0 where
  pub socket : Socket A
  pub has_ctx : Bool
  pub has_ssl : Bool

unfoldable pub new_ssl_socket : {A : Type 0} → (family type_ protocol : ℕ) → SslSocket A
unfolding new_socket
new_ssl_socket family type_ protocol = record {
  socket = new_socket family type_ protocol;
  has_ctx = false;
  has_ssl = false;
}

-- `handshake` is SSL_connect or SSL_accept on a descriptor, and says whether it answers 1.
module _ {S A : Type 0} (sys : System S A) (handshake : Option ℕ → S → Bool × S) where
  unfoldable pub ssl_connect : A → ℕ → SslSocket A → S → Bool × (SslSocket A × S)
  unfolding connect
  ssl_connect addr timeout_ms k s =
      let (v, (base, s₁)) = connect sys addr timeout_ms k.socket s in
      let (done, s₂) = handshake base.sock s₁ in
      if v
      then (done, (record { socket = base; has_ctx = true; has_ssl = true }, s₂))
      else (false, (record k { socket = base }, s₁))

  unfoldable pub ssl_init : ℕ → SslSocket A → S → Bool × (SslSocket A × S)
  unfolding init
  ssl_init fd k s =
      let (v, (base, s₁)) = init sys fd k.socket s in
      let (done, s₂) = handshake base.sock s₁ in
      if v
      then (done, (record k { socket = base; has_ssl = true }, s₂))
      else (false, (record k { socket = base }, s₁))

  -- With the socket that is destroyed where a null pointer is returned.
  unfoldable pub ssl_accept : SslSocket A → S → Option (SslSocket A) × (Option (SslSocket A) × S)
  unfolding ssl_init new_ssl_socket
  ssl_accept k s =
      let (newsock, s') = sys.accept k.socket.sock s in
      let made : SslSocket A = new_ssl_socket k.socket.family k.socket.type_ k.socket.protocol in
      elim newsock [
        | none ↦ (none, (some made, s'))
        | some fd ↦
            let (ok, (child, s'')) = ssl_init fd (record made { has_ctx = k.has_ctx }) s' in
            if ok then (some child, (none, s'')) else (none, (some child, s''))
      ]

-- `send` and `recv` of one buffer: `call` is SSL_write or SSL_read.
unfoldable pub ssl_transfer :
    {S A : Type 0} → (List ℕ → S → ℤ × S) → List ℕ → SslSocket A → S → ℤ × S
ssl_transfer call buffer k s = if k.has_ssl then call buffer s else (negsuc 0, s)

-- The loop over several buffers, with the total so far.
unfoldable pub ssl_loop : {S : Type 0} → (List ℕ → S → ℤ × S) → ℕ → List (List ℕ) → S → ℤ × S
ssl_loop call total [] s = (pos total, s)
ssl_loop call total (buffer ∷ buffers) s =
    let (tmp, s') = call buffer s in
    let rest = ssl_loop call (total + size tmp) buffers s' in
    if is_end tmp
    then (tmp, s')
    else if not (size tmp == length buffer)
    then (pos (total + size tmp), s')
    else rest

unfoldable pub ssl_transfer_all :
    {S A : Type 0} → (List ℕ → S → ℤ × S) → List (List ℕ) → SslSocket A → S → ℤ × S
unfolding ssl_loop
ssl_transfer_all call buffers k s =
    if not k.has_ssl then (negsuc 0, s) else ssl_loop call 0 buffers s

-- `loadCertificates`: the three steps say whether they answer 1.
unfoldable pub ssl_load_certificates :
    {S A : Type 0}
    → (use_chain use_key check_key : S → Bool × S) → SslSocket A
    → S
    → Bool × (SslSocket A × S)
ssl_load_certificates use_chain use_key check_key k s =
    let k' = record k { has_ctx = true } in
    let (chain, s₁) = use_chain s in
    let (key, s₂) = use_key s₁ in
    let (checked, s₃) = check_key s₂ in
    if not chain
    then (false, (k', s₁))
    else if not key
    then (false, (k', s₂))
    else (checked, (k', s₃))
