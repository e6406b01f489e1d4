-- ===== src/Socket/Connecting.antt =====
-- What accept and connect of yuyu/socket.cc answer, and the socket behind them.
use yuyu.Common.{
  ℕ, ◌≡◌, refl, sym, ap, ◌∙◌, inl, inr, Bool, true, false, not, ◌&&◌, ◌||◌, Option, none, some,
  ◌==◌, if◌then◌else◌, Bool-cases,
}
use yuyu.Common.{is_some}
use mathlib.Core.Option.{some-injective, none-ne-some}
use yuyu.Socket.{
  Socket, System, new_socket, get_local_address, get_remote_address, init_sock, init, accept, close,
  ensure_sock, is_valid, new_sock, connect_fd, connect,
}
use yuyu.Socket.Owning.{IsSystem, Owns, holds}
use yuyu.Socket.Serving.{init-Owns}

module _ {S A : Type 0} (sys : System S A) (opens : S → ℕ → Bool) (os : IsSystem sys opens) where
  -- What `accept` leaves: the descriptor is the new socket's, or it is left open and nobody's.
  pub record Accepted (usable : ℕ → Bool) (newsock : Option ℕ) (before : S)
      (r : Option (Socket A) × S) : Type 0 where
    pub child :
        (fd : ℕ)
        → newsock ≡ some fd
        → usable fd ≡ true
        → (c : Socket A) × (r.0 ≡ some c) × Owns opens (opens before) c.sock r.1
    pub nobody :
        (fd : ℕ)
        → newsock ≡ some fd
        → usable fd ≡ false
        → (r.0 ≡ none) × ((x : ℕ) → opens r.1 x ≡ ((x == fd) || opens before x))
    pub refused : newsock ≡ none → (r.0 ≡ none) × ((x : ℕ) → opens r.1 x ≡ opens before x)

  abbrev accepting : Option ℕ → Socket A → S → Option (Socket A) × S
  accepting newsock k s' = elim newsock [
    | none ↦ (none, s')
    | some fd ↦
        let (ok, (child, s'')) = init sys fd (new_socket k.family k.type_ k.protocol) s' in
        if ok then (some child, s'') else (none, s'')
  ]

  init-unusable :
      (fd : ℕ) (k : Socket A) (s : S)
      → sys.is_usable fd s ≡ false
      → init sys fd k s ≡ (false, (k, s))
  unfolding init
  init-unusable fd k s h = rw h refl

  accepting-Accepted :
      (newsock : Option ℕ) (k : Socket A) (before s : S)
      → ((fd : ℕ) → newsock ≡ some fd → opens before fd ≡ false)
      → ((x : ℕ) → opens s x ≡ (holds newsock x || opens before x))
      → Accepted (λ fd. sys.is_usable fd s) newsock before (accepting newsock k s)
  accepting-Accepted none k before s fresh opened = record {
    child = λ fd e. absurd (none-ne-some fd e);
    nobody = λ fd e. absurd (none-ne-some fd e);
    refused = λ e. (refl, opened);
  }
  accepting-Accepted (some n) k before s fresh opened =
      let start = new_socket k.family k.type_ k.protocol in
      record {
        child = λ fd e usable.
            let same = some-injective _ _ e in
            let (done, owned) =
              init-Owns sys opens os (opens before) n start s
                (ap (λ m. sys.is_usable m s) same ∙ usable)
                (record { exactly = opened; apart = fresh }) in
            ((init sys n start s).1.0, rw done refl, rw done owned);
        nobody = λ fd e unusable.
            let same = some-injective _ _ e in
            let failed = init-unusable n start s (ap (λ m. sys.is_usable m s) same ∙ unusable) in
            rw failed ((refl, λ x. opened x ∙ ap (λ m. (x == m) || opens before x) same));
        refused = λ e. absurd (none-ne-some n (sym e));
      }

  -- When accept gets a descriptor that FdManager knows as a socket that is not closed, the new
  -- socket has it and nothing else was opened; if FdManager does not, a null pointer is returned and
  -- the descriptor stays open; and when the call fails, nothing is opened.
  pub accept-Accepted :
      (k : Socket A) (s : S)
      → Accepted
          (λ fd. sys.is_usable fd (sys.accept k.sock s).1)
          (sys.accept k.sock s).0
          s
          (accept sys k s)
  unfolding accept
  accept-Accepted k s =
      accepting-Accepted (sys.accept k.sock s).0 k s (sys.accept k.sock s).1
        (os.accept_fresh k.sock s) (os.accept_opens k.sock s)

module _ {S A : Type 0} (sys : System S A) where
  -- The parts of a socket that stay.
  abbrev SameBut : Socket A → Socket A → Type 0
  SameBut k k' =
      (k'.is_connected ≡ k.is_connected)
      × (k'.family ≡ k.family)
      × (k'.remote_address ≡ k.remote_address)

  abbrev with_sock : Socket A → Option ℕ → S → Socket A × S
  with_sock k fd s' = elim fd [
    | none ↦ (record k { sock = none }, s')
    | some n ↦ (record k { sock = some n }, init_sock sys k.type_ n s')
  ]

  with_sock-SameBut : (k : Socket A) (fd : Option ℕ) (s : S) → SameBut k (with_sock k fd s).0
  with_sock-SameBut k none s = (refl, refl, refl)
  with_sock-SameBut k (some n) s = (refl, refl, refl)

  new_sock-SameBut : (k : Socket A) (s : S) → SameBut k (new_sock sys k s).0
  unfolding new_sock
  new_sock-SameBut k s =
      let (fd, s') = sys.socket k.family k.type_ k.protocol s in with_sock-SameBut k fd s'

  ensure_sock-SameBut : (k : Socket A) (s : S) → SameBut k (ensure_sock sys k s).0
  unfolding ensure_sock
  ensure_sock-SameBut k s = elim (Bool-cases (is_valid k)) [
    | inl there ↦ rw there (refl, refl, refl)
    | inr without ↦ rw without (new_sock-SameBut k s)
  ]

  abbrev named_local : Option A → Option A → Socket A → Socket A
  named_local known asked k =
      if is_some known
      then k
      else elim asked [ none ↦ k | some a ↦ record k { local_address = some a } ]

  named_local-SameBut :
      (known asked : Option A) (k : Socket A)
      → SameBut k (named_local known asked k) × ((named_local known asked k).sock ≡ k.sock)
  named_local-SameBut none none k = ((refl, refl, refl), refl)
  named_local-SameBut none (some a) k = ((refl, refl, refl), refl)
  named_local-SameBut (some b) asked k = ((refl, refl, refl), refl)

  get_local_address-SameBut :
      (k : Socket A) (s : S)
      → SameBut k (get_local_address sys k s) × ((get_local_address sys k s).sock ≡ k.sock)
  unfolding get_local_address
  get_local_address-SameBut k s =
      named_local-SameBut k.local_address (sys.sock_name k.sock k.family s) k

  get_remote_address-known :
      (k : Socket A) (s : S) (a : A) → k.remote_address ≡ some a → get_remote_address sys k s ≡ k
  unfolding get_remote_address
  get_remote_address-known k s a e = rw (ap is_some e) refl

  close-is_connected : (k : Socket A) (s : S) → (close sys k s).1.0.is_connected ≡ false
  unfolding close
  close-is_connected k s = closing k.is_connected k.sock refl
    where
      closing :
          (b : Bool) (o : Option ℕ)
          → k.is_connected ≡ b
          → (if not b && not (is_some o)
              then (true, (k, s))
              else elim o as (λ _. Bool × (Socket A × S)) [
                | none ↦ (false, (record k { is_connected = false }, s))
                | some fd ↦
                    (false, (record k { sock = none; is_connected = false }, sys.close fd s))
              ]).1.0.is_connected
            ≡ false
      closing true none e = refl
      closing false none e = e
      closing true (some fd) e = refl
      closing false (some fd) e = refl

  -- What a result of `connect` says of the socket.
  abbrev pub Connected : A → Socket A → Bool × (Socket A × S) → Type 0
  Connected addr k r =
      (r.0 ≡ true
        → (r.1.0.is_connected ≡ true)
          × (r.1.0.remote_address ≡ some addr)
          × ((sys.get_family addr == r.1.0.family) ≡ true)
          × (is_some r.1.0.sock ≡ true))
      × (r.0 ≡ false → k.is_connected ≡ false → r.1.0.is_connected ≡ false)

  connect_fd-Connected :
      (fd : ℕ) (addr : A) (timeout_ms : ℕ) (k : Socket A) (s : S)
      → k.sock ≡ some fd
      → k.remote_address ≡ some addr
      → (sys.get_family addr == k.family) ≡ true
      → Connected addr k (connect_fd sys fd addr timeout_ms k s)
  unfolding connect_fd
  connect_fd-Connected fd addr timeout_ms k s there remote family =
      let s' = (sys.connect fd addr timeout_ms s).1 in
      let k' = record k { is_connected = true } in
      let k'' = get_remote_address sys k' s' in
      let e = get_remote_address-known k' s' addr remote in
      let ((c, f, r), d) = get_local_address-SameBut k'' s' in
      elim (Bool-cases (sys.connect fd addr timeout_ms s).0) [
        | inl yes_ ↦ rw yes_ (
          λ h. (
            c ∙ ap (λ q. q.is_connected) e,
            r ∙ ap (λ q. q.remote_address) e ∙ remote,
            ap (λ n. sys.get_family addr == n) (f ∙ ap (λ q. q.family) e) ∙ family,
            ap is_some (d ∙ ap (λ q. q.sock) e ∙ there),
          ),
          λ h. cc,
        )
        | inr no_ ↦ rw no_ (λ h. cc, λ h before. close-is_connected k s')
      ]

  abbrev connecting : A → ℕ → Option ℕ → Socket A → S → Bool × (Socket A × S)
  connecting addr timeout_ms sock k s = elim sock [
    | none ↦ (false, (k, s))
    | some fd ↦
        if not (sys.get_family addr == k.family)
        then (false, (k, s))
        else connect_fd sys fd addr timeout_ms k s
  ]

  connecting-Connected :
      (addr : A) (timeout_ms : ℕ) (sock : Option ℕ) (k : Socket A) (s : S)
      → k.sock ≡ sock
      → k.remote_address ≡ some addr
      → Connected addr k (connecting addr timeout_ms sock k s)
  connecting-Connected addr timeout_ms none k s there remote = (λ h. cc, λ h before. before)
  connecting-Connected addr timeout_ms (some fd) k s there remote =
      elim (Bool-cases (sys.get_family addr == k.family)) [
        | inl right ↦ rw right (connect_fd-Connected fd addr timeout_ms k s there remote right)
        | inr other ↦ rw other (λ h. cc, λ h before. before)
      ]

  -- When connect answers true the socket is connected, valid and of the family of the address, which
  -- is its remote address; when it answers false a socket that was not connected is not.
  pub connect-Connected :
      (addr : A) (timeout_ms : ℕ) (k : Socket A) (s : S)
      → Connected addr k (connect sys addr timeout_ms k s)
  unfolding connect
  connect-Connected addr timeout_ms k s =
      let k' = record k { remote_address = some addr } in
      let r = ensure_sock sys k' s in
      let (c, f, a) = ensure_sock-SameBut k' s in
      let (when_true, when_false) = connecting-Connected addr timeout_ms r.0.sock r.0 r.1 refl a in
      (when_true, λ h before. when_false h (c ∙ before))
