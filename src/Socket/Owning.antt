-- ===== src/Socket/Owning.antt =====
-- The descriptors of the sockets of yuyu/socket.cc: which are open behind a call, and whose they are.
use yuyu.Common.{
  ℕ, ◌≡◌, refl, sym, ap, ◌∙◌, inl, inr, Bool, true, false, not, ◌&&◌, ◌||◌, Option, none, some,
  ◌==◌, if◌then◌else◌, ==→eq, Bool-cases, Option-cases,
}
use yuyu.Common.{is_some}
use mathlib.Core.Path.{subst}
use mathlib.Core.Option.{none-ne-some}
use yuyu.Socket.{
  Socket, System, SockOption, is_valid, get_local_address, get_remote_address, init_sock, new_sock,
  close, ensure_sock, connect_fd, connect, sock_stream,
}

-- Whether a socket has a descriptor.
abbrev pub holds : Option ℕ → ℕ → Bool
holds none x = false
holds (some fd) x = x == fd

-- What the system documents of the descriptors that are open: `socket` and `accept` open one that
-- was not, `close` closes it, and the other calls leave them.
pub record IsSystem {S A : Type 0} (sys : System S A) (opens : S → ℕ → Bool) : Type 0 where
  pub socket_fresh :
      (f t p : ℕ) (s : S) (fd : ℕ) → (sys.socket f t p s).0 ≡ some fd → opens s fd ≡ false
  pub socket_opens :
      (f t p : ℕ) (s : S) (x : ℕ)
      → opens (sys.socket f t p s).1 x ≡ (holds (sys.socket f t p s).0 x || opens s x)
  pub accept_fresh :
      (k : Option ℕ) (s : S) (fd : ℕ) → (sys.accept k s).0 ≡ some fd → opens s fd ≡ false
  pub accept_opens :
      (k : Option ℕ) (s : S) (x : ℕ)
      → opens (sys.accept k s).1 x ≡ (holds (sys.accept k s).0 x || opens s x)
  pub close_closes :
      (fd : ℕ) (s : S) (x : ℕ) → opens (sys.close fd s) x ≡ (not (x == fd) && opens s x)
  pub option_keeps :
      (fd : ℕ) (o : SockOption) (s : S) (x : ℕ) → opens (sys.set_option fd o s) x ≡ opens s x
  pub bind_keeps : (fd : ℕ) (a : A) (s : S) (x : ℕ) → opens (sys.bind fd a s).1 x ≡ opens s x
  pub listen_keeps : (fd n : ℕ) (s : S) (x : ℕ) → opens (sys.listen fd n s).1 x ≡ opens s x
  pub connect_keeps :
      (fd : ℕ) (a : A) (t : ℕ) (s : S) (x : ℕ) → opens (sys.connect fd a t s).1 x ≡ opens s x
  pub unlink_keeps : (a : A) (s : S) (x : ℕ) → opens (sys.unlink a s) x ≡ opens s x

-- Just the descriptor of the socket is open besides those of `others`, which do not have it.
pub record Owns {S : Type 0} (opens : S → ℕ → Bool) (others : ℕ → Bool) (sock : Option ℕ) (s : S)
    : Type 0 where
  pub exactly : (x : ℕ) → opens s x ≡ (holds sock x || others x)
  pub apart : (fd : ℕ) → sock ≡ some fd → others fd ≡ false

module _ {S A : Type 0} (sys : System S A) (opens : S → ℕ → Bool) (os : IsSystem sys opens)
    (others : ℕ → Bool) where
  -- A call that leaves the open descriptors as they are.
  pub Owns-same :
      (sock : Option ℕ) (s s' : S)
      → ((x : ℕ) → opens s' x ≡ opens s x)
      → Owns opens others sock s
      → Owns opens others sock s'
  Owns-same sock s s' h o = record { exactly = λ x. h x ∙ o.exactly x; apart = o.apart }

  pub init_sock-same :
      (type_ fd : ℕ) (s : S) (x : ℕ) → opens (init_sock sys type_ fd s) x ≡ opens s x
  unfolding init_sock
  init_sock-same type_ fd s x = elim (Bool-cases (type_ == sock_stream)) [
    | inl stream ↦ rw stream (os.option_keeps _ _ _ x ∙ os.option_keeps _ _ _ x)
    | inr other ↦ rw other (os.option_keeps _ _ _ x)
  ]

  pub get_local_address-sock : (k : Socket A) (s : S) → (get_local_address sys k s).sock ≡ k.sock
  unfolding get_local_address
  get_local_address-sock k s = elim (Bool-cases (is_some k.local_address)) [
    | inl known ↦ rw known refl
    | inr asked ↦ rw asked (elim (Option-cases (sys.sock_name k.sock k.family s)) [
      | inl e ↦ rw (get_local_address, e) refl
      | inr (a, e) ↦ rw (get_local_address, e) refl
    ])
  ]

  pub get_remote_address-sock : (k : Socket A) (s : S) → (get_remote_address sys k s).sock ≡ k.sock
  unfolding get_remote_address
  get_remote_address-sock k s = elim (Bool-cases (is_some k.remote_address)) [
    | inl known ↦ rw known refl
    | inr asked ↦ rw asked (elim (Option-cases (sys.peer_name k.sock k.family s)) [
      | inl e ↦ rw (get_remote_address, e) refl
      | inr (a, e) ↦ rw (get_remote_address, e) refl
    ])
  ]

  fresh-Owns :
      (fd : Option ℕ) (s s' : S)
      → ((n : ℕ) → fd ≡ some n → opens s n ≡ false)
      → ((x : ℕ) → opens s' x ≡ (holds fd x || opens s x))
      → Owns opens others none s
      → Owns opens others fd s'
  fresh-Owns fd s s' fresh opened o = record {
    exactly = λ x. opened x ∙ ap (λ b. holds fd x || b) (o.exactly x);
    apart = λ n e. sym (o.exactly n) ∙ fresh n e;
  }

  -- The socket with an answer of `socket`.
  abbrev with_sock : Socket A → Option ℕ → S → Socket A × S
  with_sock k fd s' = elim fd [
    | none ↦ (record k { sock = none }, s')
    | some n ↦ (record k { sock = some n }, init_sock sys k.type_ n s')
  ]

  with_sock-Owns :
      (k : Socket A) (fd : Option ℕ) (s : S)
      → Owns opens others fd s
      → Owns opens others (with_sock k fd s).0.sock (with_sock k fd s).1
  with_sock-Owns k none s o = o
  with_sock-Owns k (some n) s o = Owns-same (some n) s _ (init_sock-same k.type_ n s) o

  pub new_sock-Owns :
      (k : Socket A) (s : S)
      → Owns opens others none s
      → Owns opens others (new_sock sys k s).0.sock (new_sock sys k s).1
  unfolding new_sock
  new_sock-Owns k s o =
      let answer = sys.socket k.family k.type_ k.protocol s in
      let owned =
        fresh-Owns answer.0 s answer.1 (os.socket_fresh k.family k.type_ k.protocol s)
          (os.socket_opens k.family k.type_ k.protocol s) o in
      with_sock-Owns k answer.0 answer.1 owned

  pub ensure_sock-Owns :
      (k : Socket A) (s : S)
      → Owns opens others k.sock s
      → Owns opens others (ensure_sock sys k s).0.sock (ensure_sock sys k s).1
  unfolding ensure_sock is_valid
  ensure_sock-Owns k s o = elim (Option-cases k.sock) [
    | inl e ↦ rw (ap is_some e) (new_sock-Owns k s (subst (λ q. Owns opens others q s) e o))
    | inr (fd, e) ↦ rw (ap is_some e) o
  ]

  closed-Owns :
      (fd : ℕ) (s : S) → Owns opens others (some fd) s → Owns opens others none (sys.close fd s)
  closed-Owns fd s o = record {
    exactly = λ x.
        os.close_closes fd s x
        ∙ ap (λ b. not (x == fd) && b) (o.exactly x)
        ∙ without x (o.apart fd refl);
    apart = λ n e. absurd (none-ne-some n e);
  }
    where
      without : (x : ℕ) → others fd ≡ false → (not (x == fd) && ((x == fd) || others x)) ≡ others x
      without x h = elim (Bool-cases (x == fd)) [
        | inl e ↦ rw e (sym (ap others (==→eq x fd e) ∙ h))
        | inr e ↦ rw e refl
      ]

  -- `close` by its two tests.
  abbrev closing : Bool → Option ℕ → Socket A → S → Bool × (Socket A × S)
  closing connected sock k s =
      if not connected && not (is_some sock) then (true, (k, s)) else elim sock [
        | none ↦ (false, (record k { is_connected = false }, s))
        | some fd ↦ (false, (record k { sock = none; is_connected = false }, sys.close fd s))
      ]

  closing-Owns :
      (connected : Bool) (sock : Option ℕ) (k : Socket A) (s : S)
      → k.sock ≡ sock
      → Owns opens others sock s
      → ((closing connected sock k s).1.0.sock ≡ none)
        × Owns opens others none (closing connected sock k s).1.1
  closing-Owns true none k s e o = (e, o)
  closing-Owns false none k s e o = (e, o)
  closing-Owns true (some fd) k s e o = (refl, closed-Owns fd s o)
  closing-Owns false (some fd) k s e o = (refl, closed-Owns fd s o)

  -- `close` leaves no descriptor behind.
  pub close-Owns :
      (k : Socket A) (s : S)
      → Owns opens others k.sock s
      → ((close sys k s).1.0.sock ≡ none) × Owns opens others none (close sys k s).1.1
  unfolding close
  close-Owns k s o = closing-Owns k.is_connected k.sock k s refl o

  -- The socket of a result has what it opened.
  abbrev pub Kept : Bool × (Socket A × S) → Type 0
  Kept r = Owns opens others r.1.0.sock r.1.1

  named_sock :
      (k : Socket A) (s s' : S)
      → Owns opens others k.sock s'
      → Owns opens others (get_local_address sys (get_remote_address sys k s) s).sock s'
  named_sock k s s' o =
      rw (get_local_address-sock (get_remote_address sys k s) s, get_remote_address-sock k s) o

  connect_fd-Kept :
      (fd : ℕ) (addr : A) (timeout_ms : ℕ) (k : Socket A) (s : S)
      → Owns opens others k.sock s
      → Kept (connect_fd sys fd addr timeout_ms k s)
  unfolding connect_fd
  connect_fd-Kept fd addr timeout_ms k s o =
      let s' = (sys.connect fd addr timeout_ms s).1 in
      let o' = Owns-same k.sock s s' (os.connect_keeps fd addr timeout_ms s) o in
      elim (Bool-cases (sys.connect fd addr timeout_ms s).0) [
        | inl there ↦ rw there (named_sock (record k { is_connected = true }) s' s' o')
        | inr failed ↦
            let (gone, owned) = close-Owns k s' o' in
            rw failed (subst (λ q. Owns opens others q (close sys k s').1.1) (sym gone) owned)
      ]

  -- From the descriptor on, in `connect`.
  abbrev connecting : A → ℕ → Option ℕ → Socket A → S → Bool × (Socket A × S)
  connecting addr timeout_ms sock k s = elim sock [
    | none ↦ (false, (k, s))
    | some fd ↦
        if not (sys.get_family addr == k.family)
        then (false, (k, s))
        else connect_fd sys fd addr timeout_ms k s
  ]

  connecting-Kept :
      (addr : A) (timeout_ms : ℕ) (sock : Option ℕ) (k : Socket A) (s : S)
      → Owns opens others k.sock s
      → Kept (connecting addr timeout_ms sock k s)
  connecting-Kept addr timeout_ms none k s o = o
  connecting-Kept addr timeout_ms (some fd) k s o =
      elim (Bool-cases (not (sys.get_family addr == k.family))) [
        | inl other ↦ rw other o
        | inr right ↦ rw right (connect_fd-Kept fd addr timeout_ms k s o)
      ]

  pub connect-Kept :
      (addr : A) (timeout_ms : ℕ) (k : Socket A) (s : S)
      → Owns opens others k.sock s
      → Kept (connect sys addr timeout_ms k s)
  unfolding connect
  connect-Kept addr timeout_ms k s o =
      let r = ensure_sock sys (record k { remote_address = some addr }) s in
      connecting-Kept addr timeout_ms r.0.sock r.0 r.1
        (ensure_sock-Owns (record k { remote_address = some addr }) s o)
