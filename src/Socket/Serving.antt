-- ===== src/Socket/Serving.antt =====
-- The descriptors that bind, accept and listen of yuyu/socket.cc leave open.
use yuyu.Common.{
  ℕ, ◌≡◌, refl, sym, ◌∙◌, inl, inr, Bool, true, false, not, Option, none, some, ◌==◌, if◌then◌else◌,
  Bool-cases, Option-cases,
}
use mathlib.Core.Path.{subst}
use mathlib.Core.Option.{none-ne-some}
use yuyu.Socket.{
  Socket, System, new_socket, create_tcp, get_local_address, init_sock, init, ensure_sock, connect,
  reconnect, probe_unix, bind_fd, bind, listen, af_unix, no_timeout,
}
use yuyu.Socket.Owning.{
  IsSystem, Owns, Kept, Owns-same, init_sock-same, get_local_address-sock, get_remote_address-sock,
  ensure_sock-Owns, close-Owns, connect-Kept,
}

module _ {S A : Type 0} (sys : System S A) (opens : S → ℕ → Bool) (os : IsSystem sys opens) where
  -- Trying an address leaves what was open.
  probe_unix-same : (addr : A) (s : S) (x : ℕ) → opens (probe_unix sys addr s).1 x ≡ opens s x
  unfolding probe_unix create_tcp new_socket
  probe_unix-same addr s x =
      let r = connect sys addr no_timeout (create_tcp af_unix) s in
      let start : Owns opens (opens s) none s = record {
        exactly = λ y. refl;
        apart = λ fd e. absurd (none-ne-some fd e);
      } in
      let tried =
        connect-Kept sys opens os (opens s) addr no_timeout (create_tcp af_unix) s start in
      let removed : Owns opens (opens s) r.1.0.sock (if r.0 then r.1.1 else sys.unlink addr r.1.1) =
        elim (Bool-cases r.0) [
          | inl answered ↦ rw answered tried
          | inr silent ↦ rw silent (
              Owns-same sys opens os (opens s) r.1.0.sock r.1.1 _ (os.unlink_keeps addr r.1.1)
                tried)
        ] in
      (close-Owns sys opens os (opens s) r.1.0 (if r.0 then r.1.1 else sys.unlink addr r.1.1)
          removed).1.exactly
        x

  module _ (others : ℕ → Bool) where
    bind_fd-Kept :
        (fd : ℕ) (addr : A) (k : Socket A) (s : S)
        → Owns opens others k.sock s
        → Kept sys opens os others (bind_fd sys fd addr k s)
    unfolding bind_fd
    bind_fd-Kept fd addr k s o =
        let o' =
          Owns-same sys opens os others k.sock s (sys.bind fd addr s).1 (os.bind_keeps fd addr s)
            o in
        elim (Bool-cases (sys.bind fd addr s).0) [
          | inl bound ↦
              rw bound (rw (get_local_address-sock sys opens os others k (sys.bind fd addr s).1) o')
          | inr failed ↦ rw failed o'
        ]

    abbrev binding : A → Option ℕ → Socket A → S → Bool × (Socket A × S)
    binding addr sock k s = elim sock [
      | none ↦ (false, (k, s))
      | some fd ↦
          let (answered, s'') = probe_unix sys addr s in
          if not (sys.get_family addr == k.family)
          then (false, (k, s))
          else if not (sys.is_unix addr)
          then bind_fd sys fd addr k s
          else if answered
          then (false, (k, s''))
          else bind_fd sys fd addr k s''
    ]

    binding-Kept :
        (addr : A) (sock : Option ℕ) (k : Socket A) (s : S)
        → Owns opens others k.sock s
        → Kept sys opens os others (binding addr sock k s)
    binding-Kept addr none k s o = o
    binding-Kept addr (some fd) k s o =
        let tried =
          Owns-same sys opens os others k.sock s (probe_unix sys addr s).1 (probe_unix-same addr s)
            o in
        elim (Bool-cases (not (sys.get_family addr == k.family))) [
          | inl other ↦ rw other o
          | inr right ↦ elim (Bool-cases (not (sys.is_unix addr))) [
            | inl plain ↦ rw (right, plain) (bind_fd-Kept fd addr k s o)
            | inr unix ↦ elim (Bool-cases (probe_unix sys addr s).0) [
              | inl answered ↦ rw (right, unix, answered) tried
              | inr silent ↦
                  rw (right, unix, silent) (bind_fd-Kept fd addr k (probe_unix sys addr s).1 tried)
            ]
          ]
        ]

    pub bind-Kept :
        (addr : A) (k : Socket A) (s : S)
        → Owns opens others k.sock s
        → Kept sys opens os others (bind sys addr k s)
    unfolding bind
    bind-Kept addr k s o =
        let r = ensure_sock sys k s in
        binding-Kept addr r.0.sock r.0 r.1 (ensure_sock-Owns sys opens os others k s o)

    pub listen-Owns :
        (backlog : ℕ) (k : Socket A) (s : S)
        → Owns opens others k.sock s
        → Owns opens others k.sock (listen sys backlog k s).1
    unfolding listen
    listen-Owns backlog k s o = elim (Option-cases k.sock) [
      | inl e ↦ rw (listen, e) (subst (λ q. Owns opens others q s) e o)
      | inr (fd, e) ↦
          rw (listen, e)
            (Owns-same sys opens os others (some fd) s _ (os.listen_keeps fd backlog s)
              (subst (λ q. Owns opens others q s) e o))
    ]

    abbrev reconnecting : ℕ → Option A → Socket A → S → Bool × (Socket A × S)
    reconnecting timeout_ms remote k s = elim remote [
      | none ↦ (false, (k, s))
      | some addr ↦ connect sys addr timeout_ms (record k { local_address = none }) s
    ]

    reconnecting-Kept :
        (timeout_ms : ℕ) (remote : Option A) (k : Socket A) (s : S)
        → Owns opens others k.sock s
        → Kept sys opens os others (reconnecting timeout_ms remote k s)
    reconnecting-Kept timeout_ms none k s o = o
    reconnecting-Kept timeout_ms (some addr) k s o =
        connect-Kept sys opens os others addr timeout_ms (record k { local_address = none }) s o

    pub reconnect-Kept :
        (timeout_ms : ℕ) (k : Socket A) (s : S)
        → Owns opens others k.sock s
        → Kept sys opens os others (reconnect sys timeout_ms k s)
    unfolding reconnect
    reconnect-Kept timeout_ms k s o = reconnecting-Kept timeout_ms k.remote_address k s o

    -- `init` on a descriptor that was just opened.
    pub init-Owns :
        (fd : ℕ) (k : Socket A) (s : S)
        → sys.is_usable fd s ≡ true
        → Owns opens others (some fd) s
        → ((init sys fd k s).0 ≡ true) × Kept sys opens os others (init sys fd k s)
    unfolding init
    init-Owns fd k s usable o =
        let s' = init_sock sys k.type_ fd s in
        let k' = record k { sock = some fd; is_connected = true } in
        let same_fd =
          get_remote_address-sock sys opens os others (get_local_address sys k' s') s'
          ∙ get_local_address-sock sys opens os others k' s' in
        rw usable (
          refl,
          subst (λ q. Owns opens others q s') (sym same_fd)
              (Owns-same sys opens os others (some fd) s s'
                (init_sock-same sys opens os others k.type_ fd s) o),
        )
