-- ===== src/Socket/Living.antt =====
-- The life of a socket of yuyu/socket.cc, with those that it accepts: which descriptors stay open.
use yuyu.Common.{
  ℕ, ◌≡◌, refl, sym, ap, ◌∙◌, inl, inr, Bool, true, false, true≢false, ◌||◌, Option, none, some,
  List, [], ◌∷◌, ◌==◌, ==→eq, Bool-cases, Option-cases, arith,
}
use mathlib.Core.Path.{subst}
use mathlib.Core.Option.{none-ne-some}
use yuyu.Socket.{Socket, System, new_socket, accept, close, connect, reconnect, bind, listen}
use yuyu.Socket.Owning.{IsSystem, Owns, holds, close-Owns, connect-Kept}
use yuyu.Socket.Serving.{bind-Kept, listen-Owns, reconnect-Kept}
use yuyu.Socket.Connecting.{accept-Accepted}

-- The calls that open, pass on or close descriptors.
pub data Call (A : Type 0) : Type 0 where
  connects : A → ℕ → Call A
  reconnects : ℕ → Call A
  binds : A → Call A
  listens : ℕ → Call A
  accepts : Call A
  closes : Call A

-- FdManager knows what `::accept` returns as a socket that is not closed.
abbrev pub KnowsAccepted : {S A : Type 0} → System S A → Type 0
KnowsAccepted sys =
    (k : Option ℕ) (s : _) (fd : ℕ)
    → (sys.accept k s).0 ≡ some fd
    → sys.is_usable fd (sys.accept k s).1 ≡ true

abbrev pub held : {A : Type 0} → Option (Socket A) → ℕ → Bool
held none x = false
held (some c) x = holds c.sock x

module _ {S A : Type 0} (sys : System S A) where
  -- A call: the socket that it accepts, if it does, and its own socket.
  pub called : Call A → Socket A → S → Option (Socket A) × (Socket A × S)
  called (connects addr timeout_ms) k s = (none, (connect sys addr timeout_ms k s).1)
  called (reconnects timeout_ms) k s = (none, (reconnect sys timeout_ms k s).1)
  called (binds addr) k s = (none, (bind sys addr k s).1)
  called (listens backlog) k s = (none, (k, (listen sys backlog k s).1))
  called accepts k s = let (client, s') = accept sys k s in (client, (k, s'))
  called closes k s = (none, (close sys k s).1)

  pub dropped : Option (Socket A) → S → S
  dropped none s = s
  dropped (some c) s = (close sys c s).1.1

  -- The calls in order, then the destructor, and then those of the accepted sockets.
  pub life : List (Call A) → Socket A → S → S
  unfolding called dropped
  life [] k s = (close sys k s).1.1
  life (c ∷ calls) k s = let (client, (k', s')) = called c k s in dropped client (life calls k' s')

  -- Behind a call, when just the descriptor of the socket and those of `others` were open.
  record Called (opens : S → ℕ → Bool) (others : ℕ → Bool) (r : Option (Socket A) × (Socket A × S))
      : Type 0 where
    rest : Owns opens (λ x. held r.0 x || others x) r.1.0.sock r.1.1
    free : (x : ℕ) → held r.0 x ≡ true → others x ≡ false

  or_swapped : (p q r : Bool) → (p || (q || r)) ≡ (q || (p || r))
  or_swapped true true r = refl
  or_swapped true false r = refl
  or_swapped false q r = refl

  or_false : (p q : Bool) → (p || q) ≡ false → (p ≡ false) × (q ≡ false)
  or_false p q h = (ground arith, ground arith)

  held_self : (fd : ℕ) → (fd == fd) ≡ true
  held_self fd = ground arith

  sole :
      (opens : S → ℕ → Bool) (others : ℕ → Bool) (k : Socket A) (s : S)
      → Owns opens others k.sock s
      → Called opens others (none, (k, s))
  sole opens others k s o = record { rest = o; free = λ x e. absurd (true≢false (sym e)) }

  module _ (opens : S → ℕ → Bool) (os : IsSystem sys opens) (knows : KnowsAccepted sys) where
    -- An accepted socket has a descriptor of its own.
    child-Called :
        (others : ℕ → Bool) (k c : Socket A) (s s' : S)
        → Owns opens others k.sock s
        → Owns opens (opens s) c.sock s'
        → Called opens others (some c, (k, s'))
    child-Called others k c s s' o child = record {
      rest = record {
        exactly = λ x.
            child.exactly x
            ∙ ap (λ b. holds c.sock x || b) (o.exactly x)
            ∙ or_swapped (holds c.sock x) (holds k.sock x) (others x);
        apart = λ fd e.
            let was_open : opens s fd ≡ true =
              o.exactly fd
              ∙ ap (λ q. holds q fd || others fd) e
              ∙ ap (λ b. b || others fd) (held_self fd) in
            let other : holds c.sock fd ≡ false = elim (Bool-cases (holds c.sock fd)) [
              | inr no_ ↦ no_
              | inl same ↦ absurd (true≢false (sym was_open ∙ fresh_child fd same))
            ] in
            rw other (o.apart fd e);
      };
      free = λ x e. (or_false _ _ (sym (o.exactly x) ∙ fresh_child x e)).1;
    }
      where
        fresh_child : (x : ℕ) → holds c.sock x ≡ true → opens s x ≡ false
        fresh_child x h = elim (Option-cases c.sock) [
          | inl nothing ↦ absurd (true≢false (sym h ∙ ap (λ q. holds q x) nothing))
          | inr (fd, there) ↦
              let same : (x == fd) ≡ true = sym (ap (λ q. holds q x) there) ∙ h in
              ap (opens s) (==→eq x fd same) ∙ child.apart fd there
        ]

    accepted-Called :
        (others : ℕ → Bool) (k : Socket A) (s : S)
        → Owns opens others k.sock s
        → Called opens others ((accept sys k s).0, (k, (accept sys k s).1))
    accepted-Called others k s o =
        let a = accept-Accepted sys opens os k s in
        elim (Option-cases (sys.accept k.sock s).0) [
          | inl failed ↦
              let (nobody, same) = a.refused failed in
              rw nobody (
                sole opens others k (accept sys k s).1
                  record { exactly = λ x. same x ∙ o.exactly x; apart = o.apart })
          | inr (fd, got) ↦
              let (c, is_c, child) = a.child fd got (knows k.sock s fd got) in
              rw is_c (child-Called others k c s (accept sys k s).1 o child)
        ]

    called-Called :
        (others : ℕ → Bool) (c : Call A) (k : Socket A) (s : S)
        → Owns opens others k.sock s
        → Called opens others (called c k s)
    unfolding called
    called-Called others (connects addr timeout_ms) k s o =
        sole opens others _ _ (connect-Kept sys opens os others addr timeout_ms k s o)
    called-Called others (reconnects timeout_ms) k s o =
        sole opens others _ _ (reconnect-Kept sys opens os others timeout_ms k s o)
    called-Called others (binds addr) k s o =
        sole opens others _ _ (bind-Kept sys opens os others addr k s o)
    called-Called others (listens backlog) k s o =
        sole opens others k _ (listen-Owns sys opens os others backlog k s o)
    called-Called others accepts k s o = accepted-Called others k s o
    called-Called others closes k s o =
        let (gone, owned) = close-Owns sys opens os others k s o in
        sole opens others _ _
          (subst (λ q. Owns opens others q (close sys k s).1.1) (sym gone) owned)

    dropped-Owns :
        (others : ℕ → Bool) (client : Option (Socket A)) (s : S)
        → ((x : ℕ) → held client x ≡ true → others x ≡ false)
        → Owns opens (λ x. held client x || others x) none s
        → Owns opens others none (dropped client s)
    unfolding dropped
    dropped-Owns others none s free o = o
    dropped-Owns others (some c) s free o =
        (close-Owns sys opens os others c s record {
          exactly = o.exactly;
          apart = λ fd e. free fd (ap (λ q. holds q fd) e ∙ held_self fd);
        }).1

    life-Owns :
        (others : ℕ → Bool) (calls : List (Call A)) (k : Socket A) (s : S)
        → Owns opens others k.sock s
        → Owns opens others none (life calls k s)
    unfolding life
    life-Owns others [] k s o = (close-Owns sys opens os others k s o).1
    life-Owns others (c ∷ calls) k s o =
        let r = called c k s in
        let done = called-Called others c k s o in
        dropped-Owns others r.0 (life calls r.1.0 r.1.1) done.free
          (life-Owns (λ x. held r.0 x || others x) calls r.1.0 r.1.1 done.rest)

  -- Whatever of connect, reconnect, bind, listen, accept and close is called on a new socket, in any
  -- order and however each call of the system ends: when it and the sockets it has accepted are
  -- destroyed, no descriptor is left open and none of others is closed. FdManager must know what
  -- `::accept` returns as a socket that is not closed.
  pub life-opens :
      (opens : S → ℕ → Bool) (calls : List (Call A)) (family type_ protocol : ℕ) (s : S) (x : ℕ)
      → IsSystem sys opens
      → KnowsAccepted sys
      → opens (life calls (new_socket family type_ protocol) s) x ≡ opens s x
  unfolding new_socket
  life-opens opens calls family type_ protocol s x os knows =
      (life-Owns opens os knows (opens s) calls (new_socket family type_ protocol) s
          record { exactly = λ y. refl; apart = λ fd e. absurd (none-ne-some fd e) }).exactly
        x
