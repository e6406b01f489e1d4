-- ===== src/TcpServer/Binding.antt =====
-- The descriptors of the server of yuyu/tcp_server.cc.
use yuyu.Common.{ℕ, ◌+◌, ◌≡◌, Bool, true, false, ◌||◌, Option, none, some, List, [], ◌∷◌, length}
use yuyu.Socket.{Socket, System}
use yuyu.Socket.Owning.{IsSystem, Owns, holds}
use yuyu.TcpServer.{Listener, TcpServer, is_nil}

-- The descriptors of some sockets and of others.
abbrev pub covers : {A : Type 0} → (ℕ → Bool) → List (Listener A) → ℕ → Bool
covers others [] x = others x
covers others (l ∷ ls) x = holds l.socket.sock x || covers others ls x

-- No descriptor is held twice.
abbrev pub Apart : {A : Type 0} → (ℕ → Bool) → List (Listener A) → Type 0
Apart others [] = Unit {0}
Apart others (l ∷ ls) =
    ((fd : ℕ) → l.socket.sock ≡ some fd → covers others ls fd ≡ false) × Apart others ls

-- Just the descriptors of the sockets are open besides those of `others`.
pub record OwnsAll {S A : Type 0} (opens : S → ℕ → Bool) (others : ℕ → Bool)
    (ls : List (Listener A)) (s : S) : Type 0 where
  pub exactly : (x : ℕ) → opens s x ≡ covers others ls x
  pub apart : Apart others ls

module _ {S A : Type 0} (sys : System S A) (opens : S → ℕ → Bool) (os : IsSystem sys opens) where
  -- A socket that was made, or nothing changed.
  record BoundOne (before : S) (r : Option (Listener A) × S) : Type 0 where
    made : (l : Listener A) → r.0 ≡ some l → Owns opens (opens before) l.socket.sock r.1
    failed : r.0 ≡ none → (x : ℕ) → opens r.1 x ≡ opens before x

  -- What the loop leaves: the sockets are those from before and one for each address that did not
  -- fail.
  pub record AllBound (others : ℕ → Bool) (n f : ℕ) (r : List (Listener A) × (List A × S))
      : Type 0 where
    pub owned : OwnsAll opens others r.0 r.1.1
    pub counted : length r.0 + length r.1.0 ≡ n + f

  -- What `bind` says of the server and of the descriptors.
  pub record Bound (others : ℕ → Bool) (addrs : List A) (server : TcpServer A)
      (r : Bool × (List A × (TcpServer A × S))) : Type 0 where
    pub owned : OwnsAll opens others r.1.1.0.socks r.1.1.1
    pub all : r.0 ≡ true → length r.1.1.0.socks ≡ length server.socks + length addrs
    pub nothing : r.0 ≡ false → (r.1.1.0.socks ≡ []) × ((x : ℕ) → opens r.1.1.1 x ≡ others x)
    pub reported : (is_nil r.1.0 ≡ r.0)
