-- ===== src/Socket/Sample.antt =====
-- A system on which the calls of yuyu/socket.cc can be run: descriptors count up, and an address is
-- a number, of which 0 is that of a Unix socket, and those from 10 on cannot be bound.
use yuyu.Common.{
  ℕ, ◌+◌, ◌≡◌, refl, sym, ap, ◌∙◌, Bool, true, false, not, ◌&&◌, ◌||◌, Option, none, some, ltb,
  ◌==◌, if◌then◌else◌,
}
use mathlib.Core.Option.{some-injective, none-ne-some}
use yuyu.Socket.{System}
use yuyu.Socket.Owning.{holds, IsSystem}
use yuyu.Socket.Living.{KnowsAccepted}
use yuyu.Common.{arith}

pub record World : Type 0 where
  pub next : ℕ
  pub open_fd : ℕ → Bool

-- The next descriptor, if it is free.
abbrev pub fresh : Bool → World → Option ℕ × World
fresh true w = (none, w)
fresh false w =
    (some w.next, record { next = w.next + 1; open_fd = λ x. (x == w.next) || w.open_fd x })

abbrev pub world_system : System World ℕ
world_system = record {
  socket = λ f t p w. fresh (w.open_fd w.next) w;
  set_option = λ fd o w. w;
  bind = λ fd a w. (ltb a 10, w);
  listen = λ fd n w. (true, w);
  connect = λ fd a t w. (ltb a 5 && not (a == 0), w);
  accept = λ k w. fresh (w.open_fd w.next) w;
  close = λ fd w. record w { open_fd = λ x. not (x == fd) && w.open_fd x };
  unlink = λ a w. w;
  peer_name = λ k f w. some 3;
  sock_name = λ k f w. some 4;
  is_usable = λ fd w. w.open_fd fd;
  get_family = λ a. if a == 0 then 1 else 2;
  is_unix = λ a. a == 0;
}

fresh_is_free :
    (b : Bool) (w : World) (fd : ℕ)
    → w.open_fd w.next ≡ b
    → (fresh b w).0 ≡ some fd
    → w.open_fd fd ≡ false
fresh_is_free true w fd h e = absurd (none-ne-some fd e)
fresh_is_free false w fd h e = ap w.open_fd (sym (some-injective _ _ e)) ∙ h

fresh_opens :
    (b : Bool) (w : World) (x : ℕ)
    → (fresh b w).1.open_fd x ≡ (holds (fresh b w).0 x || w.open_fd x)
fresh_opens true w x = refl
fresh_opens false w x = refl

pub world_system-IsSystem : IsSystem world_system (λ w. w.open_fd)
world_system-IsSystem = record {
  socket_fresh = λ f t p w fd e. fresh_is_free (w.open_fd w.next) w fd refl e;
  socket_opens = λ f t p w x. fresh_opens (w.open_fd w.next) w x;
  accept_fresh = λ k w fd e. fresh_is_free (w.open_fd w.next) w fd refl e;
  accept_opens = λ k w x. fresh_opens (w.open_fd w.next) w x;
  close_closes = λ fd w x. refl;
  option_keeps = λ fd o w x. refl;
  bind_keeps = λ fd a w x. refl;
  listen_keeps = λ fd n w x. refl;
  connect_keeps = λ fd a t w x. refl;
  unlink_keeps = λ a w x. refl;
}

fresh_is_known :
    (b : Bool) (w : World) (fd : ℕ) → (fresh b w).0 ≡ some fd → (fresh b w).1.open_fd fd ≡ true
fresh_is_known true w fd e = absurd (none-ne-some fd e)
fresh_is_known false w fd e =
    let same : w.next ≡ fd = some-injective _ _ e in
    let here : (w.next == w.next) ≡ true = ground arith in
    ap (λ x. (x == w.next) || w.open_fd x) (sym same) ∙ ap (λ b. b || w.open_fd w.next) here

pub world_system-KnowsAccepted : KnowsAccepted world_system
world_system-KnowsAccepted k w fd e = fresh_is_known (w.open_fd w.next) w fd e

-- Nothing is open but the three standard descriptors.
abbrev pub booted : World
booted = record { next = 3; open_fd = λ x. ltb x 3 }
