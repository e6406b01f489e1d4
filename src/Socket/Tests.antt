-- ===== src/Socket/Tests.antt =====
-- Runs of yuyu/socket.cc.
use yuyu.Common.{
  ℕ, ◌≡◌, refl, Bool, true, false, ◌||◌, ltb, none, some, List, [], ◌∷◌, ◌==◌, length, length,
}
use yuyu.Socket.{new_socket, create_tcp, create_udp, connect, accept}
use yuyu.Common.Int.{ℤ, pos}
use yuyu.Socket.Ssl.{ssl_loop}
use yuyu.Socket.Connecting.{Accepted, accept-Accepted, Connected, connect-Connected}
use yuyu.Socket.Living.{life, life-opens, binds, listens, connects, accepts}
use yuyu.Socket.Sample.{
  World, world_system, world_system-IsSystem, world_system-KnowsAccepted, booted,
}

life_example :
    (life world_system
        (binds 4 ∷ listens 128 ∷ accepts ∷ accepts ∷ connects 7 9 ∷ connects 2 9 ∷ [])
        (new_socket 2 1 0)
        booted).open_fd
      3
    ≡ false
life_example =
    life-opens world_system (λ w. w.open_fd)
      (binds 4 ∷ listens 128 ∷ accepts ∷ accepts ∷ connects 7 9 ∷ connects 2 9 ∷ []) 2 1 0 booted 3
      world_system-IsSystem world_system-KnowsAccepted

accept_example :
    Accepted world_system
      (λ w. w.open_fd)
      world_system-IsSystem
      (λ fd. (fd == 3) || ltb fd 3)
      (some 3)
      booted
      (accept world_system (create_tcp 2) booted)
accept_example =
    accept-Accepted world_system (λ w. w.open_fd) world_system-IsSystem (create_tcp 2) booted

connect_example :
    Connected world_system 4 (create_tcp 2) (connect world_system 4 1000 (create_tcp 2) booted)
connect_example = connect-Connected world_system 4 1000 (create_tcp 2) booted

-- A datagram socket counts as connected also when it could not be made.
abbrev full : World
full = record { next = 0; open_fd = λ x. true }

udp_without_sock :
    ((create_udp world_system 2 full).0.sock ≡ none)
    × ((create_udp world_system 2 full).0.is_connected ≡ true)
unfolding create_udp
udp_without_sock = (refl, refl)

-- A peer that takes a buffer and then closes: the five bytes that went through are not reported.
abbrev first_only : List ℕ → Bool → ℤ × Bool
first_only buffer true = (pos (length buffer), false)
first_only buffer false = (pos 0, false)

lost_total : ssl_loop first_only 0 ((1 ∷ 2 ∷ 3 ∷ 4 ∷ 5 ∷ []) ∷ (6 ∷ []) ∷ []) true ≡ (pos 0, false)
unfolding ssl_loop
lost_total = refl
