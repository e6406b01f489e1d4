-- ===== src/Address/Tests.antt =====
-- Runs of yuyu/address.cc.
use yuyu.Http.{codes}
use yuyu.Address.{
  made, null_pointer, undefined, Ipv4Address, count_bytes, broadcast_address, network_address,
  subnet_mask, insert_ipv4, subnet_mask6,
}
use yuyu.Address.Masks.{ipv4_networks, count_bytes-subnet_mask}
use yuyu.Common.{ℕ, ◌+◌, ◌-◌, ◌*◌, ◌/◌, ◌%◌, ◌^◌, ◌≤◌, ◌<◌, ◌≡◌, refl, ◌∷◌, arith, replicate}

-- 192.168.1.7
abbrev home : Ipv4Address
home = record { addr = 3232235783; port = 80 }

abbrev bits : ℕ
bits = 24

networks_example :
    (1 < bits
      → bits ≤ 32
      → broadcast_address bits home
        ≡ made (record home {
          addr = home.addr / 2 ^ (32 - bits) * 2 ^ (32 - bits) + (2 ^ (32 - bits) - 1);
        }))
    × (1 < bits
        → bits ≤ 32
        → network_address bits home ≡ made (record home { addr = home.addr % 2 ^ (32 - bits) }))
    × (32 < bits
        → (broadcast_address bits home ≡ null_pointer) × (network_address bits home ≡ null_pointer))
    × (bits < 2
        → (broadcast_address bits home ≡ undefined) × (network_address bits home ≡ undefined))
networks_example = ipv4_networks bits home

-- The network of 192.168.1.7/24 comes out as 0.0.0.7.
network_is_wrong : network_address 24 home ≡ made (record home { addr = 7 })
unfolding network_address
network_is_wrong = refl

count_example : (mask : Ipv4Address) × (subnet_mask 20 ≡ made mask) × (count_bytes mask.addr ≡ 20)
count_example = count_bytes-subnet_mask 20 (omega arith) (omega arith)

printed : insert_ipv4 home ≡ codes "192.168.1.7:80"
unfolding insert_ipv4 yuyu.Http.Message.decimal
printed = refl

printed_mask6 : subnet_mask6 12 ≡ made (255 ∷ 240 ∷ replicate 14 0)
unfolding subnet_mask6
printed_mask6 = refl
