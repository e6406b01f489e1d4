-- ===== src/Address/Masks.antt =====
-- The masks of yuyu/address.cc, as arithmetic.
use yuyu.Common.Bits.{bit_and-mask, bit_or-mask}
use yuyu.Address.{
  Made, made, null_pointer, undefined, Ipv4Address, create_mask32, count_bytes, broadcast_address,
  network_address, subnet_mask,
}
use mathlib.Core.Path.{subst}
use native.Mathlib.Nat.{mul-le-mul_right, div-add-mod, one-le-pow, pow-suc}
use yuyu.Common.{
  ℕ, zero, suc, ◌+◌, ◌-◌, ◌*◌, ◌/◌, ◌%◌, ◌^◌, ◌≤◌, ◌<◌, ◌≡◌, refl, sym, ap, ◌∙◌, inl, inr, arith,
  leb, ◌==◌, leb→le, leb-false→lt, ==→eq, Bool-cases,
}

-- For a prefix of 2 to 32 bits the broadcast address keeps the bits of the prefix and sets all
-- others. The address that networdAddress makes has only the bits behind the prefix. A longer prefix
-- gives a null pointer, and for a shorter one the mask is undefined.
pub ipv4_networks :
    (p : ℕ) (a : Ipv4Address)
    → (1 < p
        → p ≤ 32
        → broadcast_address p a
          ≡ made (record a { addr = a.addr / 2 ^ (32 - p) * 2 ^ (32 - p) + (2 ^ (32 - p) - 1) }))
      × (1 < p → p ≤ 32 → network_address p a ≡ made (record a { addr = a.addr % 2 ^ (32 - p) }))
      × (32 < p → (broadcast_address p a ≡ null_pointer) × (network_address p a ≡ null_pointer))
      × (p < 2 → (broadcast_address p a ≡ undefined) × (network_address p a ≡ undefined))
unfolding broadcast_address network_address create_mask32
ipv4_networks p a = (
  λ low high. ground (arith, bit_or-mask (32 - p) a.addr),
  λ low high. ground (arith, bit_and-mask (32 - p) a.addr),
  λ beyond. ground arith,
  λ e. ground arith,
)

-- Of all the numbers from 1 to `n`.
abbrev AllTo : (ℕ → Type 0) → ℕ → Type 0
AllTo P zero = Unit
AllTo P (suc n) = P (suc n) × AllTo P n

AllTo-at : (P : ℕ → Type 0) (n p : ℕ) → AllTo P n → 0 < p → p ≤ n → P p
AllTo-at P zero p all low high = absurd (omega arith)
AllTo-at P (suc n) p all low high = elim (Bool-cases (p == suc n)) [
  | inl same ↦ subst P (sym (==→eq p (suc n) same)) all.0
  | inr other ↦ AllTo-at P n p all.1 low (ground arith)
]

-- The number of ones in the mask with `p` leading ones.
abbrev CountsPrefix : ℕ → Type 0
CountsPrefix p = count_bytes (2 ^ 32 - 1 - (2 ^ (32 - p) - 1)) ≡ p

all_prefixes : AllTo CountsPrefix 32
unfolding count_bytes
all_prefixes = (
  refl,
  (
    refl,
    (
      refl,
      (
        refl,
        (
          refl,
          (
            refl,
            (
              refl,
              (
                refl,
                (
                  refl,
                  (
                    refl,
                    (
                      refl,
                      (
                        refl,
                        (
                          refl,
                          (
                            refl,
                            (
                              refl,
                              (
                                refl,
                                (
                                  refl,
                                  (
                                    refl,
                                    (
                                      refl,
                                      (
                                        refl,
                                        (
                                          refl,
                                          (
                                            refl,
                                            (
                                              refl,
                                              (
                                                refl,
                                                (
                                                  refl,
                                                  (
                                                    refl,
                                                    (
                                                      refl,
                                                      (refl, (refl, (refl, (refl, (refl, tt))))),
                                                    ),
                                                  ),
                                                ),
                                              ),
                                            ),
                                          ),
                                        ),
                                      ),
                                    ),
                                  ),
                                ),
                              ),
                            ),
                          ),
                        ),
                      ),
                    ),
                  ),
                ),
              ),
            ),
          ),
        ),
      ),
    ),
  ),
)

-- CountBytes finds the length of a prefix of 2 to 32 bits again in its subnet mask, in at most 32
-- rounds.
pub count_bytes-subnet_mask :
    (p : ℕ)
    → 1 < p
    → p ≤ 32
    → (mask : Ipv4Address) × (subnet_mask p ≡ made mask) × (count_bytes mask.addr ≡ p)
unfolding subnet_mask create_mask32
count_bytes-subnet_mask p low high = (
  record { addr = 2 ^ 32 - 1 - (2 ^ (32 - p) - 1); port = 0 },
  ground arith,
  AllTo-at CountsPrefix 32 p all_prefixes (omega arith) high,
)

-- The number of an address fits 32 bits.
abbrev pub FitsWord : Made Ipv4Address → Type 0
FitsWord (made a) = a.addr < 2 ^ 32
FitsWord null_pointer = Unit
FitsWord undefined = Unit

pow-add : (p k : ℕ) → 2 ^ p * 2 ^ k ≡ 2 ^ (p + k)
pow-add zero k = let same : k ≡ 0 + k = omega arith in omega (arith, ap (λ n. 2 ^ n) same)
pow-add (suc p) k =
    let next : suc p + k ≡ suc (p + k) = omega arith in
    ap (λ t. t * 2 ^ k) (pow-suc 2 p)
    ∙ omega (arith, pow-add p k, pow-suc 2 (p + k))
    ∙ ap (λ n. 2 ^ n) (sym next)

-- The last number with the same quotient, below a power that is no smaller.
filled_fits : (p k a : ℕ) → p + k ≡ 32 → a < 2 ^ 32 → a / 2 ^ k * 2 ^ k + (2 ^ k - 1) < 2 ^ 32
filled_fits p k a e h = elim (Bool-cases (leb (2 ^ p) (a / 2 ^ k))) [
  | inl large ↦
      absurd (
        omega (arith, mul-le-mul_right (2 ^ k) (leb→le _ _ large), power, div-add-mod a (2 ^ k), h))
  | inr small ↦ omega (
    arith,
    mul-le-mul_right (2 ^ k) (leb-false→lt _ _ small),
    power,
    one-le-pow k 2 (omega arith),
  )
]
  where
    power : 2 ^ p * 2 ^ k ≡ 2 ^ 32
    power = pow-add p k ∙ ap (λ n. 2 ^ n) e

mod_fits : (k a : ℕ) → a < 2 ^ 32 → a % 2 ^ k < 2 ^ 32
mod_fits k a h = omega (arith, div-add-mod a (2 ^ k))

-- The broadcast address and the address of networdAddress of an address of 32 bits are addresses of
-- 32 bits, for every prefix length for which there is one, and so is every subnet mask.
pub masks-FitsWord :
    (p : ℕ) (a : Ipv4Address)
    → a.addr < 2 ^ 32
    → FitsWord (broadcast_address p a) × FitsWord (network_address p a) × FitsWord (subnet_mask p)
unfolding broadcast_address network_address subnet_mask create_mask32
masks-FitsWord p a h = (
  ground (
    arith,
    bit_or-mask (32 - p) a.addr,
    λ (e : p + (32 - p) ≡ 32). filled_fits p (32 - p) a.addr e h,
  ),
  ground (arith, bit_and-mask (32 - p) a.addr, mod_fits (32 - p) a.addr h),
  ground arith,
)
