-- ===== src/Address/Comparing.antt =====
-- The order and the equality of the addresses of yuyu/address.cc.
use yuyu.Address.{equal, memcmp, address_less, address_eq}
use yuyu.Common.{ℕ, ◌≡◌, refl, inl, inr, true, false, List, [], ◌∷◌, arith, ltb, ◌==◌, Bool-cases}

memcmp_self : (a : List ℕ) → memcmp a a ≡ equal
memcmp_self [] = refl
memcmp_self (x ∷ a) = ground (arith, memcmp_self a)

address_less_trans :
    (a b c : List ℕ) → address_less a b ≡ true → address_less b c ≡ true → address_less a c ≡ true
unfolding address_less
address_less_trans [] [] c h k = ground arith
address_less_trans [] (y ∷ b) [] h k = ground arith
address_less_trans [] (y ∷ b) (z ∷ c) h k = ground arith
address_less_trans (x ∷ a) [] c h k = ground arith
address_less_trans (x ∷ a) (y ∷ b) [] h k = ground arith
address_less_trans (x ∷ a) (y ∷ b) (z ∷ c) h k = ground (arith, address_less_trans a b c)

-- Exactly one of less, greater and equal.
pub data Trichotomy (a b : List ℕ) : Type 0 where
  is_less :
      address_less a b ≡ true → address_less b a ≡ false → address_eq a b ≡ false → Trichotomy a b
  is_greater :
      address_less a b ≡ false → address_less b a ≡ true → address_eq a b ≡ false → Trichotomy a b
  is_same :
      address_less a b ≡ false
      → address_less b a ≡ false
      → address_eq a b ≡ true
      → a ≡ b
      → Trichotomy a b

pub trichotomy : (a b : List ℕ) → Trichotomy a b
unfolding address_less address_eq
trichotomy [] [] = is_same refl refl refl refl
trichotomy [] (y ∷ b) = is_less (ground arith) (ground arith) (ground arith)
trichotomy (x ∷ a) [] = is_greater (ground arith) (ground arith) (ground arith)
trichotomy (x ∷ a) (y ∷ b) = elim (Bool-cases (x == y)) [
  | inl same ↦ elim (trichotomy a b) [
    | is_less l g e ↦ is_less (ground arith) (ground arith) (ground arith)
    | is_greater l g e ↦ is_greater (ground arith) (ground arith) (ground arith)
    | is_same l g e p ↦ is_same (ground arith) (ground arith) (ground arith) (ground arith)
  ]
  | inr other ↦ elim (Bool-cases (ltb x y)) [
    | inl below ↦ is_less (ground arith) (ground arith) (ground arith)
    | inr above ↦ is_greater (ground arith) (ground arith) (ground arith)
  ]
]

-- `operator<` is a strict total order on the bytes of addresses, and `operator==` is its equality:
-- it is transitive, and of two addresses exactly one is less or both are equal, byte for byte.
pub address_less-order :
    (a b c : List ℕ)
    → (address_less a b ≡ true → address_less b c ≡ true → address_less a c ≡ true) × Trichotomy a b
address_less-order a b c = (address_less_trans a b c, trichotomy a b)
