-- ===== src/Common/Bits.antt =====
-- `&` with a mask of low ones and `|` of fields that do not overlap, as arithmetic, at every width.
use Prim.Native.Nat.{ℕ, zero, suc, ◌+◌, ◌-◌, ◌*◌, ◌/◌, ◌%◌, ◌^◌, ◌≤◌, ◌<◌, min, max}
use Prim.Native.Nat.{digits, differ, bit_and-bitwise, bit_or-bitwise, bit_xor-bitwise}
pub use Prim.Native.Nat.{bit_and, bit_or, bit_xor}
use mathlib.Core.Path.{◌≡◌, sym, ap, ◌∙◌}
use native.Mathlib.Nat.{pow-suc, one-le-pow, mul-add-mod_self_left, mod-eq_of_lt, div-add-mod}
use native.Mathlib.Nat.{mod-lt, zero-mod, zero-div, div-div-eq-div-mul}
use native.Mathlib.Omega.{arith}

pow_pos : (k : ℕ) → 0 < 2 ^ k
pow_pos k = one-le-pow k 2 (omega arith)

pow-suc' : (k : ℕ) → 2 ^ suc k ≡ 2 * 2 ^ k
pow-suc' k = omega (arith, pow-suc 2 k)

-- The remainder by an even number, from the halves.
mod_double : (a p : ℕ) → 0 < p → a % (2 * p) ≡ a / 2 % p * 2 + a % 2
mod_double a p h =
    ap (λ t. t % (2 * p)) split
    ∙ mul-add-mod_self_left (2 * p) (a / 2 / p) (a / 2 % p * 2 + a % 2)
    ∙ mod-eq_of_lt (omega (arith, mod-lt (a / 2) h))
  where
    split : a ≡ 2 * p * (a / 2 / p) + (a / 2 % p * 2 + a % 2)
    split = omega (arith, div-add-mod (a / 2) p)

-- The digit recursion of `&` against a mask of `k` ones, on any fuel that covers `a`.
ands_mask : (n k a : ℕ) → a ≤ n → digits (λ y. 0) min n a (2 ^ k - 1) ≡ a % 2 ^ k
ands_mask zero k zero h = omega (arith, zero-mod (2 ^ k))
ands_mask zero k (suc a) h = absurd (omega arith)
ands_mask (suc n) k zero h = omega (arith, zero-mod (2 ^ k))
ands_mask (suc n) zero (suc a) h = omega (arith, ands_mask n zero (suc a / 2) (omega arith))
ands_mask (suc n) (suc k) (suc a) h = rw halves (
    omega (
      arith,
      ands_mask n k (suc a / 2) (omega arith),
      mod_double (suc a) (2 ^ k) (pow_pos k),
      ap (λ t. suc a % t) (pow-suc' k),
      pow_pos k,
      pow-suc' k,
    ))
  where
    halves : (2 ^ suc k - 1) / 2 ≡ 2 ^ k - 1
    halves = omega (arith, pow-suc' k, pow_pos k)

pub bit_and-mask : (k a : ℕ) → bit_and a (2 ^ k - 1) ≡ a % 2 ^ k
bit_and-mask k a = bit_and-bitwise a (2 ^ k - 1) ∙ ands_mask a k a (omega arith)

-- The digit recursion of `|` when the right side has `k` low zeros and the left side fits them.
ors_fields :
    (k n hi lo : ℕ) → lo ≤ n → lo < 2 ^ k → digits (λ y. y) max n lo (hi * 2 ^ k) ≡ lo + hi * 2 ^ k
ors_fields k zero hi zero h fits = omega arith
ors_fields k zero hi (suc lo) h fits = absurd (omega arith)
ors_fields k (suc n) hi zero h fits = omega arith
ors_fields zero (suc n) hi (suc lo) h fits = absurd (omega arith)
ors_fields (suc k) (suc n) hi (suc lo) h fits =
    rw halves (omega (arith, ors_fields k n hi (suc lo / 2) (omega arith) small, double))
  where
    double : hi * 2 ^ suc k ≡ 2 * (hi * 2 ^ k)
    double = omega (arith, ap (λ t. hi * t) (pow-suc' k))

    halves : hi * 2 ^ suc k / 2 ≡ hi * 2 ^ k
    halves = omega (arith, double)

    small : suc lo / 2 < 2 ^ k
    small = omega (arith, pow-suc' k)

-- `lo | (hi << k)` is a sum when `lo` fits `k` bits.
pub bit_or-fields : (k hi lo : ℕ) → lo < 2 ^ k → bit_or lo (hi * 2 ^ k) ≡ lo + hi * 2 ^ k
bit_or-fields k hi lo h = bit_or-bitwise lo (hi * 2 ^ k) ∙ ors_fields k lo hi lo (omega arith) h

differ-one' : (d : ℕ) → d < 2 → differ d 1 ≡ 1 - d
differ-one' zero h = omega arith
differ-one' (suc zero) h = omega arith
differ-one' (suc (suc d)) h = absurd (omega arith)

differ-one : (a : ℕ) → differ (a % 2) 1 ≡ 1 - a % 2
differ-one a = differ-one' (a % 2) (omega arith)

differ-zero' : (d : ℕ) → differ d 0 ≡ d
differ-zero' zero = omega arith
differ-zero' (suc d) = omega arith

differ-zero : (a : ℕ) → differ (a % 2) 0 ≡ a % 2
differ-zero a = differ-zero' (a % 2)

-- The digit recursion of `^` against `k` ones flips every digit.
xors_ones : (k n x : ℕ) → x ≤ n → x < 2 ^ k → digits (λ y. y) differ n x (2 ^ k - 1) + x ≡ 2 ^ k - 1
xors_ones k zero zero h fits = omega arith
xors_ones k zero (suc x) h fits = absurd (omega arith)
xors_ones k (suc n) zero h fits = omega arith
xors_ones zero (suc n) (suc x) h fits = absurd (omega arith)
xors_ones (suc k) (suc n) (suc x) h fits =
    rw (halves, odd)
      (omega (
        arith,
        xors_ones k n (suc x / 2) (omega arith) (omega (arith, pow-suc' k)),
        differ-one (suc x),
        pow-suc' k,
        pow_pos k,
      ))
  where
    halves : (2 ^ suc k - 1) / 2 ≡ 2 ^ k - 1
    halves = omega (arith, pow-suc' k, pow_pos k)

    odd : (2 ^ suc k - 1) % 2 ≡ 1
    odd = omega (arith, pow-suc' k, pow_pos k)

pub bit_xor-ones : (k x : ℕ) → x < 2 ^ k → bit_xor x (2 ^ k - 1) ≡ 2 ^ k - 1 - x
bit_xor-ones k x h = bit_xor-bitwise x (2 ^ k - 1) ∙ omega (arith, xors_ones k x x (omega arith) h)

xors_zero : (n x : ℕ) → x ≤ n → digits (λ y. y) differ n x 0 ≡ x
xors_zero zero zero h = omega arith
xors_zero zero (suc x) h = absurd (omega arith)
xors_zero (suc n) zero h = omega arith
xors_zero (suc n) (suc x) h =
    omega (arith, xors_zero n (suc x / 2) (omega arith), differ-zero (suc x))

pub bit_xor-zero : (x : ℕ) → bit_xor x 0 ≡ x
bit_xor-zero x = bit_xor-bitwise x 0 ∙ xors_zero x x (omega arith)

-- The same recursion with the field of low zeros on the left.
ors_low :
    (k n hi x lo : ℕ) → x ≡ hi * 2 ^ k → x ≤ n → lo < 2 ^ k → digits (λ y. y) max n x lo ≡ lo + x
ors_low k zero hi zero lo e h fits = omega arith
ors_low k zero hi (suc x) lo e h fits = absurd (omega arith)
ors_low k (suc n) hi zero lo e h fits = omega arith
ors_low zero (suc n) hi (suc x) lo e h fits =
    let rest =
      ors_low zero n (suc x / 2) (suc x / 2) (lo / 2) (omega arith) (omega arith) (omega arith) in
    omega (arith, rest)
ors_low (suc k) (suc n) hi (suc x) lo e h fits =
    let double : hi * 2 ^ suc k ≡ 2 * (hi * 2 ^ k) = omega (arith, ap (λ t. hi * t) (pow-suc' k)) in
    let rest =
      ors_low k n hi (suc x / 2) (lo / 2) (omega arith) (omega arith) (omega (arith, pow-suc' k)) in
    omega (arith, rest)

-- `(hi << k) | lo` is a sum when `lo` fits `k` bits.
pub bit_or-low : (k hi lo : ℕ) → lo < 2 ^ k → bit_or (hi * 2 ^ k) lo ≡ hi * 2 ^ k + lo
bit_or-low k hi lo h =
    bit_or-bitwise (hi * 2 ^ k) lo
    ∙ omega (arith, ors_low k (hi * 2 ^ k) hi (hi * 2 ^ k) lo (omega arith) (omega arith) h)

-- The quotient by an even number, from the halves.
div_double : (a p : ℕ) → a / (2 * p) ≡ a / 2 / p
div_double a p = sym (div-div-eq-div-mul a 2 p)

nothing_over : (k : ℕ) → 0 / 2 ^ k * 2 ^ k ≡ 0
nothing_over k = ap (λ t. t * 2 ^ k) (zero-div (2 ^ k)) ∙ omega arith

-- The digit recursion of `|` against a mask of `k` ones.
ors_mask :
    (n k a : ℕ) → a ≤ n → digits (λ y. y) max n a (2 ^ k - 1) ≡ a / 2 ^ k * 2 ^ k + (2 ^ k - 1)
ors_mask zero k zero h = omega (arith, nothing_over k)
ors_mask zero k (suc a) h = absurd (omega arith)
ors_mask (suc n) k zero h = omega (arith, nothing_over k)
ors_mask (suc n) zero (suc a) h =
    let rest = ors_low zero n (suc a / 2) (suc a / 2) 0 (omega arith) (omega arith) (omega arith) in
    omega (arith, rest)
ors_mask (suc n) (suc k) (suc a) h =
    rw (halves, odd)
      (omega (arith, ors_mask n k (suc a / 2) (omega arith), quotient, pow-suc' k, pow_pos k))
  where
    halves : (2 ^ suc k - 1) / 2 ≡ 2 ^ k - 1
    halves = omega (arith, pow-suc' k, pow_pos k)

    odd : (2 ^ suc k - 1) % 2 ≡ 1
    odd = omega (arith, pow-suc' k, pow_pos k)

    quotient : suc a / 2 ^ suc k * 2 ^ suc k ≡ 2 * (suc a / 2 / 2 ^ k * 2 ^ k)
    quotient =
        let same : suc a / 2 ^ suc k ≡ suc a / 2 / 2 ^ k =
          ap (λ t. suc a / t) (pow-suc' k) ∙ div_double (suc a) (2 ^ k) in
        ap (λ t. t * 2 ^ suc k) same ∙ omega (arith, ap (λ t. suc a / 2 / 2 ^ k * t) (pow-suc' k))

pub bit_or-mask : (k a : ℕ) → bit_or a (2 ^ k - 1) ≡ a / 2 ^ k * 2 ^ k + (2 ^ k - 1)
bit_or-mask k a = bit_or-bitwise a (2 ^ k - 1) ∙ ors_mask a k a (omega arith)
