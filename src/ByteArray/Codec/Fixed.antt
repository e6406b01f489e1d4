-- ===== src/ByteArray/Codec/Fixed.antt =====
-- The fixed-width numbers of yuyu/bytearray.cc, in either byte order.
use mathlib.Core.List.{reverse, reverse-reverse, reverse-cons}
use native.Mathlib.Nat.{pow-suc}
use yuyu.Common.{
  ℕ, zero, suc, ◌+◌, ◌*◌, ◌/◌, ◌%◌, ◌^◌, ◌<◌, ◌≡◌, refl, sym, ap, ◌∙◌, List, [], ◌∷◌, ◌++◌, arith,
  length, All, length-append,
}
use yuyu.ByteArray.Buffer.{
  ByteArray, ok, >>=-ok, ◌>>◌, read, set_position, Endian, little_endian, big_endian,
}
use yuyu.ByteArray.Buffer.Invariant.{IsValid}
use yuyu.ByteArray.Buffer.File.{file_write, view}
use yuyu.ByteArray.Buffer.Writing.{Written, write-Written}
use yuyu.ByteArray.Buffer.Reading.{Taken}
use yuyu.ByteArray.Codec.{to_bytes, from_bytes, byteswap, in_order, write_fixed, read_fixed}
use yuyu.ByteArray.Codec.Stream.{Ahead, read-Ahead, replay}

pub length-to_bytes : (w v : ℕ) → length (to_bytes w v) ≡ w
unfolding to_bytes
length-to_bytes zero v = refl
length-to_bytes (suc w) v = ap suc (length-to_bytes w (v / 256))

to_bytes-IsByte : (w v : ℕ) → All (λ x. x < 256) (to_bytes w v)
unfolding to_bytes
to_bytes-IsByte zero v = tt
to_bytes-IsByte (suc w) v = (omega arith, to_bytes-IsByte w (v / 256))

pub from_bytes-to_bytes : (w v : ℕ) → v < 256 ^ w → from_bytes (to_bytes w v) ≡ v
unfolding from_bytes to_bytes
from_bytes-to_bytes zero v h = omega arith
from_bytes-to_bytes (suc w) v h =
    omega (arith, from_bytes-to_bytes w (v / 256) (omega (arith, pow-suc 256 w)))

to_bytes-from_bytes :
    (xs : List ℕ) → All (λ x. x < 256) xs → to_bytes (length xs) (from_bytes xs) ≡ xs
unfolding from_bytes to_bytes
to_bytes-from_bytes [] h = refl
to_bytes-from_bytes (x ∷ xs) h =
    let low : (x + 256 * from_bytes xs) % 256 ≡ x = omega (arith, h.0) in
    let high : (x + 256 * from_bytes xs) / 256 ≡ from_bytes xs = omega (arith, h.0) in
    rw (low, high) (ap (◌∷◌ x) (to_bytes-from_bytes xs h.1))

length-reverse : (xs : List ℕ) → length (reverse xs) ≡ length xs
length-reverse [] = refl
length-reverse (x ∷ xs) =
    omega
      (arith, ap length (reverse-cons x xs), length-append (reverse xs) (x ∷ []), length-reverse xs)

bytes-append :
    (xs ys : List ℕ) → All (λ x. x < 256) xs → All (λ x. x < 256) ys → All (λ x. x < 256) (xs ++ ys)
bytes-append [] ys hx hy = hy
bytes-append (x ∷ xs) ys hx hy = (hx.0, bytes-append xs ys hx.1 hy)

bytes-reverse : (xs : List ℕ) → All (λ x. x < 256) xs → All (λ x. x < 256) (reverse xs)
bytes-reverse [] h = tt
bytes-reverse (x ∷ xs) h =
    rw (reverse-cons x xs) (bytes-append (reverse xs) (x ∷ []) (bytes-reverse xs h.1) (h.0, tt))

from_bytes-lt : (xs : List ℕ) → All (λ x. x < 256) xs → from_bytes xs < 256 ^ length xs
unfolding from_bytes
from_bytes-lt [] h = omega arith
from_bytes-lt (x ∷ xs) h = omega (arith, from_bytes-lt xs h.1, h.0, pow-suc 256 (length xs))

-- Swapping the bytes twice gives the number back, at every width.
pub byteswap-byteswap : (w v : ℕ) → v < 256 ^ w → byteswap w (byteswap w v) ≡ v
unfolding byteswap
byteswap-byteswap w v h =
    ap (λ k. from_bytes (reverse (to_bytes k (from_bytes (reverse (to_bytes w v)))))) (sym width)
    ∙ ap (λ xs. from_bytes (reverse xs))
        (to_bytes-from_bytes (reverse (to_bytes w v))
          (bytes-reverse (to_bytes w v) (to_bytes-IsByte w v)))
    ∙ ap from_bytes (reverse-reverse (to_bytes w v))
    ∙ from_bytes-to_bytes w v h
  where
    width : length (reverse (to_bytes w v)) ≡ w
    width = length-reverse (to_bytes w v) ∙ length-to_bytes w v

byteswap-lt : (w v : ℕ) → byteswap w v < 256 ^ w
unfolding byteswap
byteswap-lt w v =
    let below =
      from_bytes-lt (reverse (to_bytes w v)) (bytes-reverse (to_bytes w v) (to_bytes-IsByte w v)) in
    let width : length (reverse (to_bytes w v)) ≡ w =
      length-reverse (to_bytes w v) ∙ length-to_bytes w v in
    rw width at below

in_order-twice :
    (w : ℕ) (e : Endian) (v : ℕ)
    → v < 256 ^ w
    → (in_order w e (in_order w e v) ≡ v) × (in_order w e v < 256 ^ w)
in_order-twice w little_endian v h = (refl, h)
in_order-twice w big_endian v h = (byteswap-byteswap w v h, byteswap-lt w v)

-- The bytes that a fixed-width write puts down.
abbrev pub fixed_bytes : ℕ → Endian → ℕ → List ℕ
fixed_bytes w e v = to_bytes w (in_order w e v)

pub write_fixed-Written :
    (w v : ℕ) (b : ByteArray)
    → IsValid b
    → (b' : ByteArray) × (write_fixed w v b ≡ ok tt b') × Written (fixed_bytes w b.endian v) b b'
unfolding write_fixed
write_fixed-Written w v b valid = write-Written (fixed_bytes w b.endian v) b valid

pub read_fixed-Taken :
    (w v : ℕ) (b : ByteArray) (e : Endian) (rest : List ℕ)
    → 0 < w
    → v < 256 ^ w
    → IsValid b
    → b.endian ≡ e
    → Ahead b (fixed_bytes w e v) rest
    → (b' : ByteArray) × (read_fixed w b ≡ ok v b') × Taken (length (fixed_bytes w e v)) b b'
unfolding read_fixed
read_fixed-Taken w v b e rest pos h valid same ahead =
    let twice = in_order-twice w e v h in
    let width = length-to_bytes w (in_order w e v) in
    let (b', run, t) = read-Ahead b (fixed_bytes w e v) rest valid (omega (arith, width)) ahead in
    let run' : read w b ≡ ok (fixed_bytes w e v) b' = rw width at run in
    let back : in_order w b'.endian (from_bytes (fixed_bytes w e v)) ≡ v =
      rw (t.same_endian ∙ same, from_bytes-to_bytes w (in_order w e v) twice.1) twice.0 in
    (b', >>=-ok (read w) _ b run' ∙ ap (λ x. ok x b') back, t)

-- On a valid array, in either byte order, every number that fits `w` bytes, of which there is one
-- at least, is read back as it was written once the position is set back. The array is then valid,
-- and its file view is as by the write of those bytes.
pub replay-fixed :
    (w v : ℕ) (b : ByteArray)
    → 0 < w
    → v < 256 ^ w
    → IsValid b
    → (d : ByteArray) × ((write_fixed w v >> (set_position b.position >> read_fixed w)) b ≡ ok v d)
      × IsValid d
      × (view d ≡ file_write (fixed_bytes w b.endian v) (view b))
replay-fixed w v b pos h valid =
    replay (write_fixed w v) (read_fixed w) v (fixed_bytes w b.endian v) b valid
      (write_fixed-Written w v b valid)
      (λ c rest vc same ahead. read_fixed-Taken w v c b.endian rest pos h vc same ahead)
