-- ===== src/ByteArray/Codec/Zigzag.antt =====
-- The zigzag numbers of yuyu/bytearray.cc.
use yuyu.Common.{
  ℕ, ◌+◌, ◌-◌, ◌*◌, ◌/◌, ◌%◌, ◌^◌, ◌<◌, ◌≡◌, refl, sym, ap, ◌∙◌, true, false, some, arith, ltb,
}
use yuyu.Common.Bits.{bit_and, bit_and-mask, bit_xor-ones, bit_xor-zero}
use yuyu.Common.Int.{ℤ, pos, negsuc}
use yuyu.ByteArray.Buffer.{
  ByteArray, Run, M, ok, throws, fault, and_then, ◌>>=◌, ◌>>◌, set_position,
}
use yuyu.ByteArray.Buffer.Invariant.{IsValid}
use yuyu.ByteArray.Buffer.File.{file_write, view}
use yuyu.ByteArray.Codec.{
  encode_zigzag, decode_zigzag, write_zigzag, write_uint32, read_uint32, write_uint64, read_uint64,
  write_int32, read_int32, write_int64, read_int64,
}
use yuyu.ByteArray.Codec.Varint.{varint_bytes, replay-uint32, replay-uint64}

-- The numbers whose zigzag code needs no signed overflow.
abbrev pub InRange : ℕ → ℤ → Type 0
InRange w (pos n) = n * 2 < 2 ^ (w - 1)
InRange w (negsuc n) = n + 1 < 2 ^ (w - 1)

-- 0, -1, 1, -2, 2, … are numbered in this order.
abbrev pub zigzag : ℤ → ℕ
zigzag (pos n) = n * 2
zigzag (negsuc n) = n * 2 + 1

pub encode_zigzag-zigzag : (w : ℕ) (v : ℤ) → InRange w v → encode_zigzag w v ≡ some (zigzag v)
unfolding encode_zigzag
encode_zigzag-zigzag w (pos n) h = ground arith
encode_zigzag-zigzag w (negsuc n) h = ground arith

zigzag-lt : (w : ℕ) (v : ℤ) → 2 ^ w ≡ 2 * 2 ^ (w - 1) → InRange w v → zigzag v < 2 ^ w
zigzag-lt w (pos n) p h = omega arith
zigzag-lt w (negsuc n) p h = omega arith

low_bit : (u : ℕ) → bit_and u 1 ≡ u % 2
low_bit u = bit_and-mask 1 u

-- `(v >> 1) ^ -(v & 1)` undoes the numbering.
pub decode_zigzag-zigzag :
    (w : ℕ) (v : ℤ) → 2 ^ w ≡ 2 * 2 ^ (w - 1) → InRange w v → decode_zigzag w (zigzag v) ≡ v
unfolding decode_zigzag
decode_zigzag-zigzag w (pos n) p h =
    let half : n * 2 / 2 ≡ n = omega arith in
    let even : bit_and (n * 2) 1 ≡ 0 = low_bit (n * 2) ∙ omega arith in
    let test : ltb (n * 2) (2 ^ w) ≡ true = ground arith in
    rw (half, even, bit_xor-zero n, test) refl
decode_zigzag-zigzag w (negsuc n) p h =
    let half : (n * 2 + 1) / 2 ≡ n = omega arith in
    let odd : bit_and (n * 2 + 1) 1 ≡ 1 = low_bit (n * 2 + 1) ∙ omega arith in
    let test : ltb ((2 ^ w - 1 - n) * 2) (2 ^ w) ≡ false = ground arith in
    let back : 2 ^ w - (2 ^ w - 1 - n) - 1 ≡ n = omega arith in
    rw (half, odd, bit_xor-ones w n (omega arith), test, back) refl

and_then_assoc :
    {A B C : Type 0} (r : Run A) (f : A → M B) (g : B → M C)
    → and_then (and_then r f) g ≡ and_then r (λ a. f a >>= g)
and_then_assoc (ok a b) f g = refl
and_then_assoc (throws b) f g = refl
and_then_assoc fault f g = refl

-- A function on what is read may be applied at the end.
read_map :
    {A B : Type 0} (m s : M (Unit {0})) (r : M A) (g : A → B) (b : ByteArray)
    → and_then ((m >> (s >> r)) b) (λ u. ok (g u)) ≡ (m >> (s >> (r >>= λ u. ok (g u)))) b
read_map m s r g b =
    and_then_assoc (m b) (λ _. s >> r) (λ u. ok (g u))
    ∙ (λ i. and_then (m b) (λ _ c. and_then_assoc (s c) (λ _. r) (λ u. ok (g u)) i))

module _ (w slots : ℕ) (write_unsigned : ℕ → M (Unit {0})) (read_unsigned : M ℕ)
    (width : 2 ^ w ≡ 2 * 2 ^ (w - 1))
    (undo : (u : ℕ) (b : ByteArray)
      → u < 2 ^ w
      → IsValid b
      → (d : ByteArray) × ((write_unsigned u >> (set_position b.position >> read_unsigned)) b
          ≡ ok u d)
        × IsValid d
        × (view d ≡ file_write (varint_bytes slots u) (view b))) where
  replay-zigzag :
      (v : ℤ) (b : ByteArray)
      → InRange w v
      → IsValid b
      → (d : ByteArray) × ((write_zigzag w write_unsigned v
              >> (set_position b.position >> (read_unsigned >>= λ u c. ok (decode_zigzag w u) c)))
            b
          ≡ ok v d)
        × IsValid d
        × (view d ≡ file_write (varint_bytes slots (zigzag v)) (view b))
  replay-zigzag v b h valid =
      let back : M (Unit {0}) = set_position b.position in
      let (d, run, v', refines) = undo (zigzag v) b (zigzag-lt w v width h) valid in
      (
        d,
        rw (encode_zigzag-zigzag w v h, write_zigzag) refl
            ∙ sym (read_map (write_unsigned (zigzag v)) back read_unsigned (decode_zigzag w) b)
            ∙ ap (λ r. and_then r (λ u. ok (decode_zigzag w u))) run
            ∙ ap (λ x. ok x d) (decode_zigzag-zigzag w v width h),
        v',
        refines,
      )

-- On a valid array a number whose zigzag code needs no signed overflow in 32 bits is read back
-- as it was written once the position is set back. The array is then valid, and its file view is as
-- by the write of that code in groups of seven bits.
pub replay-int32 :
    (v : ℤ) (b : ByteArray)
    → InRange 32 v
    → IsValid b
    → (d : ByteArray) × ((write_int32 v >> (set_position b.position >> read_int32)) b ≡ ok v d)
      × IsValid d
      × (view d ≡ file_write (varint_bytes 5 (zigzag v)) (view b))
unfolding write_int32 read_int32
replay-int32 = replay-zigzag 32 5 write_uint32 read_uint32 refl replay-uint32

-- On a valid array a number whose zigzag code needs no signed overflow in 64 bits is read back
-- as it was written once the position is set back. The array is then valid, and its file view is as
-- by the write of that code in groups of seven bits.
pub replay-int64 :
    (v : ℤ) (b : ByteArray)
    → InRange 64 v
    → IsValid b
    → (d : ByteArray) × ((write_int64 v >> (set_position b.position >> read_int64)) b ≡ ok v d)
      × IsValid d
      × (view d ≡ file_write (varint_bytes 10 (zigzag v)) (view b))
unfolding write_int64 read_int64
replay-int64 = replay-zigzag 64 10 write_uint64 read_uint64 refl replay-uint64
