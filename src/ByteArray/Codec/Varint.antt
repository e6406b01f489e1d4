-- ===== src/ByteArray/Codec/Varint.antt =====
-- The variable-length numbers of yuyu/bytearray.cc.
use native.Mathlib.Nat.{pow-suc, mod-eq_of_lt, div-add-mod}
use native.Mathlib.Numerals.{towards_suc}
use yuyu.Common.{
  ℕ, zero, suc, ◌+◌, ◌*◌, ◌/◌, ◌%◌, ◌^◌, ◌≤◌, ◌<◌, ◌≡◌, refl, ap, ◌∙◌, inl, inr, true, false, some,
  List, [], ◌∷◌, ◌++◌, arith, tests, ltb, if◌then◌else◌, Bool-cases, length,
}
use yuyu.Common.Bits.{bit_and, bit_or, bit_and-mask, bit_or-fields}
use yuyu.ByteArray.Buffer.{ByteArray, ok, >>=-ok, ◌>>◌, read, set_position}
use yuyu.ByteArray.Buffer.Invariant.{IsValid}
use yuyu.ByteArray.Buffer.File.{file_write, view}
use yuyu.ByteArray.Buffer.Writing.{Written, write-Written}
use yuyu.ByteArray.Buffer.Reading.{Taken}
use yuyu.ByteArray.Codec.{
  from_bytes, read_fuint8, varint_loop, write_varint, read_varint, write_uint32, read_uint32,
  write_uint64, read_uint64,
}
use yuyu.ByteArray.Codec.Stream.{Ahead, read-Ahead, Taken-Ahead, Taken-step, replay}

-- Seven bits to a byte, lowest first, with the top bit set on all but the last.
pub varint_bytes : ℕ → ℕ → List ℕ
varint_bytes zero v = []
varint_bytes (suc k) v =
    let rest = varint_bytes k (v / 128) in if ltb v 128 then v ∷ [] else (v % 128 + 128) ∷ rest

marked_group : (v : ℕ) → bit_or (bit_and v 0x7f) 0x80 ≡ v % 128 + 128
marked_group v = rw (bit_and-mask 7 v) (bit_or-fields 7 1 (v % 128) (omega arith))

-- A number of at most `slots` groups fits `tmp`: the loop never writes behind its end.
pub varint_loop-bytes :
    (k v : ℕ) → v < 128 ^ suc k → varint_loop (suc k) v ≡ some (varint_bytes (suc k) v)
unfolding varint_loop varint_bytes
varint_loop-bytes zero v h = ground arith
varint_loop-bytes (suc k) v h =
    ground
      (arith, marked_group v, varint_loop-bytes k (v / 128) (omega (arith, pow-suc 128 (suc k))))

pub write_varint-Written :
    (k v : ℕ) (b : ByteArray)
    → v < 128 ^ suc k
    → IsValid b
    → (b' : ByteArray) × (write_varint (suc k) v b ≡ ok tt b')
      × Written (varint_bytes (suc k) v) b b'
write_varint-Written k v b h valid =
    rw (varint_loop-bytes k v h, write_varint) (write-Written (varint_bytes (suc k) v) b valid)

read_byte :
    (x : ℕ) (more rest : List ℕ) (c : ByteArray)
    → IsValid c
    → Ahead c (x ∷ more) rest
    → (d : ByteArray) × (read_fuint8 c ≡ ok x d) × Taken 1 c d × Ahead d more rest
unfolding read_fuint8 from_bytes
read_byte x more rest c v ahead =
    let (d, run, t) = read-Ahead c (x ∷ []) (more ++ rest) v (omega arith) ahead in
    let value : x + 256 * 0 ≡ x = omega arith in
    (
      d,
      >>=-ok (read 1) _ c run ∙ ap (λ y. ok y d) value,
      t,
      Taken-Ahead c d (x ∷ []) more rest ahead t,
    )

shift_seven : (i : ℕ) → 2 ^ (i + 7) ≡ 128 * 2 ^ i
shift_seven i = simp towards_suc (omega arith)

below_next : (g r i : ℕ) → g < 128 → r < 2 ^ i → r + g * 2 ^ i < 2 ^ (i + 7)
below_next g r i hg hr = rw (shift_seven i) (scaled (2 ^ i) hr)
  where
    scaled : (p : ℕ) → r < p → r + g * p < 128 * p
    scaled p h = let most : g * p ≤ 127 * p = grind arith in omega (arith, most)

-- The lowest group of `v` and the others, all shifted by `i`.
groups : (v i : ℕ) → v * 2 ^ i ≡ v % 128 * 2 ^ i + v / 128 * 2 ^ (i + 7)
groups v i =
    omega (arith, ap (λ t. t * 2 ^ i) (div-add-mod v 128), ap (λ t. v / 128 * t) (shift_seven i))

-- `result |= (uintW_t)x << i` adds a group behind the bits that are there.
add_group :
    (w i x result : ℕ)
    → result < 2 ^ i
    → result + x * 2 ^ i < 2 ^ w
    → bit_or result (x * 2 ^ i % 2 ^ w) ≡ result + x * 2 ^ i
add_group w i x result low fits =
    rw (mod-eq_of_lt {n = x * 2 ^ i} {m = 2 ^ w} (omega arith)) (bit_or-fields i x result low)

module _ (w rounds i result : ℕ) (c : ByteArray) (valid : IsValid c) where
  -- A byte below 0x80 ends the loop.
  read_last :
      (v : ℕ) (rest : List ℕ)
      → v < 128
      → result < 2 ^ i
      → result + v * 2 ^ i < 2 ^ w
      → Ahead c (v ∷ []) rest
      → (d : ByteArray) × (read_varint w (suc rounds) i result c ≡ ok (result + v * 2 ^ i) d)
        × Taken 1 c d
  unfolding read_varint
  read_last v rest small low fits ahead =
      let (d, run, t, _) = read_byte v [] rest c valid ahead in
      let test : ltb v 128 ≡ true = ground arith in
      (d, >>=-ok read_fuint8 _ c run ∙ rw (test, add_group w i v result low fits) refl, t)

  -- Any other byte adds its seven bits, and the loop goes on.
  read_more :
      (g : ℕ) (more rest : List ℕ)
      → g < 128
      → result < 2 ^ i
      → result + g * 2 ^ i < 2 ^ w
      → Ahead c ((g + 128) ∷ more) rest
      → (d : ByteArray) × (read_varint w (suc rounds) i result c
          ≡ read_varint w rounds (i + 7) (result + g * 2 ^ i) d)
        × Taken 1 c d
        × Ahead d more rest
  unfolding read_varint
  read_more g more rest small low fits ahead =
      let (d, run, t, next) = read_byte (g + 128) more rest c valid ahead in
      let test : ltb (g + 128) 128 ≡ false = ground arith in
      let group : bit_and (g + 128) 0x7f ≡ g = bit_and-mask 7 (g + 128) ∙ omega arith in
      (
        d,
        >>=-ok read_fuint8 _ c run ∙ rw (test, group, add_group w i g result low fits) refl,
        t,
        next,
      )

pub read_varint-Taken :
    (w k v i result : ℕ) (rest : List ℕ) (c : ByteArray)
    → v < 128 ^ suc k
    → result < 2 ^ i
    → result + v * 2 ^ i < 2 ^ w
    → IsValid c
    → Ahead c (varint_bytes (suc k) v) rest
    → (d : ByteArray) × (read_varint w (suc k) i result c ≡ ok (result + v * 2 ^ i) d)
      × Taken (length (varint_bytes (suc k) v)) c d
unfolding varint_bytes
read_varint-Taken w zero v i result rest c h low fits valid ahead =
    let last : ltb v 128 ≡ true = ground arith in
    let (d, run, t) =
      read_last w zero i result c valid v rest (omega arith) low fits (rw last at ahead) in
    (d, run, rw last t)
read_varint-Taken w (suc k) v i result rest c h low fits valid ahead =
    elim (Bool-cases (ltb v 128)) [
      | inl last ↦
          let (d, run, t) =
            read_last w (suc k) i result c valid v rest (omega tests) low fits (rw last at ahead) in
          (d, run, rw last t)
      | inr more ↦
          let g : ℕ = v % 128 in
          let bytes : List ℕ = varint_bytes (suc k) (v / 128) in
          let whole = groups v i in
          let (d, run, t, next) =
            read_more w (suc k) i result c valid g bytes rest (omega arith) low
              (omega (arith, whole)) (rw more at ahead) in
          let (e, run', t') =
            read_varint-Taken w k (v / 128) (i + 7) (result + g * 2 ^ i) rest d
              (omega (arith, pow-suc 128 (suc k))) (below_next g result i (omega arith) low)
              (omega (arith, whole)) t.valid next in
          (
            e,
            run ∙ run' ∙ ap (λ x. ok x e) (omega (arith, whole)),
            rw more (Taken-step (length bytes) c d e t t'),
          )
    ]

-- Any number that fits the slots of `tmp` and the width is read back as it was written.
replay-varint :
    (w k v : ℕ) (b : ByteArray)
    → v < 128 ^ suc k
    → v < 2 ^ w
    → IsValid b
    → (d : ByteArray) × ((write_varint (suc k) v
            >> (set_position b.position >> read_varint w (suc k) 0 0))
          b
        ≡ ok v d)
      × IsValid d
      × (view d ≡ file_write (varint_bytes (suc k) v) (view b))
replay-varint w k v b h fits valid =
    replay (write_varint (suc k) v) (read_varint w (suc k) 0 0) v (varint_bytes (suc k) v) b valid
      (write_varint-Written k v b h valid) reader
  where
    reader :
        (c : ByteArray) (rest : List ℕ)
        → IsValid c
        → c.endian ≡ b.endian
        → Ahead c (varint_bytes (suc k) v) rest
        → (d : ByteArray) × (read_varint w (suc k) 0 0 c ≡ ok v d)
          × Taken (length (varint_bytes (suc k) v)) c d
    reader c rest vc same ahead =
        let (d, run, t) =
          read_varint-Taken w k v 0 0 rest c h (omega arith) (omega arith) vc ahead in
        (d, run ∙ ap (λ x. ok x d) (omega arith), t)

-- On a valid array a uint32_t is read back as it was written once the position is set back. The
-- array is then valid, and its file view is as by the write of the groups of seven bits.
pub replay-uint32 :
    (v : ℕ) (b : ByteArray)
    → v < 2 ^ 32
    → IsValid b
    → (d : ByteArray) × ((write_uint32 v >> (set_position b.position >> read_uint32)) b ≡ ok v d)
      × IsValid d
      × (view d ≡ file_write (varint_bytes 5 v) (view b))
unfolding write_uint32 read_uint32
replay-uint32 v b h valid = replay-varint 32 4 v b (omega arith) h valid

-- On a valid array a uint64_t is read back as it was written once the position is set back. The
-- array is then valid, and its file view is as by the write of the groups of seven bits.
pub replay-uint64 :
    (v : ℕ) (b : ByteArray)
    → v < 2 ^ 64
    → IsValid b
    → (d : ByteArray) × ((write_uint64 v >> (set_position b.position >> read_uint64)) b ≡ ok v d)
      × IsValid d
      × (view d ≡ file_write (varint_bytes 10 v) (view b))
unfolding write_uint64 read_uint64
replay-uint64 v b h valid = replay-varint 64 9 v b (omega arith) h valid
