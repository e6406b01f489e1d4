-- ===== src/ByteArray/Codec.antt =====
-- The typed reads and writes of yuyu/bytearray.cc, and the byte order of yuyu/endian.h.
-- A float, a double and a fixed signed number are given by their bit patterns, a string by its
-- bytes. The host is little endian, as YUYU_BYTE_ORDER is on the platforms that the README names.
pub mod Stream
pub mod Fixed
pub mod Varint
pub mod Zigzag
pub mod Strings
use Prim.Native.Nat.{bit_and, bit_or, bit_xor}
use mathlib.Core.List.{reverse}
use yuyu.Common.{
  ℕ, zero, suc, ◌+◌, ◌-◌, ◌*◌, ◌/◌, ◌%◌, ◌^◌, Bool, true, false, Option, none, some, List, [], ◌∷◌,
  ltb, leb, ◌==◌, if◌then◌else◌, length,
}
use yuyu.Common.Int.{ℤ, pos, negsuc, signed}
use yuyu.ByteArray.Buffer.{
  Endian, little_endian, big_endian, M, ok, fault, pure, ◌>>=◌, ◌>>◌, write, read,
}

-- A number in memory, lowest byte first.
pub to_bytes : ℕ → ℕ → List ℕ
to_bytes zero v = []
to_bytes (suc w) v = v % 256 ∷ to_bytes w (v / 256)

pub from_bytes : List ℕ → ℕ
from_bytes [] = 0
from_bytes (x ∷ xs) = x + 256 * from_bytes xs

-- `bswap_16`, `bswap_32` and `bswap_64`, by the width in bytes.
pub byteswap : ℕ → ℕ → ℕ
byteswap w v = from_bytes (reverse (to_bytes w v))

-- `m_endian == YUYU_BYTE_ORDER`
abbrev pub host_order : Endian → Bool
host_order little_endian = true
host_order big_endian = false

-- The pattern that is in memory when the array is written or read.
abbrev pub in_order : ℕ → Endian → ℕ → ℕ
in_order w e v = if host_order e then v else byteswap w v

unfoldable pub write_fixed : ℕ → ℕ → M (Unit {0})
write_fixed w value b = write (to_bytes w (in_order w b.endian value)) b

-- The function of the macro XX.
unfoldable pub read_fixed : ℕ → M ℕ
read_fixed w b = (read w >>= λ bytes b'. ok (in_order w b'.endian (from_bytes bytes)) b') b

unfoldable pub write_fuint8 : ℕ → M (Unit {0})
write_fuint8 value = write (value % 256 ∷ [])

unfoldable pub read_fuint8 : M ℕ
read_fuint8 = read 1 >>= λ bytes. pure (from_bytes bytes)

abbrev pub write_fuint16 : ℕ → M (Unit {0})
write_fuint16 = write_fixed 2

abbrev pub write_fuint32 : ℕ → M (Unit {0})
write_fuint32 = write_fixed 4

abbrev pub write_fuint64 : ℕ → M (Unit {0})
write_fuint64 = write_fixed 8

abbrev pub read_fuint16 : M ℕ
read_fuint16 = read_fixed 2

abbrev pub read_fuint32 : M ℕ
read_fuint32 = read_fixed 4

abbrev pub read_fuint64 : M ℕ
read_fuint64 = read_fixed 8

-- The signed ones write and read the same patterns.
abbrev pub write_fint8 : ℕ → M (Unit {0})
write_fint8 = write_fuint8

abbrev pub write_fint16 : ℕ → M (Unit {0})
write_fint16 = write_fixed 2

abbrev pub write_fint32 : ℕ → M (Unit {0})
write_fint32 = write_fixed 4

abbrev pub write_fint64 : ℕ → M (Unit {0})
write_fint64 = write_fixed 8

abbrev pub read_fint8 : M ℕ
read_fint8 = read_fuint8

abbrev pub read_fint16 : M ℕ
read_fint16 = read_fixed 2

abbrev pub read_fint32 : M ℕ
read_fint32 = read_fixed 4

abbrev pub read_fint64 : M ℕ
read_fint64 = read_fixed 8

-- The loop that fills `tmp`, with the slots that are left in it; `none` is a write behind its end.
pub varint_loop : ℕ → ℕ → Option (List ℕ)
varint_loop zero value = none
varint_loop (suc slots) value =
    let rest = varint_loop slots (value / 2 ^ 7) in
    if leb 0x80 value
    then elim rest [ none ↦ none | some bytes ↦ some (bit_or (bit_and value 0x7f) 0x80 ∷ bytes) ]
    else some (value % 256 ∷ [])

abbrev pub write_varint : ℕ → ℕ → M (Unit {0})
write_varint slots value b = elim (varint_loop slots value) [
  | none ↦ fault
  | some bytes ↦ write bytes b
]

unfoldable pub write_uint32 : ℕ → M (Unit {0})
write_uint32 = write_varint 5

unfoldable pub write_uint64 : ℕ → M (Unit {0})
write_uint64 = write_varint 10

-- The loop over `i = 0, 7, …` with the rounds that are left, for a result of `w` bits.
pub read_varint : ℕ → ℕ → ℕ → ℕ → M ℕ
read_varint w zero i result b = ok result b
read_varint w (suc rounds) i result b =
    (read_fuint8 >>= λ byte.
    let rest = read_varint w rounds (i + 7) (bit_or result (bit_and byte 0x7f * 2 ^ i % 2 ^ w)) in
    λ b'. elim (ltb byte 0x80) [
      | true ↦ ok (bit_or result (byte * 2 ^ i % 2 ^ w)) b'
      | false ↦ rest b'
    ])
      b

-- `i < 32` allows 5 rounds, and `i < 64` allows 10.
unfoldable pub read_uint32 : M ℕ
read_uint32 = read_varint 32 5 0 0

unfoldable pub read_uint64 : M ℕ
read_uint64 = read_varint 64 10 0 0

-- `none` is the overflow of a signed `w`-bit operation, `-v` or `v * 2`, whose outcome C++ leaves
-- undefined.
unfoldable pub encode_zigzag : ℕ → ℤ → Option ℕ
encode_zigzag w (pos v) = if ltb (v * 2) (2 ^ (w - 1)) then some (v * 2) else none
encode_zigzag w (negsuc v) = if ltb (v + 1) (2 ^ (w - 1)) then some ((v + 1) * 2 - 1) else none

-- `(v >> 1) ^ -(v & 1)`
unfoldable pub decode_zigzag : ℕ → ℕ → ℤ
decode_zigzag w v = signed w (bit_xor (v / 2) (if bit_and v 1 == 0 then 0 else 2 ^ w - bit_and v 1))

abbrev pub write_zigzag : ℕ → (ℕ → M (Unit {0})) → ℤ → M (Unit {0})
write_zigzag w write_unsigned value b = elim (encode_zigzag w value) [
  | none ↦ fault
  | some v ↦ write_unsigned v b
]

unfoldable pub write_int32 : ℤ → M (Unit {0})
write_int32 = write_zigzag 32 write_uint32

unfoldable pub write_int64 : ℤ → M (Unit {0})
write_int64 = write_zigzag 64 write_uint64

unfoldable pub read_int32 : M ℤ
read_int32 = read_uint32 >>= λ v. pure (decode_zigzag 32 v)

unfoldable pub read_int64 : M ℤ
read_int64 = read_uint64 >>= λ v. pure (decode_zigzag 64 v)

unfoldable pub write_float : ℕ → M (Unit {0})
write_float = write_fuint32

unfoldable pub read_float : M ℕ
read_float = read_fuint32

unfoldable pub write_double : ℕ → M (Unit {0})
write_double = write_fuint64

unfoldable pub read_double : M ℕ
read_double = read_fuint64

-- The length is cut to the width of the prefix; the bytes are all written.
unfoldable pub write_string_f16 : List ℕ → M (Unit {0})
write_string_f16 value = write_fuint16 (length value % 2 ^ 16) >> write value

unfoldable pub write_string_f32 : List ℕ → M (Unit {0})
write_string_f32 value = write_fuint32 (length value % 2 ^ 32) >> write value

unfoldable pub write_string_f64 : List ℕ → M (Unit {0})
write_string_f64 value = write_fuint64 (length value % 2 ^ 64) >> write value

unfoldable pub write_string_vint : List ℕ → M (Unit {0})
write_string_vint value = write_uint64 (length value % 2 ^ 64) >> write value

unfoldable pub write_string_without_length : List ℕ → M (Unit {0})
write_string_without_length value = write value

unfoldable pub read_string_f16 : M (List ℕ)
read_string_f16 = read_fuint16 >>= λ len. read len

unfoldable pub read_string_f32 : M (List ℕ)
read_string_f32 = read_fuint32 >>= λ len. read len

unfoldable pub read_string_f64 : M (List ℕ)
read_string_f64 = read_fuint64 >>= λ len. read len

unfoldable pub read_string_vint : M (List ℕ)
read_string_vint = read_uint64 >>= λ len. read len
