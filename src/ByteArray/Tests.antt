-- ===== src/ByteArray/Tests.antt =====
-- Runs of the array of yuyu/bytearray.cc on concrete values.
use yuyu.Common.{ℕ, ◌≡◌, refl, List, [], ◌∷◌, ◌++◌, arith, length, take}
use yuyu.Common.Int.{negsuc}
use yuyu.ByteArray.Buffer.{
  ByteArray, ok, ◌>>◌, big_endian, little_endian, new_byte_array, write, read, set_position,
}
use yuyu.ByteArray.Buffer.Invariant.{IsValid}
use yuyu.ByteArray.Buffer.File.{file_write, file_rest, view}
use yuyu.ByteArray.Buffer.Writing.{Written, write-Written}
use yuyu.ByteArray.Buffer.Reading.{Taken, read-Taken}
use yuyu.ByteArray.Buffer.Seeking.{new_byte_array-IsValid}
use yuyu.ByteArray.Codec.{
  write_fixed, read_fixed, write_uint32, read_uint32, write_int64, read_int64, write_string_vint,
  read_string_vint,
}
use yuyu.ByteArray.Codec.Fixed.{fixed_bytes, replay-fixed}
use yuyu.ByteArray.Codec.Varint.{varint_bytes, replay-uint32}
use yuyu.ByteArray.Codec.Zigzag.{zigzag, replay-int64}
use yuyu.ByteArray.Codec.Strings.{replay-string_vint}

-- A fresh array of four-byte nodes.
abbrev fresh : ByteArray
fresh = new_byte_array 4

fresh-IsValid : IsValid fresh
fresh-IsValid = (new_byte_array-IsValid 4 (omega arith)).0

-- Six bytes reach into a second node.
abbrev six : List ℕ
six = 1 ∷ 2 ∷ 3 ∷ 4 ∷ 5 ∷ 6 ∷ []

-- Two nodes that hold six written bytes, with the position behind the second one.
abbrev filled : ByteArray
filled = record {
  base_size = 4;
  position = 2;
  capacity = 8;
  size = 6;
  endian = big_endian;
  before = [];
  cur = (1 ∷ 2 ∷ 3 ∷ 4 ∷ []) ∷ (5 ∷ 6 ∷ 0 ∷ 0 ∷ []) ∷ [];
}

filled-IsValid : IsValid filled
filled-IsValid = record {
  base_pos = omega arith;
  uniform_before = tt;
  uniform_cur = (refl, (refl, tt));
  capacity_lem = refl;
  rooted = omega arith;
  lower = omega arith;
  upper = omega arith;
  position-le-size = omega arith;
  size-le-capacity = omega arith;
}

-- One full node, with the position at its end.
abbrev full : ByteArray
full = record {
  base_size = 2;
  position = 2;
  capacity = 2;
  size = 2;
  endian = little_endian;
  before = (7 ∷ 8 ∷ []) ∷ [];
  cur = [];
}

full-IsValid : IsValid full
full-IsValid = record {
  base_pos = omega arith;
  uniform_before = (refl, tt);
  uniform_cur = tt;
  capacity_lem = refl;
  rooted = omega arith;
  lower = omega arith;
  upper = omega arith;
  position-le-size = omega arith;
  size-le-capacity = omega arith;
}

write_example : (b' : ByteArray) × (write six filled ≡ ok tt b') × Written six filled b'
write_example = write-Written six filled filled-IsValid

read_example :
    (b' : ByteArray) × (read 3 filled ≡ ok (take 3 (file_rest (view filled))) b')
    × Taken 3 filled b'
read_example = read-Taken 3 filled filled-IsValid (omega arith) (omega arith)

replay-fixed_example :
    (d : ByteArray) × ((write_fixed 4 258 >> (set_position filled.position >> read_fixed 4)) filled
      ≡ ok 258 d)
    × IsValid d
    × (view d ≡ file_write (fixed_bytes 4 filled.endian 258) (view filled))
replay-fixed_example = replay-fixed 4 258 filled (omega arith) (omega arith) filled-IsValid

replay-uint32_example :
    (d : ByteArray) × ((write_uint32 300 >> (set_position filled.position >> read_uint32)) filled
      ≡ ok 300 d)
    × IsValid d
    × (view d ≡ file_write (varint_bytes 5 300) (view filled))
replay-uint32_example = replay-uint32 300 filled (omega arith) filled-IsValid

replay-int64_example :
    (d : ByteArray) × ((write_int64 (negsuc 99) >> (set_position filled.position >> read_int64))
        filled
      ≡ ok (negsuc 99) d)
    × IsValid d
    × (view d ≡ file_write (varint_bytes 10 (zigzag (negsuc 99))) (view filled))
replay-int64_example = replay-int64 (negsuc 99) filled (omega arith) filled-IsValid

replay-string_vint_example :
    (d : ByteArray) × ((write_string_vint six >> (set_position filled.position >> read_string_vint))
        filled
      ≡ ok six d)
    × IsValid d
    × (view d ≡ file_write (varint_bytes 10 (length six) ++ six) (view filled))
replay-string_vint_example =
    replay-string_vint six filled filled-IsValid (omega arith) (omega arith)
