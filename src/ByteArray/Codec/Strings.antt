-- ===== src/ByteArray/Codec/Strings.antt =====
-- The length-prefixed strings of yuyu/bytearray.cc.
use native.Mathlib.Nat.{mod-eq_of_lt}
use yuyu.Common.{
  ℕ, ◌%◌, ◌^◌, ◌<◌, ◌≡◌, ap, ◌∙◌, List, ◌++◌, append_assoc, arith, length, length-append,
}
use yuyu.ByteArray.Buffer.{ByteArray, M, ok, >>=-ok, ◌>>=◌, ◌>>◌, write, read, set_position}
use yuyu.ByteArray.Buffer.Invariant.{IsValid}
use yuyu.ByteArray.Buffer.File.{file_write, view}
use yuyu.ByteArray.Buffer.Writing.{Written, write-Written}
use yuyu.ByteArray.Buffer.Reading.{Taken}
use yuyu.ByteArray.Codec.{
  write_fixed, read_fixed, write_uint64, read_uint64, write_string_f16, read_string_f16,
  write_string_f32, read_string_f32, write_string_f64, read_string_f64, write_string_vint,
  read_string_vint,
}
use yuyu.ByteArray.Codec.Stream.{
  Ahead, read-Ahead, replay, Taken-Ahead, Taken-trans, Written-append,
}
use yuyu.ByteArray.Codec.Fixed.{fixed_bytes, write_fixed-Written, read_fixed-Taken}
use yuyu.ByteArray.Codec.Varint.{varint_bytes, write_varint-Written, read_varint-Taken}

-- A string behind any prefix that is itself read back from what it writes.
module _ (write_len : M (Unit {0})) (read_len : M ℕ) (prefix value : List ℕ) (b : ByteArray) where
  abbrev Wrote : M (Unit {0}) → List ℕ → Type 0
  Wrote wr enc = (b' : ByteArray) × (wr b ≡ ok tt b') × Written enc b b'

  write_both :
      IsValid b → Wrote write_len prefix → Wrote (write_len >> write value) (prefix ++ value)
  write_both v (b₁, run, w) =
      let (b₂, run', w') = write-Written value b₁ w.valid in
      (
        b₂,
        >>=-ok write_len (λ _. write value) b run ∙ run',
        Written-append prefix value b b₁ b₂ v w w',
      )

  replay-string :
      IsValid b
      → 0 < length value
      → Wrote write_len prefix
      → ((c : ByteArray) (rest : List ℕ)
          → IsValid c
          → c.endian ≡ b.endian
          → Ahead c prefix rest
          → (d : ByteArray) × (read_len c ≡ ok (length value) d) × Taken (length prefix) c d)
      → (d : ByteArray) × (((write_len >> write value)
              >> (set_position b.position >> (read_len >>= λ len. read len)))
            b
          ≡ ok value d)
        × IsValid d
        × (view d ≡ file_write (prefix ++ value) (view b))
  replay-string v some_bytes wrote reader =
      replay (write_len >> write value) (read_len >>= λ len. read len) value (prefix ++ value) b v
        (write_both v wrote) both
    where
      both :
          (c : ByteArray) (rest : List ℕ)
          → IsValid c
          → c.endian ≡ b.endian
          → Ahead c (prefix ++ value) rest
          → (d : ByteArray) × ((read_len >>= λ len. read len) c ≡ ok value d)
            × Taken (length (prefix ++ value)) c d
      both c rest vc same ahead =
          let (d, run, t) =
            reader c (value ++ rest) vc same (ahead ∙ append_assoc prefix value rest) in
          let (e, run', t') =
            read-Ahead d value rest t.valid some_bytes
              (Taken-Ahead c d prefix value rest ahead t) in
          (
            e,
            >>=-ok read_len (λ len. read len) c run ∙ run',
            rw (length-append prefix value) (Taken-trans (length prefix) (length value) c d e t t'),
          )

-- The prefix of a fixed width.
module _ (w : ℕ) (value : List ℕ) (b : ByteArray) (v : IsValid b)
    (some_bytes : 0 < length value) where
  replay-string_fixed :
      0 < w
      → length value < 256 ^ w
      → (cut : ℕ) → cut ≡ length value
      → (d : ByteArray) × (((write_fixed w cut >> write value)
              >> (set_position b.position >> (read_fixed w >>= λ len. read len)))
            b
          ≡ ok value d)
        × IsValid d
        × (view d ≡ file_write (fixed_bytes w b.endian (length value) ++ value) (view b))
  replay-string_fixed pos h cut e = rw e (
      replay-string (write_fixed w (length value)) (read_fixed w)
        (fixed_bytes w b.endian (length value)) value b v some_bytes
        (write_fixed-Written w (length value) b v)
        (λ c rest vc same ahead.
          read_fixed-Taken w (length value) c b.endian rest pos h vc same ahead))

-- On a valid array a string that is not empty and shorter than 2^16 is read back as it was
-- written once the position is set back. The array is then valid, and its file view is as by the
-- write of two bytes of length and the string.
pub replay-string_f16 :
    (value : List ℕ) (b : ByteArray)
    → IsValid b
    → 0 < length value
    → length value < 2 ^ 16
    → (d : ByteArray) × ((write_string_f16 value >> (set_position b.position >> read_string_f16)) b
        ≡ ok value d)
      × IsValid d
      × (view d ≡ file_write (fixed_bytes 2 b.endian (length value) ++ value) (view b))
unfolding write_string_f16 read_string_f16
replay-string_f16 value b v some_bytes short =
    replay-string_fixed 2 value b v some_bytes (omega arith) (omega arith) (length value % 2 ^ 16)
      (mod-eq_of_lt short)

-- On a valid array a string that is not empty and shorter than 2^32 is read back as it was
-- written once the position is set back. The array is then valid, and its file view is as by the
-- write of four bytes of length and the string.
pub replay-string_f32 :
    (value : List ℕ) (b : ByteArray)
    → IsValid b
    → 0 < length value
    → length value < 2 ^ 32
    → (d : ByteArray) × ((write_string_f32 value >> (set_position b.position >> read_string_f32)) b
        ≡ ok value d)
      × IsValid d
      × (view d ≡ file_write (fixed_bytes 4 b.endian (length value) ++ value) (view b))
unfolding write_string_f32 read_string_f32
replay-string_f32 value b v some_bytes short =
    replay-string_fixed 4 value b v some_bytes (omega arith) (omega arith) (length value % 2 ^ 32)
      (mod-eq_of_lt short)

-- On a valid array a string that is not empty and shorter than 2^64 is read back as it was
-- written once the position is set back. The array is then valid, and its file view is as by the
-- write of eight bytes of length and the string.
pub replay-string_f64 :
    (value : List ℕ) (b : ByteArray)
    → IsValid b
    → 0 < length value
    → length value < 2 ^ 64
    → (d : ByteArray) × ((write_string_f64 value >> (set_position b.position >> read_string_f64)) b
        ≡ ok value d)
      × IsValid d
      × (view d ≡ file_write (fixed_bytes 8 b.endian (length value) ++ value) (view b))
unfolding write_string_f64 read_string_f64
replay-string_f64 value b v some_bytes short =
    replay-string_fixed 8 value b v some_bytes (omega arith) (omega arith) (length value % 2 ^ 64)
      (mod-eq_of_lt short)

-- On a valid array a string that is not empty and shorter than 2^64 is read back as it was
-- written once the position is set back. The array is then valid, and its file view is as by the
-- write of the length in groups of seven bits and the string.
pub replay-string_vint :
    (value : List ℕ) (b : ByteArray)
    → IsValid b
    → 0 < length value
    → length value < 2 ^ 64
    → (d : ByteArray) × ((write_string_vint value >> (set_position b.position >> read_string_vint))
          b
        ≡ ok value d)
      × IsValid d
      × (view d ≡ file_write (varint_bytes 10 (length value) ++ value) (view b))
unfolding write_string_vint read_string_vint write_uint64 read_uint64
replay-string_vint value b v some_bytes short =
    rw (mod-eq_of_lt {n = length value} {m = 2 ^ 64} short) (
      replay-string (write_uint64 (length value)) read_uint64 (varint_bytes 10 (length value)) value
        b v some_bytes (write_varint-Written 9 (length value) b (omega arith) v)
        (λ c rest vc same ahead.
          let (d, run, t) =
            read_varint-Taken 64 9 (length value) 0 0 rest c (omega arith) (omega arith)
              (omega arith) vc ahead in
          (d, run ∙ ap (λ x. ok x d) (omega arith), t)))
