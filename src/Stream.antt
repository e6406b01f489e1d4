-- ===== src/Stream.antt =====
-- The loops of yuyu/stream.cc over the virtual `read` and `write` of a stream, which are arguments:
-- `read` gets the number of bytes that are left, and returns a length, the bytes that it put into
-- the buffer, and the stream afterwards.
pub mod Whole
pub mod Positive
pub mod Carrying
pub mod Writing
mod Tests
use yuyu.Common.Int.{ℤ, pos, negsuc, signed}
use yuyu.Common.{
  ℕ, zero, suc, ◌+◌, ◌-◌, ◌%◌, ◌^◌, Option, none, some, List, [], ◌++◌, ◌==◌, if◌then◌else◌, length,
  take, drop,
}

abbrev pub Reader : Type 0 → Type 0
Reader S = ℕ → S → (ℤ × List ℕ) × S

abbrev pub Writer : Type 0 → Type 0
Writer S = List ℕ → S → ℤ × S

-- The outcome of a loop: the length that stopped it, or `none` at its end; the bytes that went
-- through; and the stream.
abbrev pub Moved : Type 0 → Type 0
Moved S = Option ℤ × (List ℕ × S)

abbrev pub prepend : {S : Type 0} → List ℕ → Option (Moved S) → Option (Moved S)
prepend bytes none = none
prepend bytes (some (stop, (more, s))) = some (stop, (bytes ++ more, s))

-- A positive length.
abbrev pub size : ℤ → ℕ
size (pos n) = n
size (negsuc k) = 0

-- The loop of `readFixSize` with `left` bytes to go; `none` is the end of the fuel.
pub read_loop : {S : Type 0} → Reader S → ℕ → ℕ → S → Option (Moved S)
read_loop read zero left s = if left == 0 then some (none, ([], s)) else none
read_loop read (suc fuel) left s =
    let ((len, bytes), s') = read left s in
    let rest = read_loop read fuel (left - size len) s' in
    if left == 0 then some (none, ([], s)) else elim len [
      | negsuc k ↦ some (some (negsuc k), ([], s'))
      | pos n ↦ if n == 0 then some (some (pos 0), ([], s')) else prepend bytes rest
    ]

-- `readFixSize`: its result, which is an `int`, with the bytes and the stream. Each round takes a
-- byte at least, so the length is fuel enough.
unfoldable pub read_fix_size : {S : Type 0} → Reader S → ℕ → S → Option (ℤ × (List ℕ × S))
read_fix_size read length s = elim (read_loop read length length s) [
  | none ↦ none
  | some (stop, moved) ↦ elim stop [
    | none ↦ some (signed 32 (length % 2 ^ 32), moved)
    | some len ↦ some (len, moved)
  ]
]

-- The loop of `writeFixSize` over the bytes that are left.
pub write_loop : {S : Type 0} → Writer S → ℕ → List ℕ → S → Option (Moved S)
write_loop write zero buffer s = if length buffer == 0 then some (none, ([], s)) else none
write_loop write (suc fuel) buffer s =
    let (len, s') = write buffer s in
    let rest = write_loop write fuel (drop (size len) buffer) s' in
    if length buffer == 0 then some (none, ([], s)) else elim len [
      | negsuc k ↦ some (some (negsuc k), ([], s'))
      | pos n ↦ if n == 0 then some (some (pos 0), ([], s')) else prepend (take n buffer) rest
    ]

unfoldable pub write_fix_size : {S : Type 0} → Writer S → List ℕ → S → Option (ℤ × (List ℕ × S))
write_fix_size write buffer s = elim (write_loop write (length buffer) buffer s) [
  | none ↦ none
  | some (stop, moved) ↦ elim stop [
    | none ↦ some (signed 32 (length buffer % 2 ^ 32), moved)
    | some len ↦ some (len, moved)
  ]
]

-- The variants on a `ByteArray` run the same loops; the array is then a part of the stream `S`, and
-- the bytes are those that went into it or came out of it.
unfoldable pub read_fix_size_array : {S : Type 0} → Reader S → ℕ → S → Option (ℤ × (List ℕ × S))
read_fix_size_array read length s = read_fix_size read length s

unfoldable pub write_fix_size_array :
    {S : Type 0} → Writer S → List ℕ → S → Option (ℤ × (List ℕ × S))
write_fix_size_array write buffer s = write_fix_size write buffer s
