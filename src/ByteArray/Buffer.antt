-- ===== src/ByteArray/Buffer.antt =====
-- The class ByteArray of yuyu/bytearray.h and its untyped operations in yuyu/bytearray.cc.
-- `size_t` arithmetic on positions does not wrap on a valid array, whose position, size and
-- capacity are ordered; where an argument can make it wrap, the wrap is written out.
pub mod Invariant
pub mod File
pub mod Writing
pub mod Reading
pub mod Seeking
use yuyu.Common.{
  ◌≡◌, ap, ℕ, ◌+◌, ◌-◌, ◌*◌, ◌/◌, ◌%◌, ◌^◌, none, some, List, [], ◌∷◌, ◌++◌, Bool, true, false, ltb,
  leb, ◌==◌, if◌then◌else◌, length, take, replicate,
}
use yuyu.ByteArray.Chain.{Node, new_node, Cursor, write_loop, read_loop, seek}

pub data Endian : Type 0 where
  little_endian big_endian : Endian

pub record ByteArray : Type 0 where
  pub base_size : ℕ
  pub position : ℕ
  pub capacity : ℕ
  pub size : ℕ
  pub endian : Endian
  pub before : List Node
  pub cur : List Node

-- A call returns a value, or throws `std::out_of_range`, with the array as it stands then. `fault`
-- is behaviour that C++ leaves undefined, such as a use of the null pointer.
pub data Run {ℓ} (A : Type ℓ) : Type ℓ where
  ok : A → ByteArray → Run A
  throws : ByteArray → Run A
  fault : Run A

abbrev pub M {ℓ} : Type ℓ → Type ℓ
M A = ByteArray → Run A

abbrev pub pure {ℓ} : {A : Type ℓ} → A → M A
pure a b = ok a b

abbrev pub and_then {ℓ κ} : {A : Type ℓ} {B : Type κ} → Run A → (A → M B) → Run B
and_then (ok a b) f = f a b
and_then (throws b) f = throws b
and_then fault f = fault

infixl 5 ◌>>=◌ ◌>>◌
abbrev pub ◌>>=◌ {ℓ κ} : {A : Type ℓ} {B : Type κ} → M A → (A → M B) → M B
◌>>=◌ m f b = and_then (m b) f

abbrev pub ◌>>◌ {κ} : {B : Type κ} → M (Unit {0}) → M B → M B
m >> k = m >>= λ _. k

-- A part that returns hands over to the next.
pub >>=-ok {ℓ κ} :
    {A : Type ℓ} {B : Type κ} (m : M A) (f : A → M B) (b : ByteArray) {a : A} {b' : ByteArray}
    → m b ≡ ok a b'
    → (m >>= f) b ≡ f a b'
>>=-ok m f b e = ap (λ r. and_then r f) e

-- The constructor.
unfoldable pub new_byte_array : ℕ → ByteArray
new_byte_array base_size = record {
  base_size = base_size;
  position = 0;
  capacity = base_size;
  size = 0;
  endian = big_endian;
  before = [];
  cur = new_node base_size ∷ [];
}

unfoldable pub is_little_endian : ByteArray → Bool
is_little_endian b = elim b.endian [ little_endian ↦ true | big_endian ↦ false ]

unfoldable pub set_is_little_endian : Bool → ByteArray → ByteArray
set_is_little_endian val b = record b {
  endian = elim val [ true ↦ little_endian | false ↦ big_endian ];
}

abbrev pub get_read_size : ByteArray → ℕ
get_read_size b = b.size - b.position

abbrev pub get_capacity : ByteArray → ℕ
get_capacity b = b.capacity - b.position

-- The nodes from `m_root` on.
abbrev pub chain : ByteArray → List Node
chain b = b.before ++ b.cur

unfoldable pub clear : ByteArray → ByteArray
clear b = record b {
  position = 0;
  size = 0;
  capacity = b.base_size;
  before = [];
  cur = take 1 (chain b);
}

-- `ceil(1.0 * size / base)`, which the doubles give exactly below 2 ^ 52.
abbrev pub ceil_div : ℕ → ℕ → ℕ
ceil_div size base = (size + base - 1) / base

-- New nodes go behind the last one; a null `m_cur` stays null.
abbrev pub append_nodes : List Node → List Node → List Node → List Node × List Node
append_nodes before [] new = (before ++ new, [])
append_nodes before (n ∷ ns) new = (before, (n ∷ ns) ++ new)

-- The branch of `addCapacity` that allocates.
unfoldable pub grow : ℕ → ByteArray → ByteArray
grow size b =
    let count = ceil_div (size - get_capacity b) b.base_size in
    let new = replicate count (new_node b.base_size) in
    if get_capacity b == 0
    then record b { capacity = b.capacity + count * b.base_size; before = chain b; cur = new }
    else record b {
      capacity = b.capacity + count * b.base_size;
      before = (append_nodes b.before b.cur new).0;
      cur = (append_nodes b.before b.cur new).1;
    }

unfoldable pub add_capacity : ℕ → ByteArray → ByteArray
add_capacity size b = if size == 0 then b else if leb size (get_capacity b) then b else grow size b

-- The loop's cursor put back into the object.
abbrev pub moved : Cursor → ByteArray → ByteArray
moved c b = record b { position = c.position; before = c.before; cur = c.cur }

-- `if (m_position > m_size) m_size = m_position;`
abbrev pub raise_size : ByteArray → ByteArray
raise_size b = record b { size = if ltb b.size b.position then b.position else b.size }

unfoldable pub write : List ℕ → M (Unit {0})
write buf b =
    if length buf == 0
    then ok tt b
    else (let b' = add_capacity (length buf) b in
        elim (write_loop b'.before b'.cur (b'.position % b'.base_size) b'.position buf) [
          | none ↦ fault
          | some c ↦ ok tt (raise_size (moved c b'))
        ])

unfoldable pub read : ℕ → M (List ℕ)
read size b =
    if ltb (get_read_size b) size
    then throws b
    else elim (read_loop [] b.before b.cur (b.position % b.base_size) b.position size) [
      | none ↦ fault
      | some (bytes, c) ↦ ok bytes (moved c b)
    ]

-- `m_size - position` in `size_t`.
abbrev pub sub64 : ℕ → ℕ → ℕ
sub64 a b = (a + 2 ^ 64 - b) % 2 ^ 64

-- `read(buf, size, position) const`: it starts at `m_cur`, wherever `position` lies.
unfoldable pub read_at : ℕ → ℕ → M (List ℕ)
read_at size position b =
    if ltb (sub64 b.size position) size
    then throws b
    else elim (read_loop [] b.before b.cur (position % b.base_size) position size) [
      | none ↦ fault
      | some (bytes, c) ↦ ok bytes b
    ]

unfoldable pub set_position : ℕ → M (Unit {0})
set_position v b = if ltb b.capacity v then throws b else elim (seek [] (chain b) v) [
  | none ↦ fault
  | some (before, cur) ↦ ok tt (raise_size (record b { position = v; before = before; cur = cur }))
]

unfoldable pub to_string : M (List ℕ)
to_string b = if get_read_size b == 0 then ok [] b else read_at (get_read_size b) b.position b
