-- ===== src/ByteArray/Chain.antt =====
-- The linked chain of nodes of yuyu/bytearray.cc, and the loops that walk it.
-- A pointer into the chain splits it: `before` are the nodes from `m_root` up to the pointer, and
-- `cur` the node that it points to with those behind it, so the null pointer has `cur ≡ []`.
-- A loop gives `none` where the code follows the null pointer.
pub mod Splice
pub mod Writing
pub mod Reading
pub mod Seeking
use yuyu.Common.{
  ℕ, ◌+◌, ◌-◌, Option, none, some, List, [], ◌∷◌, ◌++◌, ltb, leb, ◌==◌, if◌then◌else◌, length, take,
  drop, replicate,
}

-- `Node::ptr` with the `Node::size` bytes that it owns.
abbrev pub Node : Type 0
Node = List ℕ

-- `new char[s]` leaves the bytes open; zeros stand for them.
abbrev pub new_node : ℕ → Node
new_node s = replicate s 0

-- `m_root` and `m_cur`, and the position that a loop carries along.
pub record Cursor : Type 0 where
  pub before : List Node
  pub cur : List Node
  pub position : ℕ

abbrev pub cursor : List Node → List Node → ℕ → Cursor
cursor before cur position = record { before = before; cur = cur; position = position }

-- `memcpy(node->ptr + npos, buf, length buf)` where the bytes fit.
abbrev pub splice : ℕ → List ℕ → List ℕ → List ℕ
splice npos buf node = take npos node ++ (buf ++ drop (npos + length buf) node)

-- The loop of `ByteArray::write` on a buffer that is not empty.
unfoldable pub write_loop : List Node → List Node → ℕ → ℕ → List ℕ → Option Cursor
write_loop before [] npos position buf = none
write_loop before (n ∷ ns) npos position buf =
    if leb (length buf) (length n - npos)
    then (if length n == npos + length buf
        then some (cursor (before ++ (splice npos buf n ∷ [])) ns (position + length buf))
        else some (cursor before (splice npos buf n ∷ ns) (position + length buf)))
    else write_loop (before ++ (splice npos (take (length n - npos) buf) n ∷ [])) ns 0
        (position + (length n - npos)) (drop (length n - npos) buf)

-- The loop of `ByteArray::read`; `out` is what is already copied.
unfoldable pub read_loop : List ℕ → List Node → List Node → ℕ → ℕ → ℕ → Option (List ℕ × Cursor)
read_loop out before [] npos position size = none
read_loop out before (n ∷ ns) npos position size =
    if size == 0
    then some (out, cursor before (n ∷ ns) position)
    else if leb size (length n - npos)
    then (if length n == npos + size
        then some (out ++ take size (drop npos n), cursor (before ++ (n ∷ [])) ns (position + size))
        else some (out ++ take size (drop npos n), cursor before (n ∷ ns) (position + size)))
    else read_loop (out ++ take (length n - npos) (drop npos n)) (before ++ (n ∷ [])) ns 0
        (position + (length n - npos)) (size - (length n - npos))

-- The walk of `ByteArray::setPosition` from the node at hand.
unfoldable pub seek : List Node → List Node → ℕ → Option (List Node × List Node)
seek before [] v = none
seek before (n ∷ ns) v =
    if ltb (length n) v
    then seek (before ++ (n ∷ [])) ns (v - length n)
    else if v == length n
    then some (before ++ (n ∷ []), ns)
    else some (before, n ∷ ns)
