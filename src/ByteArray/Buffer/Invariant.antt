-- ===== src/ByteArray/Buffer/Invariant.antt =====
-- The well-formed byte arrays, and the growth of the chain in yuyu/bytearray.cc.
use native.Mathlib.Nat.{lt-div-mul-add, mul_comm, mul-add-mod_self_left, mod-eq_of_lt}
use yuyu.Common.{
  ℕ, zero, suc, ◌+◌, ◌-◌, ◌*◌, ◌%◌, ◌≤◌, ◌<◌, ◌≡◌, refl, sym, ap, ◌∙◌, inl, inr, List, [], ◌∷◌,
  ◌++◌, append_assoc, append-nil, arith, tests, length, concat, replicate, length-append,
  length-replicate, Bool-cases, leb, ◌==◌, false,
}
use yuyu.ByteArray.Chain.{Node, new_node}
use yuyu.ByteArray.Chain.Splice.{
  concat-append, Uniform, Uniform-append, Uniform-left, Uniform-right, length-concat,
}
use yuyu.ByteArray.Buffer.{
  ByteArray, chain, get_capacity, ceil_div, append_nodes, grow, add_capacity,
}

-- The chain's nodes have the base size and make up the capacity; the pointer is at the node that
-- holds the position, or null at the very end; position, size and capacity are ordered.
pub record IsValid (b : ByteArray) : Type 0 where
  pub base_pos : 0 < b.base_size
  pub uniform_before : Uniform b.base_size b.before
  pub uniform_cur : Uniform b.base_size b.cur
  pub capacity_lem : b.capacity ≡ b.base_size * length b.before + b.base_size * length b.cur
  pub rooted : 0 < length b.before + length b.cur
  pub lower : b.base_size * length b.before ≤ b.position
  pub upper : b.position < b.base_size * length b.before + b.base_size
  pub position-le-size : b.position ≤ b.size
  pub size-le-capacity : b.size ≤ b.capacity

-- The bytes of all nodes in a row.
abbrev pub flat : ByteArray → List ℕ
flat b = concat (chain b)

pub length-flat : (b : ByteArray) → IsValid b → length (flat b) ≡ b.capacity
length-flat b v = rw concat-append (
    omega (
      arith,
      length-append (concat b.before) (concat b.cur),
      length-concat b.base_size b.before v.uniform_before,
      length-concat b.base_size b.cur v.uniform_cur,
      v.capacity_lem,
    ))

pub live_nodes :
    (base lead k position capacity : ℕ)
    → capacity ≡ lead + base * k
    → lead ≤ position
    → position < capacity
    → 0 < k
live_nodes base lead zero position capacity e lo h = absurd (omega arith)
live_nodes base lead (suc k) position capacity e lo h = omega arith

-- The pointer is not null below the end of the capacity.
pub cur_live : (b : ByteArray) → IsValid b → b.position < b.capacity → 0 < length b.cur
cur_live b v h =
    live_nodes b.base_size (b.base_size * length b.before) (length b.cur) b.position b.capacity
      v.capacity_lem v.lower h

-- The offset into the node at the pointer.
pub node_offset :
    (b : ByteArray)
    → IsValid b
    → b.position % b.base_size ≡ b.position - b.base_size * length b.before
node_offset b v =
    ap (λ p. p % b.base_size) split
    ∙ mul-add-mod_self_left b.base_size (length b.before)
        (b.position - b.base_size * length b.before)
    ∙ mod-eq_of_lt (omega (arith, v.upper, v.lower, v.base_pos))
  where
    split :
        b.position ≡ b.base_size * length b.before + (b.position - b.base_size * length b.before)
    split = omega (arith, v.lower)

ceil_div-enough : (n base : ℕ) → 0 < base → n ≤ base * ceil_div n base
ceil_div-enough n base h =
    omega (arith, lt-div-mul-add {a = n + base - 1} h, mul_comm (ceil_div n base) base)

Uniform-replicate : (base k : ℕ) → Uniform base (replicate k (new_node base))
Uniform-replicate base zero = tt
Uniform-replicate base (suc k) = (length-replicate base 0, Uniform-replicate base k)

-- More capacity: the array is valid, holds its bytes as before, and has room for `n` more.
pub record Grown (n : ℕ) (b b' : ByteArray) : Type 0 where
  pub valid : IsValid b'
  pub room : b'.position + n ≤ b'.capacity
  pub same_position : b'.position ≡ b.position
  pub same_size : b'.size ≡ b.size
  pub same_base : b'.base_size ≡ b.base_size
  pub same_endian : b'.endian ≡ b.endian
  pub padding : List ℕ
  pub contents : flat b' ≡ flat b ++ padding

-- A live pointer keeps its place when nodes are added behind.
append_nodes_lem :
    (before cur new : List Node)
    → 0 < length cur
    → append_nodes before cur new ≡ (before, cur ++ new)
append_nodes_lem before [] new h = absurd (omega arith)
append_nodes_lem before (n ∷ ns) new h = refl

module _ (n : ℕ) (b : ByteArray) (v : IsValid b) (short : get_capacity b < n) where
  abbrev count : ℕ
  count = ceil_div (n - get_capacity b) b.base_size

  abbrev extra : List Node
  extra = replicate count (new_node b.base_size)

  abbrev with_chain : List Node → List Node → ByteArray
  with_chain before cur = record b {
    capacity = b.capacity + count * b.base_size;
    before = before;
    cur = cur;
  }

  length-extra : length extra ≡ count
  length-extra = length-replicate count (new_node b.base_size)

  added : count * b.base_size ≡ b.base_size * length extra
  added = rw length-extra (mul_comm count b.base_size)

  enough : n - get_capacity b ≤ b.base_size * length extra
  enough = rw length-extra (ceil_div-enough (n - get_capacity b) b.base_size v.base_pos)

  -- Either shape of the new chain will do, if its nodes are those of the old one and the new ones.
  with_chain-Grown :
      (before cur : List Node)
      → before ++ cur ≡ chain b ++ extra
      → b.base_size * length before ≤ b.position
      → b.position < b.base_size * length before + b.base_size
      → Grown n b (with_chain before cur)
  with_chain-Grown before cur e lo hi =
      let whole : Uniform b.base_size (before ++ cur) = rw e (
        Uniform-append b.base_size (chain b) extra
          (Uniform-append b.base_size b.before b.cur v.uniform_before v.uniform_cur)
          (Uniform-replicate b.base_size count)) in
      let nodes : length before + length cur ≡ length b.before + length b.cur + length extra =
        omega (
          arith,
          ap length e,
          length-append before cur,
          length-append (chain b) extra,
          length-append b.before b.cur,
        ) in
      record {
        valid = record {
          base_pos = v.base_pos;
          uniform_before = Uniform-left b.base_size before cur whole;
          uniform_cur = Uniform-right b.base_size before cur whole;
          capacity_lem = omega (arith, v.capacity_lem, added, ap (λ k. b.base_size * k) nodes);
          rooted = omega (arith, nodes, v.rooted);
          lower = lo;
          upper = hi;
          position-le-size = v.position-le-size;
          size-le-capacity = omega (arith, v.size-le-capacity);
        };
        room = omega (arith, added, enough, v.position-le-size, v.size-le-capacity);
        same_position = refl;
        same_size = refl;
        same_base = refl;
        same_endian = refl;
        padding = concat extra;
        contents = rw (e, concat-append (chain b) extra) refl;
      }

  grow-Grown : Grown n b (grow n b)
  unfolding grow
  grow-Grown = elim (Bool-cases (get_capacity b == 0)) [
    | inl full ↦
        let at_end : b.base_size * length (chain b) ≡ b.position =
          rw (length-append b.before b.cur)
            (omega (tests, v.capacity_lem, v.position-le-size, v.size-le-capacity)) in
        rw full (
          with_chain-Grown (chain b) extra refl (omega (arith, at_end))
            (omega (arith, at_end, v.base_pos)))
    | inr free ↦
        rw (free, append_nodes_lem b.before b.cur extra (live free))
          (with_chain-Grown b.before (b.cur ++ extra) (sym (append_assoc b.before b.cur extra))
            v.lower v.upper)
  ]
    where
      live : (get_capacity b == 0) ≡ false → 0 < length b.cur
      live h = cur_live b v (omega (tests, v.position-le-size, v.size-le-capacity))

-- `addCapacity` always ends with room for `n` bytes on a valid array, and changes no byte.
pub add_capacity-Grown : (n : ℕ) (b : ByteArray) → IsValid b → Grown n b (add_capacity n b)
unfolding add_capacity
add_capacity-Grown n b v = elim (Bool-cases (n == 0)) [
  | inl nothing ↦ rw nothing (unchanged (omega tests))
  | inr some_size ↦ elim (Bool-cases (leb n (get_capacity b))) [
    | inl fits ↦ rw (some_size, fits) (unchanged (omega tests))
    | inr short ↦ rw (some_size, short) (grow-Grown n b v (omega tests))
  ]
]
  where
    unchanged : n ≤ get_capacity b → Grown n b b
    unchanged h = record {
      valid = v;
      room = omega (arith, v.position-le-size, v.size-le-capacity);
      same_position = refl;
      same_size = refl;
      same_base = refl;
      same_endian = refl;
      padding = [];
      contents = sym (append-nil (flat b));
    }
