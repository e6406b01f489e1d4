-- ===== src/ByteArray/Buffer/Seeking.antt =====
-- The constructor, `setPosition`, `clear` and `toString` of yuyu/bytearray.cc against the file view.
use yuyu.Common.{
  ℕ, ◌+◌, ◌-◌, ◌*◌, ◌%◌, ◌^◌, ◌≤◌, ◌<◌, ◌≡◌, refl, ap, inl, inr, true, false, List, [], ◌∷◌, arith,
  tests, ltb, ◌==◌, Bool-cases, length, take, length-append, length-replicate, length-take,
  drop_all, drop-take,
}
use yuyu.ByteArray.Chain.{Node}
use yuyu.ByteArray.Chain.Splice.{Uniform, Uniform-append}
use yuyu.ByteArray.Chain.Seeking.{Points, seek-Points}
use yuyu.ByteArray.Buffer.{
  ByteArray, chain, raise_size, ok, throws, set_position, clear, to_string, new_byte_array,
  get_read_size,
}
use yuyu.ByteArray.Buffer.Invariant.{IsValid, flat, length-flat, node_offset}
use yuyu.ByteArray.Buffer.File.{file_rest, view, file_eq}
use yuyu.ByteArray.Buffer.Reading.{file_seek, read_at_node}

-- A fresh array of nodes that are not empty is valid, and its file view is empty.
pub new_byte_array-IsValid :
    (base : ℕ)
    → 0 < base
    → IsValid (new_byte_array base)
      × (view (new_byte_array base) ≡ record { content = []; position = 0 })
unfolding new_byte_array
new_byte_array-IsValid base h = (
  record {
    base_pos = h;
    uniform_before = tt;
    uniform_cur = (length-replicate base 0, tt);
    capacity_lem = omega arith;
    rooted = omega arith;
    lower = omega arith;
    upper = omega arith;
    position-le-size = omega arith;
    size-le-capacity = omega arith;
  },
  refl,
)

-- `clear` keeps a valid array valid, and its file view is then empty.
pub clear-IsValid :
    (b : ByteArray)
    → IsValid b
    → IsValid (clear b) × (view (clear b) ≡ record { content = []; position = 0 })
unfolding clear
clear-IsValid b v = (
  record {
    base_pos = v.base_pos;
    uniform_before = tt;
    uniform_cur =
        first b.base_size (chain b)
          (Uniform-append b.base_size b.before b.cur v.uniform_before v.uniform_cur);
    capacity_lem =
        let one : length (take 1 (chain b)) ≡ 1 =
          length-take 1 (chain b) (omega (arith, length-append b.before b.cur, v.rooted)) in
        rw one (omega arith);
    rooted = omega (arith, length-take 1 (chain b), length-append b.before b.cur, v.rooted);
    lower = omega arith;
    upper = omega (arith, v.base_pos);
    position-le-size = omega arith;
    size-le-capacity = omega arith;
  },
  refl,
)
  where
    first : (base : ℕ) (ns : List Node) → Uniform base ns → Uniform base (take 1 ns)
    first base [] u = tt
    first base (n ∷ ns) u = (u.0, tt)

-- What a successful `setPosition` leaves.
pub record Sought (p : ℕ) (b b' : ByteArray) : Type 0 where
  pub valid : IsValid b'
  pub same_flat : flat b' ≡ flat b
  pub position_lem : b'.position ≡ p
  pub size_lem : b'.size ≡ b.size + (p - b.size)
  pub same_base : b'.base_size ≡ b.base_size
  pub same_endian : b'.endian ≡ b.endian
  pub same_capacity : b'.capacity ≡ b.capacity

-- On a valid array `setPosition` up to the capacity succeeds: the array stays valid with the same
-- bytes, the position is the one asked for, and the size is raised to it when it was smaller.
pub set_position-Sought :
    (p : ℕ) (b : ByteArray)
    → IsValid b
    → p ≤ b.capacity
    → (b' : ByteArray) × (set_position p b ≡ ok tt b') × Sought p b b'
unfolding set_position
set_position-Sought p b v h =
    let whole = Uniform-append b.base_size b.before b.cur v.uniform_before v.uniform_cur in
    let flat_length = length-flat b v in
    let (pr, run, at) =
      seek-Points b.base_size v.base_pos [] (chain b) p tt whole
        (omega (arith, length-append b.before b.cur, v.rooted)) (omega (arith, flat_length)) in
    let test : ltb b.capacity p ≡ false = ground arith in
    (
      raise_size (record b { position = p; before = pr.0; cur = pr.1 }),
      rw (test, run) refl,
      placed pr.0 pr.1 at,
    )
  where
    placed :
        (before cur : List Node)
        → Points b.base_size (chain b) before cur (b.base_size * 0 + p)
        → Sought p b (raise_size (record b { position = p; before = before; cur = cur }))
    placed before cur at =
        let nodes : length before + length cur ≡ length b.before + length b.cur =
          omega
            (arith, ap length at.whole, length-append before cur, length-append b.before b.cur) in
        record {
          valid = record {
            base_pos = v.base_pos;
            uniform_before = at.uniform_before;
            uniform_cur = at.uniform_cur;
            capacity_lem = omega (arith, v.capacity_lem, ap (λ k. b.base_size * k) nodes);
            rooted = omega (arith, nodes, v.rooted);
            lower = omega (arith, at.lower);
            upper = omega (arith, at.upper);
            position-le-size = ground arith;
            size-le-capacity = ground (arith, v.size-le-capacity);
          };
          same_flat = rw at.whole refl;
          position_lem = refl;
          size_lem = ground arith;
          same_base = refl;
          same_endian = refl;
          same_capacity = refl;
        }

-- Inside the written bytes `setPosition` moves the position and nothing else.
pub set_position-refines :
    (p : ℕ) (b : ByteArray)
    → IsValid b
    → p ≤ b.size
    → (b' : ByteArray) × (set_position p b ≡ ok tt b')
      × IsValid b'
      × (view b' ≡ file_seek p (view b))
      × (b'.endian ≡ b.endian)
      × (b'.capacity ≡ b.capacity)
set_position-refines p b v h =
    let (b', run, s) = set_position-Sought p b v (omega (arith, v.size-le-capacity)) in
    let size : b'.size ≡ b.size = omega (arith, s.size_lem) in
    (
      b',
      run,
      s.valid,
      file_eq (rw (s.same_flat, size) refl) s.position_lem,
      s.same_endian,
      s.same_capacity,
    )

-- Behind the capacity `setPosition` throws and leaves the array alone.
pub set_position-throws : (p : ℕ) (b : ByteArray) → b.capacity < p → set_position p b ≡ throws b
unfolding set_position
set_position-throws p b h = let test : ltb b.capacity p ≡ true = ground arith in rw test refl

-- On a valid array of a size below 2^64 `toString` returns everything behind the position in the
-- file view, and changes nothing.
pub to_string-rest :
    (b : ByteArray) → IsValid b → b.size < 2 ^ 64 → to_string b ≡ ok (file_rest (view b)) b
unfolding to_string
to_string-rest b v word = elim (Bool-cases (get_read_size b == 0)) [
  | inl nothing ↦
      rw (nothing, drop_all b.position (take b.size (flat b)) (omega (tests, size_bytes))) refl
  | inr more ↦
      let n : ℕ = get_read_size b in
      let off = node_offset b v in
      let at : b.base_size * length b.before + b.position % b.base_size ≡ b.position =
        omega (arith, off, v.lower) in
      rw
        (
          more,
          read_at_node n b v b.position v.position-le-size word (omega arith)
              (omega (arith, at, v.position-le-size, v.size-le-capacity)) (omega tests),
          at,
          drop-take b.position b.size (flat b),
        )
        refl
]
  where
    size_bytes : length (take b.size (flat b)) ≡ b.size
    size_bytes = length-take b.size (flat b) (omega (arith, length-flat b v, v.size-le-capacity))
