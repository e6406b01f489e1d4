-- ===== src/ByteArray/Buffer/Reading.antt =====
-- `read` of yuyu/bytearray.cc against the file view.
use native.Mathlib.Nat.{mod-lt}
use yuyu.Common.{
  ℕ, ◌+◌, ◌-◌, ◌*◌, ◌%◌, ◌^◌, ◌≤◌, ◌<◌, ◌≡◌, refl, ap, ◌∙◌, true, false, some, List, [], ◌∷◌, arith,
  ltb, length, take, drop, concat, length-append, drop_append_right, take-take, drop-take,
}
use yuyu.ByteArray.Chain.{Node, Cursor, read_loop}
use yuyu.ByteArray.Chain.Splice.{concat-append, length-concat}
use yuyu.ByteArray.Chain.Reading.{Moved, read_loop-Moved, read_loop_bytes}
use yuyu.ByteArray.Buffer.{ByteArray, moved, ok, throws, fault, read, read_at, sub64, get_read_size}
use yuyu.ByteArray.Buffer.Invariant.{IsValid, flat, node_offset, live_nodes}
use yuyu.ByteArray.Buffer.File.{File, file_rest, view, file_eq}

-- The same bytes at another position.
abbrev pub file_seek : ℕ → File → File
file_seek p f = record { content = f.content; position = p }

-- What a successful read leaves.
pub record Taken (n : ℕ) (b b' : ByteArray) : Type 0 where
  pub valid : IsValid b'
  pub refines : view b' ≡ file_seek (b.position + n) (view b)
  pub same_flat : flat b' ≡ flat b
  pub same_base : b'.base_size ≡ b.base_size
  pub same_endian : b'.endian ≡ b.endian
  pub same_size : b'.size ≡ b.size
  pub same_capacity : b'.capacity ≡ b.capacity

-- The bytes behind an offset into the node at the pointer.
node_bytes :
    (b : ByteArray) (off : ℕ)
    → IsValid b
    → drop (b.base_size * length b.before + off) (flat b) ≡ drop off (concat b.cur)
node_bytes b off v =
    let lead = length-concat b.base_size b.before v.uniform_before in
    let at : b.base_size * length b.before + off ≡ length (concat b.before) + off =
      omega (arith, lead) in
    rw (concat-append b.before b.cur, at) (drop_append_right off (concat b.before) (concat b.cur))

module _ (n : ℕ) (b : ByteArray) (v : IsValid b) where
  loop_run :
      (off at : ℕ)
      → off < b.base_size
      → at ≡ b.base_size * length b.before + off
      → at < b.capacity
      → at + n ≤ b.capacity
      → (c : Cursor) × (read_loop [] b.before b.cur off at n ≡ some (take n (drop at (flat b)), c))
        × Moved b.base_size b.before b.cur at n c
  loop_run off at hoff hat live room =
      let bytes : drop at (flat b) ≡ drop off (concat b.cur) =
        ap (λ p. drop p (flat b)) hat ∙ node_bytes b off v in
      let (c, run, m) =
        read_loop-Moved b.base_size [] b.before b.cur off at n v.uniform_before v.uniform_cur hoff
          hat
          (live_nodes b.base_size (b.base_size * length b.before) (length b.cur) at b.capacity
            v.capacity_lem (omega arith) live)
          (omega (arith, v.capacity_lem, length-concat b.base_size b.cur v.uniform_cur)) in
      (c, rw bytes run, m)

  -- The object after the loop.
  finish :
      (c : Cursor)
      → b.position + n ≤ b.size
      → Moved b.base_size b.before b.cur b.position n c
      → Taken n b (moved c b)
  finish c enough m = record {
    valid = record {
      base_pos = v.base_pos;
      uniform_before = m.uniform_before;
      uniform_cur = m.uniform_cur;
      capacity_lem = omega (arith, v.capacity_lem, ap (λ k. b.base_size * k) nodes);
      rooted = omega (arith, nodes, v.rooted);
      lower = m.lower;
      upper = m.upper;
      position-le-size = omega (arith, m.position_lem);
      size-le-capacity = v.size-le-capacity;
    };
    refines = file_eq (rw m.chain refl) m.position_lem;
    same_flat = rw m.chain refl;
    same_base = refl;
    same_endian = refl;
    same_size = refl;
    same_capacity = refl;
  }
    where
      nodes : length c.before + length c.cur ≡ length b.before + length b.cur
      nodes =
          omega
            (arith, ap length m.chain, length-append c.before c.cur, length-append b.before b.cur)

  -- What is left to read, cut to `n` bytes.
  rest_bytes :
      b.position + n ≤ b.size → take n (file_rest (view b)) ≡ take n (drop b.position (flat b))
  rest_bytes enough =
      rw (drop-take b.position b.size (flat b))
        (take-take n (b.size - b.position) (drop b.position (flat b)) (omega arith))

  -- On a valid array `read` returns the next `n` bytes of the file view and moves behind them, when
  -- so many are left and the position is below the capacity.
  pub read-Taken :
      b.position + n ≤ b.size
      → b.position < b.capacity
      → (b' : ByteArray) × (read n b ≡ ok (take n (file_rest (view b))) b') × Taken n b b'
  unfolding read
  read-Taken enough live =
      let off = node_offset b v in
      let (c, run, m) =
        loop_run (b.position % b.base_size) b.position (omega (arith, off, v.upper, v.lower))
          (omega (arith, off, v.lower)) live (omega (arith, v.size-le-capacity)) in
      let fits : ltb (get_read_size b) n ≡ false = ground arith in
      (moved c b, rw (fits, run, rest_bytes enough) refl, finish c enough m)

  -- On a valid array `read` throws and leaves the array alone when fewer than `n` bytes are left.
  pub read-throws : b.size < b.position + n → read n b ≡ throws b
  unfolding read
  read-throws short =
      let test : ltb (get_read_size b) n ≡ true = ground (arith, v.position-le-size) in rw test refl

  -- `read(buf, size, position)` takes its bytes from the node at `m_cur`: those behind the offset
  -- that `position` has in its own node.
  pub read_at_node :
      (p : ℕ)
      → p ≤ b.size
      → b.size < 2 ^ 64
      → n ≤ b.size - p
      → b.base_size * length b.before + p % b.base_size + n ≤ b.capacity
      → 0 < n
      → read_at n p b
        ≡ ok (take n (drop (b.base_size * length b.before + p % b.base_size) (flat b))) b
  unfolding read_at
  read_at_node p hp word enough room some_bytes =
      let off : ℕ = p % b.base_size in
      let at : ℕ = b.base_size * length b.before + off in
      let (c, run, m) = loop_run off at (mod-lt p v.base_pos) refl (omega arith) (omega arith) in
      let (c', run') = read_loop_bytes [] b.before b.cur off at p n _ c run in
      let test : ltb (sub64 b.size p) n ≡ false = ground arith in rw (test, run') refl

small_null : (base : ℕ) (ns : List Node) → base * length ns < base → ns ≡ []
small_null base [] h = refl
small_null base (n ∷ ns) h = absurd (omega arith)

module _ (b : ByteArray) (v : IsValid b) where
  null_at_end : b.position ≡ b.capacity → b.cur ≡ []
  null_at_end e = small_null b.base_size b.cur (omega (arith, v.upper, v.capacity_lem))

  -- On a valid array whose position is at the end of the capacity, where `m_cur` is null, `read`
  -- follows it even for no bytes.
  pub read-zero_at_end : b.position ≡ b.capacity → read 0 b ≡ fault
  unfolding read read_loop
  read-zero_at_end e =
      let test : ltb (get_read_size b) 0 ≡ false = ground arith in
      rw (test, null_at_end e, read_loop) refl
