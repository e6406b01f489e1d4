-- ===== src/ByteArray/Buffer/Writing.antt =====
-- `write` of yuyu/bytearray.cc against the file view.
use yuyu.Common.{
  ℕ, ◌+◌, ◌-◌, ◌*◌, ◌%◌, ◌≤◌, ◌<◌, ◌≡◌, refl, sym, ap, ◌∙◌, inl, inr, some, List, [], ◌∷◌, ◌++◌,
  arith, tests, ltb, ◌==◌, if◌then◌else◌, Bool-cases, length, take, concat, take_append_left,
}
use yuyu.ByteArray.Chain.{Cursor, splice, write_loop}
use yuyu.ByteArray.Chain.Splice.{concat-append, length-concat, splice_right}
use yuyu.ByteArray.Chain.Writing.{Wrote, write_loop-Wrote}
use yuyu.ByteArray.Buffer.{ByteArray, add_capacity, moved, raise_size, ok, write}
use yuyu.ByteArray.Buffer.Invariant.{
  IsValid, flat, length-flat, node_offset, Grown, add_capacity-Grown,
}
use yuyu.ByteArray.Buffer.File.{file_write, view, file_eq, file_write-nil, take-splice}

-- What a successful write leaves.
pub record Written (buf : List ℕ) (b b' : ByteArray) : Type 0 where
  pub valid : IsValid b'
  pub refines : view b' ≡ file_write buf (view b)
  pub same_base : b'.base_size ≡ b.base_size
  pub same_endian : b'.endian ≡ b.endian

module _ (buf : List ℕ) (b : ByteArray) (some_bytes : 0 < length buf) where
  -- The loop on an array with room.
  loop_run :
      IsValid b
      → b.position + length buf ≤ b.capacity
      → (c : Cursor) × (write_loop b.before b.cur (b.position % b.base_size) b.position buf
          ≡ some c)
        × Wrote b.base_size b.before b.cur (b.position % b.base_size) b.position buf c
  loop_run v room =
      let off = node_offset b v in
      write_loop-Wrote b.base_size b.before b.cur (b.position % b.base_size) b.position buf
        v.uniform_before v.uniform_cur (omega (arith, off, v.upper, v.lower))
        (omega (arith, off, v.lower)) some_bytes
        (omega (arith, off, v.lower, v.capacity_lem, length-concat b.base_size b.cur v.uniform_cur))

  -- The bytes of all nodes after the loop.
  loop_flat :
      (c : Cursor)
      → IsValid b
      → Wrote b.base_size b.before b.cur (b.position % b.base_size) b.position buf c
      → concat (c.before ++ c.cur) ≡ splice b.position buf (flat b)
  loop_flat c v w =
      let lead = length-concat b.base_size b.before v.uniform_before in
      let at : b.position ≡ length (concat b.before) + b.position % b.base_size =
        omega (arith, node_offset b v, lead, v.lower) in
      let whole : flat b ≡ concat b.before ++ concat b.cur = concat-append b.before b.cur in
      w.contents
      ∙ sym (
          ap (λ p. splice p buf (flat b)) at
          ∙ ap (splice (length (concat b.before) + b.position % b.base_size) buf) whole
          ∙ splice_right (b.position % b.base_size) buf (concat b.before) (concat b.cur))

  -- The object after the loop and the size update.
  finish :
      (c : Cursor)
      → IsValid b
      → b.position + length buf ≤ b.capacity
      → Wrote b.base_size b.before b.cur (b.position % b.base_size) b.position buf c
      → Written buf b (raise_size (moved c b))
  finish c v room w = record {
    valid = record {
      base_pos = v.base_pos;
      uniform_before = w.uniform_before;
      uniform_cur = w.uniform_cur;
      capacity_lem = omega (arith, v.capacity_lem, ap (λ k. b.base_size * k) w.nodes);
      rooted = omega (arith, w.nodes, v.rooted);
      lower = w.lower;
      upper = w.upper;
      position-le-size = ground arith;
      size-le-capacity = ground (arith, w.position_lem, v.size-le-capacity);
    };
    refines =
        file_eq
          (rw (loop_flat c v w, new_size)
            (take-splice b.position b.size buf (flat b) v.position-le-size
              (omega (arith, length-flat b v, v.size-le-capacity))))
          w.position_lem;
    same_base = refl;
    same_endian = refl;
  }
    where
      new_size :
          (if ltb b.size c.position then c.position else b.size)
          ≡ b.position + length buf + (b.size - (b.position + length buf))
      new_size = ground (arith, w.position_lem)

-- The room that was made before does not show.
Written-Grown :
    (buf : List ℕ) (b g b' : ByteArray)
    → IsValid b
    → Grown (length buf) b g
    → Written buf g b'
    → Written buf b b'
Written-Grown buf b g b' v grown w = record {
  valid = w.valid;
  refines = w.refines ∙ ap (file_write buf) (file_eq same grown.same_position);
  same_base = w.same_base ∙ grown.same_base;
  same_endian = w.same_endian ∙ grown.same_endian;
}
  where
    same : take g.size (flat g) ≡ take b.size (flat b)
    same =
        rw (grown.same_size, grown.contents)
          (take_append_left b.size (flat b) grown.padding
            (omega (arith, length-flat b v, v.size-le-capacity)))

-- On a valid array `write` always returns: it grows the chain as needed, keeps the array valid and
-- its byte order, and does to the file view what a write to a file does.
pub write-Written :
    (buf : List ℕ) (b : ByteArray)
    → IsValid b
    → (b' : ByteArray) × (write buf b ≡ ok tt b') × Written buf b b'
unfolding write
write-Written buf b v = elim (Bool-cases (length buf == 0)) [
  | inl nothing ↦ (b, rw nothing refl, unchanged (empty buf (omega tests)))
  | inr some_bytes ↦
      let g = add_capacity-Grown (length buf) b v in
      let grown = add_capacity (length buf) b in
      let (c, run, w) = loop_run buf grown (omega tests) g.valid g.room in
      (
        raise_size (moved c grown),
        rw (some_bytes, run) refl,
        Written-Grown buf b grown _ v g (finish buf grown (omega tests) c g.valid g.room w),
      )
]
  where
    empty : (xs : List ℕ) → length xs ≡ 0 → xs ≡ []
    empty [] e = refl
    empty (x ∷ xs) e = absurd (omega arith)

    unchanged : buf ≡ [] → Written buf b b
    unchanged e = record {
      valid = v;
      refines = rw e (sym (file_write-nil (view b)));
      same_base = refl;
      same_endian = refl;
    }
