-- ===== src/ByteArray/Chain/Writing.antt =====
-- The write loop of yuyu/bytearray.cc on a chain with room.
use yuyu.Common.{
  ℕ, ◌+◌, ◌-◌, ◌*◌, ◌≤◌, ◌<◌, ◌≡◌, refl, ◌∙◌, inl, inr, some, List, [], ◌∷◌, ◌++◌, append_assoc,
  append-nil, arith, tests, length, take, drop, concat, length-append, length-take, length-drop,
  Bool-cases, leb, ◌==◌,
}
use yuyu.ByteArray.Chain.{Node, Cursor, cursor, splice, write_loop}
use yuyu.ByteArray.Chain.Splice.{
  concat-append, Uniform, Uniform-append, length-splice, splice_left, splice_across, offset-snoc,
}

-- What a write leaves: the bytes in place, the chain's shape as it was, and the pointer at the
-- node of the new position.
pub record Wrote (base : ℕ) (before cur : List Node) (npos position : ℕ) (buf : List ℕ) (c : Cursor)
    : Type 0 where
  pub position_lem : c.position ≡ position + length buf
  pub contents : concat (c.before ++ c.cur) ≡ concat before ++ splice npos buf (concat cur)
  pub uniform_before : Uniform base c.before
  pub uniform_cur : Uniform base c.cur
  pub nodes : length c.before + length c.cur ≡ length before + length cur
  pub lower : base * length c.before ≤ c.position
  pub upper : c.position < base * length c.before + base

module _ (base : ℕ) (before ns : List Node) (n : Node) (npos position : ℕ) (buf : List ℕ) where
  abbrev Fits : Type 0
  Fits =
      Uniform base before
      × Uniform base (n ∷ ns)
      × (npos < base)
      × (position ≡ base * length before + npos)
      × (0 < length buf)

  -- The write ends with the node.
  Wrote-full :
      Fits
      → npos + length buf ≡ length n
      → Wrote base before
          (n ∷ ns)
          npos
          position
          buf
          (cursor (before ++ (splice npos buf n ∷ [])) ns (position + length buf))
  Wrote-full (ub, uc, hn, hp, hb) e = record {
    position_lem = refl;
    contents =
        rw
          (
            append_assoc,
            concat-append before (splice npos buf n ∷ ns),
            splice_left npos buf n (concat ns) (omega arith),
          )
          refl;
    uniform_before =
        Uniform-append base before (splice npos buf n ∷ []) ub
          (length-splice npos buf n (omega arith) ∙ uc.0, tt);
    uniform_cur = uc.1;
    nodes = omega (arith, length-append before (splice npos buf n ∷ []));
    lower = omega (arith, offset-snoc base before (splice npos buf n), uc.0);
    upper = omega (arith, offset-snoc base before (splice npos buf n), uc.0);
  }

  -- The write ends inside the node.
  Wrote-part :
      Fits
      → npos + length buf < length n
      → Wrote base before
          (n ∷ ns)
          npos
          position
          buf
          (cursor before (splice npos buf n ∷ ns) (position + length buf))
  Wrote-part (ub, uc, hn, hp, hb) e = record {
    position_lem = refl;
    contents =
        rw
          (
            concat-append before (splice npos buf n ∷ ns),
            splice_left npos buf n (concat ns) (omega arith),
          )
          refl;
    uniform_before = ub;
    uniform_cur = (length-splice npos buf n (omega arith) ∙ uc.0, uc.1);
    nodes = omega arith;
    lower = omega arith;
    upper = omega (arith, uc.0);
  }

  -- The write fills the node and goes on in the next.
  Wrote-across :
      (k : ℕ) (c : Cursor)
      → Fits
      → npos + k ≡ length n
      → k ≤ length buf
      → Wrote base (before ++ (splice npos (take k buf) n ∷ [])) ns 0 (position + k) (drop k buf) c
      → Wrote base before (n ∷ ns) npos position buf c
  Wrote-across k c (ub, uc, hn, hp, hb) e h w = record {
    position_lem = omega (arith, w.position_lem, length-drop k buf);
    contents =
        w.contents
        ∙ rw
            (
              concat-append before (splice npos (take k buf) n ∷ []),
              splice_across npos k buf n (concat ns) e h,
              append-nil,
              append_assoc,
            )
            refl;
    uniform_before = w.uniform_before;
    uniform_cur = w.uniform_cur;
    nodes = omega (arith, w.nodes, length-append before (splice npos (take k buf) n ∷ []));
    lower = w.lower;
    upper = w.upper;
  }

  -- What holds for the next round.
  fits_next :
      (k : ℕ)
      → Fits
      → npos + k ≡ length n
      → k < length buf
      → Uniform base (before ++ (splice npos (take k buf) n ∷ []))
        × (position + k ≡ base * length (before ++ (splice npos (take k buf) n ∷ [])) + 0)
        × (0 < length (drop k buf))
  fits_next k (ub, uc, hn, hp, hb) e h = (
    Uniform-append base before (splice npos (take k buf) n ∷ []) ub
        (length-splice npos (take k buf) n (omega (arith, length-take k buf)) ∙ uc.0, tt),
    omega (arith, offset-snoc base before (splice npos (take k buf) n), uc.0),
    omega (arith, length-drop k buf),
  )

module _ (base : ℕ) where
  pub write_loop-Wrote :
      (before cur : List Node) (npos position : ℕ) (buf : List ℕ)
      → Uniform base before
      → Uniform base cur
      → npos < base
      → position ≡ base * length before + npos
      → 0 < length buf
      → npos + length buf ≤ length (concat cur)
      → (c : Cursor) × (write_loop before cur npos position buf ≡ some c)
        × Wrote base before cur npos position buf c
  unfolding write_loop
  write_loop-Wrote before [] npos position buf ub uc hn hp hb fits = absurd (omega arith)
  write_loop-Wrote before (n ∷ ns) npos position buf ub uc hn hp hb fits =
      let facts : Fits base before ns n npos position buf = (ub, uc, hn, hp, hb) in
      elim (Bool-cases (leb (length buf) (length n - npos))) [
        | inl fit ↦ elim (Bool-cases (length n == npos + length buf)) [
          | inl full ↦ (
            cursor (before ++ (splice npos buf n ∷ [])) ns (position + length buf),
            rw (fit, full) refl,
            Wrote-full base before ns n npos position buf facts (omega tests),
          )
          | inr part ↦ (
            cursor before (splice npos buf n ∷ ns) (position + length buf),
            rw (fit, part) refl,
            Wrote-part base before ns n npos position buf facts (omega (tests, uc.0)),
          )
        ]
        | inr over ↦
            let k : ℕ = length n - npos in
            let e : npos + k ≡ length n = omega (arith, uc.0) in
            let h : k < length buf = omega tests in
            let next = fits_next base before ns n npos position buf k facts e h in
            let (c, run, w) =
              write_loop-Wrote (before ++ (splice npos (take k buf) n ∷ [])) ns 0 (position + k)
                (drop k buf) next.0 uc.1 (omega arith) next.1 next.2
                (omega (arith, length-append n (concat ns), length-drop k buf)) in
            (
              c,
              rw over run,
              Wrote-across base before ns n npos position buf k c facts e (omega arith) w,
            )
      ]
