-- ===== src/ByteArray/Chain/Reading.antt =====
-- The read loop of yuyu/bytearray.cc on a chain that holds enough bytes.
use yuyu.Common.{
  ℕ, ◌+◌, ◌-◌, ◌*◌, ◌≤◌, ◌<◌, ◌≡◌, refl, ◌∙◌, inl, inr, some, List, [], ◌∷◌, ◌++◌, append_assoc,
  append-nil, arith, tests, length, take, drop, concat, length-append, length-drop, Bool-cases, leb,
  ◌==◌, take_append_left, drop_append_left, take_all, take_across,
}
use yuyu.ByteArray.Chain.{Node, Cursor, cursor, read_loop}
use yuyu.ByteArray.Chain.Splice.{Uniform, Uniform-append, offset-snoc}

-- What a read leaves: the chain as it was, and the pointer at the node of the new position.
pub record Moved (base : ℕ) (before cur : List Node) (position size : ℕ) (c : Cursor) : Type 0 where
  pub position_lem : c.position ≡ position + size
  pub chain : c.before ++ c.cur ≡ before ++ cur
  pub uniform_before : Uniform base c.before
  pub uniform_cur : Uniform base c.cur
  pub lower : base * length c.before ≤ c.position
  pub upper : c.position < base * length c.before + base

-- The bytes from an offset into the first node on.
abbrev pub window : ℕ → ℕ → List Node → List ℕ
window npos size cur = take size (drop npos (concat cur))

window_left :
    (npos size : ℕ) (xs ys : List ℕ)
    → npos + size ≤ length xs
    → take size (drop npos (xs ++ ys)) ≡ take size (drop npos xs)
window_left npos size xs ys h =
    rw (drop_append_left npos xs ys (omega arith))
      (take_append_left size (drop npos xs) ys (omega (arith, length-drop npos xs)))

module _ (base : ℕ) (before ns : List Node) (n : Node) (npos position size : ℕ) where
  abbrev At : Type 0
  At =
      Uniform base before
      × Uniform base (n ∷ ns)
      × (npos < base)
      × (position ≡ base * length before + npos)

  -- The read ends with the node.
  Moved-full :
      At
      → npos + size ≡ length n
      → Moved base before (n ∷ ns) position size (cursor (before ++ (n ∷ [])) ns (position + size))
  Moved-full (ub, uc, hn, hp) e = record {
    position_lem = refl;
    chain = append_assoc before (n ∷ []) ns;
    uniform_before = Uniform-append base before (n ∷ []) ub (uc.0, tt);
    uniform_cur = uc.1;
    lower = omega (arith, offset-snoc base before n, uc.0);
    upper = omega (arith, offset-snoc base before n, uc.0);
  }

  -- The read ends inside the node.
  Moved-part :
      At
      → npos + size < length n
      → Moved base before (n ∷ ns) position size (cursor before (n ∷ ns) (position + size))
  Moved-part (ub, uc, hn, hp) e = record {
    position_lem = refl;
    chain = refl;
    uniform_before = ub;
    uniform_cur = uc;
    lower = omega arith;
    upper = omega (arith, uc.0);
  }

  -- The read takes the rest of the node and goes on in the next.
  Moved-across :
      (k : ℕ) (c : Cursor)
      → k ≤ size
      → Moved base (before ++ (n ∷ [])) ns (position + k) (size - k) c
      → Moved base before (n ∷ ns) position size c
  Moved-across k c h m = record {
    position_lem = omega (arith, m.position_lem);
    chain = m.chain ∙ append_assoc before (n ∷ []) ns;
    uniform_before = m.uniform_before;
    uniform_cur = m.uniform_cur;
    lower = m.lower;
    upper = m.upper;
  }

-- The window over two nodes, the second from its start.
window_across :
    (npos size : ℕ) (n : Node) (ns : List Node)
    → npos ≤ length n
    → length n - npos ≤ size
    → window npos size (n ∷ ns)
      ≡ take (length n - npos) (drop npos n) ++ window 0 (size - (length n - npos)) ns
window_across npos size n ns hn hs =
    rw
      (
        drop_append_left npos n (concat ns) hn,
        take_across size (drop npos n) (concat ns) (omega (arith, length-drop npos n)),
        take_all (length n - npos) (drop npos n) (omega (arith, length-drop npos n)),
        length-drop npos n,
      )
      refl

module _ (base : ℕ) where
  pub read_loop-Moved :
      (out : List ℕ) (before cur : List Node) (npos position size : ℕ)
      → Uniform base before
      → Uniform base cur
      → npos < base
      → position ≡ base * length before + npos
      → 0 < length cur
      → npos + size ≤ length (concat cur)
      → (c : Cursor) × (read_loop out before cur npos position size
          ≡ some (out ++ window npos size cur, c))
        × Moved base before cur position size c
  unfolding read_loop
  read_loop-Moved out before [] npos position size ub uc hn hp hc fits = absurd (omega arith)
  read_loop-Moved out before (n ∷ ns) npos position size ub uc hn hp hc fits =
      let here : At base before ns n npos position size = (ub, uc, hn, hp) in
      elim (Bool-cases (size == 0)) [
        | inl stop ↦
            let none_left : size ≡ 0 = omega tests in
            let same : position + size ≡ position = omega arith in
            (
              cursor before (n ∷ ns) (position + size),
              rw (stop, same, none_left, append-nil) refl,
              Moved-part base before ns n npos position size here (omega (arith, uc.0)),
            )
        | inr more ↦ elim (Bool-cases (leb size (length n - npos))) [
          | inl fit ↦
              let inside = window_left npos size n (concat ns) (omega (tests, uc.0)) in
              elim (Bool-cases (length n == npos + size)) [
                | inl full ↦ (
                  cursor (before ++ (n ∷ [])) ns (position + size),
                  rw (more, fit, full, inside) refl,
                  Moved-full base before ns n npos position size here (omega tests),
                )
                | inr part ↦ (
                  cursor before (n ∷ ns) (position + size),
                  rw (more, fit, part, inside) refl,
                  Moved-part base before ns n npos position size here (omega (tests, uc.0)),
                )
              ]
          | inr over ↦
              let k : ℕ = length n - npos in
              let h : k < size = omega tests in
              let room : size - k ≤ length (concat ns) =
                omega (arith, length-append n (concat ns), uc.0) in
              let (c, run, m) =
                read_loop-Moved (out ++ take k (drop npos n)) (before ++ (n ∷ [])) ns 0
                  (position + k) (size - k) (Uniform-append base before (n ∷ []) ub (uc.0, tt)) uc.1
                  (omega arith) (omega (arith, offset-snoc base before n, uc.0))
                  (behind ns (size - k) (omega arith) room) (omega (arith, room)) in
              (
                c,
                rw
                    (
                      more,
                      over,
                      window_across npos size n ns (omega (arith, uc.0)) (omega arith),
                      ← append_assoc out (take k (drop npos n)) (window 0 (size - k) ns),
                    )
                    run,
                Moved-across base before ns n npos position size k c (omega arith) m,
              )
        ]
      ]
    where
      behind : (ms : List Node) (j : ℕ) → 0 < j → j ≤ length (concat ms) → 0 < length ms
      behind [] j p q = absurd (omega arith)
      behind (m ∷ ms) j p q = omega arith

-- The bytes that a read collects do not hang on the position that it counts.
pub read_loop_bytes :
    (out : List ℕ) (before cur : List Node) (npos p q size : ℕ) (bytes : List ℕ) (c : Cursor)
    → read_loop out before cur npos p size ≡ some (bytes, c)
    → (c' : Cursor) × (read_loop out before cur npos q size ≡ some (bytes, c'))
unfolding read_loop
read_loop_bytes out before [] npos p q size bytes c e = cc
read_loop_bytes out before (n ∷ ns) npos p q size bytes c e = elim (Bool-cases (size == 0)) [
  | inl stop ↦ (cursor before (n ∷ ns) q, ground arith)
  | inr more ↦ elim (Bool-cases (leb size (length n - npos))) [
    | inl fit ↦ elim (Bool-cases (length n == npos + size)) [
      | inl full ↦ (cursor (before ++ (n ∷ [])) ns (q + size), ground arith)
      | inr part ↦ (cursor before (n ∷ ns) (q + size), ground arith)
    ]
    | inr over ↦
        let k : ℕ = length n - npos in
        let (c', run) =
          read_loop_bytes (out ++ take k (drop npos n)) (before ++ (n ∷ [])) ns 0 (p + k) (q + k)
            (size - k) bytes c (rw (more, over) at e) in
        (c', rw (more, over) run)
  ]
]
