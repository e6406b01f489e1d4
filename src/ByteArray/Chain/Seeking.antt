-- ===== src/ByteArray/Chain/Seeking.antt =====
-- The walk of `setPosition` in yuyu/bytearray.cc to a position inside the chain.
use yuyu.Common.{
  ℕ, ◌+◌, ◌-◌, ◌*◌, ◌≤◌, ◌<◌, ◌≡◌, refl, ◌∙◌, inl, inr, some, List, [], ◌∷◌, ◌++◌, append_assoc,
  arith, tests, length, concat, length-append, Bool-cases, ltb, ◌==◌,
}
use yuyu.ByteArray.Chain.{Node, seek}
use yuyu.ByteArray.Chain.Splice.{Uniform, Uniform-append, offset-snoc}

-- The pointer stands at the node that holds offset `at`, or behind the last node.
pub record Points (base : ℕ) (chain before cur : List Node) (at : ℕ) : Type 0 where
  pub whole : before ++ cur ≡ chain
  pub uniform_before : Uniform base before
  pub uniform_cur : Uniform base cur
  pub lower : base * length before ≤ at
  pub upper : at < base * length before + base

module _ (base : ℕ) (pos : 0 < base) where
  pub seek-Points :
      (before cur : List Node) (v : ℕ)
      → Uniform base before
      → Uniform base cur
      → 0 < length cur
      → v ≤ length (concat cur)
      → (p : List Node × List Node) × (seek before cur v ≡ some p)
        × Points base (before ++ cur) p.0 p.1 (base * length before + v)
  unfolding seek
  seek-Points before [] v ub uc hc hv = absurd (omega arith)
  seek-Points before (n ∷ ns) v ub uc hc hv = elim (Bool-cases (ltb (length n) v)) [
    | inl far ↦
        let left : v - length n ≤ length (concat ns) = omega (tests, length-append n (concat ns)) in
        let (p, run, at) =
          seek-Points (before ++ (n ∷ [])) ns (v - length n)
            (Uniform-append base before (n ∷ []) ub (uc.0, tt)) uc.1
            (behind ns (v - length n) (omega tests) left) left in
        (
          p,
          rw far run,
          record {
            whole = at.whole ∙ append_assoc before (n ∷ []) ns;
            uniform_before = at.uniform_before;
            uniform_cur = at.uniform_cur;
            lower = omega (tests, at.lower, offset-snoc base before n, uc.0);
            upper = omega (tests, at.upper, offset-snoc base before n, uc.0);
          },
        )
    | inr near ↦ elim (Bool-cases (v == length n)) [
      | inl end ↦ (
        (before ++ (n ∷ []), ns),
        rw (near, end) refl,
        record {
          whole = append_assoc before (n ∷ []) ns;
          uniform_before = Uniform-append base before (n ∷ []) ub (uc.0, tt);
          uniform_cur = uc.1;
          lower = omega (tests, offset-snoc base before n, uc.0);
          upper = omega (tests, offset-snoc base before n, uc.0);
        },
      )
      | inr inside ↦ (
        (before, n ∷ ns),
        rw (near, inside) refl,
        record {
          whole = refl;
          uniform_before = ub;
          uniform_cur = uc;
          lower = omega arith;
          upper = omega (tests, uc.0);
        },
      )
    ]
  ]
    where
      behind : (ms : List Node) (j : ℕ) → 0 < j → j ≤ length (concat ms) → 0 < length ms
      behind [] j p q = absurd (omega arith)
      behind (m ∷ ms) j p q = omega arith
