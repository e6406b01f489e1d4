-- ===== src/Timer/Order.antt =====
-- The order of the set of timers in yuyu/timer.cc, and what insertion and erasure keep of it.
use yuyu.Common.{
  ℕ, ◌≤◌, ◌≡◌, refl, sym, ◌∙◌, inl, inr, Bool, true, false, true≢false, ◌||◌, some, List, [], ◌∷◌,
  arith, ◌==◌, ==→eq, Bool-cases,
}
use yuyu.Timer.{Store, less, insert, find_erase}

module _ {C : Type 0} (s : Store C) where
  pub less_irrefl : (a : ℕ) → less s (some a) (some a) ≡ false
  unfolding less
  less_irrefl a = ground arith

  pub less-asym : (a b : ℕ) → less s (some a) (some b) ≡ true → less s (some b) (some a) ≡ false
  unfolding less
  less-asym a b h = ground arith

  pub less-total :
      (a b : ℕ) → less s (some a) (some b) ≡ false → less s (some b) (some a) ≡ false → a ≡ b
  unfolding less
  less-total a b h k = ground arith

  pub less_trans :
      (a b c : ℕ)
      → less s (some a) (some b) ≡ true
      → less s (some b) (some c) ≡ true
      → less s (some a) (some c) ≡ true
  unfolding less
  less_trans a b c h k = ground arith

  pub less-next : (a b : ℕ) → less s (some a) (some b) ≡ true → (s a).next ≤ (s b).next
  unfolding less
  less-next a b h = ground arith

  -- Every timer of the list comes after `x`.
  abbrev pub Below : ℕ → List ℕ → Type 0
  Below x [] = Unit
  Below x (y ∷ ys) = (less s (some x) (some y) ≡ true) × Below x ys

  -- The set is in the order of the comparator, without repetition.
  abbrev pub Sorted : List ℕ → Type 0
  Sorted [] = Unit
  Sorted (x ∷ xs) = Below x xs × Sorted xs

-- Whether the set holds a timer.
abbrev pub contains : ℕ → List ℕ → Bool
contains a [] = false
contains a (x ∷ xs) = (a == x) || contains a xs

module _ {C : Type 0} (s : Store C) where
  Below-trans :
      (x y : ℕ) (zs : List ℕ) → less s (some x) (some y) ≡ true → Below s y zs → Below s x zs
  Below-trans x y [] h b = tt
  Below-trans x y (z ∷ zs) h b = (less_trans s x y z h b.0, Below-trans x y zs h b.1)

  pub Below-lacks : (x : ℕ) (ys : List ℕ) → Below s x ys → contains x ys ≡ false
  Below-lacks x [] b = refl
  Below-lacks x (y ∷ ys) b = elim (Bool-cases (x == y)) [
    | inl same ↦ absurd (true≢false (sym (rw (sym (==→eq x y same)) at b.0) ∙ less_irrefl s x))
    | inr other ↦ rw other (Below-lacks x ys b.1)
  ]

  pub Below-contains :
      (x a : ℕ) (ys : List ℕ)
      → Below s x ys
      → contains a ys ≡ true
      → less s (some x) (some a) ≡ true
  Below-contains x a [] b h = absurd (true≢false (sym h))
  Below-contains x a (y ∷ ys) b h = elim (Bool-cases (a == y)) [
    | inl same ↦ rw (==→eq a y same) b.0
    | inr other ↦ Below-contains x a ys b.1 (rw other at h)
  ]

  -- Insertion keeps what comes before the new timer and before all others.
  insert-Below :
      (z x : ℕ) (ys : List ℕ)
      → less s (some z) (some x) ≡ true
      → Below s z ys
      → Below s z (insert s x ys)
  unfolding insert
  insert-Below z x [] h b = (h, tt)
  insert-Below z x (y ∷ ys) h b = elim (Bool-cases (less s (some y) (some x))) [
    | inl before ↦ rw before (b.0, insert-Below z x ys h b.1)
    | inr k ↦ rw k (elim (Bool-cases (less s (some x) (some y))) [
      | inl after ↦ rw after (h, b)
      | inr same ↦ rw same b
    ])
  ]

  pub insert-Sorted : (x : ℕ) (ys : List ℕ) → Sorted s ys → Sorted s (insert s x ys)
  unfolding insert
  insert-Sorted x [] o = (tt, tt)
  insert-Sorted x (y ∷ ys) o = elim (Bool-cases (less s (some y) (some x))) [
    | inl before ↦ rw before (insert-Below y x ys before o.0, insert-Sorted x ys o.1)
    | inr k ↦ rw k (elim (Bool-cases (less s (some x) (some y))) [
      | inl after ↦ rw after ((after, Below-trans x y ys after o.0), o)
      | inr same ↦ rw same o
    ])
  ]

  pub contains-insert :
      (a x : ℕ) (ys : List ℕ) → contains a (insert s x ys) ≡ (a == x) || contains a ys
  unfolding insert
  contains-insert a x [] = refl
  contains-insert a x (y ∷ ys) = elim (Bool-cases (less s (some y) (some x))) [
    | inl before ↦ rw (before, contains-insert a x ys) ground arith
    | inr k ↦ rw k (elim (Bool-cases (less s (some x) (some y))) [
      | inl after ↦ rw after refl
      | inr same ↦ rw (same, less-total s x y same k) ground arith
    ])
  ]

  -- What erasing a timer leaves.
  pub record Erased (x : ℕ) (xs ys : List ℕ) : Type 0 where
    pub sorted : Sorted s ys
    pub gone : contains x ys ≡ false
    pub others : (b : ℕ) → (b == x) ≡ false → contains b ys ≡ contains b xs
    pub below : (z : ℕ) → Below s z xs → Below s z ys

  pub find_erase-Erased :
      (x : ℕ) (xs : List ℕ)
      → Sorted s xs
      → contains x xs ≡ true
      → (ys : List ℕ) × (find_erase s x xs ≡ some ys) × Erased x xs ys
  unfolding find_erase
  find_erase-Erased x [] o h = absurd (true≢false (sym h))
  find_erase-Erased x (y ∷ ys) o h = elim (Bool-cases (x == y)) [
    | inl same ↦
        let e = ==→eq x y same in
        let k = less_irrefl s y in
        (
          ys,
          rw (e, k) refl,
          record {
            sorted = o.1;
            gone = rw e (Below-lacks y ys o.0);
            others = λ b other. rw (← e, other) refl;
            below = λ z b. b.1;
          },
        )
    | inr other ↦
        let here : contains x ys ≡ true = rw other at h in
        let before = Below-contains y x ys o.0 here in
        let (zs, run, e) = find_erase-Erased x ys o.1 here in
        (
          y ∷ zs,
          rw (before, run) refl,
          record {
            sorted = (e.below y o.0, e.sorted);
            gone = rw (other, e.gone) refl;
            others = λ b k. rw (e.others b k) refl;
            below = λ z b. (b.0, e.below z b.1);
          },
        )
  ]
