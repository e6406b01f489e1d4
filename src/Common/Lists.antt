-- ===== src/Common/Lists.antt =====
-- Lists with native lengths, and the laws of `take`, `drop` and `concat` that buffers need.
use Prim.Native.Nat.{ℕ, zero, suc, ◌+◌, ◌-◌, ◌≤◌}
use mathlib.Core.Path.{◌≡◌, refl, ap, ◌∙◌}
use mathlib.Core.List.{List, [], ◌∷◌, ◌++◌}
use mathlib.Core.Option.{Option, none, some}
use native.Mathlib.Nat.{suc-add}
use native.Mathlib.Omega.{arith}

module _ {ℓ} {A : Type ℓ} where
  abbrev pub length : List A → ℕ
  length [] = 0
  length (x ∷ xs) = suc (length xs)

  abbrev pub get_elem? : List A → ℕ → Option A
  get_elem? [] i = none
  get_elem? (x ∷ xs) zero = some x
  get_elem? (x ∷ xs) (suc i) = get_elem? xs i

  abbrev pub set : List A → ℕ → A → List A
  set [] i v = []
  set (x ∷ xs) zero v = v ∷ xs
  set (x ∷ xs) (suc i) v = x ∷ set xs i v

  abbrev pub take : ℕ → List A → List A
  take zero xs = []
  take (suc n) [] = []
  take (suc n) (x ∷ xs) = x ∷ take n xs

  abbrev pub drop : ℕ → List A → List A
  drop zero xs = xs
  drop (suc n) [] = []
  drop (suc n) (x ∷ xs) = drop n xs

  abbrev pub replicate : ℕ → A → List A
  replicate zero a = []
  replicate (suc n) a = a ∷ replicate n a

  abbrev pub concat : List (List A) → List A
  concat [] = []
  concat (xs ∷ xss) = xs ++ concat xss

  abbrev pub All {κ} : (A → Type κ) → List A → Type κ
  All P [] = Unit {κ}
  All P (x ∷ xs) = P x × All P xs

  pub length-append : (xs ys : List A) → length (xs ++ ys) ≡ length xs + length ys
  length-append [] ys = omega arith
  length-append (x ∷ xs) ys = omega (arith, length-append xs ys)

  pub length-replicate : (n : ℕ) (a : A) → length (replicate n a) ≡ n
  length-replicate zero a = refl
  length-replicate (suc n) a = ap suc (length-replicate n a)

  pub length-take : (n : ℕ) (xs : List A) → n ≤ length xs → length (take n xs) ≡ n
  length-take zero xs h = refl
  length-take (suc n) [] h = absurd (omega arith)
  length-take (suc n) (x ∷ xs) h = ap suc (length-take n xs (omega arith))

  pub length-drop : (n : ℕ) (xs : List A) → length (drop n xs) ≡ length xs - n
  length-drop zero xs = omega arith
  length-drop (suc n) [] = omega arith
  length-drop (suc n) (x ∷ xs) = omega (arith, length-drop n xs)

  pub take-drop : (n : ℕ) (xs : List A) → take n xs ++ drop n xs ≡ xs
  take-drop zero xs = refl
  take-drop (suc n) [] = refl
  take-drop (suc n) (x ∷ xs) = ap (◌∷◌ x) (take-drop n xs)

  pub take_all : (n : ℕ) (xs : List A) → length xs ≤ n → take n xs ≡ xs
  take_all zero [] h = refl
  take_all zero (x ∷ xs) h = absurd (omega arith)
  take_all (suc n) [] h = refl
  take_all (suc n) (x ∷ xs) h = ap (◌∷◌ x) (take_all n xs (omega arith))

  pub drop_all : (n : ℕ) (xs : List A) → length xs ≤ n → drop n xs ≡ []
  drop_all zero [] h = refl
  drop_all zero (x ∷ xs) h = absurd (omega arith)
  drop_all (suc n) [] h = refl
  drop_all (suc n) (x ∷ xs) h = drop_all n xs (omega arith)

  pub drop-drop : (m n : ℕ) (xs : List A) → drop m (drop n xs) ≡ drop (n + m) xs
  drop-drop m zero xs = ap (λ k. drop k xs) (omega arith)
  drop-drop m (suc n) [] =
      rw (drop_all m [] (omega arith), drop_all (suc n + m) [] (omega arith)) refl
  drop-drop m (suc n) (x ∷ xs) = simp suc-add (drop-drop m n xs)

  pub take_append_left : (n : ℕ) (xs ys : List A) → n ≤ length xs → take n (xs ++ ys) ≡ take n xs
  take_append_left zero xs ys h = refl
  take_append_left (suc n) [] ys h = absurd (omega arith)
  take_append_left (suc n) (x ∷ xs) ys h = ap (◌∷◌ x) (take_append_left n xs ys (omega arith))

  pub drop_append_left :
      (n : ℕ) (xs ys : List A) → n ≤ length xs → drop n (xs ++ ys) ≡ drop n xs ++ ys
  drop_append_left zero xs ys h = refl
  drop_append_left (suc n) [] ys h = absurd (omega arith)
  drop_append_left (suc n) (x ∷ xs) ys h = drop_append_left n xs ys (omega arith)

  -- `take` and `drop` past the first part.
  pub take_append_right :
      (n : ℕ) (xs ys : List A) → take (length xs + n) (xs ++ ys) ≡ xs ++ take n ys
  take_append_right n [] ys = ap (λ k. take k ys) (omega arith)
  take_append_right n (x ∷ xs) ys = simp suc-add (ap (◌∷◌ x) (take_append_right n xs ys))

  pub drop_append_right : (n : ℕ) (xs ys : List A) → drop (length xs + n) (xs ++ ys) ≡ drop n ys
  drop_append_right n [] ys = ap (λ k. drop k ys) (omega arith)
  drop_append_right n (x ∷ xs) ys = simp suc-add (drop_append_right n xs ys)

  -- The first `k` of two parts together, the first part being shorter.
  pub take_across :
      (k : ℕ) (xs ys : List A) → length xs ≤ k → take k (xs ++ ys) ≡ xs ++ take (k - length xs) ys
  take_across k xs ys h =
      rw (← take_append_right (k - length xs) xs ys) (ap (λ j. take j (xs ++ ys)) (omega arith))

  pub take-take : (p s : ℕ) (xs : List A) → p ≤ s → take p (take s xs) ≡ take p xs
  take-take zero s xs h = refl
  take-take (suc p) zero xs h = absurd (omega arith)
  take-take (suc p) (suc s) [] h = refl
  take-take (suc p) (suc s) (x ∷ xs) h = ap (◌∷◌ x) (take-take p s xs (omega arith))

  pub drop-take : (a s : ℕ) (xs : List A) → drop a (take s xs) ≡ take (s - a) (drop a xs)
  drop-take zero s xs = ap (λ j. take j xs) (omega arith)
  drop-take (suc a) zero xs =
      let nothing : 0 ≡ 0 - suc a = omega arith in ap (λ j. take j (drop (suc a) xs)) nothing
  drop-take (suc a) (suc s) [] = rw (take_all (suc s - suc a) [] (omega arith)) refl
  drop-take (suc a) (suc s) (x ∷ xs) = drop-take a s xs ∙ ap (λ j. take j (drop a xs)) (omega arith)
