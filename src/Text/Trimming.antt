-- ===== src/Text/Trimming.antt =====
-- What `TrimLeft` of yuyu/util.cc takes off.
use yuyu.Common.{
  ℕ, ◌≡◌, refl, ap, inl, inr, true, false, List, [], ◌∷◌, ◌++◌, Bool-cases, Option-cases, All,
}
use yuyu.Text.{is_in, find_first_not_of, trim_left}

abbrev pub Begins : List ℕ → List ℕ → Type 0
Begins delimit [] = Unit
Begins delimit (c ∷ cs) = is_in c delimit ≡ false

-- A string is cut before its first character that is no delimiter.
pub record Trimmed (str delimit kept : List ℕ) : Type 0 where
  pub lead : List ℕ
  pub whole : str ≡ lead ++ kept
  pub all_in : All (λ c. is_in c delimit ≡ true) lead
  pub begins : Begins delimit kept

Trimmed-cons :
    (x : ℕ) (xs delimit kept : List ℕ)
    → is_in x delimit ≡ true
    → Trimmed xs delimit kept
    → Trimmed (x ∷ xs) delimit kept
Trimmed-cons x xs delimit kept inside t = record {
  lead = x ∷ t.lead;
  whole = ap (λ l. x ∷ l) t.whole;
  all_in = (inside, t.all_in);
  begins = t.begins;
}

trim_left-inside :
    (x : ℕ) (xs delimit : List ℕ)
    → is_in x delimit ≡ true
    → trim_left (x ∷ xs) delimit ≡ trim_left xs delimit
unfolding trim_left find_first_not_of
trim_left-inside x xs delimit inside = elim (Option-cases (find_first_not_of xs delimit)) [
  | inl none_left ↦ rw (trim_left, inside, none_left) refl
  | inr (i, found) ↦ rw (trim_left, inside, found) refl
]

-- `TrimLeft` takes off delimiters from the left and nothing else, and what it returns begins with
-- no delimiter.
pub trim_left-Trimmed : (str delimit : List ℕ) → Trimmed str delimit (trim_left str delimit)
unfolding trim_left find_first_not_of
trim_left-Trimmed [] delimit = record { lead = []; whole = refl; all_in = tt; begins = tt }
trim_left-Trimmed (x ∷ xs) delimit = elim (Bool-cases (is_in x delimit)) [
  | inl inside ↦
      rw (trim_left-inside x xs delimit inside)
        (Trimmed-cons x xs delimit (trim_left xs delimit) inside (trim_left-Trimmed xs delimit))
  | inr outside ↦
      rw (trim_left, outside) (record { lead = []; whole = refl; all_in = tt; begins = outside })
]
