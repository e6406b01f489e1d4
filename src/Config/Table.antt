-- ===== src/Config/Table.antt =====
-- What the table of yuyu/config.h answers after a lookup.
use yuyu.Common.{
  ℕ, ◌≡◌, refl, sym, ap, ◌∙◌, inl, inr, true, false, none, some, [], ◌∷◌, arith, ◌==◌, Bool-cases,
  Option-cases,
}
use yuyu.Http.{Text, text_eq}
use yuyu.Config.{
  ConfigVarMap, Entry, lookup_base, Lookup, found, null, invalid_argument, cast_to, lookup,
  lookup_name, has_other_char,
}

text_eq_refl : (s : Text) → text_eq s s ≡ true
text_eq_refl [] = refl
text_eq_refl (c ∷ s) = let here : (c == c) ≡ true = ground arith in rw here (text_eq_refl s)

-- A lookup of a table with the entry in front.
lookup_base-front :
    (name : Text) (e : Entry) (d : ConfigVarMap) → lookup_base name ((name, e) ∷ d) ≡ some e
unfolding lookup_base
lookup_base-front name e d = rw (text_eq_refl name) refl

lookup_base-behind :
    (name other : Text) (e : Entry) (d : ConfigVarMap)
    → text_eq name other ≡ false
    → lookup_base other ((name, e) ∷ d) ≡ lookup_base other d
unfolding lookup_base
lookup_base-behind name other e d h = rw h refl

-- The pointer that the second `Lookup` gives where the first throws.
abbrev pub pointer : Lookup → Lookup
pointer (found a) = found a
pointer null = null
pointer invalid_argument = null

-- The three ways a lookup with a default value ends.
there :
    (type_name : ℕ) (name : Text) (new : ℕ) (d : ConfigVarMap) (e : Entry)
    → lookup_base name d ≡ some e
    → (lookup type_name name new d ≡ (cast_to type_name e, d))
      × (lookup_name type_name name d ≡ cast_to type_name e)
unfolding lookup lookup_name
there type_name name new d e h = (rw (lookup, h) refl, rw (lookup_name, h) refl)

refused :
    (type_name : ℕ) (name : Text) (new : ℕ) (d : ConfigVarMap)
    → lookup_base name d ≡ none
    → has_other_char name ≡ true
    → (lookup type_name name new d ≡ (invalid_argument, d)) × (lookup_name type_name name d ≡ null)
unfolding lookup lookup_name
refused type_name name new d h bad = (rw (lookup, h, bad) refl, rw (lookup_name, h) refl)

made :
    (type_name : ℕ) (name : Text) (new : ℕ) (d : ConfigVarMap)
    → lookup_base name d ≡ none
    → has_other_char name ≡ false
    → lookup type_name name new d
      ≡ (found new, (name, record { type_name = type_name; address = new }) ∷ d)
unfolding lookup
made type_name name new d h good = rw (lookup, h, good) refl

cast_to_self :
    (type_name new : ℕ)
    → cast_to type_name (record { type_name = type_name; address = new }) ≡ found new
cast_to_self type_name new = ground arith

pointer-cast_to : (type_name : ℕ) (e : Entry) → pointer (cast_to type_name e) ≡ cast_to type_name e
pointer-cast_to type_name e = elim (Bool-cases (e.type_name == type_name)) [
  | inl same ↦ rw same refl
  | inr other ↦ rw other refl
]

-- What a `Lookup` with a default value leaves, whether it finds the variable, makes it, finds one of
-- another type or throws: a further one with any default gives the same and changes nothing, the one
-- by name only gives the same pointer, and every other name is as before.
pub lookup-lookup :
    (type_name : ℕ) (name : Text) (new next : ℕ) (d : ConfigVarMap)
    → (lookup type_name name next (lookup type_name name new d).1 ≡ lookup type_name name new d)
      × (lookup_name type_name name (lookup type_name name new d).1
          ≡ pointer (lookup type_name name new d).0)
      × ((other : Text)
          → text_eq name other ≡ false
          → lookup_base other (lookup type_name name new d).1 ≡ lookup_base other d)
lookup-lookup type_name name new next d = elim (Option-cases (lookup_base name d)) [
  | inr (e, h) ↦
      let first = there type_name name new d e h in
      let again = there type_name name next d e h in
      rw first.0 (again.0, again.1 ∙ sym (pointer-cast_to type_name e), λ other differs. refl)
  | inl absent ↦ elim (Bool-cases (has_other_char name)) [
    | inl bad ↦
        let again = refused type_name name next d absent bad in
        rw (refused type_name name new d absent bad).0 (again.0, again.1, λ other differs. refl)
    | inr good ↦
        let e : Entry = record { type_name = type_name; address = new } in
        let again = there type_name name next ((name, e) ∷ d) e (lookup_base-front name e d) in
        let self = cast_to_self type_name new in
        rw (made type_name name new d absent good) (
          (
            again.0 ∙ ap (λ l. (l, (name, e) ∷ d)) self,
            again.1 ∙ self,
            λ other differs. lookup_base-behind name other e d differs,
          ))
  ]
]
