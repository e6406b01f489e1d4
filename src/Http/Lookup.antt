-- ===== src/Http/Lookup.antt =====
-- The laws of the maps of yuyu/http/http.h: what is found after a change, and the order kept.
use yuyu.Http.{Text, c_str}
use yuyu.Http.Fields.{
  same, compare_texts, strcasecmp, is_before, less_key, MapType, find_key, assign_key, insert_key,
  erase_key, compare_texts_trans, compare_texts-same, compare_texts-flip,
}
use yuyu.Common.{
  ◌≡◌, refl, ap, ◌∙◌, inl, inr, Bool, true, false, not, ◌&&◌, Option, none, some, [], ◌∷◌, arith,
  if◌then◌else◌, Bool-cases, All,
}

less_trans : (a b c : Text) → less_key a b ≡ true → less_key b c ≡ true → less_key a c ≡ true
unfolding less_key strcasecmp
less_trans a b c h k = compare_texts_trans (c_str a) (c_str b) (c_str c) h k

less_asym : (a b : Text) → less_key a b ≡ true → less_key b a ≡ false
unfolding less_key strcasecmp
less_asym a b h = ground (arith, compare_texts-flip (c_str a) (c_str b))

pub less_irrefl : (a : Text) → less_key a a ≡ false
less_irrefl a = elim (Bool-cases (less_key a a)) [ inl h ↦ less_asym a a h | inr h ↦ h ]

-- Neither is less: the keys are equal but for the case of their letters.
abbrev pub is_same_key : Text → Text → Bool
is_same_key a b = not (less_key a b) && not (less_key b a)

less_key-same :
    (a b c : Text)
    → less_key a b ≡ false
    → less_key b a ≡ false
    → (less_key a c ≡ less_key b c) × (less_key c a ≡ less_key c b)
unfolding less_key strcasecmp
less_key-same a b c h k =
    let e : compare_texts (c_str a) (c_str b) ≡ same =
      ground (arith, compare_texts-flip (c_str a) (c_str b)) in
    let (l, r) = compare_texts-same (c_str a) (c_str b) (c_str c) e in
    (ap is_before l, ap is_before r)

-- What the three tests on keys have to do with each other.
record Ordered (a b c : Text) : Type 0 where
  trans : less_key a b ≡ true → less_key b c ≡ true → less_key a c ≡ true
  asym : less_key a b ≡ true → less_key b a ≡ false
  congr :
      less_key a b ≡ false
      → less_key b a ≡ false
      → (less_key a c ≡ less_key b c) × (less_key c a ≡ less_key c b)

ordered : (a b c : Text) → Ordered a b c
ordered a b c = record {
  trans = less_trans a b c;
  asym = less_asym a b;
  congr = less_key-same a b c;
}

-- What a lookup finds after an assignment.
pub find_key-assign_key :
    (key other val : Text) (m : MapType)
    → find_key other (assign_key key val m)
      ≡ (if is_same_key key other then some val else find_key other m)
unfolding find_key assign_key
find_key-assign_key key other val [] = ground (arith, less_asym key other)
find_key-assign_key key other val ((k, v) ∷ m) = ground (
  arith,
  find_key-assign_key key other val m,
  ordered key other k,
  ordered k key other,
  ordered other key k,
  ordered key k other,
)

abbrev pub or_else : Option Text → Text → Option Text
or_else none v = some v
or_else (some w) v = some w

pub find_key-insert_key :
    (key other val : Text) (m : MapType)
    → find_key other (insert_key key val m)
      ≡ (if is_same_key key other then or_else (find_key other m) val else find_key other m)
unfolding find_key insert_key
find_key-insert_key key other val [] = ground (arith, less_asym key other)
find_key-insert_key key other val ((k, v) ∷ m) = ground (
  arith,
  find_key-insert_key key other val m,
  ordered key other k,
  ordered k key other,
  ordered other key k,
  ordered key k other,
)

abbrev pub IsAfter : Text → Text × Text → Type 0
IsAfter key (k, v) = less_key key k ≡ true

-- The keys strictly increase.
abbrev pub IsSorted : MapType → Type 0
IsSorted [] = Unit
IsSorted ((k, v) ∷ m) = All (IsAfter k) m × IsSorted m

All-IsAfter_trans :
    (key k : Text) (m : MapType) → less_key key k ≡ true → All (IsAfter k) m → All (IsAfter key) m
All-IsAfter_trans key k [] h all = tt
All-IsAfter_trans key k ((j, w) ∷ m) h all =
    (less_trans key k j h all.0, All-IsAfter_trans key k m h all.1)

find_key-after : (key : Text) (m : MapType) → All (IsAfter key) m → find_key key m ≡ none
unfolding find_key
find_key-after key [] all = refl
find_key-after key ((k, v) ∷ m) all = ground (arith, less_asym key k)

All-IsAfter_same :
    (key k : Text) (m : MapType)
    → less_key k key ≡ false
    → less_key key k ≡ false
    → All (IsAfter k) m
    → All (IsAfter key) m
All-IsAfter_same key k [] h h' all = tt
All-IsAfter_same key k ((j, w) ∷ m) h h' all =
    ((less_key-same key k j h' h).0 ∙ all.0, All-IsAfter_same key k m h h' all.1)

assign_key-IsAfter :
    (low key val : Text) (m : MapType)
    → less_key low key ≡ true
    → All (IsAfter low) m
    → All (IsAfter low) (assign_key key val m)
unfolding assign_key
assign_key-IsAfter low key val [] h all = (h, tt)
assign_key-IsAfter low key val ((k, v) ∷ m) h all =
    ground (arith, assign_key-IsAfter low key val m h all.1)

-- An assignment keeps the keys strictly increasing.
pub assign_key-IsSorted :
    (key val : Text) (m : MapType) → IsSorted m → IsSorted (assign_key key val m)
unfolding assign_key
assign_key-IsSorted key val [] s = (tt, tt)
assign_key-IsSorted key val ((k, v) ∷ m) s = elim (Bool-cases (less_key k key)) [
  | inl earlier ↦
      rw (earlier) (assign_key-IsAfter k key val m earlier s.0, assign_key-IsSorted key val m s.1)
  | inr later ↦ elim (Bool-cases (less_key key k)) [
    | inl new ↦ rw (later, new) ((new, All-IsAfter_trans key k m new s.0), s)
    | inr equal ↦ rw (later, equal) s
  ]
]

erase_key-IsAfter :
    (low key : Text) (m : MapType) → All (IsAfter low) m → All (IsAfter low) (erase_key key m)
unfolding erase_key
erase_key-IsAfter low key [] all = tt
erase_key-IsAfter low key ((k, v) ∷ m) all = ground (arith, erase_key-IsAfter low key m all.1)

erase_key-IsSorted : (key : Text) (m : MapType) → IsSorted m → IsSorted (erase_key key m)
unfolding erase_key
erase_key-IsSorted key [] s = tt
erase_key-IsSorted key ((k, v) ∷ m) s = elim (Bool-cases (less_key k key)) [
  | inl earlier ↦ rw earlier (erase_key-IsAfter k key m s.0, erase_key-IsSorted key m s.1)
  | inr later ↦ elim (Bool-cases (less_key key k)) [
    | inl new ↦ rw (later, new) s
    | inr equal ↦ rw (later, equal) s.1
  ]
]

find_key-erased :
    (key other : Text) (m : MapType)
    → IsSorted m
    → find_key other (erase_key key m) ≡ (if is_same_key key other then none else find_key other m)
unfolding find_key erase_key
find_key-erased key other [] s = ground arith
find_key-erased key other ((k, v) ∷ m) s = ground (
  arith,
  find_key-erased key other m s.1,
  ordered key other k,
  ordered k key other,
  ordered other key k,
  ordered key k other,
  λ (h : less_key other k ≡ true). find_key-after other m (All-IsAfter_trans other k m h s.0),
  λ (h : less_key k other ≡ false) (h' : less_key other k ≡ false).
      find_key-after other m (All-IsAfter_same other k m h h' s.0),
)

-- From a map whose keys strictly increase erasing takes out the one entry of the key: it is not
-- found any more, every other key is found as before, and the keys still increase.
pub find_key-erase_key :
    (key other : Text) (m : MapType)
    → IsSorted m
    → (find_key other (erase_key key m)
        ≡ (if is_same_key key other then none else find_key other m))
      × IsSorted (erase_key key m)
find_key-erase_key key other m s = (find_key-erased key other m s, erase_key-IsSorted key m s)
