-- ===== src/Http/Fields.antt =====
-- `MapType` of yuyu/http/http.h, a std::map ordered by CaseInsensitiveLess: the list of its entries
-- in their order. Headers, parameters and cookies are such maps.
use yuyu.Http.{Text, c_str}
use yuyu.Common.{
  ℕ, ◌+◌, ◌≡◌, refl, Bool, true, false, ◌&&◌, Option, none, some, List, [], ◌∷◌, arith, ltb, leb,
  ◌==◌, if◌then◌else◌,
}

pub data Order : Type 0 where
  before same after : Order

abbrev pub order : ℕ → ℕ → Order
order a b = if a == b then same else if ltb a b then before else after

-- `tolower` in the C locale.
abbrev pub to_lower : ℕ → ℕ
to_lower c = if leb 65 c && leb c 90 then c + 32 else c

abbrev pub then_order : Order → Order → Order
then_order same o = o
then_order before o = before
then_order after o = after

abbrev pub compare_texts : Text → Text → Order
compare_texts [] [] = same
compare_texts [] (d ∷ t) = before
compare_texts (c ∷ s) [] = after
compare_texts (c ∷ s) (d ∷ t) = then_order (order (to_lower c) (to_lower d)) (compare_texts s t)

unfoldable pub strcasecmp : Text → Text → Order
strcasecmp lhs rhs = compare_texts (c_str lhs) (c_str rhs)

abbrev pub is_before : Order → Bool
is_before before = true
is_before _ = false

unfoldable pub less_key : Text → Text → Bool
unfolding strcasecmp
less_key lhs rhs = is_before (strcasecmp lhs rhs)

abbrev pub MapType : Type 0
MapType = List (Text × Text)

-- `find`: the entry whose key is neither less_key nor greater.
unfoldable pub find_key : Text → MapType → Option Text
unfolding less_key
find_key key [] = none
find_key key ((k, v) ∷ m) =
    if less_key k key then find_key key m else if less_key key k then none else some v

-- The map with the value at the key; a key that is there is kept as it was spelled.
unfoldable pub assign_key : Text → Text → MapType → MapType
unfolding less_key
assign_key key val [] = (key, val) ∷ []
assign_key key val ((k, v) ∷ m) =
    if less_key k key
    then (k, v) ∷ assign_key key val m
    else if less_key key k
    then (key, val) ∷ (k, v) ∷ m
    else (k, val) ∷ m

-- `insert`, which leaves a key that is there alone.
unfoldable pub insert_key : Text → Text → MapType → MapType
unfolding less_key
insert_key key val [] = (key, val) ∷ []
insert_key key val ((k, v) ∷ m) =
    if less_key k key
    then (k, v) ∷ insert_key key val m
    else if less_key key k
    then (key, val) ∷ (k, v) ∷ m
    else (k, v) ∷ m

unfoldable pub erase_key : Text → MapType → MapType
unfolding less_key
erase_key key [] = []
erase_key key ((k, v) ∷ m) =
    if less_key k key then (k, v) ∷ erase_key key m else if less_key key k then (k, v) ∷ m else m

abbrev pub or_default : Text → Option Text → Text
or_default def none = def
or_default def (some v) = v

-- The order laws.
pub compare_texts_trans :
    (a b c : Text)
    → is_before (compare_texts a b) ≡ true
    → is_before (compare_texts b c) ≡ true
    → is_before (compare_texts a c) ≡ true
compare_texts_trans [] b [] h k = ground arith
compare_texts_trans [] b (z ∷ c) h k = refl
compare_texts_trans (x ∷ a) [] c h k = ground arith
compare_texts_trans (x ∷ a) (y ∷ b) [] h k = ground arith
compare_texts_trans (x ∷ a) (y ∷ b) (z ∷ c) h k = ground (arith, compare_texts_trans a b c)

-- Equal keys are before and behind the same keys.
pub compare_texts-same :
    (a b c : Text)
    → compare_texts a b ≡ same
    → (compare_texts a c ≡ compare_texts b c) × (compare_texts c a ≡ compare_texts c b)
compare_texts-same [] [] c h = (refl, refl)
compare_texts-same [] (y ∷ b) c h = ground arith
compare_texts-same (x ∷ a) [] c h = ground arith
compare_texts-same (x ∷ a) (y ∷ b) [] h = (refl, refl)
compare_texts-same (x ∷ a) (y ∷ b) (z ∷ c) h = ground (arith, compare_texts-same a b c)

abbrev pub flip : Order → Order
flip before = after
flip same = same
flip after = before

pub compare_texts-flip : (a b : Text) → compare_texts b a ≡ flip (compare_texts a b)
compare_texts-flip [] [] = refl
compare_texts-flip [] (y ∷ b) = refl
compare_texts-flip (x ∷ a) [] = refl
compare_texts-flip (x ∷ a) (y ∷ b) = ground (arith, compare_texts-flip a b)
