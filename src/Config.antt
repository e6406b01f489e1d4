-- ===== src/Config.antt =====
-- The variables of yuyu/config.h and the table of them, with `LookupBase` of yuyu/config.cc. A type
-- is a number, as are the address of a variable and a callback. Of a type, `operator==` and the
-- conversion from a string, where `none` is an exception, are arguments.
pub mod Table
pub mod Listeners
mod Tests
use yuyu.Common.{
  ℕ, ◌+◌, ◌%◌, ◌^◌, ap, Bool, false, not, ◌||◌, Option, none, some, List, [], ◌∷◌, ltb, ◌==◌,
  if◌then◌else◌, set,
}
use yuyu.Http.{Text, codes, text_eq}

abbrev pub has_char : ℕ → Text → Bool
has_char c [] = false
has_char c (d ∷ ds) = (c == d) || has_char c ds

abbrev name_chars : Text
name_chars = codes "abcdefghikjlmnopqrstuvwxyz._012345678"

-- `find_first_not_of` on the characters of names does not answer npos.
unfoldable pub has_other_char : Text → Bool
has_other_char [] = false
has_other_char (c ∷ cs) = not (has_char c name_chars) || has_other_char cs

-- A variable in the table: the type of its value, and its address.
pub record Entry : Type 0 where
  pub type_name : ℕ
  pub address : ℕ

-- `s_datas`, with each name once. Its order is not used.
abbrev pub ConfigVarMap : Type 0
ConfigVarMap = List (Text × Entry)

unfoldable pub lookup_base : Text → ConfigVarMap → Option Entry
lookup_base name [] = none
lookup_base name ((key, e) ∷ rest) =
    let later = lookup_base name rest in if text_eq key name then some e else later

-- A pointer, the null pointer, or the exception std::invalid_argument.
pub data Lookup : Type 0 where
  found : ℕ → Lookup
  null : Lookup
  invalid_argument : Lookup

-- `dynamic_pointer_cast` to the type.
abbrev pub cast_to : ℕ → Entry → Lookup
cast_to type_name e = if e.type_name == type_name then found e.address else null

-- `Lookup` with a default value; `new` is the address of the variable that it would make.
unfoldable pub lookup : (type_name : ℕ) → Text → (new : ℕ) → ConfigVarMap → Lookup × ConfigVarMap
lookup type_name name new datas = elim (lookup_base name datas) [
  | some e ↦ (cast_to type_name e, datas)
  | none ↦
      if has_other_char name
      then (invalid_argument, datas)
      else (found new, (name, record { type_name = type_name; address = new }) ∷ datas)
]

-- `Lookup` with the name only.
unfoldable pub lookup_name : (type_name : ℕ) → Text → ConfigVarMap → Lookup
lookup_name type_name name datas = elim (lookup_base name datas) [
  | none ↦ null
  | some e ↦ cast_to type_name e
]

-- `m_cbs`, a std::map in the order of its keys.
abbrev pub Callbacks : Type 0
Callbacks = List (ℕ × ℕ)

unfoldable pub put_callback : ℕ → ℕ → Callbacks → Callbacks
put_callback key cb [] = (key, cb) ∷ []
put_callback key cb ((k, c) ∷ rest) =
    let later = put_callback key cb rest in
    if key == k
    then (k, cb) ∷ rest
    else if ltb key k
    then (key, cb) ∷ (k, c) ∷ rest
    else (k, c) ∷ later

unfoldable pub erase_callback : ℕ → Callbacks → Callbacks
erase_callback key [] = []
erase_callback key ((k, c) ∷ rest) =
    let later = erase_callback key rest in if k == key then rest else (k, c) ∷ later

unfoldable pub find_callback : ℕ → Callbacks → Option ℕ
find_callback key [] = none
find_callback key ((k, c) ∷ rest) =
    let later = find_callback key rest in if k == key then some c else later

pub record ConfigVar (T : Type 0) : Type 0 where
  pub val : T
  pub cbs : Callbacks

module _ {T : Type 0} where
  -- The callbacks that a change calls, in order.
  unfoldable pub calls : T → T → Callbacks → List (ℕ × (T × T))
  calls old new [] = []
  calls old new ((k, c) ∷ rest) = (c, (old, new)) ∷ calls old new rest

  unfoldable pub set_value :
      (same_value : T → T → Bool) → T → ConfigVar T → ConfigVar T × List (ℕ × (T × T))
  set_value same_value v var =
      if same_value v var.val then (var, []) else (record var { val = v }, calls var.val v var.cbs)

  -- `fromString` answers false in each case.
  unfoldable pub from_text :
      (same_value : T → T → Bool)
      → (convert : Text → Option T) → Text
      → ConfigVar T
      → (ConfigVar T × List (ℕ × (T × T))) × Bool
  from_text same_value convert str var = elim (convert str) [
    | some v ↦ (set_value same_value v var, false)
    | none ↦ ((var, []), false)
  ]

  -- `addListener` with the static counter `s_fun_id`, which a 64-bit number keeps.
  unfoldable pub add_listener : ℕ → ℕ → ConfigVar T → ℕ × (ℕ × ConfigVar T)
  add_listener fun_id cb var =
      let id = (fun_id + 1) % 2 ^ 64 in (id, (id, record var { cbs = put_callback id cb var.cbs }))

  unfoldable pub del_listener : ℕ → ConfigVar T → ConfigVar T
  del_listener key var = record var { cbs = erase_callback key var.cbs }

  unfoldable pub get_listener : ℕ → ConfigVar T → Option ℕ
  get_listener key var = find_callback key var.cbs

  unfoldable pub clear_listener : ConfigVar T → ConfigVar T
  clear_listener var = record var { cbs = [] }
