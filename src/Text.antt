-- ===== src/Text.antt =====
-- `StringUtil::Trim`, `TrimLeft`, `TrimRight` and `FSUtil::Dirname` of yuyu/util.cc, on lists of
-- bytes.
pub mod Trimming
mod Tests
use yuyu.Common.{
  ℕ, suc, ◌+◌, ◌-◌, Bool, false, not, ◌||◌, Option, none, some, List, [], ◌∷◌, ◌==◌, if◌then◌else◌,
  take, drop,
}

abbrev pub is_in : ℕ → List ℕ → Bool
is_in c [] = false
is_in c (d ∷ ds) = (c == d) || is_in c ds

abbrev pub shifted : Option ℕ → Option ℕ
shifted none = none
shifted (some i) = some (suc i)

-- The members of `std::string` that the functions call; `none` is `npos`.
pub find_first_not_of : List ℕ → List ℕ → Option ℕ
find_first_not_of [] delimit = none
find_first_not_of (c ∷ cs) delimit =
    let rest = find_first_not_of cs delimit in if is_in c delimit then shifted rest else some 0

pub find_last_not_of : List ℕ → List ℕ → Option ℕ
find_last_not_of [] delimit = none
find_last_not_of (c ∷ cs) delimit = elim (find_last_not_of cs delimit) [
  | some i ↦ some (suc i)
  | none ↦ if is_in c delimit then none else some 0
]

pub rfind : List ℕ → ℕ → Option ℕ
rfind [] c = none
rfind (x ∷ xs) c = elim (rfind xs c) [
  | some i ↦ some (suc i)
  | none ↦ if x == c then some 0 else none
]

abbrev pub substr : List ℕ → ℕ → ℕ → List ℕ
substr str begin count = take count (drop begin str)

-- The two searches find a character or neither does; `end` is then not before `begin`.
unfoldable pub trim : List ℕ → List ℕ → List ℕ
trim str delimit = elim (find_first_not_of str delimit) [
  | none ↦ []
  | some begin ↦ elim (find_last_not_of str delimit) [
    | none ↦ drop begin str
    | some end ↦ substr str begin (end - begin + 1)
  ]
]

unfoldable pub trim_left : List ℕ → List ℕ → List ℕ
trim_left str delimit = elim (find_first_not_of str delimit) [
  | none ↦ []
  | some begin ↦ drop begin str
]

unfoldable pub trim_right : List ℕ → List ℕ → List ℕ
trim_right str delimit = elim (find_last_not_of str delimit) [
  | none ↦ []
  | some end ↦ substr str 0 end
]

unfoldable pub dirname : List ℕ → List ℕ
dirname [] = 46 ∷ []
dirname (c ∷ cs) = elim (rfind (c ∷ cs) 47) [
  | none ↦ 46 ∷ []
  | some p ↦ if p == 0 then 47 ∷ [] else substr (c ∷ cs) 0 p
]
