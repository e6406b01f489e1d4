-- ===== src/Servlet.antt =====
-- The routing table of yuyu/http/servlet.h and yuyu/http/servlet.cc. A string is the list of its
-- bytes. A creator is named by a number, and so is a servlet; `get` of a creator is an argument, as
-- is `fnmatch`, of which the table uses whether it answers 0.
pub mod Routing
mod Tests
use yuyu.Common.{
  ℕ, ◌+◌, Bool, true, false, not, ◌&&◌, Option, none, some, List, [], ◌∷◌, ◌++◌, ◌==◌,
  if◌then◌else◌, set,
}

abbrev pub Uri : Type 0
Uri = List ℕ

-- Equality of strings.
unfoldable pub same_uri : Uri → Uri → Bool
same_uri [] [] = true
same_uri [] (y ∷ ys) = false
same_uri (x ∷ xs) [] = false
same_uri (x ∷ xs) (y ∷ ys) = (x == y) && same_uri xs ys

abbrev pub Routes : Type 0
Routes = List (Uri × ℕ)

-- `m_datas`, with each key once, `m_globs` and `m_default`.
pub record ServletDispatch : Type 0 where
  pub datas : Routes
  pub globs : Routes
  pub default : Option ℕ

-- The constructor; `not_found` is the servlet it makes.
unfoldable pub new_dispatch : ℕ → ServletDispatch
new_dispatch not_found = record { datas = []; globs = []; default = some not_found }

-- The first entry of a key: `find` of a map, and the loop of `getGlobServlet`.
unfoldable pub find : Uri → Routes → Option ℕ
find uri [] = none
find uri ((key, c) ∷ rest) = let later = find uri rest in if same_uri key uri then some c else later

-- The loop that erases the first entry of a key.
unfoldable pub erase : Uri → Routes → Routes
erase uri [] = []
erase uri ((key, c) ∷ rest) =
    let later = erase uri rest in if same_uri key uri then rest else (key, c) ∷ later

-- `m_datas[uri] = creator`
unfoldable pub assign : Uri → ℕ → Routes → Routes
assign uri creator [] = (uri, creator) ∷ []
assign uri creator ((key, c) ∷ rest) =
    let later = assign uri creator rest in
    if same_uri key uri then (key, creator) ∷ rest else (key, c) ∷ later

unfoldable pub add_servlet_creator : Uri → ℕ → ServletDispatch → ServletDispatch
add_servlet_creator uri creator d = record d { datas = assign uri creator d.datas }

unfoldable pub add_glob_servlet_creator : Uri → ℕ → ServletDispatch → ServletDispatch
add_glob_servlet_creator uri creator d = record d {
  globs = erase uri d.globs ++ ((uri, creator) ∷ []);
}

unfoldable pub del_servlet : Uri → ServletDispatch → ServletDispatch
del_servlet uri d = record d { datas = erase uri d.datas }

unfoldable pub del_glob_servlet : Uri → ServletDispatch → ServletDispatch
del_glob_servlet uri d = record d { globs = erase uri d.globs }

unfoldable pub set_default : Option ℕ → ServletDispatch → ServletDispatch
set_default v d = record d { default = v }

abbrev pub made : (ℕ → Option ℕ) → Option ℕ → Option ℕ
made creator_get none = none
made creator_get (some c) = creator_get c

unfoldable pub get_servlet : (ℕ → Option ℕ) → Uri → ServletDispatch → Option ℕ
get_servlet creator_get uri d = made creator_get (find uri d.datas)

unfoldable pub get_glob_servlet : (ℕ → Option ℕ) → Uri → ServletDispatch → Option ℕ
get_glob_servlet creator_get uri d = made creator_get (find uri d.globs)

-- The loop over the patterns.
unfoldable pub first_match : (Uri → Uri → Bool) → Uri → Routes → Option ℕ
first_match fnmatch uri [] = none
first_match fnmatch uri ((key, c) ∷ rest) =
    let later = first_match fnmatch uri rest in if fnmatch key uri then some c else later

unfoldable pub get_matched_servlet :
    (ℕ → Option ℕ) → (Uri → Uri → Bool) → Uri → ServletDispatch → Option ℕ
get_matched_servlet creator_get fnmatch uri d = elim (find uri d.datas) [
  | some c ↦ creator_get c
  | none ↦ elim (first_match fnmatch uri d.globs) [ some c ↦ creator_get c | none ↦ d.default ]
]
