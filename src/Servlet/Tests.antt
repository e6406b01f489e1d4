-- ===== src/Servlet/Tests.antt =====
-- Runs of the routing table of yuyu/http/servlet.cc.
use yuyu.Common.{
  ℕ, ◌+◌, ◌≡◌, refl, Bool, true, false, ◌&&◌, Option, none, some, [], ◌∷◌, ◌==◌, if◌then◌else◌,
}
use yuyu.Servlet.{
  Uri, ServletDispatch, same_uri, find, add_glob_servlet_creator, first_match, get_matched_servlet,
}
use yuyu.Servlet.Routing.{IsValid, without, get_matched_servlet-add_glob}

-- A creator that makes the servlet of its number, and patterns that are prefixes.
abbrev creator : ℕ → Option ℕ
creator c = some (c + 100)

abbrev prefix : Uri → Uri → Bool
prefix [] ys = true
prefix (x ∷ xs) [] = false
prefix (x ∷ xs) (y ∷ ys) = (x == y) && prefix xs ys

abbrev path : Uri
path = 47 ∷ 97 ∷ []

-- One servlet for `/a`, one pattern `/`, and a default.
abbrev table : ServletDispatch
table = record { datas = (path, 1) ∷ []; globs = ((47 ∷ []), 2) ∷ []; default = some 404 }

table-IsValid : IsValid table
unfolding yuyu.Servlet.find
table-IsValid = record { datas_distinct = (refl, tt); globs_distinct = (refl, tt) }

abbrev other : Uri
other = 47 ∷ 98 ∷ []

lacks_other : find other table.datas ≡ none
unfolding yuyu.Servlet.find yuyu.Servlet.same_uri
lacks_other = refl

add_glob_example :
    get_matched_servlet creator prefix other (add_glob_servlet_creator (47 ∷ []) 6 table)
    ≡ elim (first_match prefix other (without (47 ∷ []) table.globs)) [
      | some e ↦ creator e
      | none ↦ if prefix (47 ∷ []) other then creator 6 else table.default
    ]
add_glob_example =
    get_matched_servlet-add_glob creator prefix (47 ∷ []) other 6 table table-IsValid lacks_other
