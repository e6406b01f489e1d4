-- ===== src/Config/Tests.antt =====
-- Runs of yuyu/config.h.
use yuyu.Common.{ℕ, ◌≡◌, refl, true, false, some, List, [], ◌∷◌, ◌==◌}
use yuyu.Http.{codes, text_eq}
use yuyu.Config.{
  has_other_char, ConfigVarMap, lookup, lookup_name, lookup_base, found, ConfigVar, set_value,
  from_text, calls,
}
use yuyu.Config.Table.{lookup-lookup, pointer}

abbrev datas : ConfigVarMap
datas = (codes "tcp.timeout", record { type_name = 1; address = 7 }) ∷ []

lookup-lookup_example :
    (lookup 2 (codes "port") 9 (lookup 2 (codes "port") 8 datas).1
      ≡ lookup 2 (codes "port") 8 datas)
    × (lookup_name 2 (codes "port") (lookup 2 (codes "port") 8 datas).1
        ≡ pointer (lookup 2 (codes "port") 8 datas).0)
    × ((other : List ℕ)
        → text_eq (codes "port") other ≡ false
        → lookup_base other (lookup 2 (codes "port") 8 datas).1 ≡ lookup_base other datas)
lookup-lookup_example = lookup-lookup 2 (codes "port") 8 9 datas

lookup_makes : (lookup 2 (codes "port") 8 datas).0 ≡ found 8
unfolding lookup lookup_base has_other_char
lookup_makes = refl

nine_is_refused : has_other_char (codes "http.port9") ≡ true
unfolding has_other_char
nine_is_refused = refl

abbrev limit : ConfigVar ℕ
limit = record { val = 3; cbs = (1, 20) ∷ (2, 30) ∷ [] }

-- Both callbacks get the old value and the new one, but the answer is false.
from_text_calls :
    from_text (λ a b. a == b) (λ str. some 5) (codes "5") limit
    ≡ ((record limit { val = 5 }, (20, (3, 5)) ∷ (30, (3, 5)) ∷ []), false)
unfolding from_text set_value calls
from_text_calls = refl

unchanged_calls : set_value (λ a b. a == b) 3 limit ≡ (limit, [])
unfolding set_value
unchanged_calls = refl
