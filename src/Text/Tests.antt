-- ===== src/Text/Tests.antt =====
-- Runs of the string functions of yuyu/util.cc.
use yuyu.Common.{ℕ, ◌≡◌, refl, List, [], ◌∷◌}
use yuyu.Text.{trim, trim_right, dirname}

-- Two blanks, `ab`, a blank.
abbrev padded : List ℕ
padded = 32 ∷ 32 ∷ 97 ∷ 98 ∷ 32 ∷ []

abbrev blank : List ℕ
blank = 32 ∷ []

trim_result : trim padded blank ≡ 97 ∷ 98 ∷ []
unfolding trim yuyu.Text.find_first_not_of yuyu.Text.find_last_not_of
trim_result = refl

-- The last letter is lost.
trim_right_result : trim_right padded blank ≡ 32 ∷ 32 ∷ 97 ∷ []
unfolding trim_right yuyu.Text.find_last_not_of
trim_right_result = refl

-- `/a/b` is in `/a`.
dirname_nested : dirname (47 ∷ 97 ∷ 47 ∷ 98 ∷ []) ≡ 47 ∷ 97 ∷ []
unfolding dirname yuyu.Text.rfind
dirname_nested = refl
