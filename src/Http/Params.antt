-- ===== src/Http/Params.antt =====
-- The macro PARSE_PARAM of yuyu/http/http.cc, which fills a map from `key=value` pairs.
pub mod RoundTrip
use yuyu.Url.{url_decode}
use yuyu.Http.{Text}
use yuyu.Http.Fields.{MapType, find_key, insert_key}
use yuyu.Http.Lookup.{find_key-insert_key}
use yuyu.Common.{
  ℕ, zero, suc, ◌+◌, ◌-◌, ◌<◌, ◌≡◌, sym, ap, ◌∙◌, inl, inr, true, Option, none, some, [], ◌∷◌,
  arith, ◌==◌, if◌then◌else◌, Option-cases, length,
}

abbrev pub before_char : ℕ → Option (Text × Text) → Option (Text × Text)
before_char c none = none
before_char c (some (s, t)) = some (c ∷ s, t)

-- `find`: what stands before the first such character and what behind it; `none` is `npos`.
unfoldable pub split_at : ℕ → Text → Option (Text × Text)
split_at c [] = none
split_at c (d ∷ s) =
    let rest = before_char d (split_at c s) in if d == c then some ([], s) else rest

-- A pass of the loop for the rest of the string. The flag is not the equals sign, so the search for
-- it may begin behind that.
unfoldable pub parse_loop : ℕ → ℕ → (Text → Text) → Text → MapType → MapType
unfolding split_at
parse_loop zero flag trim str m = m
parse_loop (suc fuel) flag trim str m = elim (split_at 61 str) [
  | none ↦ m
  | some (key, rest) ↦ elim (split_at flag rest) [
    | none ↦ insert_key (trim key) (url_decode rest true) m
    | some (val, more) ↦
        parse_loop fuel flag trim more (insert_key (trim key) (url_decode val true) m)
  ]
]

-- Each pass takes at least one character.
unfoldable pub parse_param : ℕ → (Text → Text) → Text → MapType → MapType
unfolding parse_loop
parse_param flag trim str m = parse_loop (suc (length str)) flag trim str m

split_at-shorter : (c : ℕ) (str s t : Text) → split_at c str ≡ some (s, t) → length t < length str
unfolding split_at
split_at-shorter c [] s t e = ground arith
split_at-shorter c (d ∷ str) s t e = elim (Option-cases (split_at c str)) [
  | inl nowhere ↦ ground arith
  | inr ((s', t'), found) ↦ ground (arith, split_at-shorter c str s' t' found)
]

module _ (flag : ℕ) (trim : Text → Text) (str : Text) (m : MapType) where
  pub parse_loop-none :
      (fuel : ℕ) → split_at 61 str ≡ none → parse_loop (suc fuel) flag trim str m ≡ m
  unfolding parse_loop
  parse_loop-none fuel e = ground arith

  pub parse_loop-last :
      (fuel : ℕ) (key rest : Text)
      → split_at 61 str ≡ some (key, rest)
      → split_at flag rest ≡ none
      → parse_loop (suc fuel) flag trim str m ≡ insert_key (trim key) (url_decode rest true) m
  unfolding parse_loop
  parse_loop-last fuel key rest e e' = ground arith

  pub parse_loop-pair :
      (fuel : ℕ) (key rest val more : Text)
      → split_at 61 str ≡ some (key, rest)
      → split_at flag rest ≡ some (val, more)
      → parse_loop (suc fuel) flag trim str m
        ≡ parse_loop fuel flag trim more (insert_key (trim key) (url_decode val true) m)
  unfolding parse_loop
  parse_loop-pair fuel key rest val more e e' = ground arith

-- With more fuel than characters the loop ends by itself: more fuel makes no difference.
pub parse_loop-fuel :
    (fuel more flag : ℕ) (trim : Text → Text) (str : Text) (m : MapType)
    → length str < fuel
    → parse_loop (fuel + more) flag trim str m ≡ parse_loop fuel flag trim str m
parse_loop-fuel zero more flag trim str m h = absurd (omega arith)
parse_loop-fuel (suc fuel) more flag trim str m h =
    let e : suc fuel + more ≡ suc (fuel + more) = omega arith in
    rw e (elim (Option-cases (split_at 61 str)) [
      | inl nowhere ↦
          parse_loop-none flag trim str m (fuel + more) nowhere
          ∙ sym (parse_loop-none flag trim str m fuel nowhere)
      | inr ((key, rest), found) ↦ elim (Option-cases (split_at flag rest)) [
        | inl last ↦
            parse_loop-last flag trim str m (fuel + more) key rest found last
            ∙ sym (parse_loop-last flag trim str m fuel key rest found last)
        | inr ((val, behind), again) ↦
            let next = insert_key (trim key) (url_decode val true) m in
            let shorter : length behind < fuel = omega (
              arith,
              split_at-shorter 61 str key rest found,
              split_at-shorter flag rest val behind again,
            ) in
            parse_loop-pair flag trim str m (fuel + more) key rest val behind found again
            ∙ parse_loop-fuel fuel more flag trim behind next shorter
            ∙ sym (parse_loop-pair flag trim str m fuel key rest val behind found again)
      ]
    ])

insert_key-keeps :
    (key k val v : Text) (m : MapType)
    → find_key key m ≡ some val
    → find_key key (insert_key k v m) ≡ some val
insert_key-keeps key k val v m h = ground (arith, find_key-insert_key k key v m)

-- What is in the map stays there.
pub find_key-parse_loop :
    (fuel flag : ℕ) (trim : Text → Text) (str key val : Text) (m : MapType)
    → find_key key m ≡ some val
    → find_key key (parse_loop fuel flag trim str m) ≡ some val
unfolding parse_loop
find_key-parse_loop zero flag trim str key val m h = h
find_key-parse_loop (suc fuel) flag trim str key val m h = elim (Option-cases (split_at 61 str)) [
  | inl nowhere ↦ ap (find_key key) (parse_loop-none flag trim str m fuel nowhere) ∙ h
  | inr ((k, rest), found) ↦ elim (Option-cases (split_at flag rest)) [
    | inl last ↦
        ap (find_key key) (parse_loop-last flag trim str m fuel k rest found last)
        ∙ insert_key-keeps key (trim k) val (url_decode rest true) m h
    | inr ((v, behind), again) ↦
        ap (find_key key) (parse_loop-pair flag trim str m fuel k rest v behind found again)
        ∙ find_key-parse_loop fuel flag trim behind key val _
            (insert_key-keeps key (trim k) val (url_decode v true) m h)
  ]
]
