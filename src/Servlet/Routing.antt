-- ===== src/Servlet/Routing.antt =====
-- How the tables of yuyu/http/servlet.cc choose a servlet.
use mathlib.Core.Option.{none-ne-some}
use yuyu.Common.{
  ℕ, ◌≡◌, refl, sym, ap, ◌∙◌, inl, inr, Bool, true, false, true≢false, Option, none, some, [], ◌∷◌,
  ◌++◌, arith, ◌==◌, if◌then◌else◌, ==→eq, Bool-cases, Option-cases,
}
use yuyu.Servlet.{
  Uri, Routes, ServletDispatch, same_uri, find, erase, assign, add_servlet_creator,
  add_glob_servlet_creator, del_servlet, del_glob_servlet, first_match, get_matched_servlet,
}

same_uri_refl : (u : Uri) → same_uri u u ≡ true
unfolding same_uri
same_uri_refl [] = refl
same_uri_refl (x ∷ xs) = let here : (x == x) ≡ true = ground arith in rw here (same_uri_refl xs)

same_uri→eq : (u v : Uri) → same_uri u v ≡ true → u ≡ v
unfolding same_uri
same_uri→eq [] [] h = refl
same_uri→eq [] (y ∷ ys) h = absurd (true≢false (sym h))
same_uri→eq (x ∷ xs) [] h = absurd (true≢false (sym h))
same_uri→eq (x ∷ xs) (y ∷ ys) h = elim (Bool-cases (x == y)) [
  | inl same ↦ λ i. ==→eq x y same i ∷ same_uri→eq xs ys (rw same at h) i
  | inr other ↦ absurd (true≢false (sym (rw other at h)))
]

unlike :
    (key uri other : Uri)
    → same_uri key uri ≡ false
    → same_uri key other ≡ true
    → same_uri uri other ≡ false
unlike key uri other h k = elim (Bool-cases (same_uri uri other)) [
  | inl hit ↦
      let e : key ≡ uri = same_uri→eq key other k ∙ sym (same_uri→eq uri other hit) in
      absurd (true≢false (sym (same_uri_refl uri) ∙ ap (λ u. same_uri u uri) (sym e) ∙ h))
  | inr miss ↦ miss
]

-- Every key stands once.
abbrev pub Distinct : Routes → Type 0
Distinct [] = Unit
Distinct ((key, c) ∷ rest) = (find key rest ≡ none) × Distinct rest

pub record IsValid (d : ServletDispatch) : Type 0 where
  pub datas_distinct : Distinct d.datas
  pub globs_distinct : Distinct d.globs

find-assign :
    (uri other : Uri) (c : ℕ) (rs : Routes)
    → find other (assign uri c rs) ≡ (if same_uri uri other then some c else find other rs)
unfolding find assign
find-assign uri other c [] = refl
find-assign uri other c ((key, e) ∷ rest) = elim (Bool-cases (same_uri key uri)) [
  | inl same ↦
      let k = same_uri→eq key uri same in
      rw same (
        rw k (elim (Bool-cases (same_uri uri other)) [
          | inl hit ↦ rw hit refl
          | inr miss ↦ rw miss refl
        ]))
  | inr differs ↦
      rw (differs, find-assign uri other c rest)
        (elim (Bool-cases (same_uri key other)) [
          | inl hit ↦ rw (hit, unlike key uri other differs hit) refl
          | inr miss ↦ rw miss refl
        ])
]

flipped : (u v : Uri) → same_uri u v ≡ false → same_uri v u ≡ false
flipped u v h = elim (Bool-cases (same_uri v u)) [
  | inl hit ↦
      absurd (true≢false (sym (same_uri_refl v) ∙ ap (λ w. same_uri w v) (same_uri→eq v u hit) ∙ h))
  | inr miss ↦ miss
]

find-push :
    (uri other : Uri) (c : ℕ) (rs : Routes)
    → same_uri uri other ≡ false
    → find other (rs ++ ((uri, c) ∷ [])) ≡ find other rs
unfolding find
find-push uri other c [] h = rw h refl
find-push uri other c ((key, e) ∷ rest) h = rw (find-push uri other c rest h) refl

-- Erasing a key leaves the others, and nothing of a key that stood once.
find-erase :
    (uri other : Uri) (rs : Routes)
    → same_uri uri other ≡ false
    → find other (erase uri rs) ≡ find other rs
unfolding find erase
find-erase uri other [] h = refl
find-erase uri other ((key, e) ∷ rest) h = elim (Bool-cases (same_uri key uri)) [
  | inl same ↦ rw same (rw (same_uri→eq key uri same, h) refl)
  | inr differs ↦ rw (differs, find-erase uri other rest h) refl
]

find-erase_same : (uri : Uri) (rs : Routes) → Distinct rs → find uri (erase uri rs) ≡ none
unfolding find erase
find-erase_same uri [] o = refl
find-erase_same uri ((key, e) ∷ rest) o = elim (Bool-cases (same_uri key uri)) [
  | inl same ↦ rw same (ap (λ u. find u rest) (sym (same_uri→eq key uri same)) ∙ o.0)
  | inr differs ↦ rw differs (rw (differs, find-erase_same uri rest o.1) refl)
]

-- The patterns that are not `uri`.
abbrev pub without : Uri → Routes → Routes
without uri [] = []
without uri ((key, c) ∷ rest) =
    if same_uri key uri then without uri rest else (key, c) ∷ without uri rest

without_missing : (uri : Uri) (rs : Routes) → find uri rs ≡ none → without uri rs ≡ rs
unfolding find
without_missing uri [] h = refl
without_missing uri ((key, e) ∷ rest) h = elim (Bool-cases (same_uri key uri)) [
  | inl same ↦ absurd (none-ne-some e (sym (rw same at h)))
  | inr differs ↦ rw (differs, without_missing uri rest (rw differs at h)) refl
]

erase-without : (uri : Uri) (rs : Routes) → Distinct rs → erase uri rs ≡ without uri rs
unfolding erase find
erase-without uri [] o = refl
erase-without uri ((key, e) ∷ rest) o = elim (Bool-cases (same_uri key uri)) [
  | inl same ↦
      let gone = ap (λ u. find u rest) (sym (same_uri→eq key uri same)) ∙ o.0 in
      rw (same, without_missing uri rest gone) refl
  | inr differs ↦ rw (differs, erase-without uri rest o.1) refl
]

Distinct-assign : (uri : Uri) (c : ℕ) (rs : Routes) → Distinct rs → Distinct (assign uri c rs)
unfolding assign find
Distinct-assign uri c [] o = (refl, tt)
Distinct-assign uri c ((key, e) ∷ rest) o = elim (Bool-cases (same_uri key uri)) [
  | inl same ↦ rw same o
  | inr differs ↦ rw differs (
    find-assign uri key c rest ∙ rw (flipped key uri differs) o.0,
    Distinct-assign uri c rest o.1,
  )
]

Distinct-erase : (uri : Uri) (rs : Routes) → Distinct rs → Distinct (erase uri rs)
unfolding erase
Distinct-erase uri [] o = tt
Distinct-erase uri ((key, e) ∷ rest) o = elim (Bool-cases (same_uri key uri)) [
  | inl same ↦ rw same o.1
  | inr differs ↦
      rw differs
        (find-erase uri key rest (flipped key uri differs) ∙ o.0, Distinct-erase uri rest o.1)
]

-- A key that is new may stand at the end.
Distinct-push :
    (uri : Uri) (c : ℕ) (rs : Routes)
    → Distinct rs
    → find uri rs ≡ none
    → Distinct (rs ++ ((uri, c) ∷ []))
unfolding find
Distinct-push uri c [] o h = (refl, tt)
Distinct-push uri c ((key, e) ∷ rest) o h = elim (Bool-cases (same_uri key uri)) [
  | inl same ↦ absurd (none-ne-some e (sym (rw same at h)))
  | inr differs ↦ (
    find-push uri key c rest (flipped key uri differs) ∙ o.0,
    Distinct-push uri c rest o.1 (rw differs at h),
  )
]

-- The four changes of the table keep every key once.
pub changes-IsValid :
    (uri : Uri) (c : ℕ) (d : ServletDispatch)
    → IsValid d
    → IsValid (add_servlet_creator uri c d)
      × IsValid (add_glob_servlet_creator uri c d)
      × IsValid (del_servlet uri d)
      × IsValid (del_glob_servlet uri d)
unfolding add_servlet_creator add_glob_servlet_creator del_servlet del_glob_servlet
changes-IsValid uri c d v =
    let datas = Distinct-erase uri d.datas v.datas_distinct in
    let globs = Distinct-erase uri d.globs v.globs_distinct in
    (
      record {
        datas_distinct = Distinct-assign uri c d.datas v.datas_distinct;
        globs_distinct = v.globs_distinct;
      },
      record {
        datas_distinct = v.datas_distinct;
        globs_distinct =
            Distinct-push uri c (erase uri d.globs) globs
              (find-erase_same uri d.globs v.globs_distinct);
      },
      record { datas_distinct = datas; globs_distinct = v.globs_distinct },
      record { datas_distinct = v.datas_distinct; globs_distinct = globs },
    )

module _ (creator_get : ℕ → Option ℕ) (fnmatch : Uri → Uri → Bool) where
  -- A servlet that is added for a path serves exactly that path, whatever patterns match it; other
  -- paths are served as before.
  pub get_matched_servlet-add_servlet_creator :
      (uri other : Uri) (c : ℕ) (d : ServletDispatch)
      → get_matched_servlet creator_get fnmatch other (add_servlet_creator uri c d) ≡ (
          if same_uri uri other
          then creator_get c
          else get_matched_servlet creator_get fnmatch other d)
  unfolding get_matched_servlet add_servlet_creator
  get_matched_servlet-add_servlet_creator uri other c d =
      rw (get_matched_servlet, find-assign uri other c d.datas)
        (elim (Bool-cases (same_uri uri other)) [ inl hit ↦ rw hit refl | inr miss ↦ rw miss refl ])

  first_match-push :
      (uri other : Uri) (c : ℕ) (rs : Routes)
      → first_match fnmatch other (rs ++ ((uri, c) ∷ [])) ≡ elim (first_match fnmatch other rs) [
        | some e ↦ some e
        | none ↦ if fnmatch uri other then some c else none
      ]
  unfolding first_match
  first_match-push uri other c [] = refl
  first_match-push uri other c ((key, e) ∷ rest) = elim (Bool-cases (fnmatch key other)) [
    | inl hit ↦ rw hit refl
    | inr miss ↦ rw (miss, first_match-push uri other c rest) refl
  ]

  -- When every pattern stands once, a pattern that is added comes last, also when it was there before:
  -- for a path without a servlet of its own it is used when it matches and no other pattern does, and
  -- the other patterns are tried in their order.
  pub get_matched_servlet-add_glob :
      (uri other : Uri) (c : ℕ) (d : ServletDispatch)
      → IsValid d
      → find other d.datas ≡ none
      → get_matched_servlet creator_get fnmatch other (add_glob_servlet_creator uri c d)
        ≡ elim (first_match fnmatch other (without uri d.globs)) [
          | some e ↦ creator_get e
          | none ↦ if fnmatch uri other then creator_get c else d.default
        ]
  unfolding get_matched_servlet add_glob_servlet_creator
  get_matched_servlet-add_glob uri other c d v h =
      rw
        (
          h,
          get_matched_servlet,
          first_match-push uri other c (erase uri d.globs),
          erase-without uri d.globs v.globs_distinct,
        )
        (elim (Option-cases (first_match fnmatch other (without uri d.globs))) [
          | inl no_other ↦ rw no_other (elim (Bool-cases (fnmatch uri other)) [
            | inl hit ↦ rw hit refl
            | inr miss ↦ rw miss refl
          ])
          | inr (e, other_one) ↦ rw other_one refl
        ])

  -- With every key once, a path whose servlet is deleted falls to the patterns and the default.
  pub get_matched_servlet-del_servlet :
      (uri : Uri) (d : ServletDispatch)
      → IsValid d
      → get_matched_servlet creator_get fnmatch uri (del_servlet uri d)
        ≡ elim (first_match fnmatch uri d.globs) [ some e ↦ creator_get e | none ↦ d.default ]
  unfolding get_matched_servlet del_servlet
  get_matched_servlet-del_servlet uri d v =
      rw (get_matched_servlet, find-erase_same uri d.datas v.datas_distinct) refl
