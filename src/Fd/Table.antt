-- ===== src/Fd/Table.antt =====
-- The table of yuyu/fd_manager.cc.
use yuyu.Common.Int.{pos}
use yuyu.Common.{
  ℕ, zero, suc, ◌-◌, ◌*◌, ◌/◌, ◌≤◌, ◌<◌, ◌≡◌, refl, ap, ◌∙◌, inl, inr, Bool, true, false,
  true≢false, Option, none, some, [], ◌∷◌, arith, ltb, leb, ◌==◌, ltb→lt, leb→le, Bool-cases,
  Option-cases, length, get_elem?, set, replicate, length-append, length-replicate, take_all,
}
use yuyu.Fd.{FdCtx, FdManager, new_fd_ctx, resize, store, create, get, del}

get-set :
    (xs : FdManager) (i : ℕ) (d : Option FdCtx) → i < length xs → get_elem? (set xs i d) i ≡ some d
get-set [] i d h = absurd (omega arith)
get-set (x ∷ xs) zero d h = refl
get-set (x ∷ xs) (suc i) d h = get-set xs i d (omega arith)

get-set_other :
    (xs : FdManager) (i j : ℕ) (d : Option FdCtx)
    → (j == i) ≡ false
    → get_elem? (set xs i d) j ≡ get_elem? xs j
get-set_other [] i j d h = refl
get-set_other (x ∷ xs) zero zero d h = absurd (true≢false h)
get-set_other (x ∷ xs) zero (suc j) d h = refl
get-set_other (x ∷ xs) (suc i) zero d h = refl
get-set_other (x ∷ xs) (suc i) (suc j) d h = get-set_other xs i j d (ground arith)

get-beyond : (xs : FdManager) (i : ℕ) → length xs ≤ i → get_elem? xs i ≡ none
get-beyond [] i h = refl
get-beyond (x ∷ xs) zero h = absurd (omega arith)
get-beyond (x ∷ xs) (suc i) h = get-beyond xs i (omega arith)

length-set : (xs : FdManager) (i : ℕ) (d : Option FdCtx) → length (set xs i d) ≡ length xs
length-set [] i d = refl
length-set (x ∷ xs) zero d = refl
length-set (x ∷ xs) (suc i) d = omega (arith, length-set xs i d)

-- The vector always grows behind the descriptor.
length-resize :
    (size : ℕ) (datas : FdManager) → length datas ≤ size → length (resize size datas) ≡ size
length-resize size datas h =
    let more : FdManager = replicate (size - length datas) none in
    let rep : length more ≡ size - length datas = length-replicate (size - length datas) none in
    rw (take_all size datas h) omega (arith, length-append datas more, rep)

-- What `get` does for a descriptor that has no context yet.
pub record Created (stat : ℕ → Option Bool) (fd : ℕ) (datas' : FdManager) : Type 0 where
  pub found : get_elem? datas' fd ≡ some (some (new_fd_ctx stat fd))
  pub large : 64 ≤ length datas'

create-Created :
    (stat : ℕ → Option Bool) (fd : ℕ) (datas : FdManager)
    → 64 ≤ length datas
    → (datas' : FdManager) × (create stat fd datas ≡ some (some (new_fd_ctx stat fd), datas'))
      × Created stat fd datas'
unfolding create
create-Created stat fd datas large = elim (Bool-cases (leb (length datas) fd)) [
  | inl beyond ↦
      let wide : FdManager = resize (fd * 3 / 2) datas in
      let long = length-resize (fd * 3 / 2) datas (ground arith) in
      let fits : ltb fd (length wide) ≡ true = ground arith in
      (
        set wide fd (some (new_fd_ctx stat fd)),
        rw (beyond, store, fits) refl,
        record {
          found = get-set wide fd (some (new_fd_ctx stat fd)) (ltb→lt _ _ fits);
          large =
              omega
                (arith, length-set wide fd (some (new_fd_ctx stat fd)), long, leb→le _ _ beyond);
        },
      )
  | inr inside ↦
      let fits : ltb fd (length datas) ≡ true = ground arith in
      (
        set datas fd (some (new_fd_ctx stat fd)),
        rw (inside, store, fits) refl,
        record {
          found = get-set datas fd (some (new_fd_ctx stat fd)) (ltb→lt _ _ fits);
          large = omega (arith, length-set datas fd (some (new_fd_ctx stat fd)), large);
        },
      )
]

get-present :
    (stat : ℕ → Option Bool) (fd : ℕ) (auto_create : Bool) (ctx : FdCtx) (datas : FdManager)
    → get_elem? datas fd ≡ some (some ctx)
    → get stat (pos fd) auto_create datas ≡ some (some ctx, datas)
unfolding get
get-present stat fd auto_create ctx datas e = rw (e, get) refl

-- With a table of at least 64 places `get` with `auto_create` always returns a context, of a
-- descriptor that is not negative: no index is out of range, the table stays as large, and the next
-- `get` returns the same context and changes nothing.
pub get-get :
    (stat : ℕ → Option Bool) (fd : ℕ) (datas : FdManager)
    → 64 ≤ length datas
    → (ctx : FdCtx) × (datas' : FdManager) × (get stat (pos fd) true datas
        ≡ some (some ctx, datas'))
      × (get stat (pos fd) false datas' ≡ some (some ctx, datas'))
      × (64 ≤ length datas')
unfolding get
get-get stat fd datas large = elim (Option-cases (get_elem? datas fd)) [
  | inl beyond ↦
      let (datas', run, c) = create-Created stat fd datas large in
      (
        new_fd_ctx stat fd,
        datas',
        rw (beyond, get, run) refl,
        get-present stat fd false _ datas' c.found,
        c.large,
      )
  | inr (place, at) ↦ elim (Option-cases place) [
    | inl empty ↦
        let (datas', run, c) = create-Created stat fd datas large in
        (
          new_fd_ctx stat fd,
          datas',
          rw (at, get, empty, run) refl,
          get-present stat fd false _ datas' c.found,
          c.large,
        )
    | inr (ctx, there) ↦
        let e : get_elem? datas fd ≡ some (some ctx) = at ∙ ap some there in
        (
          ctx,
          datas,
          get-present stat fd true ctx datas e,
          get-present stat fd false ctx datas e,
          large,
        )
  ]
]

-- After `del` of a descriptor that is not negative `get` without `auto_create` returns a null
-- pointer for it, and for another one what it returned before.
pub get-del :
    (stat : ℕ → Option Bool) (fd : ℕ) (datas : FdManager)
    → (datas' : FdManager) × (del (pos fd) datas ≡ some datas')
      × (get stat (pos fd) false datas' ≡ some (none, datas'))
      × ((other : ℕ) → (other == fd) ≡ false → get_elem? datas' other ≡ get_elem? datas other)
unfolding get del
get-del stat fd datas = elim (Bool-cases (leb (length datas) fd)) [
  | inl beyond ↦
      let absent : get_elem? datas fd ≡ none = get-beyond datas fd (leb→le _ _ beyond) in
      (datas, rw beyond refl, rw (absent, get) refl, λ other h. refl)
  | inr inside ↦
      let gone = get-set datas fd none (ground arith) in
      (
        set datas fd none,
        rw inside refl,
        rw (gone, get) refl,
        λ other h. get-set_other datas fd other none h,
      )
]
