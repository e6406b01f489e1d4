-- ===== src/IoManager/Registry.antt =====
-- What the event registry of yuyu/iomanager.cc keeps: a waiter stands behind every flag and nowhere
-- else, and `m_pendingEventCount` counts the flags.
use mathlib.Core.Option.{some-injective, none-ne-some}
use yuyu.Common.{
  is_some, ℕ, zero, suc, ◌+◌, ◌-◌, ◌*◌, ◌/◌, ◌^◌, ◌≤◌, ◌<◌, ◌≡◌, refl, sym, ap, ◌∙◌, ◌⊎◌, inl, inr,
  Bool, true, false, not, some, List, [], ◌∷◌, ◌++◌, arith, ltb, ltb→lt, Bool-cases, length,
  get_elem?, set, take, All, length-append, take_all,
}
use yuyu.IoManager.{
  new_io_manager, EventContext, FdContext, IoManager, empty, fresh, context_resize, reach,
}

-- A waiter behind a flag, and nothing without one.
abbrev pub Waiting : Bool → EventContext → Type 0
Waiting true e = (is_some e.scheduler ≡ true) × (is_some e.fiber ≡ not (is_some e.cb))
Waiting false e = e ≡ empty

abbrev pub Sound : FdContext → Type 0
Sound c = Waiting c.reads c.read × Waiting c.writes c.write

abbrev pub flag : Bool → ℕ
flag true = 1
flag false = 0

abbrev pub flags : FdContext → ℕ
flags c = flag c.reads + flag c.writes

unfoldable pub total : List FdContext → ℕ
total [] = 0
total (c ∷ cs) = flags c + total cs

pub record IsValid (m : IoManager) : Type 0 where
  pub sound : All Sound m.contexts
  pub pending_lem : m.pending ≡ total m.contexts
  pub large : 32 ≤ length m.contexts
  pub bounded : m.pending < 2 ^ 64

pub get-set-total :
    (cs : List FdContext) (i : ℕ) (c d : FdContext)
    → get_elem? cs i ≡ some c
    → total (set cs i d) + flags c ≡ total cs + flags d
unfolding total
get-set-total [] i c d h = absurd (none-ne-some c h)
get-set-total (x ∷ cs) zero c d h =
    let e : x ≡ c = some-injective x c h in omega (arith, ap flags e)
get-set-total (x ∷ cs) (suc i) c d h = omega (arith, get-set-total cs i c d h)

pub All-get :
    (cs : List FdContext) (i : ℕ) (c : FdContext) → All Sound cs → get_elem? cs i ≡ some c → Sound c
All-get [] i c a h = absurd (none-ne-some c h)
All-get (x ∷ cs) zero c a h = let e : c ≡ x = sym (some-injective x c h) in rw e a.0
All-get (x ∷ cs) (suc i) c a h = All-get cs i c a.1 h

pub All-set :
    (cs : List FdContext) (i : ℕ) (d : FdContext) → All Sound cs → Sound d → All Sound (set cs i d)
All-set [] i d a p = tt
All-set (x ∷ cs) zero d a p = (p, a.1)
All-set (x ∷ cs) (suc i) d a p = (a.0, All-set cs i d a.1 p)

pub length-set : (cs : List FdContext) (i : ℕ) (d : FdContext) → length (set cs i d) ≡ length cs
length-set [] i d = refl
length-set (x ∷ cs) zero d = refl
length-set (x ∷ cs) (suc i) d = omega (arith, length-set cs i d)

pub get-length :
    (cs : List FdContext) (i : ℕ) → i < length cs → (c : FdContext) × (get_elem? cs i ≡ some c)
get-length [] i h = absurd (omega arith)
get-length (x ∷ cs) zero h = (x, refl)
get-length (x ∷ cs) (suc i) h = get-length cs i (omega arith)

pub fresh-lem :
    (fd n : ℕ) → All Sound (fresh fd n) × (total (fresh fd n) ≡ 0) × (length (fresh fd n) ≡ n)
unfolding fresh total
fresh-lem fd zero = (tt, refl, refl)
fresh-lem fd (suc n) =
    let (a, t, l) = fresh-lem (suc fd) n in (((refl, refl), a), omega (arith, t), omega (arith, l))

All-append : (cs ds : List FdContext) → All Sound cs → All Sound ds → All Sound (cs ++ ds)
All-append [] ds a b = b
All-append (c ∷ cs) ds a b = (a.0, All-append cs ds a.1 b)

total-append : (cs ds : List FdContext) → total (cs ++ ds) ≡ total cs + total ds
unfolding total
total-append [] ds = omega arith
total-append (c ∷ cs) ds = omega (arith, total-append cs ds)

-- The registry of a new manager is valid.
pub new_io_manager-IsValid : IsValid new_io_manager
unfolding new_io_manager context_resize
new_io_manager-IsValid =
    let (a, t, l) = fresh-lem 0 32 in
    record { sound = a; pending_lem = sym t; large = omega (arith, l); bounded = omega arith }

-- The vector reaches the descriptor, with sound contexts and no new flags.
pub reach-lem :
    (fd : ℕ) (cs : List FdContext)
    → 32 ≤ length cs
    → All Sound cs
    → All Sound (reach fd cs)
      × (total (reach fd cs) ≡ total cs)
      × (fd < length (reach fd cs))
      × (32 ≤ length (reach fd cs))
unfolding context_resize reach
reach-lem fd cs large a = elim (Bool-cases (ltb fd (length cs))) [
  | inl there ↦ rw there (a, refl, ltb→lt _ _ there, large)
  | inr beyond ↦
      let size : ℕ = fd * 3 / 2 in
      let long : length cs ≤ fd = ground arith in
      let whole : take size cs ≡ cs = take_all size cs (omega arith) in
      let (b, t, l) = fresh-lem (length cs) (size - length cs) in
      let len = length-append cs (fresh (length cs) (size - length cs)) in
      rw (beyond, whole)
        (
          All-append cs _ a b,
          total-append cs _ ∙ omega (arith, t),
          omega (arith, len, l),
          omega (arith, len, l),
        )
]

pub set-same :
    (cs : List FdContext) (i : ℕ) (c : FdContext) → get_elem? cs i ≡ some c → set cs i c ≡ cs
set-same [] i c h = refl
set-same (x ∷ cs) zero c h = ap (λ y. y ∷ cs) (sym (some-injective x c h))
set-same (x ∷ cs) (suc i) c h = ap (λ ys. x ∷ ys) (set-same cs i c h)

pub set-set : (cs : List FdContext) (i : ℕ) (c d : FdContext) → set (set cs i c) i d ≡ set cs i d
set-set [] i c d = refl
set-set (x ∷ cs) zero c d = refl
set-set (x ∷ cs) (suc i) c d = ap (λ ys. x ∷ ys) (set-set cs i c d)

pub get-set :
    (cs : List FdContext) (i : ℕ) (c d : FdContext)
    → get_elem? cs i ≡ some c
    → get_elem? (set cs i d) i ≡ some d
get-set [] i c d h = absurd (none-ne-some c h)
get-set (x ∷ cs) zero c d h = refl
get-set (x ∷ cs) (suc i) c d h = get-set cs i c d h

get_left :
    (cs ds : List FdContext) (i : ℕ) (c : FdContext)
    → get_elem? cs i ≡ some c
    → get_elem? (cs ++ ds) i ≡ some c
get_left [] ds i c h = absurd (none-ne-some c h)
get_left (x ∷ cs) ds zero c h = h
get_left (x ∷ cs) ds (suc i) c h = get_left cs ds i c h

-- No event is registered in a context.
abbrev IsIdle : FdContext → Type 0
IsIdle c = (c.reads ≡ false) × (c.writes ≡ false)

get_fresh : (fd n i : ℕ) (c : FdContext) → get_elem? (fresh fd n) i ≡ some c → IsIdle c
unfolding fresh
get_fresh fd zero i c h = absurd (none-ne-some c h)
get_fresh fd (suc n) zero c h = rw (← some-injective _ _ h) (refl, refl)
get_fresh fd (suc n) (suc i) c h = get_fresh (suc fd) n i c h

get_beyond :
    (cs : List FdContext) (fd n i : ℕ) (c : FdContext)
    → length cs ≤ i
    → get_elem? (cs ++ fresh fd n) i ≡ some c
    → IsIdle c
get_beyond [] fd n i c h e = get_fresh fd n i c e
get_beyond (x ∷ cs) fd n zero c h e = absurd (omega arith)
get_beyond (x ∷ cs) fd n (suc i) c h e = get_beyond cs fd n i c (omega arith) e

-- The context that `addEvent` finds is the one that was there, or a new one without events.
pub reach-get :
    (fd : ℕ) (cs : List FdContext) (c : FdContext)
    → 32 ≤ length cs
    → get_elem? (reach fd cs) fd ≡ some c
    → (get_elem? cs fd ≡ some c) ⊎ IsIdle c
unfolding context_resize reach
reach-get fd cs c large h = elim (Bool-cases (ltb fd (length cs))) [
  | inl there ↦ inl (rw there at h)
  | inr beyond ↦
      let long : length cs ≤ fd = ground arith in
      let whole : take (fd * 3 / 2) cs ≡ cs = take_all (fd * 3 / 2) cs (omega arith) in
      inr (get_beyond cs (length cs) (fd * 3 / 2 - length cs) fd c long (rw (beyond, whole) at h))
]
