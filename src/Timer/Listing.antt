-- ===== src/Timer/Listing.antt =====
-- `listExpiredCb` of yuyu/timer.cc as a whole.
use yuyu.Common.{
  ℕ, ◌<◌, ◌≡◌, refl, sym, ◌∙◌, inl, inr, Bool, true, false, not, true≢false, ◌&&◌, ◌||◌, Option,
  List, [], ◌∷◌, map, arith, ltb, leb, ◌==◌, if◌then◌else◌, ltb→lt, ==→eq, Bool-cases, List-cases,
}
use yuyu.Timer.{Store, TimerManager, fire_all, expire, list_expired_cb, detect_clock_rollover}
use yuyu.Timer.Order.{Below, Sorted, contains, Below-lacks}
use yuyu.Timer.Invariant.{IsValid}
use yuyu.Timer.Expiry.{due, later, none_due, expire-due}
use yuyu.Timer.Firing.{Distinct, Pending, callback, fire_all-Pending}

module _ {C : Type 0} (s : Store C) (now : ℕ) where
  contains-split :
      (b : ℕ) (ys : List ℕ)
      → contains b ys ≡ (contains b (later s now ys) || contains b (due s now ys))
  unfolding due later
  contains-split b [] = refl
  contains-split b (y ∷ ys) = elim (Bool-cases (leb (s y).next now)) [
    | inl now_due ↦ rw (now_due, contains-split b ys) ground arith
    | inr not_due ↦ rw (not_due, contains-split b ys) ground arith
  ]

  Below-parts :
      (z : ℕ) (ys : List ℕ) → Below s z ys → Below s z (due s now ys) × Below s z (later s now ys)
  unfolding due later
  Below-parts z [] b = (tt, tt)
  Below-parts z (y ∷ ys) b =
      let (d, l) = Below-parts z ys b.1 in
      elim (Bool-cases (leb (s y).next now)) [
        | inl now_due ↦ rw now_due ((b.0, d), l)
        | inr not_due ↦ rw not_due (d, (b.0, l))
      ]

  -- Both parts of a sorted set are sorted.
  Sorted-parts : (ys : List ℕ) → Sorted s ys → Sorted s (due s now ys) × Sorted s (later s now ys)
  unfolding due later
  Sorted-parts [] o = (tt, tt)
  Sorted-parts (y ∷ ys) o =
      let (d, l) = Sorted-parts ys o.1 in
      let (below_d, below_l) = Below-parts y ys o.0 in
      elim (Bool-cases (leb (s y).next now)) [
        | inl now_due ↦ rw now_due ((below_d, d), l)
        | inr not_due ↦ rw not_due (d, (below_l, l))
      ]

  parts-apart :
      (b : ℕ) (ys : List ℕ)
      → Sorted s ys
      → contains b (due s now ys) ≡ true
      → contains b (later s now ys) ≡ false
  unfolding due later
  parts-apart b [] o h = refl
  parts-apart b (y ∷ ys) o h =
      let (below_d, below_l) = Below-parts y ys o.0 in
      elim (Bool-cases (leb (s y).next now)) [
        | inl now_due ↦ rw now_due (elim (Bool-cases (b == y)) [
          | inl same ↦ rw (==→eq b y same) (Below-lacks s y (later s now ys) below_l)
          | inr other ↦ parts-apart b ys o.1 (rw other at (rw now_due at h))
        ])
        | inr not_due ↦
            let there : contains b (due s now ys) ≡ true = rw not_due at h in
            rw not_due (elim (Bool-cases (b == y)) [
              | inl same ↦ absurd (
                  true≢false
                    (sym there ∙ rw (==→eq b y same) (Below-lacks s y (due s now ys) below_d)))
              | inr other ↦ rw (other, parts-apart b ys o.1 there) refl
            ])
      ]

Distinct-Sorted : {C : Type 0} (s : Store C) (ys : List ℕ) → Sorted s ys → Distinct ys
Distinct-Sorted s [] o = tt
Distinct-Sorted s (y ∷ ys) o = (Below-lacks s y ys o.0, Distinct-Sorted s ys o.1)

-- Nothing is due before the first timer.
due-early :
    {C : Type 0} (s : Store C) (now x : ℕ) (xs : List ℕ)
    → Sorted s (x ∷ xs)
    → now < (s x).next
    → due s now (x ∷ xs) ≡ []
unfolding due
due-early s now x xs o h =
    let not_due : leb (s x).next now ≡ false = ground arith in
    rw not_due (none_due s now x xs h o.0).0

due-none :
    {C : Type 0} (m : TimerManager C) (now : ℕ) (rollover : Bool) (ts : List ℕ)
    → ts ≡ []
    → [] ≡ map (callback m) (if rollover then ts else due m.store now ts)
unfolding due
due-none m now true ts e = rw e refl
due-none m now false ts e = rw e refl

due-first :
    {C : Type 0} (m : TimerManager C) (now x : ℕ) (xs ts : List ℕ)
    → ts ≡ x ∷ xs
    → Sorted m.store ts
    → now < (m.store x).next
    → [] ≡ map (callback m) (due m.store now ts)
due-first m now x xs ts e o h =
    let none_yet = due-early m.store now x xs (rw e at o) h in rw (e, none_yet) refl

module _ {C : Type 0} (m : TimerManager C) (v : IsValid m) where
  -- The loop starts with the timers that are due, or with all of them behind a rollover.
  Pending-due :
      (now : ℕ)
      → Pending (due m.store now m.timers) (record m { timers = later m.store now m.timers })
  Pending-due now =
      let (d, l) = Sorted-parts m.store now m.timers v.sorted in
      record {
        sorted = l;
        armed = λ b h. sym (contains-split m.store now b m.timers) ∙ v.armed b h;
        apart = λ b h. parts-apart m.store now b m.timers v.sorted h;
        distinct = Distinct-Sorted m.store (due m.store now m.timers) d;
      }

  Pending-all : Pending m.timers (record m { timers = [] })
  Pending-all = record {
    sorted = tt;
    armed = v.armed;
    apart = λ b h. refl;
    distinct = Distinct-Sorted m.store m.timers v.sorted;
  }

Pending-IsValid : {C : Type 0} (m : TimerManager C) → Pending [] m → IsValid m
Pending-IsValid m p = record { sorted = p.sorted; armed = λ a h. ground (arith, p.armed a h) }

module _ {C : Type 0} (now tmp : ℕ) (m : TimerManager C) where
  abbrev Listed : List ℕ → List (Option C) × TimerManager C → Type 0
  Listed xs r = (r.0 ≡ map (callback m) xs) × IsValid r.1

  abbrev checked : TimerManager C
  checked = record m { previous_time = now }

  list-empty : m.timers ≡ [] → list_expired_cb now tmp m ≡ ([], m)
  unfolding list_expired_cb
  list-empty e = rw e refl

  list-some :
      (x : ℕ) (xs : List ℕ)
      → m.timers ≡ x ∷ xs
      → list_expired_cb now tmp m ≡ (
          if not (detect_clock_rollover now m).0 && ltb now (m.store x).next
          then ([], checked)
          else fire_all now
              (expire now tmp (detect_clock_rollover now m).0 checked).0
              []
              (record checked {
                timers = (expire now tmp (detect_clock_rollover now m).0 checked).1;
              }))
  unfolding list_expired_cb detect_clock_rollover
  list-some x xs e = rw e refl

  fired :
      (xs rest : List ℕ)
      → Pending xs (record m { timers = rest })
      → Listed xs (fire_all now xs [] (record checked { timers = rest }))
  fired xs rest p =
      let (taken, left) =
        fire_all-Pending now xs [] (record checked { timers = rest })
          (record { sorted = p.sorted; armed = p.armed; apart = p.apart; distinct = p.distinct }) in
      (taken, Pending-IsValid _ left)

  checked-IsValid : IsValid m → IsValid checked
  checked-IsValid v = record { sorted = v.sorted; armed = v.armed }

  all_expired : expire now tmp true checked ≡ (m.timers, [])
  unfolding expire
  all_expired = refl

-- With a valid manager `listExpiredCb` hands out the callbacks of the timers that are due, in the
-- order of the set, or of all timers when a rollover of the clock is detected, and it keeps the
-- manager valid; the key of its search is at an address outside the set.
pub list_expired_cb-lem :
    {C : Type 0} (now tmp : ℕ) (m : TimerManager C)
    → IsValid m
    → contains tmp m.timers ≡ false
    → ((list_expired_cb now tmp m).0
        ≡ map
            (callback m)
            (if (detect_clock_rollover now m).0 then m.timers else due m.store now m.timers))
      × IsValid (list_expired_cb now tmp m).1
list_expired_cb-lem now tmp m v fresh = elim (List-cases m.timers) [
  | inl e ↦
      rw (list-empty now tmp m e) (due-none m now (detect_clock_rollover now m).0 m.timers e, v)
  | inr (x, xs, e) ↦
      rw (list-some now tmp m x xs e) (elim (Bool-cases (detect_clock_rollover now m).0) [
        | inl rollover ↦
            rw (rollover, all_expired now tmp m) (fired now tmp m m.timers [] (Pending-all m v))
        | inr usual ↦ rw usual (elim (Bool-cases (ltb now (m.store x).next)) [
          | inl early ↦ rw early (
            due-first m now x xs m.timers e v.sorted (ltb→lt _ _ early),
            checked-IsValid now tmp m v,
          )
          | inr start ↦
              rw
                (
                  start,
                  expire-due now tmp (record m { previous_time = now })
                      (checked-IsValid now tmp m v) fresh,
                )
                (fired now tmp m _ _ (Pending-due m v now))
        ])
      ])
]
