-- ===== src/IoManager/Adding.antt =====
-- `addEvent` and `delEvent` of yuyu/iomanager.cc.
use yuyu.Common.{
  ℕ, ◌+◌, ◌^◌, ◌<◌, ◌≡◌, refl, ap, inl, inr, Bool, true, false, not, ◌&&◌, ◌||◌, Option, none, some,
  List, arith, ◌==◌, Bool-cases, Option-cases, get_elem?, set,
}
use yuyu.IoManager.{
  Task, done, Event, read_event, write_event, EventContext, FdContext, IoManager, empty, has,
  get_context, put_context, reach, del_event, decrement,
}
use yuyu.IoManager.Registry.{
  Waiting, Sound, flag, flags, IsValid, get-set-total, All-get, All-set, length-set,
}

-- A context whose flag is replaced together with what belongs to it.
pub put-Sound :
    (ev : Event) (on : Bool) (e : EventContext) (c : FdContext)
    → Sound c
    → Waiting on e
    → Sound (put_context ev on e c)
put-Sound read_event on e c s w = (w, s.1)
put-Sound write_event on e c s w = (s.0, w)

pub put-flags :
    (ev : Event) (on : Bool) (e : EventContext) (c : FdContext)
    → flags (put_context ev on e c) + flag (has ev c) ≡ flags c + flag on
put-flags read_event on e c = omega arith
put-flags write_event on e c = omega arith

pub Sound-Waiting : (ev : Event) (c : FdContext) → Sound c → Waiting (has ev c) (get_context ev c)
Sound-Waiting read_event c s = s.0
Sound-Waiting write_event c s = s.1

-- Whether the event is registered for the descriptor.
abbrev pub registered : ℕ → Event → IoManager → Bool
registered fd ev m = elim (get_elem? m.contexts fd) [ none ↦ false | some c ↦ has ev c ]

pub registered_at :
    (fd : ℕ) (ev : Event) (m : IoManager) (o : Option FdContext)
    → get_elem? m.contexts fd ≡ o
    → registered fd ev m ≡ elim o [ none ↦ false | some c ↦ has ev c ]
registered_at fd ev m o e = ap (λ o. elim o [ none ↦ false | some c ↦ has ev c ]) e

pub not_both : (p q : Bool) → (p && q) ≡ false → (not p || not q) ≡ true
not_both p q h = ground arith

pub both : (p q : Bool) → (p && q) ≡ true → (p ≡ true) × (q ≡ true)
both p q h = (ground arith, ground arith)

-- What a success of `addEvent` leaves: the waiter stands behind the event in the context of the
-- descriptor, which was there or is new.
pub record Added (fd : ℕ) (ev : Event) (e : EventContext) (m m' : IoManager) : Type 0 where
  pub context : FdContext
  pub found : get_elem? (reach fd m.contexts) fd ≡ some context
  pub contexts : m'.contexts ≡ set (reach fd m.contexts) fd (put_context ev true e context)

decrement_lem : (n : ℕ) → 0 < n → n < 2 ^ 64 → decrement n + 1 ≡ n
decrement_lem n pos h = omega arith

-- A registered event is taken off, whatever is scheduled for it.
pub released-IsValid :
    (fd : ℕ) (ev : Event) (queue : List (ℕ × Task)) (m : IoManager) (c : FdContext)
    → IsValid m
    → get_elem? m.contexts fd ≡ some c
    → has ev c ≡ true
    → IsValid (record m {
      contexts = set m.contexts fd (put_context ev false empty c);
      pending = decrement m.pending;
      queue = queue;
    })
      × (decrement m.pending + 1 ≡ m.pending)
released-IsValid fd ev queue m c v at on =
    let after = put_context ev false empty c in
    let counted = get-set-total m.contexts fd c after at in
    let one_less = put-flags ev false empty c in
    let one_before : flag (has ev c) ≡ 1 = ap flag on in
    let some_pending : 0 < m.pending =
      omega (arith, counted, one_less, one_before, v.pending_lem) in
    let down = decrement_lem m.pending some_pending v.bounded in
    (
      record {
        sound =
            All-set m.contexts fd after v.sound
              (put-Sound ev false empty c (All-get m.contexts fd c v.sound at) refl);
        pending_lem = omega (arith, down, counted, one_less, one_before, v.pending_lem);
        large = omega (arith, v.large, length-set m.contexts fd after);
        bounded = omega (arith, down, v.bounded);
      },
      down,
    )

-- With a valid registry `delEvent` succeeds exactly when the event is registered and `epoll_ctl`
-- succeeds. Its waiter is then dropped, one event less is pending, and the registry stays valid.
pub del_event-IsValid :
    (fd : ℕ) (ev : Event) (rt : ℕ) (m : IoManager)
    → IsValid m
    → (m' : IoManager) × (del_event fd ev rt m ≡ done (registered fd ev m && (rt == 0), m'))
      × IsValid m'
      × (m'.pending + flag (registered fd ev m && (rt == 0)) ≡ m.pending)
      × (m'.queue ≡ m.queue)
unfolding del_event
del_event-IsValid fd ev rt m v = elim (Option-cases (get_elem? m.contexts fd)) [
  | inl absent ↦
      let reg : registered fd ev m ≡ false = registered_at fd ev m none absent in
      (m, rw (absent, del_event, reg) refl, v, rw reg omega arith, refl)
  | inr (c, at) ↦
      let reg : registered fd ev m ≡ has ev c = registered_at fd ev m (some c) at in
      elim (Bool-cases (has ev c && (rt == 0))) [
        | inl goes ↦
            let (on, accepted) = both _ _ goes in
            let (valid, down) = released-IsValid fd ev m.queue m c v at on in
            (_, rw (at, del_event, reg, goes, on, accepted) refl, valid, rw (reg, goes) down, refl)
        | inr stays ↦ (
          m,
          rw (at, del_event, reg, stays, not_both _ _ stays) refl,
          v,
          rw (reg, stays) omega arith,
          refl,
        )
      ]
]
