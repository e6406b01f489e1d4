-- ===== src/HttpPool/Choice.antt =====
-- Which connection `getConnection` of yuyu/http/http_connection.cc takes from the pool.
use mathlib.Core.Option.{none-ne-some}
use yuyu.Common.{
  ℕ, ◌+◌, ◌%◌, ◌^◌, ◌<◌, ◌≤◌, ◌⊎◌, arith, ◌≡◌, refl, sym, ap, inl, inr, Bool, true, false, Option,
  none, some, List, [], ◌∷◌, ◌++◌, Bool-cases, Option-cases, length, All,
}
use yuyu.HttpPool.{
  HttpConnection, HttpConnectionPool, is_discarded, pick, picked, lower, get_connection,
}

abbrev pub taken : Option HttpConnection → List HttpConnection
taken none = []
taken (some c) = c ∷ []

-- The list is cut at the first connection that is not discarded.
pub record Cut (discarded : HttpConnection → Bool) (cs bad : List HttpConnection)
    (ptr : Option HttpConnection) (rest : List HttpConnection) : Type 0 where
  pub whole : cs ≡ bad ++ (taken ptr ++ rest)
  pub all_bad : All (λ c. discarded c ≡ true) bad
  pub good : All (λ c. discarded c ≡ false) (taken ptr)
  pub ended : ptr ≡ none → rest ≡ []

pub pick-Cut :
    (discarded : HttpConnection → Bool) (cs : List HttpConnection)
    → Cut discarded cs (pick discarded cs).0 (pick discarded cs).1.0 (pick discarded cs).1.1
unfolding pick
pick-Cut discarded [] = record { whole = refl; all_bad = tt; good = tt; ended = λ h. refl }
pick-Cut discarded (c ∷ cs) = elim (Bool-cases (discarded c)) [
  | inl bad ↦
      let later = pick-Cut discarded cs in
      rw bad (record {
        whole = ap (λ ds. c ∷ ds) later.whole;
        all_bad = (bad, later.all_bad);
        good = later.good;
        ended = later.ended;
      })
  | inr good ↦ rw good (record {
    whole = refl;
    all_bad = tt;
    good = (good, tt);
    ended = λ h. absurd (none-ne-some c (sym h));
  })
]

from_pool :
    (is_connected : ℕ → Bool) (now_ms : ℕ) (p : HttpConnectionPool)
    → get_connection is_connected now_ms none p ≡ (
      (picked is_connected now_ms p).1.0,
      record p {
        conns = (picked is_connected now_ms p).1.1;
        total = lower (length (picked is_connected now_ms p).0) p.total;
      },
    )
unfolding get_connection
from_pool is_connected now_ms p = elim (Option-cases (picked is_connected now_ms p).1.0) [
  | inl nothing ↦ rw (get_connection, nothing) refl
  | inr (c, found) ↦ rw (get_connection, found) refl
]

-- When a connection is passed over, and when it is taken.
abbrev pub IsBad : (ℕ → Bool) → ℕ → ℕ → HttpConnection → Type 0
IsBad is_connected now_ms max_alive_time c =
    (is_connected c.sock ≡ false) ⊎ (now_ms < (c.create_time + max_alive_time) % 2 ^ 64)

abbrev pub IsGood : (ℕ → Bool) → ℕ → ℕ → HttpConnection → Type 0
IsGood is_connected now_ms max_alive_time c =
    (is_connected c.sock ≡ true) × ((c.create_time + max_alive_time) % 2 ^ 64 ≤ now_ms)

discarded-IsBad :
    (is_connected : ℕ → Bool) (now_ms max_alive_time : ℕ) (c : HttpConnection)
    → is_discarded is_connected now_ms max_alive_time c ≡ true
    → IsBad is_connected now_ms max_alive_time c
unfolding is_discarded
discarded-IsBad is_connected now_ms max_alive_time c h = elim (Bool-cases (is_connected c.sock)) [
  | inr gone ↦ inl gone
  | inl there ↦ inr (ground arith)
]

taken-IsGood :
    (is_connected : ℕ → Bool) (now_ms max_alive_time : ℕ) (c : HttpConnection)
    → is_discarded is_connected now_ms max_alive_time c ≡ false
    → IsGood is_connected now_ms max_alive_time c
unfolding is_discarded
taken-IsGood is_connected now_ms max_alive_time c h = (ground arith, ground arith)

All-map :
    (P Q : HttpConnection → Type 0) (cs : List HttpConnection)
    → ((c : HttpConnection) → P c → Q c)
    → All P cs
    → All Q cs
All-map P Q [] f h = tt
All-map P Q (c ∷ cs) f h = (f c h.0, All-map P Q cs f h.1)

-- The pool is cut at the first connection that can be taken.
pub record Chosen (IsBad IsGood : HttpConnection → Type 0) (cs : List HttpConnection)
    (ptr : Option HttpConnection) (rest : List HttpConnection) : Type 0 where
  pub bad : List HttpConnection
  pub whole : cs ≡ bad ++ (taken ptr ++ rest)
  pub all_bad : All IsBad bad
  pub good : All IsGood (taken ptr)
  pub ended : ptr ≡ none → rest ≡ []

-- Without a new socket `getConnection` takes the first connection of the pool that is connected
-- and whose end time, the time of its creation and the longest life as uint64_t, is not after the
-- present. It discards those before it, which are not connected or end later, and keeps those behind
-- it; when there is none it returns a null pointer and the pool is empty.
pub get_connection-Chosen :
    (is_connected : ℕ → Bool) (now_ms : ℕ) (p : HttpConnectionPool)
    → Chosen
        (IsBad is_connected now_ms p.max_alive_time)
        (IsGood is_connected now_ms p.max_alive_time)
        p.conns
        (get_connection is_connected now_ms none p).0
        (get_connection is_connected now_ms none p).1.conns
unfolding picked
get_connection-Chosen is_connected now_ms p =
    let cut = pick-Cut (is_discarded is_connected now_ms p.max_alive_time) p.conns in
    rw (from_pool is_connected now_ms p) record {
      bad = (picked is_connected now_ms p).0;
      whole = cut.whole;
      all_bad = All-map _ _ _ (discarded-IsBad is_connected now_ms p.max_alive_time) cut.all_bad;
      good = All-map _ _ _ (taken-IsGood is_connected now_ms p.max_alive_time) cut.good;
      ended = cut.ended;
    }
