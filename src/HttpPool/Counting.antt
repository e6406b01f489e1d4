-- ===== src/HttpPool/Counting.antt =====
-- The count of the connections in yuyu/http/http_connection.cc.
use yuyu.Common.{
  ℕ, ◌+◌, ◌-◌, ◌%◌, ◌^◌, ◌≤◌, ◌<◌, ◌≡◌, ap, ◌∙◌, inl, inr, Bool, not, ◌||◌, Option, [], ◌∷◌, ◌++◌,
  arith, leb, Bool-cases, Option-cases, length, length-append,
}
use yuyu.HttpPool.{
  end_time, is_discarded, HttpConnection, HttpConnectionPool, lower, raise, picked, get_connection,
  release_ptr,
}
use yuyu.HttpPool.Choice.{taken, pick-Cut}

-- `m_total` counts the connections of the pool and the `lent` ones that are in use.
pub record Counts (lent : ℕ) (p : HttpConnectionPool) : Type 0 where
  pub total_lem : p.total ≡ length p.conns + lent
  pub bounded : p.total + 1 < 2 ^ 31

lower_lem : (n total : ℕ) → n ≤ total → total < 2 ^ 31 → lower n total ≡ total - n
lower_lem n total h b = omega arith

raise_lem : (total : ℕ) → total + 1 < 2 ^ 31 → raise total ≡ total + 1
raise_lem total b = omega arith

-- The pool behind the loop, with the connection that it took.
picked-Counts :
    (is_connected : ℕ → Bool) (now_ms lent : ℕ) (p : HttpConnectionPool)
    → Counts lent p
    → (lower (length (picked is_connected now_ms p).0) p.total
        ≡ length (picked is_connected now_ms p).1.1
          + (length (taken (picked is_connected now_ms p).1.0) + lent))
      × (lower (length (picked is_connected now_ms p).0) p.total ≤ p.total)
unfolding picked
picked-Counts is_connected now_ms lent p c =
    let cut = pick-Cut (is_discarded is_connected now_ms p.max_alive_time) p.conns in
    let (bad, (ptr, rest)) = picked is_connected now_ms p in
    let size = ap length cut.whole ∙ length-append bad (taken ptr ++ rest) in
    let parts = length-append (taken ptr) rest in
    let count =
      lower_lem (length bad) p.total (omega (arith, size, c.total_lem))
        (omega (arith, c.bounded)) in
    (omega (arith, count, size, parts, c.total_lem), omega (arith, count))

-- When the pool counts right, it counts right behind `getConnection` with the connection that it
-- returns in use as well, if it returns one, and the count rises by one at most.
pub get_connection-Counts :
    (is_connected : ℕ → Bool) (now_ms lent : ℕ) (opened : Option ℕ) (p : HttpConnectionPool)
    → Counts lent p
    → ((get_connection is_connected now_ms opened p).1.total
        ≡ length (get_connection is_connected now_ms opened p).1.conns
          + (length (taken (get_connection is_connected now_ms opened p).0) + lent))
      × ((get_connection is_connected now_ms opened p).1.total ≤ p.total + 1)
unfolding get_connection
get_connection-Counts is_connected now_ms lent opened p c =
    let (count, less) = picked-Counts is_connected now_ms lent p c in
    elim (Option-cases (picked is_connected now_ms p).1.0) [
      | inl nothing ↦
          let zero_taken = ap (λ o. length (taken o)) nothing in
          elim (Option-cases opened) [
            | inl closed ↦
                rw (get_connection, nothing, closed)
                  (omega (arith, count, zero_taken), omega (arith, less))
            | inr (sock, open_sock) ↦
                let up =
                  raise_lem (lower (length (picked is_connected now_ms p).0) p.total)
                    (omega (arith, less, c.bounded)) in
                rw (get_connection, nothing, open_sock)
                  (omega (arith, count, zero_taken, up), omega (arith, less, up))
          ]
      | inr (conn, found) ↦
          let one_taken = ap (λ o. length (taken o)) found in
          rw (get_connection, found) (omega (arith, count, one_taken), omega (arith, less))
    ]

-- When the pool counts right with some connection in use, it counts right behind `ReleasePtr` with
-- one less.
pub release_ptr-Counts :
    (is_connected : ℕ → Bool) (now_ms lent : ℕ) (ptr : HttpConnection) (p : HttpConnectionPool)
    → Counts (lent + 1) p
    → Counts lent (release_ptr is_connected now_ms ptr p)
unfolding release_ptr
release_ptr-Counts is_connected now_ms lent ptr p c =
    let conn = record ptr { request = (ptr.request + 1) % 2 ^ 64 } in
    let drop_it : Bool =
      not (is_connected conn.sock)
      || (leb now_ms (end_time conn p.max_alive_time) || leb p.max_request conn.request) in
    let down = lower_lem 1 p.total (omega (arith, c.total_lem)) (omega (arith, c.bounded)) in
    elim (Bool-cases drop_it) [
      | inl dropped ↦ rw dropped (record {
        total_lem = omega (arith, down, c.total_lem);
        bounded = omega (arith, down, c.bounded);
      })
      | inr kept ↦ rw kept (record {
        total_lem = omega (arith, length-append p.conns (conn ∷ []), c.total_lem);
        bounded = c.bounded;
      })
    ]
