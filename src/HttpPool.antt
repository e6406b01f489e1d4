-- ===== src/HttpPool.antt =====
-- The connection pool of yuyu/http/http_connection.h and yuyu/http/http_connection.cc. A connection
-- is known by the number of its socket. The clock, `isConnected` and the outcome of opening a new
-- socket are arguments.
pub mod Counting
pub mod Choice
mod Tests
use yuyu.Common.{
  ℕ, ◌+◌, ◌-◌, ◌%◌, ◌^◌, Bool, not, ◌||◌, Option, none, some, List, [], ◌∷◌, ◌++◌, ltb, leb,
  if◌then◌else◌, length,
}

pub record HttpConnection : Type 0 where
  pub sock : ℕ
  pub create_time : ℕ
  pub request : ℕ

pub record HttpConnectionPool : Type 0 where
  pub max_alive_time : ℕ
  pub max_request : ℕ
  pub conns : List HttpConnection
  pub total : ℕ

-- `m_createTime + m_maxAliveTime` on `uint64_t`.
abbrev pub end_time : HttpConnection → ℕ → ℕ
end_time c max_alive_time = (c.create_time + max_alive_time) % 2 ^ 64

-- `m_total -= n` on 32 bits.
abbrev pub lower : ℕ → ℕ → ℕ
lower n total = (total + (2 ^ 32 - n % 2 ^ 32)) % 2 ^ 32

abbrev pub raise : ℕ → ℕ
raise total = (total + 1) % 2 ^ 32

-- Whether the loop of `getConnection` discards a connection.
unfoldable pub is_discarded : (ℕ → Bool) → ℕ → ℕ → HttpConnection → Bool
is_discarded is_connected now_ms max_alive_time c =
    not (is_connected c.sock) || ltb now_ms (end_time c max_alive_time)

-- The loop: the discarded connections, the one that is taken, and those that stay.
pub pick :
    (HttpConnection → Bool)
    → List HttpConnection
    → List HttpConnection × (Option HttpConnection × List HttpConnection)
pick discarded [] = ([], (none, []))
pick discarded (c ∷ cs) =
    let (bad, later) = pick discarded cs in
    if discarded c then (c ∷ bad, later) else ([], (some c, cs))

unfoldable pub picked :
    (ℕ → Bool)
    → ℕ
    → HttpConnectionPool
    → List HttpConnection × (Option HttpConnection × List HttpConnection)
picked is_connected now_ms p = pick (is_discarded is_connected now_ms p.max_alive_time) p.conns

-- `getConnection`; `opened` is the socket that is looked up, made and connected where the pool has
-- no connection to give, or `none` where that fails.
unfoldable pub get_connection :
    (ℕ → Bool) → ℕ → Option ℕ → HttpConnectionPool → Option HttpConnection × HttpConnectionPool
get_connection is_connected now_ms opened p =
    let (invalid_conns, (ptr, rest)) = picked is_connected now_ms p in
    let p' = record p { conns = rest; total = lower (length invalid_conns) p.total } in
    elim ptr [
      | some c ↦ (some c, p')
      | none ↦ elim opened [
        | none ↦ (none, p')
        | some sock ↦ (
          some (record { sock = sock; create_time = 0; request = 0 }),
          record p' { total = raise p'.total },
        )
      ]
    ]

unfoldable pub release_ptr :
    (ℕ → Bool) → ℕ → HttpConnection → HttpConnectionPool → HttpConnectionPool
release_ptr is_connected now_ms ptr p =
    let c = record ptr { request = (ptr.request + 1) % 2 ^ 64 } in
    if not (is_connected c.sock)
      || (leb now_ms (end_time c p.max_alive_time) || leb p.max_request c.request)
    then record p { total = lower 1 p.total }
    else record p { conns = p.conns ++ (c ∷ []) }
