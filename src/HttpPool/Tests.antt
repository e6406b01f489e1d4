-- ===== src/HttpPool/Tests.antt =====
-- Runs of the connection pool of yuyu/http/http_connection.cc.
use yuyu.Common.{ℕ, refl, Bool, not, none, [], ◌∷◌, arith, ◌==◌}
use yuyu.HttpPool.{HttpConnection, HttpConnectionPool, get_connection}
use yuyu.HttpPool.Choice.{IsBad, IsGood, Chosen, get_connection-Chosen}
use yuyu.HttpPool.Counting.{Counts}

-- Only socket 4 is closed.
abbrev still_open : ℕ → Bool
still_open sock = not (sock == 4)

abbrev closed : HttpConnection
closed = record { sock = 4; create_time = 0; request = 2 }

abbrev usable : HttpConnection
usable = record { sock = 5; create_time = 0; request = 1 }

-- Two connections wait, and one is in use.
abbrev pool : HttpConnectionPool
pool = record { max_alive_time = 1000; max_request = 10; conns = closed ∷ usable ∷ []; total = 3 }

pool-Counts : Counts 1 pool
pool-Counts = record { total_lem = refl; bounded = omega arith }

get_connection_example :
    Chosen
      (IsBad still_open 5000 1000)
      (IsGood still_open 5000 1000)
      pool.conns
      (get_connection still_open 5000 none pool).0
      (get_connection still_open 5000 none pool).1.conns
get_connection_example = get_connection-Chosen still_open 5000 pool
