-- ===== src/Pool/Tests.antt =====
-- A pool of two connections, of which one is in flight.
use overload.Common.{ℕ, ◌+◌, ◌++◌, ◌≤◌, ◌≡◌, refl, true, false, [], ◌∷◌, length, arith}
use overload.Common.Int.{pos}
use overload.Http.{ConnectionKeepAlive}
use overload.Pool.{
  HttpConnection, QueuePool, new, get_connections, pop_ready, claim_all, enforce_size,
  add_new_connection,
}
use overload.Pool.Bounds.{get_connections-bounded}
use overload.Pool.Steps.{World, IsReachable, begin, next, added, taken, IsSound}
use overload.Pool.Sound.{IsReachable-IsSound}

abbrev keep_alive : ConnectionKeepAlive
keep_alive = record { ttl = 1000; max_request_per_connection = 10 }

abbrev connection : ℕ → HttpConnection ℕ
connection n = record {
  request_handle = n;
  should_drop = false;
  expire_at = 1000;
  remaining_reuse = pos 3;
}

abbrev pool : QueuePool ℕ
pool = record {
  max_connection = 2;
  connections = connection 1 ∷ connection 2 ∷ [];
  recyclable_connections = [];
  new_connections = connection 3 ∷ [];
  busy_connections = 1;
  elastic = false;
  keep_alive = keep_alive;
  failed_connection = 0;
}

-- Two of the four connections are too many, and one may be given out.
one_given : (get_connections (λ n. true) 5 pool).0 ≡ connection 1 ∷ []
unfolding get_connections pop_ready claim_all enforce_size
one_given = refl

get_connections-bounded_example :
    (length (get_connections (λ n. true) 5 pool).0 ≤ 5)
    × ((get_connections (λ n. true) 5 pool).1.busy_connections
        ≡ 1 + length (get_connections (λ n. true) 5 pool).0)
    × (length (get_connections (λ n. true) 5 pool).1.connections
          + (get_connections (λ n. true) 5 pool).1.busy_connections
        ≤ 2)
get_connections-bounded_example = get_connections-bounded ℕ (λ n. true) 5 pool (omega arith) refl

-- Two connections are opened at time 0, and then three are asked for.
abbrev opened : World ℕ
opened = record { pool = add_new_connection 0 2 (7 ∷ 8 ∷ []) (new keep_alive true); in_flight = [] }

given : IsReachable ℕ keep_alive true (record {
  pool = (get_connections (λ n. true) 3 opened.pool).1;
  in_flight = (get_connections (λ n. true) 3 opened.pool).0 ++ [];
})
given = next _ _ (next _ _ begin (added 0 2 (7 ∷ 8 ∷ []) _)) (taken (λ n. true) 3 opened)

IsReachable-IsSound_example : IsSound ℕ (record {
  pool = (get_connections (λ n. true) 3 opened.pool).1;
  in_flight = (get_connections (λ n. true) 3 opened.pool).0 ++ [];
})
IsReachable-IsSound_example = IsReachable-IsSound ℕ keep_alive true _ (omega arith) given
