-- ===== src/Pool/Sound.antt =====
-- Every step of a pool keeps it sound.
use overload.Common.{
  ℕ, ◌+◌, ◌-◌, ◌≤◌, ◌≡◌, refl, Bool, true, false, not, ◌||◌, List, [], ◌∷◌, ◌++◌, length,
  length-append, take, All, All-append, ltb, ◌==◌, if◌then◌else◌, arith,
}
use overload.Common.Int.{pos, ltb_ℤ, ◌-ℤ◌}
use overload.Http.{ConnectionKeepAlive}
use overload.Pool.{
  HttpConnection, QueuePool, grow, shrink, new, set_connection_count, resize_conn_container,
  add_new_connection, resize_connection_pool, pop_ready, claim_all, enforce_size, get_connections,
  return_connection,
}
use overload.Pool.Steps.{
  World, Step, set_count, resized, added, taken, returned, lost, IsReachable, begin, next, IsUsable,
  IsKept, IsSound, All-take, All-drop, All-without, opened-IsKept, pop_ready-PopsWell,
}

module _ (Handle : Type 0) where
  claim_all-IsSound :
      (w : World Handle) → IsSound Handle w → IsSound Handle (record w { pool = claim_all w.pool })
  unfolding claim_all
  claim_all-IsSound w s = record {
    counted = ground (arith, s.counted);
    allowed = s.allowed;
    usable = s.usable;
    kept =
        All-append (IsKept Handle) (w.pool.connections ++ w.pool.recyclable_connections)
          w.pool.new_connections
          (All-append (IsKept Handle) w.pool.connections w.pool.recyclable_connections s.kept
            s.kept_recyclable)
          s.kept_new;
    kept_recyclable = tt;
    kept_new = tt;
  }

  IsSound-if :
      {in_flight : List (HttpConnection Handle)} {p q : QueuePool Handle} (b : Bool)
      → IsSound Handle (record { pool = p; in_flight = in_flight })
      → IsSound Handle (record { pool = q; in_flight = in_flight })
      → IsSound Handle (record { pool = if b then p else q; in_flight = in_flight })
  IsSound-if true f g = f
  IsSound-if false f g = g

  add-IsSound :
      (now count : ℕ) (opened : List Handle) (w : World Handle)
      → IsSound Handle w
      → IsSound Handle (record w { pool = add_new_connection now count opened w.pool })
  unfolding add_new_connection
  add-IsSound now count opened w s = record {
    counted = s.counted;
    allowed = s.allowed;
    usable = s.usable;
    kept = s.kept;
    kept_recyclable = s.kept_recyclable;
    kept_new =
        All-append (IsKept Handle) w.pool.new_connections _ s.kept_new
          (opened-IsKept Handle now w.pool.keep_alive opened s.allowed);
  }

  shrink-IsSound :
      (diff : ℕ) (w : World Handle)
      → IsSound Handle w
      → IsSound Handle (record w {
        pool = record w.pool {
          new_connections = resize_conn_container w.pool.new_connections diff;
        };
      })
  unfolding resize_conn_container
  shrink-IsSound diff w s = record {
    counted = s.counted;
    allowed = s.allowed;
    usable = s.usable;
    kept = s.kept;
    kept_recyclable = s.kept_recyclable;
    kept_new = go (ltb (length w.pool.new_connections) diff);
  }
    where
      go :
          (b : Bool)
          → All
              (IsKept Handle)
              (if b then [] else take (length w.pool.new_connections - diff) w.pool.new_connections)
      go true = tt
      go false = All-take Handle _ w.pool.new_connections s.kept_new

  enforce_size-IsSound :
      (w : World Handle)
      → IsSound Handle w
      → IsSound Handle (record w { pool = enforce_size w.pool })
  unfolding enforce_size
  enforce_size-IsSound w s =
      IsSound-if (ltb w.pool.max_connection (length w.pool.connections + w.pool.busy_connections))
        (record {
          counted = s.counted;
          allowed = s.allowed;
          usable = s.usable;
          kept = All-take Handle _ w.pool.connections s.kept;
          kept_recyclable = s.kept_recyclable;
          kept_new = s.kept_new;
        })
        s

  get_connections-IsSound :
      (ready : ℕ → Bool) (request : ℕ) (w : World Handle)
      → IsSound Handle w
      → IsSound Handle (record {
        pool = (get_connections ready request w.pool).1;
        in_flight = (get_connections ready request w.pool).0 ++ w.in_flight;
      })
  unfolding get_connections
  get_connections-IsSound ready request w s =
      let claimed = record w { pool = claim_all w.pool } in
      let c = claim_all-IsSound w s in
      let sized : World Handle = record w {
        pool = if claimed.pool.elastic then claimed.pool else enforce_size claimed.pool;
      } in
      let z : IsSound Handle sized =
        IsSound-if claimed.pool.elastic c (enforce_size-IsSound claimed c) in
      let popped = pop_ready ready request sized.pool.connections in
      let p = pop_ready-PopsWell Handle ready request sized.pool.connections z.kept in
      record {
        counted = omega (arith, z.counted, length-append popped.given w.in_flight);
        allowed = z.allowed;
        usable = All-append (IsUsable Handle) popped.given w.in_flight p.usable s.usable;
        kept = p.kept;
        kept_recyclable = z.kept_recyclable;
        kept_new = z.kept_new;
      }

  return_connection-IsKept :
      (now : ℕ) (c : HttpConnection Handle)
      → IsUsable Handle c
      → ((if ltb c.expire_at now || not (ltb_ℤ (pos 1) c.remaining_reuse)
            then true
            else c.should_drop)
          || ltb_ℤ (pos 0) (c.remaining_reuse -ℤ pos 1))
        ≡ true
  unfolding ◌-ℤ◌
  return_connection-IsKept now c u = ground (arith, u)

  length-return_connection :
      (now : ℕ) (c : HttpConnection Handle) (pool : QueuePool Handle)
      → (length (return_connection now c pool).recyclable_connections
          ≡ length pool.recyclable_connections + 1)
        × ((return_connection now c pool).busy_connections ≡ pool.busy_connections)
  unfolding return_connection
  length-return_connection now c pool = (length-append pool.recyclable_connections _, refl)

  pub Step-IsSound : (w w' : World Handle) → Step Handle w w' → IsSound Handle w → IsSound Handle w'
  unfolding set_connection_count resize_connection_pool return_connection
  Step-IsSound _ _ (set_count count w) s = record {
    counted = s.counted;
    allowed = s.allowed;
    usable = s.usable;
    kept = All-drop Handle _ w.pool.connections s.kept;
    kept_recyclable = s.kept_recyclable;
    kept_new = s.kept_new;
  }
  Step-IsSound _ _ (resized now opened (grow diff) w) s =
      IsSound-if (diff == 0) s (add-IsSound now diff opened w s)
  Step-IsSound _ _ (resized now opened (shrink diff) w) s =
      IsSound-if (diff == 0) s (shrink-IsSound diff w s)
  Step-IsSound _ _ (added now count opened w) s = add-IsSound now count opened w s
  Step-IsSound _ _ (taken ready request w) s = get_connections-IsSound ready request w s
  Step-IsSound _ _ (returned now before after c pool) s =
      let (u, rest) = All-without Handle before after c s.usable in
      record {
        counted = omega (
          arith,
          s.counted,
          length-append before (c ∷ after),
          length-append before after,
          length-return_connection now c pool,
        );
        allowed = s.allowed;
        usable = rest;
        kept = s.kept;
        kept_recyclable =
            All-append (IsKept Handle) pool.recyclable_connections _ s.kept_recyclable
              (return_connection-IsKept now c u, tt);
        kept_new = s.kept_new;
      }
  Step-IsSound _ _ (lost before after c pool) s =
      let (_, rest) = All-without Handle before after c s.usable in
      record {
        counted =
            omega (arith, s.counted, length-append before (c ∷ after), length-append before after);
        allowed = s.allowed;
        usable = rest;
        kept = s.kept;
        kept_recyclable = s.kept_recyclable;
        kept_new = s.kept_new;
      }

  -- Whatever happens to a pool, in whatever order: every connection in flight or returned is counted
  -- as busy, so that the count of busy connections never wraps when the returned ones are claimed;
  -- a connection that is given out is not marked to be dropped, and has a use left of those that the
  -- keep-alive allows.
  pub IsReachable-IsSound :
      (keep_alive : ConnectionKeepAlive) (elastic : Bool) (w : World Handle)
      → 1 ≤ keep_alive.max_request_per_connection
      → IsReachable Handle keep_alive elastic w
      → IsSound Handle w
  unfolding new
  IsReachable-IsSound keep_alive elastic _ h begin = record {
    counted = omega arith;
    allowed = h;
    usable = tt;
    kept = tt;
    kept_recyclable = tt;
    kept_new = tt;
  }
  IsReachable-IsSound keep_alive elastic _ h (next w w' r step) =
      Step-IsSound w w' step (IsReachable-IsSound keep_alive elastic w h r)
