-- ===== src/Pool/Steps.antt =====
-- All that can happen to a pool: its owner resizes it and takes connections, spawned tasks add and
-- remove new ones, and requests in flight return their connection or lose it.
use overload.Common.{
  ℕ, zero, suc, ◌+◌, ◌≤◌, ◌≡◌, refl, Bool, true, false, ◌||◌, List, [], ◌∷◌, ◌++◌, length, map,
  take, drop, All, if◌then◌else◌, arith,
}
use overload.Common.Int.{pos, ltb_ℤ}
use overload.Http.{ConnectionKeepAlive}
use overload.Pool.{
  HttpConnection, QueuePool, Popped, Resize, new, open_connection, set_connection_count,
  add_new_connection, resize_connection_pool, pop_ready, get_connections, return_connection,
}

module _ (Handle : Type 0) where
  -- The pool, and the connections that are given out.
  pub record World : Type 0 where
    pub pool : QueuePool Handle
    pub in_flight : List (HttpConnection Handle)

  pub data Step : World → World → Type 0 where
    set_count :
        (count : ℕ) (w : World) → Step w (record w { pool = (set_connection_count count w.pool).0 })
    resized :
        (now : ℕ) (opened : List Handle) (resize : Resize) (w : World)
        → Step w (record w { pool = resize_connection_pool now opened resize w.pool })
    added :
        (now count : ℕ) (opened : List Handle) (w : World)
        → Step w (record w { pool = add_new_connection now count opened w.pool })
    taken :
        (ready : ℕ → Bool) (request : ℕ) (w : World)
        → Step w (record {
          pool = (get_connections ready request w.pool).1;
          in_flight = (get_connections ready request w.pool).0 ++ w.in_flight;
        })
    returned :
        (now : ℕ) (before after : List (HttpConnection Handle)) (c : HttpConnection Handle)
        (pool : QueuePool Handle)
        → Step
            (record { pool = pool; in_flight = before ++ c ∷ after })
            (record { pool = return_connection now c pool; in_flight = before ++ after })
    lost :
        (before after : List (HttpConnection Handle)) (c : HttpConnection Handle)
        (pool : QueuePool Handle)
        → Step
            (record { pool = pool; in_flight = before ++ c ∷ after })
            (record { pool = pool; in_flight = before ++ after })

  -- The worlds that a new pool can come to.
  pub data IsReachable (keep_alive : ConnectionKeepAlive) (elastic : Bool) : World → Type 0 where
    begin :
        IsReachable keep_alive elastic (record { pool = new keep_alive elastic; in_flight = [] })
    next :
        (w w' : World)
        → IsReachable keep_alive elastic w
        → Step w w'
        → IsReachable keep_alive elastic w'

  -- A connection that may serve a request more, and one that may or will be dropped.
  abbrev pub IsUsable : HttpConnection Handle → Type 0
  IsUsable c = (c.should_drop ≡ false) × (ltb_ℤ (pos 0) c.remaining_reuse ≡ true)

  abbrev pub IsKept : HttpConnection Handle → Type 0
  IsKept c = (c.should_drop || ltb_ℤ (pos 0) c.remaining_reuse) ≡ true

  -- Every connection in flight or returned is counted as busy, and is fit for its place.
  pub record IsSound (w : World) : Type 0 where
    pub counted :
        length w.in_flight + length w.pool.recyclable_connections ≤ w.pool.busy_connections
    pub allowed : 1 ≤ w.pool.keep_alive.max_request_per_connection
    pub usable : All IsUsable w.in_flight
    pub kept : All IsKept w.pool.connections
    pub kept_recyclable : All IsKept w.pool.recyclable_connections
    pub kept_new : All IsKept w.pool.new_connections

  pub All-take :
      (n : ℕ) (xs : List (HttpConnection Handle)) → All IsKept xs → All IsKept (take n xs)
  All-take zero xs h = tt
  All-take (suc n) [] h = tt
  All-take (suc n) (x ∷ xs) (h, hs) = (h, All-take n xs hs)

  pub All-drop :
      (n : ℕ) (xs : List (HttpConnection Handle)) → All IsKept xs → All IsKept (drop n xs)
  All-drop zero xs h = h
  All-drop (suc n) [] h = tt
  All-drop (suc n) (x ∷ xs) (h, hs) = All-drop n xs hs

  pub All-without :
      (before after : List (HttpConnection Handle)) (c : HttpConnection Handle)
      → All IsUsable (before ++ c ∷ after)
      → IsUsable c × All IsUsable (before ++ after)
  All-without [] after c h = h
  All-without (b ∷ before) after c (h, hs) =
      let (hc, rest) = All-without before after c hs in (hc, (h, rest))

  pub opened-IsKept :
      (now : ℕ) (keep_alive : ConnectionKeepAlive) (opened : List Handle)
      → 1 ≤ keep_alive.max_request_per_connection
      → All IsKept (map (open_connection now keep_alive) opened)
  unfolding open_connection
  opened-IsKept now keep_alive [] h = tt
  opened-IsKept now keep_alive (o ∷ opened) h =
      (ground arith, opened-IsKept now keep_alive opened h)

  -- What is popped: usable connections, no more than requested, and the rest.
  pub record PopsWell (request : ℕ) (p : Popped Handle) : Type 0 where
    pub usable : All IsUsable p.given
    pub kept : All IsKept p.rest
    pub few : length p.given ≤ request

  PopsWell-if :
      {request : ℕ} {p q : Popped Handle} (b : Bool)
      → (b ≡ true → PopsWell request p)
      → (b ≡ false → PopsWell request q)
      → PopsWell request (if b then p else q)
  PopsWell-if true f g = f refl
  PopsWell-if false f g = g refl

  pub pop_ready-PopsWell :
      (ready : ℕ → Bool) (request : ℕ) (xs : List (HttpConnection Handle))
      → All IsKept xs
      → PopsWell request (pop_ready ready request xs)
  unfolding pop_ready
  pop_ready-PopsWell ready zero xs h = record { usable = tt; kept = h; few = omega arith }
  pop_ready-PopsWell ready (suc n) [] h = record { usable = tt; kept = tt; few = omega arith }
  pop_ready-PopsWell ready (suc n) (x ∷ xs) (h, hs) =
      let ih = pop_ready-PopsWell ready n xs hs in
      PopsWell-if x.should_drop
        (λ marked. record { usable = ih.usable; kept = ih.kept; few = omega (arith, ih.few) })
        (λ unmarked.
          PopsWell-if (ready n)
            (λ is_ready. record {
              usable = ((unmarked, ground arith), ih.usable);
              kept = ih.kept;
              few = omega (arith, ih.few);
            })
            (λ broken. record { usable = ih.usable; kept = ih.kept; few = omega (arith, ih.few) }))
