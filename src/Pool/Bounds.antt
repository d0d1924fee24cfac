-- ===== src/Pool/Bounds.antt =====
-- How many connections a pool that is not elastic gives out.
use overload.Common.{
  ℕ, zero, suc, ◌+◌, ◌-◌, ◌≤◌, ◌≡◌, refl, sym, subst, max, Bool, true, false, List, [], ◌∷◌, length,
  length-take, ltb, if◌then◌else◌, ◌⊎◌, ◌∙◌, arith, Bool-cases, inl, inr,
}
use overload.Pool.{HttpConnection, QueuePool, pop_ready, claim_all, enforce_size, get_connections}

module _ (Handle : Type 0) where
  -- What is popped or left was there, and no more than requested is popped.
  length-pop_ready :
      (ready : ℕ → Bool) (request : ℕ) (xs : List (HttpConnection Handle))
      → (length (pop_ready ready request xs).given ≤ request)
        × (length (pop_ready ready request xs).given + length (pop_ready ready request xs).rest
            ≤ length xs)
  unfolding pop_ready
  length-pop_ready ready zero xs = (omega arith, omega arith)
  length-pop_ready ready (suc n) [] = (omega arith, omega arith)
  length-pop_ready ready (suc n) (x ∷ xs) =
      let (few, there) = length-pop_ready ready n xs in go x.should_drop (ready n) few there
    where
      go :
          (marked is_ready : Bool)
          → let p = pop_ready ready n xs in
            let q =
              if marked
              then record p { dropped = p.dropped + 1 }
              else (if is_ready
                  then record p { given = x ∷ p.given }
                  else record p { broken = p.broken + 1 }) in
            length p.given ≤ n
            → length p.given + length p.rest ≤ length xs
            → (length q.given ≤ suc n) × (length q.given + length q.rest ≤ suc (length xs))
      go true is_ready few there = (omega arith, omega arith)
      go false true few there = (omega arith, omega arith)
      go false false few there = (omega arith, omega arith)

  same-claim_all :
      (pool : QueuePool Handle)
      → ((claim_all pool).elastic ≡ pool.elastic)
        × ((claim_all pool).max_connection ≡ pool.max_connection)
  unfolding claim_all
  same-claim_all pool = (refl, refl)

  busy-claim_all :
      (pool : QueuePool Handle)
      → length pool.recyclable_connections ≤ pool.busy_connections
      → (claim_all pool).busy_connections
        ≡ pool.busy_connections - length pool.recyclable_connections
  unfolding claim_all
  busy-claim_all pool h = ground arith

  length-enforce_size :
      (pool : QueuePool Handle)
      → (length (enforce_size pool).connections + pool.busy_connections
          ≤ max pool.busy_connections pool.max_connection)
        × ((enforce_size pool).busy_connections ≡ pool.busy_connections)
  unfolding enforce_size
  length-enforce_size pool = go (Bool-cases _)
    where
      available : ℕ
      available = length pool.connections

      left : ℕ
      left = available - (available + pool.busy_connections - pool.max_connection)

      go :
          (ltb pool.max_connection (available + pool.busy_connections) ≡ true)
            ⊎ (ltb pool.max_connection (available + pool.busy_connections) ≡ false)
          → (length (enforce_size pool).connections + pool.busy_connections
              ≤ max pool.busy_connections pool.max_connection)
            × ((enforce_size pool).busy_connections ≡ pool.busy_connections)
      go (inl over) = rw over (ground (arith, length-take left pool.connections), refl)
      go (inr within) = rw within (ground arith, refl)

  -- What is given out of a pool that is already `sized`.
  abbrev Given : (ℕ → Bool) → ℕ → QueuePool Handle → QueuePool Handle → Type 0
  Given ready request pool sized =
      let still_busy = pool.busy_connections - length pool.recyclable_connections in
      let popped = pop_ready ready request sized.connections in
      (length popped.given ≤ request)
      × (sized.busy_connections + length popped.given ≡ still_busy + length popped.given)
      × (length popped.rest + (sized.busy_connections + length popped.given)
          ≤ max still_busy pool.max_connection)

  -- A pool that is not elastic gives out no more connections than requested; it counts those it
  -- gave out as busy, after those that came back; and then its busy and its available connections
  -- are together no more than its size, or than those that stayed busy if they alone are more.
  pub get_connections-bounded :
      (ready : ℕ → Bool) (request : ℕ) (pool : QueuePool Handle)
      → length pool.recyclable_connections ≤ pool.busy_connections
      → pool.elastic ≡ false
      → let still_busy = pool.busy_connections - length pool.recyclable_connections in
        let given = (get_connections ready request pool).0 in
        let after = (get_connections ready request pool).1 in
        (length given ≤ request)
        × (after.busy_connections ≡ still_busy + length given)
        × (length after.connections + after.busy_connections ≤ max still_busy pool.max_connection)
  unfolding get_connections
  get_connections-bounded ready request pool h fixed =
      let claimed = claim_all pool in
      let sized = enforce_size claimed in
      let (few, there) = length-pop_ready ready request sized.connections in
      let (bound, same) = length-enforce_size claimed in
      let busy = busy-claim_all pool h in
      let (elastic, size) = same-claim_all pool in
      subst (λ b. Given ready request pool (if b then claimed else sized)) (sym (elastic ∙ fixed))
        (few, omega (arith, same, busy), omega (arith, there, bound, same, busy, size))

  -- Any pool gives out no more connections than requested.
  pub few-get_connections :
      (ready : ℕ → Bool) (request : ℕ) (pool : QueuePool Handle)
      → length (get_connections ready request pool).0 ≤ request
  unfolding get_connections
  few-get_connections ready request pool =
      let claimed = claim_all pool in
      (length-pop_ready ready request
        (if claimed.elastic then claimed else enforce_size claimed).connections).0
