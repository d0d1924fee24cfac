-- ===== src/Executor/Sending.antt =====
-- The requests of one second: how many are sent, and that the loop ends.
pub mod Loop
use overload.Common.{
  ℕ, zero, suc, ◌+◌, ◌-◌, ◌*◌, ◌%◌, ◌≤◌, ◌<◌, ◌≡◌, refl, sym, ap, subst, ◌∙◌, min, Bool, true,
  false, List, [], ◌∷◌, ◌++◌, length, map, sum, All, All-append, Option, some, ltb, ◌==◌,
  if◌then◌else◌, ◌>>=◌, ◌⊎◌, inl, inr, Bool-cases, arith,
}
use overload.Executor.Cycle.{
  Batch, Cycle, End, time_up, all_sent, no_request, Next, again, done, Clock, is_late, fill_up,
  spawned, next_round, spawn, send_batch_v2, send_batch, round, continue, rounds,
}
use overload.Executor.Filling.{fill}
use overload.Executor.Filling.Repeats.{fill-repeats}
use overload.Http.{HttpReq}
use overload.Pool.{HttpConnection, QueuePool, get_connections}
use overload.Pool.Bounds.{few-get_connections}
use overload.RateSpec.{u32_mod}
use overload.Providers.{Outcome, ok, failed, panicked, endless}

-- The requests that were sent: one on each connection.
abbrev pub sent : {Handle : Type 0} → List (Batch Handle) → ℕ
sent batches = sum (map (λ b. length b.connections) batches)

-- A batch of at most `bundle` requests, with a request for each connection.
pub record IsBatch {Handle : Type 0} (bundle : ℕ) (b : Batch Handle) : Type 0 where
  pub some_sent : 1 ≤ length b.connections
  pub within : length b.connections ≤ bundle
  pub served : length b.connections ≤ length b.requests

fill_up-total :
    (n : ℕ) (requests : List HttpReq)
    → 1 ≤ length requests
    → (filled : List HttpReq) × (fill_up n requests ≡ some filled) × (n ≤ length filled)
unfolding fill_up
fill_up-total n requests h = elim (Bool-cases (ltb (length requests) n)) [
  | inl fewer ↦
      let (filled, ends, size, first, repeated) = fill-repeats n requests h (ground arith) in
      (
        filled,
        ap (λ b. if b then fill (2 * n + 1) n (length requests) requests else some requests) fewer
            ∙ ends,
        omega (arith, size),
      )
  | inr enough ↦ (
    requests,
    ap (λ b. if b then fill (2 * n + 1) n (length requests) requests else some requests) enough,
    ground arith,
  )
]

sent-append :
    {Handle : Type 0} (batches : List (Batch Handle)) (b : Batch Handle)
    → sent (batches ++ b ∷ []) ≡ sent batches + length b.connections
sent-append [] b = omega arith
sent-append (a ∷ batches) b = omega (arith, sent-append batches b)

module _ {Handle Spec : Type 0} where
  -- What was sent and what is left are the requests of the second.
  pub record IsCycle (bundle qps : ℕ) (s : Cycle Handle Spec) : Type 0 where
    pub total : sent s.batches + s.total_remaining_qps ≡ qps
    pub batches : All (IsBatch bundle) s.batches

  -- What holds after a round, by what comes next.
  abbrev pub Leaves : Next → Cycle Handle Spec → Type 0
  Leaves again s = 1 ≤ s.total_remaining_qps
  Leaves (done all_sent) s = s.total_remaining_qps ≡ 0
  Leaves (done time_up) s = Unit
  Leaves (done no_request) s = Unit

  pub record Rounds (bundle qps : ℕ) (found : Option (Next × Cycle Handle Spec)) : Type 0 where
    pub next : Next
    pub after : Cycle Handle Spec
    pub ends : found ≡ some (next, after)
    pub cycle : IsCycle bundle qps after
    pub leaves : Leaves next after

  Leaves-next_round :
      (clock : Clock Handle) (i : ℕ) (s : Cycle Handle Spec) → Leaves (next_round clock i s) s
  unfolding next_round
  Leaves-next_round clock i s =
      go (is_late clock (2 * i + 2)) (Bool-cases (s.total_remaining_qps == 0))
    where
      go :
          (late : Bool)
          → ((s.total_remaining_qps == 0) ≡ true) ⊎ ((s.total_remaining_qps == 0) ≡ false)
          → Leaves
              (if late
                then done time_up
                else (if s.total_remaining_qps == 0 then done all_sent else again))
              s
      go true h = tt
      go false (inl h) =
          subst (λ b. Leaves (if b then done all_sent else again) s) (sym h) (ground arith)
      go false (inr h) =
          subst (λ b. Leaves (if b then done all_sent else again) s) (sym h) (ground arith)

  spawned-IsCycle :
      (bundle qps : ℕ) (connections : List (HttpConnection Handle)) (s : Cycle Handle Spec)
      (requests : List HttpReq)
      → IsCycle bundle qps s
      → qps < u32_mod
      → 1 ≤ length connections
      → length connections ≤ bundle
      → length connections ≤ s.total_remaining_qps
      → length connections ≤ length requests
      → IsCycle bundle qps (spawned connections s requests)
  unfolding spawned
  spawned-IsCycle bundle qps connections s requests c fits some_given within enough served =
      let batch : Batch Handle = record { requests = requests; connections = connections } in
      let left : (s.total_remaining_qps + u32_mod - length connections) % u32_mod
          ≡ s.total_remaining_qps - length connections =
        omega (arith, c.total) in
      record {
        total = omega (arith, c.total, left, sent-append s.batches batch);
        batches =
            All-append (IsBatch bundle) s.batches (batch ∷ []) c.batches
              (record { some_sent = some_given; within = within; served = served }, tt);
      }

  -- Connections that a round has, and what the provider answers for them.
  pub record IsTaken (bundle : ℕ) (connections : List (HttpConnection Handle))
      (s : Cycle Handle Spec) : Type 0 where
    pub some_given : 1 ≤ length connections
    pub within : length connections ≤ bundle
    pub enough : length connections ≤ s.total_remaining_qps

  pub filled-Rounds :
      (clock : Clock Handle) (bundle qps i : ℕ) (connections : List (HttpConnection Handle))
      (s : Cycle Handle Spec) (requests : List HttpReq)
      → IsCycle bundle qps s
      → qps < u32_mod
      → IsTaken bundle connections s
      → 1 ≤ length requests
      → Rounds bundle qps (fill_up (length connections) requests >>= spawn clock i connections s)
  unfolding spawn
  filled-Rounds clock bundle qps i connections s requests c fits t h =
      let (filled, ends, served) = fill_up-total (length connections) requests h in
      record {
        next = next_round clock i (spawned connections s filled);
        after = spawned connections s filled;
        ends = ap (λ f. f >>= spawn clock i connections s) ends;
        cycle =
            spawned-IsCycle bundle qps connections s filled c fits t.some_given t.within t.enough
              served;
        leaves = Leaves-next_round clock i (spawned connections s filled);
      }
