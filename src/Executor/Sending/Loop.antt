-- ===== src/Executor/Sending/Loop.antt =====
-- The loop of a second, round by round.
use overload.Common.{
  ℕ, zero, suc, ◌+◌, ◌*◌, ◌≤◌, ◌<◌, ◌≡◌, refl, sym, ap, subst, min, Bool, true, false, List, [],
  ◌∷◌, length, Option, some, ltb, ◌==◌, if◌then◌else◌, ◌>>=◌, ◌⊎◌, inl, inr, Bool-cases, arith,
}
use overload.Executor.Cycle.{
  Cycle, End, time_up, no_request, Next, again, done, Clock, is_late, fill_up, spawn, send_batch_v2,
  send_batch, round, continue, rounds,
}
use overload.Http.{HttpReq}
use overload.Pool.{HttpConnection, QueuePool, get_connections}
use overload.Pool.Bounds.{few-get_connections}
use overload.RateSpec.{u32_mod}
use overload.Providers.{Outcome, ok, failed, panicked, endless}
use overload.Executor.Sending.{IsCycle, Leaves, Rounds, IsTaken, filled-Rounds}

-- The provider neither panics nor runs on forever, and for `AnswersSome` it has requests, if it
-- does not fail.
abbrev pub Answers : Outcome (List HttpReq) → Type 0
Answers (ok requests) = Unit
Answers failed = Unit
Answers panicked = ⊥
Answers endless = ⊥

abbrev pub AnswersSome : Outcome (List HttpReq) → Type 0
AnswersSome (ok requests) = 1 ≤ length requests
AnswersSome failed = Unit
AnswersSome panicked = ⊥
AnswersSome endless = ⊥

at_most : (i k : ℕ) → i ≤ k → (i ≡ k) ⊎ (suc i ≤ k)
at_most i k h = omega arith

not_empty : (requests : List HttpReq) → (suc (length requests) == 0) ≡ false
not_empty requests = ground arith

module _ {Handle Spec : Type 0} (clock : Clock Handle) (bundle qps : ℕ) (fits : qps < u32_mod) where
  -- What one round may rely on.
  abbrev pub IsSender :
      (Outcome (List HttpReq) → Type 0)
      → (ℕ
          → List (HttpConnection Handle)
          → Cycle Handle Spec
          → Outcome (List HttpReq) × Spec
          → Option (Next × Cycle Handle Spec))
      → Type 0
  IsSender P send =
      (i : ℕ) (connections : List (HttpConnection Handle)) (s : Cycle Handle Spec)
      (outcome : Outcome (List HttpReq)) (spec : Spec)
      → IsCycle bundle qps s
      → IsTaken bundle connections s
      → P outcome
      → Rounds bundle qps (send i connections s (outcome, spec))

  with_spec :
      (s : Cycle Handle Spec) (spec : Spec)
      → IsCycle bundle qps s
      → IsCycle bundle qps (record s { request_spec = spec })
  with_spec s spec c = record { total = c.total; batches = c.batches }

  failed-Rounds :
      (s : Cycle Handle Spec) (spec : Spec)
      → IsCycle bundle qps s
      → Rounds bundle qps (some (done no_request, record s { request_spec = spec }))
  failed-Rounds s spec c = record {
    next = done no_request;
    after = record s { request_spec = spec };
    ends = refl;
    cycle = with_spec s spec c;
    leaves = tt;
  }

  ok-Rounds :
      (i : ℕ) (connections : List (HttpConnection Handle)) (s : Cycle Handle Spec)
      (requests : List HttpReq) (spec : Spec)
      → IsCycle bundle qps s
      → IsTaken bundle connections s
      → 1 ≤ length requests
      → Rounds bundle qps (
          fill_up (length connections) requests
          >>= spawn clock i connections (record s { request_spec = spec }))
  ok-Rounds i connections s requests spec c t h =
      filled-Rounds clock bundle qps i connections (record s { request_spec = spec }) requests
        (with_spec s spec c) fits
        (record { some_given = t.some_given; within = t.within; enough = t.enough }) h

  pub send_batch-IsSender : IsSender AnswersSome (send_batch clock)
  unfolding send_batch
  send_batch-IsSender i connections s (ok requests) spec c t h =
      ok-Rounds i connections s requests spec c t h
  send_batch-IsSender i connections s failed spec c t h = failed-Rounds s spec c
  send_batch-IsSender i connections s panicked spec c t h = absurd h
  send_batch-IsSender i connections s endless spec c t h = absurd h

  pub send_batch_v2-IsSender : IsSender Answers (send_batch_v2 clock)
  unfolding send_batch_v2
  send_batch_v2-IsSender i connections s (ok []) spec c t h = failed-Rounds s spec c
  send_batch_v2-IsSender i connections s (ok (r ∷ requests)) spec c t h =
      subst
        (λ b. Rounds bundle qps (
          if b
          then some (done no_request, record s { request_spec = spec })
          else (fill_up (length connections) (r ∷ requests)
              >>= spawn clock i connections (record s { request_spec = spec }))))
        (sym (not_empty requests)) (ok-Rounds i connections s (r ∷ requests) spec c t (omega arith))
  send_batch_v2-IsSender i connections s failed spec c t h = failed-Rounds s spec c
  send_batch_v2-IsSender i connections s panicked spec c t h = absurd h
  send_batch_v2-IsSender i connections s endless spec c t h = absurd h

  -- How the loop ends.
  pub record Finished (found : Option (End × Cycle Handle Spec)) : Type 0 where
    pub end : End
    pub last : Cycle Handle Spec
    pub ends : found ≡ some (end, last)
    pub cycle : IsCycle bundle qps last
    pub leaves : Leaves (done end) last

  module _ (P : Outcome (List HttpReq) → Type 0)
      (get_requests : Spec → ℕ → Outcome (List HttpReq) × Spec)
      (send : ℕ
        → List (HttpConnection Handle)
        → Cycle Handle Spec
        → Outcome (List HttpReq) × Spec
        → Option (Next × Cycle Handle Spec))
      (provides : (spec : Spec) (n : ℕ) → 1 ≤ n → P (get_requests spec n).0)
      (sender : IsSender P send) where
    round-Rounds :
        (i : ℕ) (s : Cycle Handle Spec)
        → IsCycle bundle qps s
        → 1 ≤ s.total_remaining_qps
        → Rounds bundle qps (round clock bundle get_requests send i s)
    unfolding round
    round-Rounds i s c left = go (is_late clock (2 * i + 1)) (Bool-cases (ltb (length given) 1))
      where
        request : ℕ
        request = min bundle s.total_remaining_qps

        before : QueuePool Handle
        before = clock.second.others i s.queue_pool

        given : List (HttpConnection Handle)
        given = (get_connections (clock.second.ready i) request before).0

        taken : Cycle Handle Spec
        taken = record s { queue_pool = (get_connections (clock.second.ready i) request before).1 }

        taken-IsCycle : IsCycle bundle qps taken
        taken-IsCycle = record { total = c.total; batches = c.batches }

        go :
            (late : Bool)
            → (ltb (length given) 1 ≡ true) ⊎ (ltb (length given) 1 ≡ false)
            → Rounds bundle qps (
                if late
                then some (done time_up, s)
                else (if ltb (length given) 1
                    then some (again, taken)
                    else send i given taken (get_requests s.request_spec (length given))))
        go true h = record { next = done time_up; after = s; ends = refl; cycle = c; leaves = tt }
        go false (inl empty) =
            subst
              (λ b. Rounds bundle qps (
                if b
                then some (again, taken)
                else send i given taken (get_requests s.request_spec (length given))))
              (sym empty)
              (record {
                next = again;
                after = taken;
                ends = refl;
                cycle = taken-IsCycle;
                leaves = left;
              })
        go false (inr found) =
            subst
              (λ b. Rounds bundle qps (
                if b
                then some (again, taken)
                else send i given taken (get_requests s.request_spec (length given))))
              (sym found)
              (let some_given : 1 ≤ length given = ground arith in
                sender i given taken (get_requests s.request_spec (length given)).0
                  (get_requests s.request_spec (length given)).1 taken-IsCycle
                  (record {
                    some_given = some_given;
                    within =
                        omega
                          (arith, few-get_connections Handle (clock.second.ready i) request before);
                    enough =
                        omega
                          (arith, few-get_connections Handle (clock.second.ready i) request before);
                  })
                  (provides s.request_spec (length given) some_given))

    round-late :
        (i : ℕ) (s : Cycle Handle Spec)
        → is_late clock (2 * i + 1) ≡ true
        → round clock bundle get_requests send i s ≡ some (done time_up, s)
    unfolding round
    round-late i s late = rw (late, round) refl

    continued :
        (fuel i : ℕ) (next : Next) (after : Cycle Handle Spec)
        → IsCycle bundle qps after
        → Leaves next after
        → (1 ≤ after.total_remaining_qps
            → Finished (rounds clock bundle get_requests send fuel (suc i) after))
        → Finished (
            continue clock bundle get_requests send
              (rounds clock bundle get_requests send fuel (suc i))
              (next, after))
    unfolding continue
    continued fuel i again after c leaves rest = rest leaves
    continued fuel i (done e) after c leaves rest = record {
      end = e;
      last = after;
      ends = refl;
      cycle = c;
      leaves = leaves;
    }

    -- The loop ends in the round in whose first reading the time is up, at the latest.
    pub rounds-Finished :
        (fuel i k : ℕ) (s : Cycle Handle Spec)
        → IsCycle bundle qps s
        → 1 ≤ s.total_remaining_qps
        → is_late clock (2 * k + 1) ≡ true
        → i ≤ k
        → k < i + fuel
        → Finished (rounds clock bundle get_requests send fuel i s)
    unfolding rounds continue
    rounds-Finished zero i k s c left late from fuelled = absurd (omega arith)
    rounds-Finished (suc fuel) i k s c left late from fuelled = elim (at_most i k from) [
      | inl last ↦ record {
        end = time_up;
        last = s;
        ends =
            ap
              (λ found.
                found
                >>= continue clock bundle get_requests send
                    (rounds clock bundle get_requests send fuel (suc i)))
              (round-late i s (subst (λ m. is_late clock (2 * m + 1) ≡ true) (sym last) late));
        cycle = c;
        leaves = tt;
      }
      | inr more ↦
          let r = round-Rounds i s c left in
          subst
            (λ found. Finished (
              found
              >>= continue clock bundle get_requests send
                  (rounds clock bundle get_requests send fuel (suc i))))
            (sym r.ends)
            (continued fuel i r.next r.after r.cycle r.leaves (λ goes_on.
              rounds-Finished fuel (suc i) k r.after r.cycle goes_on late more (omega arith)))
    ]
