-- ===== src/Executor/Seconds.antt =====
-- One second of a test on an executor, for both kinds of generation.
use overload.Common.{
  ℕ, suc, ◌+◌, ◌*◌, ◌≤◌, ◌<◌, ◌≡◌, refl, subst, sym, Bool, true, false, List, Option, some, ◌==◌,
  if◌then◌else◌, inl, inr, Bool-cases, arith,
}
use overload.Common.Int.{pos, ltb_ℤ}
use overload.Executor.Cycle.{
  Cycle, Next, time_up, all_sent, Clock, is_late, time_remaining, send_batch, send_batch_v2, rounds,
  fresh_cycle, immediate_bundle_size, send_n_request_in_t_duration, bundle_size,
  send_multiple_requests,
}
use overload.Executor.Sending.{IsCycle}
use overload.Executor.Sending.Loop.{
  Finished, IsSender, Answers, AnswersSome, send_batch-IsSender, send_batch_v2-IsSender,
  rounds-Finished,
}
use overload.Http.{HttpReq}
use overload.Pool.{QueuePool, HttpConnection}
use overload.Providers.{Outcome}
use overload.RateSpec.{u32_mod}

module _ {Handle Spec : Type 0} (clock : Clock Handle)
    (get_requests : Spec → ℕ → Outcome (List HttpReq) × Spec) (qps : ℕ) (fits : qps < u32_mod)
    (queue_pool : QueuePool Handle) (spec : Spec) where
  fresh-IsCycle :
      (bundle : ℕ) → IsCycle bundle qps (fresh_cycle {Handle = Handle} qps queue_pool spec)
  fresh-IsCycle bundle = record { total = omega arith; batches = tt }

  -- What both functions do with a second that may have no requests.
  some_requests :
      (bundle : ℕ) (P : Outcome (List HttpReq) → Type 0)
      (send : ℕ
        → List (HttpConnection Handle)
        → Cycle Handle Spec
        → Outcome (List HttpReq) × Spec
        → Option (Next × Cycle Handle Spec))
      → ((spec : Spec) (n : ℕ) → 1 ≤ n → P (get_requests spec n).0)
      → IsSender clock bundle qps fits P send
      → (k : ℕ) → is_late clock (2 * k + 1) ≡ true
      → Finished clock bundle qps fits (
          if qps == 0
          then some (all_sent, fresh_cycle qps queue_pool spec)
          else rounds clock bundle get_requests send (suc k) 0 (fresh_cycle qps queue_pool spec))
  some_requests bundle P send provides sender k late = elim (Bool-cases (qps == 0)) [
    | inl idle ↦
        subst
          (λ b. Finished clock bundle qps fits (
            if b
            then some (all_sent, cycle)
            else rounds clock bundle get_requests send (suc k) 0 cycle))
          (sym idle)
          (record {
            end = all_sent;
            last = cycle;
            ends = refl;
            cycle = fresh-IsCycle bundle;
            leaves = ground arith;
          })
    | inr busy ↦
        subst
          (λ b. Finished clock bundle qps fits (
            if b
            then some (all_sent, cycle)
            else rounds clock bundle get_requests send (suc k) 0 cycle))
          (sym busy)
          (rounds-Finished clock bundle qps fits P get_requests send provides sender (suc k) 0 k
            cycle (fresh-IsCycle bundle) (ground arith) late (omega arith) (omega arith))
  ]
    where
      cycle : Cycle Handle Spec
      cycle = fresh_cycle qps queue_pool spec

  -- If the provider neither panics nor runs on forever, then a second in immediate mode ends, in the
  -- round in which the time is found to be up at the latest; until then the requests that were
  -- sent, one on each connection given out, and those that are left add up to the requests of the
  -- second, every batch has at most 65535 connections and a request for each, and nothing is left if
  -- the loop ends because all are sent.
  pub send_n_request_in_t_duration-Finished :
      (provides : (spec : Spec) (n : ℕ) → 1 ≤ n → Answers (get_requests spec n).0) (k : ℕ)
      → is_late clock (2 * k + 1) ≡ true
      → Finished clock immediate_bundle_size qps fits
          (send_n_request_in_t_duration clock get_requests (suc k) qps queue_pool spec)
  unfolding send_n_request_in_t_duration
  send_n_request_in_t_duration-Finished provides k late =
      go (ltb_ℤ (time_remaining clock 0) (pos 10))
    where
      cycle : Cycle Handle Spec
      cycle = fresh_cycle qps queue_pool spec

      go :
          (short : Bool)
          → Finished clock immediate_bundle_size qps fits (
              if short
              then some (time_up, cycle)
              else (if qps == 0
                  then some (all_sent, cycle)
                  else rounds clock immediate_bundle_size get_requests
                      (send_batch_v2 clock)
                      (suc k)
                      0
                      cycle))
      go true = record {
        end = time_up;
        last = cycle;
        ends = refl;
        cycle = fresh-IsCycle immediate_bundle_size;
        leaves = tt;
      }
      go false =
          some_requests immediate_bundle_size Answers (send_batch_v2 clock) provides
            (send_batch_v2-IsSender clock immediate_bundle_size qps fits) k late

  -- If the provider neither panics nor runs on forever nor answers with an empty list, then a second
  -- in batch mode ends, in the round in which the time is found to be up at the latest, and sends as
  -- in immediate mode, in bundles of the size that it has computed.
  pub send_multiple_requests-Finished :
      (provides : (spec : Spec) (n : ℕ) → 1 ≤ n → AnswersSome (get_requests spec n).0)
      (k default_bundle_size connection_count : ℕ)
      → is_late clock (2 * k + 1) ≡ true
      → Finished clock (bundle_size default_bundle_size qps connection_count) qps fits (
          send_multiple_requests clock get_requests default_bundle_size
            (suc k)
            qps
            connection_count
            queue_pool
            spec)
  unfolding send_multiple_requests
  send_multiple_requests-Finished provides k default_bundle_size connection_count late =
      let bundle = bundle_size default_bundle_size qps connection_count in
      some_requests bundle AnswersSome (send_batch clock) provides
        (send_batch-IsSender clock bundle qps fits) k late
