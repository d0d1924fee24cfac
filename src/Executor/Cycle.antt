-- ===== src/Executor/Cycle.antt =====
-- cluster-executor/src/secondary.rs: the requests of one second, `send_n_request_in_t_duration` for
-- tests in immediate mode and `send_multiple_requests` for the others. The time that passes while
-- the code runs and sleeps is in the readings of the clock, in milliseconds since the start of the
-- cycle; the length of a sleep is left out.
use overload.Common.{
  ℕ, zero, suc, ◌+◌, ◌-◌, ◌*◌, ◌/◌, ◌%◌, min, max, Bool, List, [], ◌∷◌, ◌++◌, length, Option, none,
  some, ltb, ◌==◌, if◌then◌else◌, ◌>>=◌,
}
use overload.Common.Int.{ℤ, pos, ltb_ℤ, ◌-ℤ◌}
use overload.Executor.Filling.{fill}
use overload.Http.{HttpReq}
use overload.Pool.{HttpConnection, QueuePool, get_connections}
use overload.Providers.{Outcome, ok, failed, panicked, endless}
use overload.RateSpec.{u32_mod}

-- What a spawned task sends: a request is popped for each connection.
pub record Batch (Handle : Type 0) : Type 0 where
  pub requests : List HttpReq
  pub connections : List (HttpConnection Handle)

pub record Cycle (Handle Spec : Type 0) : Type 0 where
  pub queue_pool : QueuePool Handle
  pub request_spec : Spec
  pub total_remaining_qps : ℕ
  pub batches : List (Batch Handle)

-- Why the loop ends, and whether a round is the last.
pub data End : Type 0 where
  time_up all_sent no_request : End

pub data Next : Type 0 where
  again : Next
  done : End → Next

-- A second, round by round: two readings of the clock, which connections are ready, and what
-- spawned tasks and requests in flight have done to the pool.
pub record Second (Handle : Type 0) : Type 0 where
  pub elapsed : ℕ → ℕ
  pub ready : ℕ → ℕ → Bool
  pub others : ℕ → QueuePool Handle → QueuePool Handle

-- The time by which the previous cycle was too long, which the start of the cycle is put back by.
pub record Clock (Handle : Type 0) : Type 0 where
  pub second : Second Handle
  pub put_back : ℕ

abbrev pub cycle_length : ℕ
cycle_length = 1000

unfoldable pub time_remaining : {Handle : Type 0} → Clock Handle → ℕ → ℤ
time_remaining clock k = pos cycle_length -ℤ pos (clock.second.elapsed k + clock.put_back)

unfoldable pub is_late : {Handle : Type 0} → Clock Handle → ℕ → Bool
is_late clock k = ltb_ℤ (time_remaining clock k) (pos 0)

-- One request for each connection, at least.
unfoldable pub fill_up : (available_connection : ℕ) → List HttpReq → Option (List HttpReq)
fill_up available_connection requests_to_send =
    let available_req = length requests_to_send in
    if ltb available_req available_connection
    then fill (2 * available_connection + 1) available_connection available_req requests_to_send
    else some requests_to_send

unfoldable pub spawned :
    {Handle Spec : Type 0}
    → List (HttpConnection Handle)
    → Cycle Handle Spec
    → List HttpReq
    → Cycle Handle Spec
spawned connections s requests = record s {
  total_remaining_qps = (s.total_remaining_qps + u32_mod - length connections) % u32_mod;
  batches = s.batches ++ record { requests = requests; connections = connections } ∷ [];
}

module _ {Handle Spec : Type 0} (clock : Clock Handle) where
  -- What follows the sending of a batch.
  unfoldable pub next_round : ℕ → Cycle Handle Spec → Next
  next_round i s =
      if is_late clock (2 * i + 2)
      then done time_up
      else (if s.total_remaining_qps == 0 then done all_sent else again)

  -- What follows the filling: the task is spawned, and the subtraction wraps.
  unfoldable pub spawn :
      ℕ
      → List (HttpConnection Handle)
      → Cycle Handle Spec
      → List HttpReq
      → Option (Next × Cycle Handle Spec)
  spawn i connections s requests =
      let sent = spawned connections s requests in some (next_round i sent, sent)

  -- `none` is a panic, or a loop that does not end.
  unfoldable pub send_batch_v2 :
      ℕ
      → List (HttpConnection Handle)
      → Cycle Handle Spec
      → Outcome (List HttpReq) × Spec
      → Option (Next × Cycle Handle Spec)
  send_batch_v2 i connections s (ok requests, spec) =
      if length requests == 0
      then some (done no_request, record s { request_spec = spec })
      else fill_up (length connections) requests
        >>= spawn i connections (record s { request_spec = spec })
  send_batch_v2 i connections s (failed, spec) =
      some (done no_request, record s { request_spec = spec })
  send_batch_v2 i connections s (panicked, spec) = none
  send_batch_v2 i connections s (endless, spec) = none

  -- That no request was generated is only logged here.
  unfoldable pub send_batch :
      ℕ
      → List (HttpConnection Handle)
      → Cycle Handle Spec
      → Outcome (List HttpReq) × Spec
      → Option (Next × Cycle Handle Spec)
  send_batch i connections s (ok requests, spec) =
      fill_up (length connections) requests
      >>= spawn i connections (record s { request_spec = spec })
  send_batch i connections s (failed, spec) =
      some (done no_request, record s { request_spec = spec })
  send_batch i connections s (panicked, spec) = none
  send_batch i connections s (endless, spec) = none

-- The loop, for bundles of `bundle_size` requests. `get_requests` is the provider of the test, and
-- `send` what is done with its requests.
module _ {Handle Spec : Type 0} (clock : Clock Handle) (bundle_size : ℕ)
    (get_requests : Spec → ℕ → Outcome (List HttpReq) × Spec)
    (send : ℕ
      → List (HttpConnection Handle)
      → Cycle Handle Spec
      → Outcome (List HttpReq) × Spec
      → Option (Next × Cycle Handle Spec)) where
  -- One round.
  unfoldable pub round : ℕ → Cycle Handle Spec → Option (Next × Cycle Handle Spec)
  round i s =
      let requested_connection = min bundle_size s.total_remaining_qps in
      let (connections, pool, new_connections, replaced) =
        get_connections (clock.second.ready i) requested_connection
          (clock.second.others i s.queue_pool) in
      let taken = record s { queue_pool = pool } in
      if is_late clock (2 * i + 1)
      then some (done time_up, s)
      else (if ltb (length connections) 1
          then some (again, taken)
          else send i connections taken (get_requests s.request_spec (length connections)))

  unfoldable pub continue :
      (rest : Cycle Handle Spec → Option (End × Cycle Handle Spec))
      → Next × Cycle Handle Spec
      → Option (End × Cycle Handle Spec)
  continue rest (again, s) = rest s
  continue rest (done e, s) = some (e, s)

  -- `none` is a panic, a loop that does not end, or the end of the fuel.
  unfoldable pub rounds : (fuel : ℕ) → ℕ → Cycle Handle Spec → Option (End × Cycle Handle Spec)
  rounds zero i s = none
  rounds (suc fuel) i s = round i s >>= continue (rounds fuel (suc i))

abbrev pub fresh_cycle : {Handle Spec : Type 0} → ℕ → QueuePool Handle → Spec → Cycle Handle Spec
fresh_cycle number_of_req queue_pool request_spec = record {
  queue_pool = queue_pool;
  request_spec = request_spec;
  total_remaining_qps = number_of_req;
  batches = [];
}

-- `LoadGenerationMode::Immediate.bundle_size()`
abbrev pub immediate_bundle_size : ℕ
immediate_bundle_size = 65535

-- `default_bundle_size` is `request_bundle_size()`; a count of 0 means an elastic pool.
unfoldable pub bundle_size : (default_bundle_size number_of_req connection_count : ℕ) → ℕ
bundle_size default_bundle_size number_of_req connection_count =
    let request_bundle_size = max (number_of_req / 100 + 1) default_bundle_size in
    if connection_count == 0
    then min number_of_req request_bundle_size
    else min number_of_req (min connection_count request_bundle_size)

module _ {Handle Spec : Type 0} (clock : Clock Handle)
    (get_requests : Spec → ℕ → Outcome (List HttpReq) × Spec) where
  unfoldable pub send_n_request_in_t_duration :
      (fuel number_of_req : ℕ) → QueuePool Handle → Spec → Option (End × Cycle Handle Spec)
  send_n_request_in_t_duration fuel number_of_req queue_pool request_spec =
      let cycle = fresh_cycle number_of_req queue_pool request_spec in
      if ltb_ℤ (time_remaining clock 0) (pos 10)
      then some (time_up, cycle)
      else (if number_of_req == 0
          then some (all_sent, cycle)
          else rounds clock immediate_bundle_size get_requests (send_batch_v2 clock) fuel 0 cycle)

  unfoldable pub send_multiple_requests :
      (default_bundle_size fuel number_of_req connection_count : ℕ)
      → QueuePool Handle
      → Spec
      → Option (End × Cycle Handle Spec)
  send_multiple_requests default_bundle_size fuel number_of_req connection_count queue_pool
        request_spec =
      let cycle = fresh_cycle number_of_req queue_pool request_spec in
      if number_of_req == 0
      then some (all_sent, cycle)
      else rounds clock (bundle_size default_bundle_size number_of_req connection_count)
          get_requests (send_batch clock) fuel 0 cycle
