-- ===== src/Executor/Session.antt =====
-- cluster-executor/src/secondary.rs: `handle_connection_from_primary` and
-- `handle_connection_from_primary_v2`, from the first message of a primary to the last.
use overload.Common.{
  ℕ, zero, suc, ◌+◌, Bool, true, false, List, [], ◌∷◌, ◌++◌, Option, none, some, ◌==◌,
  if◌then◌else◌, ◌>>=◌,
}
use overload.Common.Int.{ℤ, pos, pos_part, ◌-ℤ◌}
use overload.Executor.Cycle.{
  Batch, Cycle, End, Second, Clock, cycle_length, send_n_request_in_t_duration,
  send_multiple_requests,
}
use overload.Foreign.{Foreign}
use overload.Http.{HttpReq, Request, RequestSpec, LoadGenerationMode}
use overload.Messages.{Metadata, MessageFromPrimary, RateMessage}
use overload.Pool.{QueuePool, set_connection_count}
use overload.Providers.{Outcome}

-- What `timeout(.., rx.recv())` gives: nothing in time, an error of the channel, its end, or a
-- message.
pub data Received (F : Foreign) : Type 0 where
  timed_out broken closed : Received F
  message : MessageFromPrimary F → Received F

module _ {F : Foreign} where
  -- The first message, and what comes behind it; `none` is an error.
  unfoldable pub check_for_metadata_msg : List (Received F) → Option (Metadata × List (Received F))
  check_for_metadata_msg (message (MessageFromPrimary.metadata m) ∷ rx) = some (m, rx)
  check_for_metadata_msg _ = none

  -- A request; a reset may come once in front of it, if there is a try left.
  unfoldable pub try_request_msg :
      (tries : ℕ) → List (Received F) → Option (Request F × List (Received F))
  try_request_msg zero rx = none
  try_request_msg (suc tries) (message (MessageFromPrimary.request request) ∷ rx) =
      some (request, rx)
  try_request_msg (suc tries) (message MessageFromPrimary.reset ∷ rx) = try_request_msg tries rx
  try_request_msg (suc tries) _ = none

  abbrev pub check_for_request_msg : List (Received F) → Option (Request F × List (Received F))
  check_for_request_msg = try_request_msg 2

-- Why a session ends.
pub data Exit : Type 0 where
  error_exit closed_exit stop_exit finish_exit prepare_failed : Exit

pub record Context (F : Foreign) (Handle : Type 0) : Type 0 where
  pub prev_connection_count : ℕ
  pub time_offset : ℤ
  pub queue_pool : QueuePool Handle
  pub request_spec : RequestSpec F

-- The variables of the loop, the number of rates and of requests handled, and what each second sent.
pub record Session (F : Foreign) (Handle : Type 0) : Type 0 where
  pub context : Context F Handle
  pub reset : Bool
  pub rates : ℕ
  pub requests : ℕ
  pub sent : List (List (Batch Handle))

pub data Progress (F : Foreign) (Handle : Type 0) : Type 0 where
  running : Session F Handle → Progress F Handle
  exited : Exit → Session F Handle → Progress F Handle

-- What the node meets: the seconds and how long each took, whether a request's file is there or can
-- be fetched, the provider of the requests, and the size of bundles in the environment.
pub record Surroundings (F : Foreign) (Handle : Type 0) : Type 0 where
  pub seconds : ℕ → Second Handle
  pub took : ℕ → ℕ
  pub rounds : ℕ
  pub prepares : ℕ → Bool
  pub get_requests : RequestSpec F → ℕ → Outcome (List HttpReq) × RequestSpec F
  pub default_bundle_size : ℕ

module _ {F : Foreign} {Handle : Type 0} (env : Surroundings F Handle) where
  -- The pool after a change of the number of connections.
  unfoldable pub resized : RateMessage → Context F Handle → QueuePool Handle
  resized rate ctx =
      if ctx.prev_connection_count == rate.connections
      then ctx.queue_pool
      else (set_connection_count rate.connections ctx.queue_pool).0

  -- A cycle that was too long puts the start of the next one back.
  unfoldable pub clock_of : ℕ → Context F Handle → Clock Handle
  clock_of k ctx = record { second = env.seconds k; put_back = pos_part ctx.time_offset }

  unfoldable pub after_cycle :
      ℕ
      → RateMessage
      → Context F Handle
      → End × Cycle Handle (RequestSpec F)
      → Context F Handle × List (Batch Handle)
  after_cycle k rate ctx (end, cycle) = (
    record {
      prev_connection_count =
          if ctx.prev_connection_count == rate.connections
          then ctx.prev_connection_count
          else rate.connections;
      time_offset = pos (env.took k) -ℤ pos cycle_length;
      queue_pool = cycle.queue_pool;
      request_spec = cycle.request_spec;
    },
    cycle.batches,
  )

  -- `none` is a panic, or a loop that does not end.
  unfoldable pub handle_rate_msg_v2 :
      ℕ → RateMessage → Context F Handle → Option (Context F Handle × List (Batch Handle))
  handle_rate_msg_v2 k rate ctx = do
    cycle ←
        send_n_request_in_t_duration (clock_of k ctx) env.get_requests env.rounds rate.qps
          (resized rate ctx) ctx.request_spec
    some (after_cycle k rate ctx cycle)

  unfoldable pub handle_rate_msg :
      ℕ → RateMessage → Context F Handle → Option (Context F Handle × List (Batch Handle))
  handle_rate_msg k rate ctx = do
    cycle ←
        send_multiple_requests (clock_of k ctx) env.get_requests env.default_bundle_size env.rounds
          rate.qps rate.connections (resized rate ctx) ctx.request_spec
    some (after_cycle k rate ctx cycle)

  unfoldable pub handle_rate :
      LoadGenerationMode
      → ℕ
      → RateMessage
      → Context F Handle
      → Option (Context F Handle × List (Batch Handle))
  handle_rate LoadGenerationMode.immediate k rate ctx = handle_rate_msg_v2 k rate ctx
  handle_rate (LoadGenerationMode.batch size) k rate ctx = handle_rate_msg k rate ctx

  unfoldable pub count_second :
      Session F Handle → Context F Handle × List (Batch Handle) → Progress F Handle
  count_second s (ctx, batches) =
      running (record s { context = ctx; rates = s.rates + 1; sent = s.sent ++ batches ∷ [] })

  -- One message.
  unfoldable pub handle_message :
      LoadGenerationMode → MessageFromPrimary F → Session F Handle → Option (Progress F Handle)
  handle_message mode (MessageFromPrimary.metadata m) s = some (running s)
  handle_message mode (MessageFromPrimary.rates rate) s = do
    handled ← handle_rate mode s.rates rate s.context
    some (count_second s handled)
  handle_message mode MessageFromPrimary.stop s = some (exited stop_exit s)
  handle_message mode MessageFromPrimary.finished s = some (exited finish_exit s)
  handle_message mode MessageFromPrimary.reset s = some (running (record s { reset = true }))
  handle_message mode (MessageFromPrimary.request req) s =
      let prepared = record s {
        context = record s.context { request_spec = req.req };
        reset = false;
        requests = s.requests + 1;
      } in
      if env.prepares s.requests then some (running prepared) else some (exited prepare_failed s)

  unfoldable pub handle_received :
      LoadGenerationMode → Received F → Session F Handle → Option (Progress F Handle)
  handle_received mode timed_out s = some (running s)
  handle_received mode broken s = some (exited error_exit s)
  handle_received mode closed s = some (exited closed_exit s)
  handle_received mode (message msg) s = handle_message mode msg s

  unfoldable pub carry_on :
      (rest : Session F Handle → Option (Progress F Handle))
      → Progress F Handle
      → Option (Progress F Handle)
  carry_on rest (running s) = rest s
  carry_on rest (exited e s) = some (exited e s)

  -- The loop, until it ends or nothing more is received.
  unfoldable pub listen :
      LoadGenerationMode → List (Received F) → Session F Handle → Option (Progress F Handle)
  listen mode [] s = some (running s)
  listen mode (received ∷ rx) s = handle_received mode received s >>= carry_on (listen mode rx)
