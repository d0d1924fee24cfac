-- ===== src/Standalone.antt =====
-- cluster-executor/src/standalone.rs: `handle_request`, the run of one test on a node that drives its
-- own executor.
pub mod Rounds
pub mod Total
pub mod Tests
use Prim.Native.String.{String}
use overload.Common.{
  ℕ, zero, suc, ◌+◌, ◌%◌, Bool, true, false, ◌&&◌, List, [], ◌∷◌, Option, none, some, ◌>>=◌,
  if◌then◌else◌, ◌==◌,
}
use overload.Common.Dict.{Dict, lookup, insert}
use overload.Foreign.{Foreign}
use overload.Generator.{RequestGenerator, into_generator, poll_next}
use overload.Http.{Request}
use overload.Jobs.{JobStatus, starting, in_progress, completed}
use overload.Messages.{
  MessageFromPrimary, Net, Senders, send, send_metadata_with_primary, send_end_msg,
}
use overload.Primary.Dispatch.{Cluster, send_request_to_secondary}
use overload.Primary.Session.{is_stopped}

-- The variables of the loop, what it shares with other tasks, and the number of seconds handled.
pub record Solo (F : Foreign) : Type 0 where
  pub net : Net F
  pub jobs : Dict JobStatus
  pub counter : ℕ
  pub second : ℕ

abbrev pub localhost : Senders
localhost = "localhost" ∷ []

-- `cluster` is the network and the database; its `connects` answers the connection to the executor
-- at second 0. `others` is what other tasks do to the registry of jobs before each second.
module _ {F : Foreign} (cluster : Cluster F) (others : ℕ → Dict JobStatus → Dict JobStatus)
    (request : Request F) where
  open cluster use {world}

  unfoldable pub send_rate_message_to_executor : ℕ × ℕ → Solo F → Solo F
  send_rate_message_to_executor (qps, connection_count) s =
      let msg = MessageFromPrimary.rates (record { qps = qps; connections = connection_count }) in
      record s { net = (send world "localhost" msg s.net).1; second = s.second + 1 }

  -- The body of the loop, and then `rest`, if the stream has an item and no stop is found.
  unfoldable pub handle_second :
      (rest : RequestGenerator F → Solo F → Option (Solo F))
      → String
      → Solo F
      → Option (ℕ × ℕ) × RequestGenerator F
      → Option (Solo F)
  handle_second rest job_id s (none, stream) = some s
  handle_second rest job_id s (some rates, stream) =
      let seen = record s { jobs = others s.second s.jobs; counter = s.counter + 1 } in
      let due = seen.counter % 5 == 0 in
      elim (due && is_stopped (lookup job_id seen.jobs)) [
        | true ↦ some seen
        | false ↦ rest stream (
            send_rate_message_to_executor rates
              (record seen { counter = if due then 0 else seen.counter }))
      ]

  -- `none` is a panic or the end of the fuel.
  unfoldable pub run_solo : (fuel : ℕ) → String → RequestGenerator F → Solo F → Option (Solo F)
  run_solo zero job_id stream s = none
  run_solo (suc fuel) job_id stream s =
      poll_next F stream >>= handle_second (run_solo fuel job_id) job_id s

  unfoldable pub start_solo : String → Net F → Dict JobStatus → Option (Solo F)
  start_solo job_id net jobs =
      if cluster.connects 0 "localhost"
      then (do
        let greeted = send_metadata_with_primary world "127.0.0.1" localhost localhost net
        (failed, net') ← send_request_to_secondary cluster request localhost localhost greeted
        some (record {
          net = net';
          jobs = insert job_id in_progress (insert job_id starting jobs);
          counter = 0;
          second = 0;
        }))
      else none

  unfoldable pub finish_solo : String → Solo F → Solo F
  finish_solo job_id s = record s {
    net = send_end_msg world "localhost" false s.net;
    jobs = insert job_id completed s.jobs;
  }

  unfoldable pub run_solo_job : (fuel : ℕ) → Net F → Dict JobStatus → String → Option (Solo F)
  run_solo_job fuel net jobs job_id = do
    s ← start_solo job_id net jobs
    last ← run_solo fuel job_id (into_generator F request) s
    some (finish_solo job_id last)

  -- `request.name.clone().unwrap()` comes first.
  unfoldable pub handle_request_solo : (fuel : ℕ) → Net F → Dict JobStatus → Option (Solo F)
  handle_request_solo fuel net jobs = request.name >>= run_solo_job fuel net jobs
