-- ===== src/Primary/Session.antt =====
-- cluster-executor/src/primary.rs: `handle_request`, the run of one test.
pub mod Ticks
pub mod Rounds
pub mod Completion
pub mod Stopping
pub mod Panics
pub mod Tests
use Prim.Native.String.{String}
use overload.Common.{
  ℕ, zero, suc, ◌+◌, ◌%◌, Bool, true, false, not, ◌&&◌, List, [], ◌∷◌, length, Option, none, some,
  ◌>>=◌, if◌then◌else◌, ◌==◌,
}
use overload.Common.Dict.{Dict, lookup, insert}
use overload.Foreign.{Foreign}
use overload.Generator.{RequestGenerator, into_generator, poll_next}
use overload.Http.{Request}
use overload.Jobs.{JobStatus, starting, in_progress, stopped, completed}
use overload.Messages.{Net, World, Senders, remove_sender, send_end_msg}
use overload.Primary.{send_rate_message_to_secondaries}
use overload.Primary.Dispatch.{
  Cluster, create_senders_for_cluster_nodes, send_metadata, send_request_to_secondary, init_senders,
  reset_request, require_reset,
}

-- The variables of the loop, what it shares with other tasks, and the number of seconds handled.
pub record Session (F : Foreign) : Type 0 where
  pub senders : Senders
  pub net : Net F
  pub jobs : Dict JobStatus
  pub counter : ℕ
  pub sender_dropped : Bool
  pub second : ℕ

unfoldable pub is_stopped : Option JobStatus → Bool
is_stopped (some stopped) = true
is_stopped _ = false

unfoldable pub remove_senders : List String → Senders → Senders
remove_senders [] senders = senders
remove_senders (id ∷ failed) senders = remove_senders failed (remove_sender id senders)

-- The loop over `senders.drain()`.
unfoldable pub send_ends : {F : Foreign} → World → Senders → Net F → Net F
send_ends world [] net = net
send_ends world (id ∷ senders) net = send_ends world senders (send_end_msg world id false net)

-- `others` is what other tasks do to the registry of jobs before each second: jobs start and end,
-- users stop them, and the registry is cleaned up.
module _ {F : Foreign} (cluster : Cluster F) (others : ℕ → Dict JobStatus → Dict JobStatus)
    (request : Request F) where
  open cluster use {world}

  -- The block at `counter == 10`. `none` is a panic, here and below.
  unfoldable pub update_secondaries : Session F → Option (Session F)
  update_secondaries s = do
    (new_nodes, senders) ← create_senders_for_cluster_nodes cluster s.second s.senders
    if not (length new_nodes == 0)
        then (do
          greeted ← send_metadata cluster s.second senders new_nodes s.net
          if require_reset cluster request
              then (do
                net ← reset_request cluster request senders greeted
                some (record s { senders = senders; net = net }))
              else (do
                (failed, net) ← send_request_to_secondary cluster request senders new_nodes greeted
                some (record s { senders = senders; net = net })))
        else (if require_reset cluster request && s.sender_dropped
            then (do
              net ← reset_request cluster request senders s.net
              some (record s { senders = senders; net = net; sender_dropped = false }))
            else some (record s { senders = senders }))

  unfoldable pub count_tick : Session F → Option (Session F)
  count_tick s =
      if s.counter == 10
      then (do s' ← update_secondaries s; some (record s' { counter = 0 }))
      else some (record s { counter = s.counter + 1 })

  -- The rates of the second, to the senders that are left.
  unfoldable pub send_tick : ℕ × ℕ → Session F → Option (Session F)
  send_tick (qps, connection_count) s =
      if length s.senders == 0 then some (record s { second = s.second + 1 }) else (do
        (failed, net) ← send_rate_message_to_secondaries world s.senders qps connection_count s.net
        some (record s {
          net = net;
          sender_dropped = if length failed == 0 then s.sender_dropped else true;
          senders = remove_senders failed s.senders;
          second = s.second + 1;
        }))

  -- The check every five seconds.
  unfoldable pub stop_found : String → Session F → Bool
  stop_found job_id s = s.counter % 5 == 0 && is_stopped (lookup job_id s.jobs)

  unfoldable pub tick : ℕ × ℕ → Session F → Option (Session F)
  tick rates s = do counted ← count_tick s; send_tick rates counted

  -- The body of the loop, and then `rest`, if the stream has an item and no stop is found.
  unfoldable pub handle_item :
      (rest : RequestGenerator F → Session F → Option (Session F))
      → String
      → Session F
      → Option (ℕ × ℕ) × RequestGenerator F
      → Option (Session F)
  handle_item rest job_id s (none, stream) = some s
  handle_item rest job_id s (some rates, stream) =
      let seen = record s { jobs = others s.second s.jobs } in
      elim (stop_found job_id seen) [ true ↦ some seen | false ↦ tick rates seen >>= rest stream ]

  -- `while let Some(..) = stream.next().await`; `none` is a panic or the end of the fuel.
  unfoldable pub run : (fuel : ℕ) → String → RequestGenerator F → Session F → Option (Session F)
  run zero job_id stream s = none
  run (suc fuel) job_id stream s = poll_next F stream >>= handle_item (run fuel job_id) job_id s

  -- What follows the loop.
  unfoldable pub finish : String → Session F → Session F
  finish job_id s = record s {
    senders = [];
    net = send_ends world s.senders s.net;
    jobs = insert job_id completed s.jobs;
  }

  unfoldable pub start : String → Net F → Dict JobStatus → Option (Session F)
  start job_id net jobs = do
    let jobs' = insert job_id starting jobs
    (senders, net') ← init_senders cluster request [] net
    some (record {
      senders = senders;
      net = net';
      jobs = insert job_id in_progress jobs';
      counter = 0;
      sender_dropped = false;
      second = 0;
    })

  unfoldable pub run_job : (fuel : ℕ) → Net F → Dict JobStatus → String → Option (Session F)
  run_job fuel net jobs job_id = do
    s ← start job_id net jobs
    last ← run fuel job_id (into_generator F request) s
    some (finish job_id last)

  -- `request.name.clone().unwrap()` comes first.
  unfoldable pub handle_request : (fuel : ℕ) → Net F → Dict JobStatus → Option (Session F)
  handle_request fuel net jobs = request.name >>= run_job fuel net jobs
