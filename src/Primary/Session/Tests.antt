-- ===== src/Primary/Session/Tests.antt =====
-- A job of four seconds on two secondaries, and a split file that nobody is left to read.
use mathlib.Core.List.Perm
use overload.Common.{ℕ, suc, ◌+◌, ◌≤◌, ◌≡◌, refl, [], ◌∷◌, some, none, arith, true, false}
use overload.Common.Dict.{Dict, lookup}
use overload.Generator.{into_generator, new, qps_of, connection_rate_of}
use overload.Generator.Stream.{IsPrimed, IsValidated, IsValidated-IsReady}
use overload.Http.{SplitRequestFile}
use overload.Jobs.{JobStatus, stopped, completed}
use overload.Messages.{has_sender}
use overload.Primary.Delivery.{total, qps_in, connections_in}
use overload.Primary.Dispatch.{Cluster, is_split, create_senders, create_senders_for_cluster_nodes}
use overload.Primary.Session.{Session, handle_request, run, count_tick, is_stopped}
use overload.Primary.Session.Completion.{handle_request-completed, handle_request-total}
use overload.Primary.Session.Panics.{count_tick-panic}
use overload.Primary.Session.Stopping.{run-stopped}
use overload.Primary.Totals.{IsIdentified}
use overload.Providers.{ok, split_get_n, read_opened, open_file, query_end}
use overload.RateSpec.Scheme.Reference.{rate_of}
use overload.RateSpec.Validate.Accept.{IsAccepted}
use overload.Samples.{
  row, foreign, steps_request, two_steps, nothing_sent, database, split_file, split_request,
}

abbrev pub cluster : Cluster foreign
cluster = record {
  world = λ n id. true;
  db = database;
  fuel = 2;
  host = λ second. some "10.0.0.1";
  secondaries = λ second. some (some "node-1" ∷ some "node-2" ∷ []);
  connects = λ second id. true;
}

pub identified : IsIdentified cluster
identified = record {
  host = λ second. ("10.0.0.1", refl);
  ids = λ second ids e. ("node-1" ∷ "node-2" ∷ [], cc e);
}

abbrev pub undisturbed : ℕ → Dict JobStatus → Dict JobStatus
undisturbed n jobs = jobs

accepted : IsAccepted two_steps.steps two_steps
accepted = record {
  fresh = refl;
  same = Perm.refl two_steps.steps;
  contiguous = omega arith;
  several = omega arith;
}

pub validated : IsValidated foreign (qps_of foreign steps_request.qps)
unfolding qps_of
validated = (two_steps.steps, accepted)

pub free : IsValidated foreign (connection_rate_of foreign steps_request.concurrent_connection)
unfolding connection_rate_of
free = tt

pub listed : is_split cluster steps_request.req ≡ false
unfolding is_split
listed = refl

handle_request-completed_example :
    (final : Session foreign) × (handle_request cluster undisturbed steps_request
        (suc 4)
        nothing_sent
        []
      ≡ some final)
    × (final.senders ≡ [])
    × (lookup "steps" final.jobs ≡ some completed)
    × (final.second ≤ 4)
handle_request-completed_example =
    handle_request-completed cluster undisturbed steps_request "steps" nothing_sent [] refl listed
      identified (omega arith) validated free

pub always_kept :
    (n : ℕ) (jobs : Dict JobStatus)
    → is_stopped (lookup "steps" jobs) ≡ false
    → is_stopped (lookup "steps" (undisturbed n jobs)) ≡ false
always_kept n jobs e = e

-- Three seconds at rate 1 and one at rate 7.
handle_request-total_example :
    (final : Session foreign) × (handle_request cluster undisturbed steps_request
        (suc 4)
        nothing_sent
        []
      ≡ some final)
    × (final.second ≡ 4)
    × (total qps_in final.net.log ≡ 10)
    × (total connections_in final.net.log ≡ 0)
unfolding create_senders_for_cluster_nodes create_senders has_sender qps_of connection_rate_of
    rate_of
handle_request-total_example =
    handle_request-total cluster undisturbed steps_request "steps" nothing_sent [] refl listed
      identified (omega arith) validated free (λ n id. refl) always_kept (omega arith)

-- The job is stopped while the counter stands at 1.
abbrev stopped_session : Session foreign
stopped_session = record {
  senders = "node-1" ∷ [];
  net = nothing_sent;
  jobs = ("steps", stopped) ∷ [];
  counter = 1;
  sender_dropped = false;
  second = 0;
}

primed : IsPrimed foreign (into_generator foreign steps_request)
unfolding into_generator new
primed = record {
  qps_ready = IsValidated-IsReady foreign _ validated;
  connection_ready = IsValidated-IsReady foreign _ free;
}

four_seconds :
    (into_generator foreign steps_request).current_count + 4
    ≡ (into_generator foreign steps_request).total
unfolding into_generator new
four_seconds = refl

stays :
    (n : ℕ) (jobs : Dict JobStatus)
    → lookup "steps" jobs ≡ some stopped
    → lookup "steps" (undisturbed n jobs) ≡ some stopped
stays n jobs e = e

run-stopped_example :
    (last : Session foreign) × (run cluster undisturbed steps_request
        (suc 4)
        "steps"
        (into_generator foreign steps_request)
        stopped_session
      ≡ some last)
    × (last.second ≤ 4)
unfolding lookup
run-stopped_example =
    run-stopped cluster undisturbed steps_request 4 "steps" (into_generator foreign steps_request)
      stopped_session listed primed four_seconds stays refl (omega arith)

abbrev lonely : Cluster foreign
lonely = record cluster { secondaries = λ second. none }

abbrev opened : SplitRequestFile foreign
opened = record split_file {
  inner = some 1;
  size = 10;
  range_start_inclusive = 1;
  range_end_inclusive = 10;
  next_read_cursor = 2;
}

sampled : split_get_n database 2 split_file 1 ≡ (ok (row 1 ∷ []), opened)
unfolding split_get_n read_opened open_file query_end
sampled = refl

count_tick-panic_example :
    count_tick lonely undisturbed split_request (record {
      senders = [];
      net = nothing_sent;
      jobs = [];
      counter = 10;
      sender_dropped = true;
      second = 10;
    })
    ≡ none
count_tick-panic_example =
    count_tick-panic lonely undisturbed split_request split_file opened (row 1 ∷ []) nothing_sent []
      10 refl sampled refl
