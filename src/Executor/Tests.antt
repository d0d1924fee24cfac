-- ===== src/Executor/Tests.antt =====
-- A data file that is downloaded, and an executor with two connections, whose clock reads 0, 400, 800 and 1200 milliseconds in turn.
use Prim.Native.String.{String}
use overload.Common.{
  ℕ, ◌*◌, ◌≡◌, refl, ◌↔◌, true, false, List, [], ◌∷◌, ◌++◌, length, take, drop, map, none, some,
  arith,
}
use overload.Common.Dict.{lookup, insert}
use overload.Common.Int.{pos, ◌-ℤ◌}
use overload.Executor.Connection.{shake_hands, name_of, handle_connection_from_primary}
use overload.Executor.Cycle.{
  Second, Clock, is_late, time_remaining, bundle_size, immediate_bundle_size,
  send_n_request_in_t_duration, send_multiple_requests,
}
use overload.Common.Ensures.{Returns}
use overload.Executor.Downloads.{IsPrepared, prepare-IsPrepared, failed_download-again}
use overload.Executor.Filling.{fill, Loop, running, fill_by, fill-endless}
use overload.Executor.Preparing
use overload.Executor.Preparing.{DataSource, prepare, download_request_file_from_primary}
use overload.Executor.Filling.Repeats.{fill-repeats}
use overload.Executor.Handshake.{IsGreeting, shake_hands-IsGreeting}
use overload.Executor.Reconnect.{
  IsGranted, IsRefused, init_connection_pool-reconnect, closed_exit-IsRefused,
}
use overload.Executor.Registry.{Registry, waiting, init_connection_pool, exit_session}
use overload.Executor.Seconds.{
  send_n_request_in_t_duration-Finished, send_multiple_requests-Finished,
}
use overload.Executor.Sending.Loop.{Finished}
use overload.Executor.Serving.{IsSteady, rated}
use overload.Executor.Session.{Received, message, error_exit, closed_exit, Surroundings}
use overload.Executor.WholeTest.{IsServed, handle_connection_from_primary-IsServed}
use overload.Http.{HttpReq, Request, RequestSpec, ConnectionKeepAlive}
use overload.Messages.{MessageFromPrimary, RateMessage}
use overload.Names.{Matching}
use overload.Pool.{HttpConnection, QueuePool}
use overload.Providers.{Outcome, ok}
use overload.Samples.{foreign, row, steps_request}

abbrev keep_alive : ConnectionKeepAlive
keep_alive = record { ttl = 1000; max_request_per_connection = 10 }

abbrev connection : ℕ → HttpConnection ℕ
connection handle = record {
  request_handle = handle;
  should_drop = false;
  expire_at = 5000;
  remaining_reuse = pos 10;
}

abbrev pool : QueuePool ℕ
pool = record {
  max_connection = 2;
  connections = connection 1 ∷ connection 2 ∷ [];
  recyclable_connections = [];
  new_connections = [];
  busy_connections = 0;
  elastic = false;
  keep_alive = keep_alive;
  failed_connection = 0;
}

-- Both connections are back before each round.
abbrev second : Second ℕ
second = record { elapsed = λ k. 400 * k; ready = λ i k. true; others = λ i p. pool }

abbrev clock : Clock ℕ
clock = record { second = second; put_back = 0 }

abbrev one_request : RequestSpec foreign → ℕ → Outcome (List HttpReq) × RequestSpec foreign
one_request spec n = (ok (row 1 ∷ []), spec)

late : is_late clock 3 ≡ true
unfolding is_late time_remaining ◌-ℤ◌
late = refl

fill-endless_example : ◌≡◌ {A = Loop HttpReq} (fill_by 100 3 0 []) running
fill-endless_example = fill-endless 100 3 (omega arith)

fill-repeats_example :
    (filled : List ℕ) × (fill 15 7 2 (1 ∷ 2 ∷ []) ≡ some filled)
    × (length filled ≡ 7)
    × (take 2 filled ≡ 1 ∷ 2 ∷ [])
    × (drop 2 filled ≡ take 5 filled)
fill-repeats_example = fill-repeats 7 (1 ∷ 2 ∷ []) (omega arith) (omega arith)

send_n_request_in_t_duration-Finished_example :
    Finished clock immediate_bundle_size 3
      (omega arith)
      (send_n_request_in_t_duration clock one_request 2 3 pool steps_request.req)
send_n_request_in_t_duration-Finished_example =
    send_n_request_in_t_duration-Finished clock one_request 3 (omega arith) pool steps_request.req
      (λ spec n h. tt) 1 late

send_multiple_requests-Finished_example :
    Finished clock
      (bundle_size 50 3 2)
      3
      (omega arith)
      (send_multiple_requests clock one_request 50 2 3 2 pool steps_request.req)
send_multiple_requests-Finished_example =
    send_multiple_requests-Finished clock one_request 3 (omega arith) pool steps_request.req
      (λ spec n h. omega arith) 1 50 2 late

abbrev hello : Received foreign
hello = message (MessageFromPrimary.metadata (record { primary_host = "10.0.0.1" }))

shake_hands-IsGreeting_example :
    (shake_hands (
        hello
        ∷ message MessageFromPrimary.reset
        ∷ message (MessageFromPrimary.request steps_request)
        ∷ [])
      ≡ some (steps_request, []))
    ↔ IsGreeting
        (hello
          ∷ message MessageFromPrimary.reset
          ∷ message (MessageFromPrimary.request steps_request)
          ∷ [])
        steps_request
        []
shake_hands-IsGreeting_example = shake_hands-IsGreeting _ steps_request []

abbrev one_session : Registry ℕ
one_session = record {
  connection_pools = [];
  usage_listener = ("steps", 0) ∷ [];
  channels = waiting ∷ [];
}

listens : lookup "steps" one_session.usage_listener ≡ some 0
unfolding lookup
listens = refl

init_connection_pool-reconnect_example :
    IsGranted "steps" pool (
      init_connection_pool "steps"
        (λ r. r)
        keep_alive
        false
        (exit_session "steps" error_exit 0 pool one_session))
    × IsGranted "steps" pool (
        init_connection_pool "steps"
          (exit_session "steps" error_exit 0 pool)
          keep_alive
          false
          one_session)
init_connection_pool-reconnect_example =
    init_connection_pool-reconnect "steps" keep_alive false pool 0 one_session listens (omega arith)

closed_exit-IsRefused_example :
    IsRefused "steps" keep_alive false 0 [] (exit_session "steps" closed_exit 0 pool one_session)
closed_exit-IsRefused_example =
    closed_exit-IsRefused "steps" keep_alive false pool 0 one_session listens (omega arith)

abbrev surroundings : Surroundings foreign ℕ
surroundings = record {
  seconds = λ k. second;
  took = λ k. 900;
  rounds = 2;
  prepares = λ k. true;
  get_requests = one_request;
  default_bundle_size = 50;
}

steady : IsSteady surroundings steps_request.generation_mode
steady = record {
  last_round = 1;
  rounds = refl;
  over = λ k. omega arith;
  provides = λ spec n h. tt;
}

abbrev rates : List RateMessage
rates = record { qps = 3; connections = 2 } ∷ record { qps = 5; connections = 2 } ∷ []

abbrev text : Matching
text = record { is_match = λ s. true; trim = λ s. s }

handle_connection_from_primary-IsServed_example :
    IsServed surroundings text "1f"
      (λ r. r)
      (λ r. r)
      "steps"
      rates
      (handle_connection_from_primary surroundings text "1f"
        (λ r. r)
        (λ r. r)
        (hello ∷ message (MessageFromPrimary.request steps_request) ∷ map (rated surroundings) rates
          ++ message MessageFromPrimary.finished ∷ [])
        (record { connection_pools = []; usage_listener = []; channels = [] }))
unfolding name_of lookup
handle_connection_from_primary-IsServed_example =
    handle_connection_from_primary-IsServed surroundings text "1f" (λ r. r) (λ r. r)
      (record { primary_host = "10.0.0.1" }) steps_request "steps" rates []
      (record { connection_pools = []; usage_listener = []; channels = [] }) refl refl refl steady
      (omega arith)

-- The primary breaks off.
abbrev source : DataSource String
source = record {
  is_accessible = λ path. true;
  is_creatable = λ path. true;
  file_name = λ path. some "rows.sqlite";
  data_file_url = λ host filename. some "http://10.0.0.1:3030/cluster/data-file/rows.sqlite";
  get = λ url. Preparing.body "SQLi" false;
  nothing = "";
}

abbrev with_file : Request foreign
with_file = record steps_request {
  req = RequestSpec.split_request_file (record {
    file_name = "/data/rows.sqlite";
    inner = none;
    size = 2147483647;
    range_start_inclusive = 1;
    range_end_inclusive = 5;
    next_read_cursor = 1;
  });
}

prepare-IsPrepared_example :
    Returns
      (IsPrepared source "http://10.0.0.1:3030/cluster/data-file/rows.sqlite" []
        (some "/data/rows.sqlite"))
      (prepare source with_file "10.0.0.1" [])
prepare-IsPrepared_example =
    prepare-IsPrepared source with_file "10.0.0.1"
      "http://10.0.0.1:3030/cluster/data-file/rows.sqlite" [] ("rows.sqlite", refl, refl)

breaks_off :
    download_request_file_from_primary source "/data/rows.sqlite" "10.0.0.1" []
    ≡ some (Preparing.failed, ("/data/rows.sqlite", "SQLi") ∷ [])
unfolding Preparing.download_request_file_from_primary Preparing.exists
    Preparing.download_file_from_url Preparing.copy lookup insert
breaks_off = refl

failed_download-again_example :
    download_request_file_from_primary
      (record source { get = λ url. Preparing.body "SQLite" true })
      "/data/rows.sqlite"
      "10.0.0.1"
      (("/data/rows.sqlite", "SQLi") ∷ [])
    ≡ some (Preparing.ok, ("/data/rows.sqlite", "SQLi") ∷ [])
failed_download-again_example =
    failed_download-again source "10.0.0.1" "/data/rows.sqlite" []
      (("/data/rows.sqlite", "SQLi") ∷ []) (λ url. Preparing.body "SQLite" true) refl refl
      breaks_off
