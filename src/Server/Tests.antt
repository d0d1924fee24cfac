-- ===== src/Server/Tests.antt =====
-- Three tests, the second of which names a file that is not there, posted to a node that runs alone;
-- and tests posted to a node beside the primary.
use Prim.Native.String
use Prim.Native.String.{String}
use overload.Common.{◌≡◌, refl, true, false, none, some, List, [], ◌∷◌, ◌⊎◌, inl, inr}
use overload.Common.Dict.{Dict}
use overload.Common.Decimal.{show}
use overload.Http.{Request, RequestSpec}
use overload.Jobs.{ErrorCode, error, JobStatus, starting, in_progress, stop_job}
use overload.Datagen.Tests.{numbers, draws}
use overload.Names.{job_id}
use overload.Names.Tests.{matching, long_enough}
use overload.Samples.{foreign, steps_request}
use overload.Server.{
  MultiRequest, Findings, Membership, pre_check, check_spec, numbered, number_all, start_checked,
  handle_multi_request, or_unknown, check_lua, Response, handle_request_cluster,
  handle_request_standalone, handle_as, start_with, start_one,
}
use overload.Server.Forwarding.{response_of, IsRelayed, post-IsRelayed}
use overload.Server.Posting.{IsServing, handle_request_cluster-standalone}
use overload.Server.Relay.{Wire, ClusterView, primary_uri, stop, forward_test_request}
use overload.Server.Relaying.{IsRelayedAs, stop-IsRelayed}
use overload.Server.Starting.{IsStarted, handle_multi_request-IsStarted}

abbrev found : Findings foreign
found = record {
  exists = λ name. false;
  numbers = numbers;
  draws = draws;
  verify_lua_chunk = λ chunk. true;
}

abbrev missing_file : Request foreign
missing_file = record steps_request {
  req = RequestSpec.request_file (record { file_name = "none.sqlite"; inner = none; size = 0 });
}

abbrev posted : MultiRequest foreign
posted = record {
  name = some "load-1f2e3d";
  requests = steps_request ∷ missing_file ∷ steps_request ∷ [];
}

second_fails : handle_multi_request matching "000000" (λ i. found) posted ≡ (
  some (record { job_id = "load-1f2e3d"; status = error ErrorCode.request_file_not_found }),
  record steps_request { name = some "load-1f2e3d_0" } ∷ [],
)
unfolding handle_multi_request start_checked numbered pre_check check_spec check_lua job_id show
second_fails = refl

handle_multi_request-IsStarted_example :
    IsStarted matching "000000"
      (λ i. found)
      (job_id matching "000000" posted.name)
      0
      (number_all (job_id matching "000000" posted.name) 0 posted.requests)
      (handle_multi_request matching "000000" (λ i. found) posted)
handle_multi_request-IsStarted_example =
    handle_multi_request-IsStarted matching "000000" (λ i. found) posted

abbrev beside : Membership
beside = record {
  is_active = true;
  is_primary = false;
  secondaries = none;
  secondaries_again = none;
}

abbrev leading : Membership
leading = record {
  is_active = true;
  is_primary = true;
  secondaries = some ("a" ∷ []);
  secondaries_again = some ("a" ∷ []);
}

post-IsRelayed_example :
    IsRelayed matching "1f2e3d" "000000" beside leading
      (λ r. none)
      (λ r. none)
      found
      steps_request
      posted
post-IsRelayed_example =
    post-IsRelayed matching "1f2e3d" "000000" beside leading (λ r. none) (λ r. none) found
      steps_request posted long_enough refl refl

abbrev jobs : Dict JobStatus
jobs = ("load-1f2e3d", in_progress) ∷ []

-- Every request is answered with `reply`.
abbrev wire : List (String × String) ⊎ Response → Wire
wire reply = record {
  Bytes = List (String × String) ⊎ Response;
  empty = inl [];
  send = λ req. inr reply;
  build_error = λ req. none;
  join = λ url path. some (String.◌++◌ url path);
  read_map = λ bytes. elim bytes [ inl m ↦ inr m | inr r ↦ inl "invalid type" ];
  read_statuses = λ bytes. inl "invalid type";
  read_response = λ bytes. elim bytes [ inl m ↦ none | inr r ↦ some r ];
}

abbrev secondary : ClusterView
secondary = record {
  is_active = true;
  is_primary = false;
  primaries = some (some "http://10.0.0.1:3030" ∷ []);
}

abbrev stopping : Wire
stopping = wire (inl (stop_job "load" jobs).0)

stop-IsRelayed_example :
    IsRelayedAs
      (stop stopping (record secondary { is_primary = true }) "load" jobs).0
      (stop stopping secondary "load" []).0
    × ((stop stopping secondary "load" []).1 ≡ [])
unfolding primary_uri stop
stop-IsRelayed_example =
    stop-IsRelayed stopping secondary (record secondary { is_primary = true })
      "http://10.0.0.1:3030" "load" [] jobs refl refl refl
      (record {
        reply = inl (stop_job "load" jobs).0;
        builds = refl;
        sends = refl;
        reads = λ data' e. cc e;
        rejects = λ e' e. absurd (cc e);
      })

abbrev posting : Wire
posting =
    wire (inr (record { job_id = job_id matching "1f2e3d" steps_request.name; status = starting }))

serving : IsServing leading
serving = record {
  active = refl;
  is_primary = refl;
  secondary = "a";
  others = [];
  before = "a" ∷ [];
  looks = refl;
  looks_again = refl;
}

handle_request_cluster-standalone_example :
    (handle_request_cluster matching "1f2e3d" beside
        (λ r.
          forward_test_request posting
            (λ s. some (inl []))
            "test"
            r
            (some (some "http://10.0.0.1:3030" ∷ [])))
        found
        steps_request
      ≡ some (
        or_unknown
            (job_id matching "1f2e3d" steps_request.name)
            (response_of (handle_request_standalone matching "1f2e3d" found steps_request)),
        [],
      ))
    × (handle_request_cluster matching "000000" leading
          (λ r. none)
          found
          (record steps_request { name = some (job_id matching "1f2e3d" steps_request.name) })
        ≡ handle_request_standalone matching "1f2e3d" found steps_request)
unfolding handle_request_cluster handle_as start_with start_one pre_check check_spec check_lua
    job_id
handle_request_cluster-standalone_example =
    handle_request_cluster-standalone posting matching "1f2e3d" "000000" beside leading (λ r. none)
      found (λ s. some (inl [])) "http://10.0.0.1:3030" [] steps_request long_enough refl refl
      serving (record { sent = inl []; writes = refl; builds = refl; answers = refl })
