-- ===== src/Executor/Connection.antt =====
-- cluster-executor/src/secondary.rs: a whole connection of a primary.
use Prim.Native.String.{String}
use overload.Common.{ℕ, Bool, true, false, List, [], Option, none, some, ◌>>=◌, if◌then◌else◌}
use overload.Common.Int.{pos}
use overload.Executor.Registry.{Registry, init_connection_pool, exit_session}
use overload.Executor.Session.{
  Received, Exit, Session, Progress, running, exited, Surroundings, check_for_metadata_msg,
  check_for_request_msg, listen,
}
use overload.Foreign.{Foreign}
use overload.Http.{Request, LoadGenerationMode, ConcurrentConnectionRateSpec}
use overload.Messages.{Metadata}
use overload.Names.{Matching, job_id}
use overload.Pool.{QueuePool}

-- How a connection is answered: with an error before the loop, by a loop that still runs, or with
-- the end of the session.
pub data Served (F : Foreign) (Handle : Type 0) : Type 0 where
  rejected : Served F Handle
  open_ : Session F Handle → Served F Handle
  served : Exit → Session F Handle → Served F Handle

unfoldable pub is_elastic : {F : Foreign} → ConcurrentConnectionRateSpec F → Bool
is_elastic (ConcurrentConnectionRateSpec.elastic spec) = true
is_elastic _ = false

-- In immediate mode the name has to be there: `none` is the panic of `unwrap`.
unfoldable pub name_of : {F : Foreign} → Matching → (new_v4 : String) → Request F → Option String
name_of text new_v4 request = elim request.generation_mode [
  | LoadGenerationMode.immediate ↦ request.name
  | LoadGenerationMode.batch size ↦ some (job_id text new_v4 request.name)
]

-- Both messages that come before the test.
unfoldable pub check_for_request_after :
    {F : Foreign} → Option (Metadata × List (Received F)) → Option (Request F × List (Received F))
check_for_request_after none = none
check_for_request_after (some (metadata, rx)) = check_for_request_msg rx

unfoldable pub shake_hands :
    {F : Foreign} → List (Received F) → Option (Request F × List (Received F))
shake_hands rx = check_for_request_after (check_for_metadata_msg rx)

-- `others` is what other sessions do while this one waits for a pool, and `meanwhile` while it
-- listens.
module _ {F : Foreign} {Handle : Type 0} (env : Surroundings F Handle) (text : Matching)
    (new_v4 : String) (others meanwhile : Registry Handle → Registry Handle) where
  unfoldable pub begin : Request F → QueuePool Handle → Session F Handle
  begin request queue_pool = record {
    context = record {
      prev_connection_count = 0;
      time_offset = pos 0;
      queue_pool = queue_pool;
      request_spec = request.req;
    };
    reset = false;
    rates = 0;
    requests = 1;
    sent = [];
  }

  unfoldable pub close :
      String → (tx : ℕ) → Registry Handle → Progress F Handle → Served F Handle × Registry Handle
  close job_id tx r (running s) = (open_ s, r)
  close job_id tx r (exited e s) = (served e s, exit_session job_id e tx s.context.queue_pool r)

  unfoldable pub run_session :
      Request F
      → String
      → List (Received F)
      → Option (QueuePool Handle × ℕ) × Registry Handle
      → Option (Served F Handle × Registry Handle)
  run_session request job_id rx (none, r) = some (rejected, r)
  run_session request job_id rx (some (queue_pool, tx), r) = do
    progress ← listen env request.generation_mode rx (begin request queue_pool)
    some (close job_id tx (meanwhile r) progress)

  unfoldable pub serve_job :
      Request F
      → List (Received F)
      → Registry Handle
      → String
      → Option (Served F Handle × Registry Handle)
  serve_job request rx r job_id =
      let elastic_pool = is_elastic request.concurrent_connection in
      if env.prepares 0
      then init_connection_pool job_id others request.connection_keep_alive elastic_pool r
        >>= run_session request job_id rx
      else some (rejected, r)

  unfoldable pub serve :
      Request F → List (Received F) → Registry Handle → Option (Served F Handle × Registry Handle)
  serve request rx r = name_of text new_v4 request >>= serve_job request rx r

  unfoldable pub greet :
      Registry Handle
      → Option (Request F × List (Received F))
      → Option (Served F Handle × Registry Handle)
  greet r none = some (rejected, r)
  greet r (some (request, rx)) = serve request rx r

  -- `handle_connection_from_primary`, with that of the second version.
  unfoldable pub handle_connection_from_primary :
      List (Received F) → Registry Handle → Option (Served F Handle × Registry Handle)
  handle_connection_from_primary rx r = greet r (shake_hands rx)
