-- ===== src/Executor/WholeTest.antt =====
-- cluster-executor/src/secondary.rs: a test from its first message to its last.
use Prim.Native.String.{String}
use overload.Common.{
  ℕ, ◌<◌, ◌≡◌, refl, sym, ap, subst, ◌∙◌, Bool, true, List, ◌∷◌, ◌++◌, length, map, All, Option,
  none, some, ◌>>=◌, if◌then◌else◌, arith,
}
use overload.Common.Dict.{lookup, lookup-remove_self}
use overload.Executor.Connection.{
  Served, rejected, served, shake_hands, check_for_request_after, is_elastic, name_of, begin, close,
  run_session, serve_job, serve, greet, handle_connection_from_primary,
}
use overload.Executor.Registry.{Registry, init_connection_pool, new_listener, exit_session}
use overload.Executor.Serving.{IsSteady, KeepsTo, rated, listen-Listened}
use overload.Executor.Session.{
  Received, message, finish_exit, Session, Surroundings, check_for_metadata_msg, try_request_msg,
}
use overload.Foreign.{Foreign}
use overload.Http.{Request, ConnectionKeepAlive}
use overload.Messages.{Metadata, MessageFromPrimary, RateMessage}
use overload.Names.{Matching}
use overload.Pool.{QueuePool}
use overload.Pool as Pool
use overload.RateSpec.{u32_mod}

unknown_pool :
    {Handle : Type 0} (name : String) (others : Registry Handle → Registry Handle)
    (keep_alive : ConnectionKeepAlive) (elastic_pool : Bool) (r : Registry Handle)
    → lookup name r.usage_listener ≡ none
    → init_connection_pool name others keep_alive elastic_pool r
      ≡ some (new_listener name (Pool.new keep_alive elastic_pool) r)
unfolding init_connection_pool
unknown_pool name others keep_alive elastic_pool r h = rw (h, init_connection_pool) refl

module _ {F : Foreign} {Handle : Type 0} (env : Surroundings F Handle) (text : Matching)
    (new_v4 : String) (others meanwhile : Registry Handle → Registry Handle) where
  -- The rates of a test and its last message.
  abbrev messages : List RateMessage → List (Received F) → List (Received F)
  messages rates rest = map (rated env) rates ++ message MessageFromPrimary.finished ∷ rest

  -- A test that was served to its end.
  pub record IsServed (name : String) (rates : List RateMessage)
      (found : Option (Served F Handle × Registry Handle)) : Type 0 where
    pub session : Session F Handle
    pub after : Registry Handle
    pub ends : found ≡ some (served finish_exit session, after)
    pub counted : session.rates ≡ length rates
    pub keeps : KeepsTo rates session.sent
    pub no_listener : lookup name after.usage_listener ≡ none
    pub no_pool : lookup name after.connection_pools ≡ none

  run_session-IsServed :
      (request : Request F) (name : String) (rates : List RateMessage) (rest : List (Received F))
      (pool : QueuePool Handle) (tx : ℕ) (r : Registry Handle)
      → IsSteady env request.generation_mode
      → All (λ rate. rate.qps < u32_mod) rates
      → IsServed name rates (
          run_session env text new_v4 others meanwhile request name
            (map (rated env) rates ++ message MessageFromPrimary.finished ∷ rest)
            (some (pool, tx), r))
  unfolding run_session close exit_session begin
  run_session-IsServed request name rates rest pool tx r steady fits =
      let l =
        listen-Listened env request.generation_mode steady rates
          (begin env text new_v4 others meanwhile request pool) rest fits in
      record {
        session = l.last;
        after = _;
        ends =
            ap
              (λ found. found >>= λ progress.
                some (close env text new_v4 others meanwhile name tx (meanwhile r) progress))
              l.ends;
        counted = omega (arith, l.counted);
        keeps = subst (KeepsTo rates) (sym l.sent) l.keeps;
        no_listener = lookup-remove_self name (meanwhile r).usage_listener;
        no_pool = lookup-remove_self name (meanwhile r).connection_pools;
      }

  -- A new test on an executor that knows nothing of the job: with every second over in time, a
  -- provider that keeps its promise, and the request's file there, the executor handles all rates
  -- and ends with the last message; in no second it sends more requests than the rate says, and
  -- then no pool and no listener of the job is left.
  pub handle_connection_from_primary-IsServed :
      (metadata : Metadata) (request : Request F) (name : String) (rates : List RateMessage)
      (rest : List (Received F)) (r : Registry Handle)
      → name_of text new_v4 request ≡ some name
      → env.prepares 0 ≡ true
      → lookup name r.usage_listener ≡ none
      → IsSteady env request.generation_mode
      → All (λ rate. rate.qps < u32_mod) rates
      → IsServed name rates (
          handle_connection_from_primary env text new_v4 others meanwhile
            (message (MessageFromPrimary.metadata metadata)
                ∷ message (MessageFromPrimary.request request)
                ∷ map (rated env) rates
              ++ message MessageFromPrimary.finished ∷ rest)
            r)
  unfolding handle_connection_from_primary shake_hands check_for_request_after
      check_for_metadata_msg try_request_msg greet serve serve_job new_listener
  handle_connection_from_primary-IsServed metadata request name rates rest r named prepared unknown
        steady fits =
      subst (IsServed name rates)
        (sym (
          ap
            (λ found.
              found >>= serve_job env text new_v4 others meanwhile request (messages rates rest) r)
            named
          ∙ ap
              (λ b.
                if b
                then init_connection_pool name others request.connection_keep_alive
                    (is_elastic request.concurrent_connection) r
                  >>= run_session env text new_v4 others meanwhile request name
                      (messages rates rest)
                else some (rejected, r))
              prepared
          ∙ ap
              (λ found.
                found
                >>= run_session env text new_v4 others meanwhile request name (messages rates rest))
              (unknown_pool name others request.connection_keep_alive
                (is_elastic request.concurrent_connection) r unknown)))
        (run_session-IsServed request name rates rest
          (Pool.new request.connection_keep_alive (is_elastic request.concurrent_connection))
          (length r.channels) _ steady fits)
