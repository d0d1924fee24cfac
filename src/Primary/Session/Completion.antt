-- ===== src/Primary/Session/Completion.antt =====
-- A whole test on a cluster: that it ends, and what it asks for in all.
use Prim.Native.String.{String}
use overload.Common.{
  ℕ, suc, ◌+◌, ◌<◌, ◌≤◌, ◌≡◌, refl, sym, subst, false, List, [], length, Option, none, some, arith,
  ap, ◌∙◌, ◌>>=◌,
}
use overload.Common.Dict.{Dict, lookup, insert, lookup-insert}
use overload.Foreign.{Foreign}
use overload.Generator.{into_generator, new, qps_of, connection_rate_of}
use overload.Generator.Stream.{IsPrimed, IsValidated, IsValidated-IsReady, expected}
use overload.Http.{Request}
use overload.Jobs.{JobStatus, starting, in_progress, completed}
use overload.Messages.{MessageFromPrimary, Net, Senders, send_metadata_with_primary}
use overload.Primary.Delivery.{total, qps_in, connections_in}
use overload.Primary.Dispatch.{
  Cluster, is_split, init_senders, create_senders_for_cluster_nodes, send_request_to_secondary,
  send_request_to, send_metadata,
}
use overload.Primary.Session.{Session, is_stopped, run, start, run_job, finish, handle_request}
use overload.Primary.Session.Ticks.{IsQuiet, qps_in-IsQuiet, connections_in-IsQuiet}
use overload.Primary.Totals.{
  total-metadata, total-requests, total-ends, IsIdentified, create_senders_for_cluster_nodes-Found,
}
use overload.RateSpec.{u32_mod}
use overload.Primary.Session.Rounds.{all_qps, all_connections, IsReliable, IsCalm, Ran, run-Ran}
use text.Mathlib.TextEquality.{eq_iff}

module _ {F : Foreign} (cluster : Cluster F) (others : ℕ → Dict JobStatus → Dict JobStatus)
    (request : Request F) where
  abbrev senders_of : Option (List String × Senders) → Senders
  senders_of none = []
  senders_of (some found) = found.1

  -- The secondaries that the job starts with.
  abbrev pub first_senders : Senders
  first_senders = senders_of (create_senders_for_cluster_nodes cluster 0 [])

  record Started (job_id : String) (net : Net F) (s : Session F) : Type 0 where
    second : s.second ≡ 0
    senders : s.senders ≡ first_senders
    live : is_stopped (lookup job_id s.jobs) ≡ false
    same :
        (amount : MessageFromPrimary F → ℕ)
        → IsQuiet amount
        → total amount s.net.log ≡ total amount net.log

  start-Started :
      (job_id : String) (net : Net F) (jobs : Dict JobStatus)
      → is_split cluster request.req ≡ false
      → IsIdentified cluster
      → (s : Session F) × (start cluster others request job_id net jobs ≡ some s)
        × Started job_id net s
  unfolding is_stopped start init_senders send_request_to_secondary send_metadata
  start-Started job_id net jobs whole identified =
      let f = create_senders_for_cluster_nodes-Found cluster 0 [] identified in
      let (host, hosted) = identified.host 0 in
      let greeted = send_metadata_with_primary cluster.world host f.after f.nodes net in
      (
        record {
          senders = f.after;
          net = (send_request_to cluster request f.after f.nodes greeted).1;
          jobs = insert job_id in_progress (insert job_id starting jobs);
          counter = 0;
          sender_dropped = false;
          second = 0;
        },
        rw f.same (rw hosted (rw whole refl)),
        record {
          second = refl;
          senders = ap senders_of (sym f.same);
          live =
              ap is_stopped (lookup-insert job_id job_id in_progress (insert job_id starting jobs))
              ∙ ground (arith, eq_iff job_id job_id);
          same = λ amount q.
              total-requests amount cluster request f.after f.nodes greeted (q.request request)
              ∙ total-metadata amount cluster.world q.metadata host f.after f.nodes net;
        },
      )

  -- The whole job, by its parts.
  record Whole (job_id : String) (net : Net F) (final : Session F) : Type 0 where
    first : Session F
    last : Session F
    started : Started job_id net first
    ran : Ran cluster others request request.duration job_id (into_generator F request) first last
    finished : final ≡ finish cluster others request job_id last

  handle_request-Whole :
      (job_id : String) (net : Net F) (jobs : Dict JobStatus)
      → request.name ≡ some job_id
      → is_split cluster request.req ≡ false
      → IsIdentified cluster
      → request.duration < u32_mod
      → IsValidated F (qps_of F request.qps)
      → IsValidated F (connection_rate_of F request.concurrent_connection)
      → (final : Session F) × (handle_request cluster others request (suc request.duration) net jobs
          ≡ some final)
        × Whole job_id net final
  unfolding handle_request run_job into_generator new
  handle_request-Whole job_id net jobs named whole identified short q c =
      let (first, starts, st) = start-Started job_id net jobs whole identified in
      let primed : IsPrimed F (into_generator F request) = record {
        qps_ready = IsValidated-IsReady F _ q;
        connection_ready = IsValidated-IsReady F _ c;
      } in
      let (last, runs, r) =
        run-Ran cluster others request request.duration job_id (into_generator F request) first
          whole identified primed (omega arith) in
      (
        finish cluster others request job_id last,
        ap (λ n. n >>= run_job cluster others request (suc request.duration) net jobs) named
            ∙ ap
                (λ o. o >>= λ f.
                  run cluster others request (suc request.duration) job_id
                    (into_generator F request) f
                  >>= λ l. some (finish cluster others request job_id l))
                starts
            ∙ ap (λ o. o >>= λ l. some (finish cluster others request job_id l)) runs,
        record { first = first; last = last; started = st; ran = r; finished = refl },
      )

  -- A job with a name and validated steps, whose requests do not come from a split file, in a cluster
  -- that always knows the host of the primary and the ids of the secondaries it lists, ends, whatever
  -- secondaries it lists and whatever the network and other tasks do: the fuel of `duration + 1` rounds is
  -- enough, and nothing panics. Then every sender is gone, the job counts as completed, also if it
  -- was stopped, and no more seconds than the duration were handled.
  pub handle_request-completed :
      (job_id : String) (net : Net F) (jobs : Dict JobStatus)
      → request.name ≡ some job_id
      → is_split cluster request.req ≡ false
      → IsIdentified cluster
      → request.duration < u32_mod
      → IsValidated F (qps_of F request.qps)
      → IsValidated F (connection_rate_of F request.concurrent_connection)
      → (final : Session F) × (handle_request cluster others request (suc request.duration) net jobs
          ≡ some final)
        × (final.senders ≡ [])
        × (lookup job_id final.jobs ≡ some completed)
        × (final.second ≤ request.duration)
  unfolding finish
  handle_request-completed job_id net jobs named whole identified short q c =
      let (final, run_to, w) =
        handle_request-Whole job_id net jobs named whole identified short q c in
      (
        final,
        run_to,
        ap (λ s. s.senders) w.finished,
        ap (λ s. lookup job_id s.jobs) w.finished
            ∙ lookup-insert job_id job_id completed w.last.jobs
            ∙ ground (arith, eq_iff job_id job_id),
        omega (arith, w.ran.seconds, w.started.second, ap (λ s. s.second) w.finished),
      )

  -- A job with a name and validated steps, whose requests do not come from a split file, in a cluster
  -- that always knows the host of the primary and the ids of the secondaries it lists, ends without a
  -- panic. If it starts with a secondary, no attempt to send fails, and no task stops a job
  -- that runs, then the rates that go to all secondaries together, over the whole test, add up to
  -- those that the request asks for in the seconds of its duration: no request and no connection of
  -- a second is lost or asked for twice.
  pub handle_request-total :
      (job_id : String) (net : Net F) (jobs : Dict JobStatus)
      → request.name ≡ some job_id
      → is_split cluster request.req ≡ false
      → IsIdentified cluster
      → request.duration < u32_mod
      → IsValidated F (qps_of F request.qps)
      → IsValidated F (connection_rate_of F request.concurrent_connection)
      → IsReliable cluster others request
      → IsCalm cluster others request job_id
      → 0 < length first_senders
      → let rates =
          expected F
            (qps_of F request.qps)
            (connection_rate_of F request.concurrent_connection)
            0
            request.duration in
        (final : Session F) × (handle_request cluster others request (suc request.duration) net jobs
          ≡ some final)
        × (final.second ≡ request.duration)
        × (total qps_in final.net.log ≡ total qps_in net.log + all_qps rates)
        × (total connections_in final.net.log
            ≡ total connections_in net.log + all_connections rates)
  unfolding finish into_generator new
  handle_request-total job_id net jobs named whole identified short q c reliable calm some_left =
      let (final, run_to, w) =
        handle_request-Whole job_id net jobs named whole identified short q c in
      let (second, qps, connections) =
        w.ran.asked reliable calm w.started.live
          (subst (λ l. 0 < length l) (sym w.started.senders) some_left) in
      (
        final,
        run_to,
        omega (arith, second, w.started.second, ap (λ s. s.second) w.finished),
        ap (λ s. total qps_in s.net.log) w.finished
            ∙ total-ends qps_in cluster.world qps_in-IsQuiet.finished w.last.senders w.last.net
            ∙ omega (arith, qps, w.started.same qps_in qps_in-IsQuiet),
        ap (λ s. total connections_in s.net.log) w.finished
            ∙ total-ends connections_in cluster.world connections_in-IsQuiet.finished w.last.senders
                w.last.net
            ∙ omega (arith, connections, w.started.same connections_in connections_in-IsQuiet),
      )
