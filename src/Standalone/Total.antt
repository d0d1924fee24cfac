-- ===== src/Standalone/Total.antt =====
-- What a node that runs alone asks of its executor over a whole test.
use Prim.Native.String.{String}
use text.Mathlib.TextEquality.{eq_iff}
use overload.Common.{ℕ, suc, ◌+◌, ◌<◌, ◌≡◌, refl, true, false, Option, some, arith, ap, ◌∙◌, ◌>>=◌}
use overload.Common.Dict.{Dict, lookup, insert, lookup-insert}
use overload.Foreign.{Foreign}
use overload.Generator.{into_generator, new, qps_of, connection_rate_of}
use overload.Generator.Stream.{IsPrimed, IsValidated, IsValidated-IsReady, expected}
use overload.Http.{Request}
use overload.Jobs.{JobStatus, starting, in_progress, completed}
use overload.Messages.{MessageFromPrimary, Net, send_metadata_with_primary, send_end_msg}
use overload.Primary.Delivery.{total, qps_in, connections_in}
use overload.Primary.Dispatch.{Cluster, is_split, send_request_to, send_request_to_secondary}
use overload.Primary.Session.{is_stopped}
use overload.Primary.Session.Rounds.{all_qps, all_connections, IsCalm}
use overload.Primary.Session.Ticks.{IsQuiet, qps_in-IsQuiet, connections_in-IsQuiet}
use overload.Primary.Totals.{total-send, total-metadata, total-requests}
use overload.RateSpec.{u32_mod}
use overload.Standalone.{
  Solo, localhost, run_solo, start_solo, finish_solo, run_solo_job, handle_request_solo,
}
use overload.Standalone.Rounds.{run_solo-Ran}

module _ {F : Foreign} (cluster : Cluster F) (others : ℕ → Dict JobStatus → Dict JobStatus)
    (request : Request F) where
  record Begun (job_id : String) (net : Net F) (s : Solo F) : Type 0 where
    second : s.second ≡ 0
    live : is_stopped (lookup job_id s.jobs) ≡ false
    same :
        (amount : MessageFromPrimary F → ℕ)
        → IsQuiet amount
        → total amount s.net.log ≡ total amount net.log

  start_solo-Begun :
      (job_id : String) (net : Net F) (jobs : Dict JobStatus)
      → is_split cluster request.req ≡ false
      → cluster.connects 0 "localhost" ≡ true
      → (s : Solo F) × (start_solo cluster others request job_id net jobs ≡ some s)
        × Begun job_id net s
  unfolding start_solo send_request_to_secondary is_stopped
  start_solo-Begun job_id net jobs whole connected =
      let greeted = send_metadata_with_primary cluster.world "127.0.0.1" localhost localhost net in
      let running = insert job_id in_progress (insert job_id starting jobs) in
      let asked = send_request_to cluster request localhost localhost greeted in
      (
        record { net = asked.1; jobs = running; counter = 0; second = 0 },
        rw (connected, whole) refl,
        record {
          second = refl;
          live =
              ap is_stopped (lookup-insert job_id job_id in_progress (insert job_id starting jobs))
              ∙ ground (arith, eq_iff job_id job_id);
          same = λ amount q.
              total-requests amount cluster request localhost localhost greeted (q.request request)
              ∙ total-metadata amount cluster.world q.metadata "127.0.0.1" localhost localhost net;
        },
      )

  finish_solo-total :
      (amount : MessageFromPrimary F → ℕ) (job_id : String) (s : Solo F)
      → IsQuiet amount
      → total amount (finish_solo cluster others request job_id s).net.log ≡ total amount s.net.log
  unfolding finish_solo send_end_msg
  finish_solo-total amount job_id s q = omega (
    arith,
    total-send amount cluster.world "localhost" MessageFromPrimary.finished s.net,
    q.finished,
  )

  finish_solo-completed :
      (job_id : String) (s : Solo F)
      → (lookup job_id (finish_solo cluster others request job_id s).jobs ≡ some completed)
        × ((finish_solo cluster others request job_id s).second ≡ s.second)
  unfolding finish_solo
  finish_solo-completed job_id s =
      (lookup-insert job_id job_id completed s.jobs ∙ ground (arith, eq_iff job_id job_id), refl)

  -- A job with a name and validated steps, whose requests do not come from a split file and that
  -- nobody stops, ends on a node that reaches its executor, without a panic and within
  -- `duration + 1` rounds: it counts as completed, and the rates sent to the executor add up to
  -- those that the request asks for in the seconds of its duration.
  pub handle_request_solo-total :
      (job_id : String) (net : Net F) (jobs : Dict JobStatus)
      → request.name ≡ some job_id
      → is_split cluster request.req ≡ false
      → request.duration < u32_mod
      → IsValidated F (qps_of F request.qps)
      → IsValidated F (connection_rate_of F request.concurrent_connection)
      → IsCalm cluster others request job_id
      → cluster.connects 0 "localhost" ≡ true
      → let rates =
          expected F
            (qps_of F request.qps)
            (connection_rate_of F request.concurrent_connection)
            0
            request.duration in
        (final : Solo F) × (handle_request_solo cluster others request
            (suc request.duration)
            net
            jobs
          ≡ some final)
        × (final.second ≡ request.duration)
        × (lookup job_id final.jobs ≡ some completed)
        × (total qps_in final.net.log ≡ total qps_in net.log + all_qps rates)
        × (total connections_in final.net.log
            ≡ total connections_in net.log + all_connections rates)
  unfolding handle_request_solo run_solo_job into_generator new
  handle_request_solo-total job_id net jobs named whole short q c calm connected =
      let (first, starts, b) = start_solo-Begun job_id net jobs whole connected in
      let primed : IsPrimed F (into_generator F request) = record {
        qps_ready = IsValidated-IsReady F _ q;
        connection_ready = IsValidated-IsReady F _ c;
      } in
      let (last, runs, r) =
        run_solo-Ran cluster others request request.duration job_id (into_generator F request) first
          primed (omega arith) calm b.live in
      let (done, second) = finish_solo-completed job_id last in
      let end : Solo F → Option (Solo F) =
        λ l. some (finish_solo cluster others request job_id l) in
      (
        finish_solo cluster others request job_id last,
        ap (λ n. n >>= run_solo_job cluster others request (suc request.duration) net jobs) named
            ∙ ap
                (λ o. o >>= λ f.
                  run_solo cluster others request (suc request.duration) job_id
                    (into_generator F request) f
                  >>= end)
                starts
            ∙ ap (λ o. o >>= end) runs,
        omega (arith, second, r.second, b.second),
        done,
        omega (
          arith,
          finish_solo-total qps_in job_id last qps_in-IsQuiet,
          r.qps,
          b.same qps_in qps_in-IsQuiet,
        ),
        omega (
          arith,
          finish_solo-total connections_in job_id last connections_in-IsQuiet,
          r.connections,
          b.same connections_in connections_in-IsQuiet,
        ),
      )
