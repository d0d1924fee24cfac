-- ===== src/Standalone/Rounds.antt =====
-- The loop over the seconds of a test on a node that runs alone.
use Prim.Native.String.{String}
use overload.Common.{
  ℕ, zero, suc, ◌+◌, ◌%◌, ◌≡◌, refl, false, ◌&&◌, Option, some, arith, ap, ◌∙◌, ◌>>=◌,
  if◌then◌else◌, ◌==◌,
}
use overload.Common.Dict.{Dict, lookup}
use overload.Foreign.{Foreign}
use overload.Generator.{RequestGenerator}
use overload.Generator.Stream.{IsPrimed, expected, expected-same, poll_next-end, poll_next-Yields}
use overload.Http.{Request}
use overload.Jobs.{JobStatus}
use overload.Messages.{MessageFromPrimary}
use overload.Primary.Delivery.{total, qps_in, connections_in, rates_of}
use overload.Primary.Dispatch.{Cluster}
use overload.Primary.Session.{is_stopped}
use overload.Primary.Session.Rounds.{all_qps, all_connections, IsCalm}
use overload.Primary.Totals.{total-send}
use overload.RateSpec.Scheme.Reference.{rate_of}
use overload.Standalone.{Solo, send_rate_message_to_executor, handle_second, run_solo}

module _ {F : Foreign} (cluster : Cluster F) (others : ℕ → Dict JobStatus → Dict JobStatus)
    (request : Request F) where
  -- One second of a job that nobody stops.
  abbrev sent_second : ℕ × ℕ → Solo F → Solo F
  sent_second rates s = send_rate_message_to_executor cluster others request rates (record s {
    jobs = others s.second s.jobs;
    counter = if (s.counter + 1) % 5 == 0 then 0 else s.counter + 1;
  })

  handle_second-calm :
      (rest : RequestGenerator F → Solo F → Option (Solo F)) (job_id : String) (s : Solo F)
      (rates : ℕ × ℕ) (stream : RequestGenerator F)
      → is_stopped (lookup job_id (others s.second s.jobs)) ≡ false
      → handle_second cluster others request rest job_id s (some rates, stream)
        ≡ rest stream (sent_second rates s)
  unfolding handle_second
  handle_second-calm rest job_id s rates stream e =
      let idle : ((s.counter + 1) % 5 == 0 && is_stopped (lookup job_id (others s.second s.jobs)))
          ≡ false =
        ground (arith, e) in
      rw (idle, handle_second) refl

  sent_second-total :
      (rates : ℕ × ℕ) (s : Solo F)
      → ((sent_second rates s).second ≡ s.second + 1)
        × ((sent_second rates s).jobs ≡ others s.second s.jobs)
        × (total qps_in (sent_second rates s).net.log ≡ total qps_in s.net.log + rates.0)
        × (total connections_in (sent_second rates s).net.log
            ≡ total connections_in s.net.log + rates.1)
  unfolding send_rate_message_to_executor rates_of
  sent_second-total rates s =
      let msg : MessageFromPrimary F =
        MessageFromPrimary.rates (record { qps = rates.0; connections = rates.1 }) in
      (
        refl,
        refl,
        total-send qps_in cluster.world "localhost" msg s.net,
        total-send connections_in cluster.world "localhost" msg s.net,
      )

  pub record Ran (left : ℕ) (stream : RequestGenerator F) (s last : Solo F) : Type 0 where
    pub second : last.second ≡ s.second + left
    pub qps :
        total qps_in last.net.log
        ≡ total qps_in s.net.log
          + all_qps
              (expected F stream.qps_scheme stream.concurrent_connection stream.current_count left)
    pub connections :
        total connections_in last.net.log
        ≡ total connections_in s.net.log
          + all_connections
              (expected F stream.qps_scheme stream.concurrent_connection stream.current_count left)

  pub run_solo-Ran :
      (left : ℕ) (job_id : String) (stream : RequestGenerator F) (s : Solo F)
      → IsPrimed F stream
      → stream.current_count + left ≡ stream.total
      → IsCalm cluster others request job_id
      → is_stopped (lookup job_id s.jobs) ≡ false
      → (last : Solo F) × (run_solo cluster others request (suc left) job_id stream s ≡ some last)
        × Ran left stream s last
  unfolding run_solo handle_second
  run_solo-Ran zero job_id stream s p e calm live =
      let end = poll_next-end F stream (omega arith) in
      (
        s,
        ap
            (λ p.
              p
              >>= handle_second cluster others request (run_solo cluster others request 0 job_id)
                  job_id s)
            end,
        record { second = omega arith; qps = omega arith; connections = omega arith },
      )
  run_solo-Ran (suc left) job_id stream s p e calm live =
      let y = poll_next-Yields F stream p (omega arith) in
      let again = run_solo cluster others request (suc left) job_id in
      let rates : ℕ × ℕ = (
        rate_of F stream.qps_scheme stream.current_count,
        rate_of F stream.concurrent_connection stream.current_count,
      ) in
      let s' = sent_second rates s in
      let (second, jobs, qps, connections) = sent_second-total rates s in
      let still = calm s.second s.jobs live in
      let (last, rest, r) =
        run_solo-Ran left job_id y.after s' y.primed (omega (arith, y.count, y.total)) calm
          (ap (λ l. is_stopped (lookup job_id l)) jobs ∙ still) in
      let later =
        ap (λ n. expected F y.after.qps_scheme y.after.concurrent_connection n left) y.count
        ∙ expected-same F _ _ _ _ (stream.current_count + 1) left y.same_qps y.same_connection in
      (
        last,
        ap (λ p. p >>= handle_second cluster others request again job_id s) y.item
            ∙ handle_second-calm again job_id s rates y.after still
            ∙ rest,
        record {
          second = omega (arith, r.second, second);
          qps = omega (arith, qps, r.qps, ap all_qps later);
          connections = omega (arith, connections, r.connections, ap all_connections later);
        },
      )
