-- ===== src/Primary/Session/Rounds.antt =====
-- The loop over the seconds of a test: it ends, and what it asks of the secondaries in all.
use Prim.Native.String.{String}
use overload.Common.{
  ℕ, zero, suc, ◌+◌, ◌<◌, ◌≤◌, ◌≡◌, refl, true, false, List, length, Option, some, arith, ap, ◌∙◌,
  ◌>>=◌, Bool-cases, inl, inr, sum, map,
}
use overload.Common.Dict.{Dict, lookup}
use overload.Foreign.{Foreign}
use overload.Generator.{RequestGenerator}
use overload.Generator.Stream.{IsPrimed, expected, expected-same, poll_next-end, poll_next-Yields}
use overload.Http.{Request}
use overload.Jobs.{JobStatus}
use overload.Primary.Delivery.{total, qps_in, connections_in}
use overload.Primary.Dispatch.{Cluster, is_split}
use overload.Primary.Session.{Session, is_stopped, stop_found, handle_item, run, tick}
use overload.Primary.Session.Ticks.{tick-Ticked}
use overload.Primary.Totals.{IsIdentified}
use overload.RateSpec.Scheme.Reference.{rate_of}

-- The rates of all seconds, added up.
abbrev pub all_qps : List (ℕ × ℕ) → ℕ
all_qps rates = sum (map (λ r. r.0) rates)

abbrev pub all_connections : List (ℕ × ℕ) → ℕ
all_connections rates = sum (map (λ r. r.1) rates)

module _ {F : Foreign} (cluster : Cluster F) (others : ℕ → Dict JobStatus → Dict JobStatus)
    (request : Request F) where
  -- The network fails no attempt, and no other task stops a job that runs.
  abbrev pub IsReliable : Type 0
  IsReliable = (n : ℕ) (id : String) → cluster.world n id ≡ true

  abbrev pub IsCalm : String → Type 0
  IsCalm job_id =
      (n : ℕ) (jobs : Dict JobStatus)
      → is_stopped (lookup job_id jobs) ≡ false
      → is_stopped (lookup job_id (others n jobs)) ≡ false

  pub record Ran (left : ℕ) (job_id : String) (stream : RequestGenerator F) (s last : Session F)
      : Type 0 where
    pub seconds : last.second ≤ s.second + left
    pub asked :
        IsReliable
        → IsCalm job_id
        → is_stopped (lookup job_id s.jobs) ≡ false
        → 0 < length s.senders
        → (last.second ≡ s.second + left)
          × (total qps_in last.net.log
              ≡ total qps_in s.net.log
                + all_qps (
                    expected F stream.qps_scheme stream.concurrent_connection stream.current_count
                      left))
          × (total connections_in last.net.log
              ≡ total connections_in s.net.log
                + all_connections (
                    expected F stream.qps_scheme stream.concurrent_connection stream.current_count
                      left))

  -- The session as the loop sees it after other tasks had their turn.
  abbrev pub observed : Session F → Session F
  observed s = record s { jobs = others s.second s.jobs }

  stop_found-calm :
      (job_id : String) (s : Session F)
      → IsCalm job_id
      → is_stopped (lookup job_id s.jobs) ≡ false
      → stop_found cluster others request job_id (observed s) ≡ true
      → ⊥
  unfolding stop_found
  stop_found-calm job_id s calm live e = ground (arith, calm s.second s.jobs live)

  pub handle_item-stopped :
      (rest : RequestGenerator F → Session F → Option (Session F)) (job_id : String) (s : Session F)
      (rates : ℕ × ℕ) (stream : RequestGenerator F)
      → stop_found cluster others request job_id (observed s) ≡ true
      → handle_item cluster others request rest job_id s (some rates, stream) ≡ some (observed s)
  unfolding handle_item
  handle_item-stopped rest job_id s rates stream e = rw (e, handle_item) refl

  pub handle_item-ticked :
      (rest : RequestGenerator F → Session F → Option (Session F)) (job_id : String)
      (s s' : Session F) (rates : ℕ × ℕ) (stream : RequestGenerator F)
      → stop_found cluster others request job_id (observed s) ≡ false
      → tick cluster others request rates (observed s) ≡ some s'
      → handle_item cluster others request rest job_id s (some rates, stream) ≡ rest stream s'
  unfolding handle_item
  handle_item-ticked rest job_id s s' rates stream e t = rw (e, handle_item) (rw t refl)

  pub run-Ran :
      (left : ℕ) (job_id : String) (stream : RequestGenerator F) (s : Session F)
      → is_split cluster request.req ≡ false
      → IsIdentified cluster
      → IsPrimed F stream
      → stream.current_count + left ≡ stream.total
      → (last : Session F) × (run cluster others request (suc left) job_id stream s ≡ some last)
        × Ran left job_id stream s last
  unfolding run handle_item
  run-Ran zero job_id stream s whole known p e =
      let end = poll_next-end F stream (omega arith) in
      (
        s,
        ap
            (λ p.
              p
              >>= handle_item cluster others request (run cluster others request 0 job_id) job_id s)
            end,
        record {
          seconds = omega arith;
          asked = λ reliable calm live some_left. (omega arith, omega arith, omega arith);
        },
      )
  run-Ran (suc left) job_id stream s whole known p e =
      let y = poll_next-Yields F stream p (omega arith) in
      let seen = record s { jobs = others s.second s.jobs } in
      let again = run cluster others request (suc left) job_id in
      let rates : ℕ × ℕ = (
        rate_of F stream.qps_scheme stream.current_count,
        rate_of F stream.concurrent_connection stream.current_count,
      ) in
      let step = ap (λ p. p >>= handle_item cluster others request again job_id s) in
      elim (Bool-cases (stop_found cluster others request job_id seen)) [
        | inl found ↦ (
          seen,
          step y.item ∙ handle_item-stopped again job_id s rates y.after found,
          record {
            seconds = omega arith;
            asked =
                λ reliable calm live some_left. absurd (stop_found-calm job_id s calm live found);
          },
        )
        | inr not_found ↦
            let (s', ticked, t, _) =
              tick-Ticked cluster others request rates seen whole (λ _. known) in
            let (last, rest, r) =
              run-Ran left job_id y.after s' whole known y.primed
                (omega (arith, y.count, y.total)) in
            let later =
              ap (λ n. expected F y.after.qps_scheme y.after.concurrent_connection n left) y.count
              ∙ expected-same F _ _ _ _ (stream.current_count + 1) left y.same_qps
                  y.same_connection in
            (
              last,
              step y.item
                  ∙ handle_item-ticked again job_id s s' rates y.after not_found ticked
                  ∙ rest,
              record {
                seconds = omega (arith, r.seconds, t.second);
                asked = λ reliable calm live some_left.
                    let (still_left, qps, connections) = t.asked reliable some_left in
                    let (second, rest_qps, rest_connections) =
                      r.asked reliable calm
                        (ap (λ l. is_stopped (lookup job_id l)) t.jobs ∙ calm s.second s.jobs live)
                        still_left in
                    (
                      omega (arith, second, t.second),
                      omega (arith, qps, rest_qps, ap all_qps later),
                      omega (arith, connections, rest_connections, ap all_connections later),
                    );
              },
            )
      ]
