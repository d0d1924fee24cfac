-- ===== src/Primary/Session/Stopping.antt =====
-- How soon a stopped test ends.
use Prim.Native.String.{String}
use overload.Common.{
  ℕ, zero, suc, ◌+◌, ◌-◌, ◌%◌, ◌≤◌, ◌≡◌, false, some, arith, ap, ◌∙◌, ◌>>=◌, if◌then◌else◌,
  Bool-cases, inl, inr, ◌==◌,
}
use overload.Common.Dict.{Dict, lookup}
use overload.Foreign.{Foreign}
use overload.Generator.{RequestGenerator}
use overload.Generator.Stream.{IsPrimed, poll_next-end, poll_next-Yields}
use overload.Http.{Request}
use overload.Jobs.{JobStatus, stopped}
use overload.Primary.Dispatch.{Cluster, is_split}
use overload.Primary.Session.{Session, is_stopped, stop_found, handle_item, run}
use overload.Primary.Session.Ticks.{tick-Ticked, counted_on}
use overload.Primary.Session.Rounds.{observed, handle_item-stopped, handle_item-ticked}
use overload.RateSpec.Scheme.Reference.{rate_of}

-- The seconds until the next check.
abbrev until_check : ℕ → ℕ
until_check counter = if counter % 5 == 0 then 0 else 5 - counter % 5

until_check-counted_on :
    (counter : ℕ)
    → counter ≤ 10
    → (counter % 5 == 0) ≡ false
    → until_check (counted_on counter) + 1 ≡ until_check counter
until_check-counted_on counter h e = ground arith

module _ {F : Foreign} (cluster : Cluster F) (others : ℕ → Dict JobStatus → Dict JobStatus)
    (request : Request F) where
  -- Other tasks leave a stopped job as it is.
  abbrev pub StaysStopped : String → Type 0
  StaysStopped job_id =
      (n : ℕ) (jobs : Dict JobStatus)
      → lookup job_id jobs ≡ some stopped
      → lookup job_id (others n jobs) ≡ some stopped

  stop_found-stopped :
      (job_id : String) (s : Session F)
      → StaysStopped job_id
      → lookup job_id s.jobs ≡ some stopped
      → stop_found cluster others request job_id (observed cluster others request s)
        ≡ (s.counter % 5 == 0)
  unfolding stop_found is_stopped
  stop_found-stopped job_id s h now = rw (h s.second s.jobs now) (ground arith)

  run-until_check :
      (left : ℕ) (job_id : String) (stream : RequestGenerator F) (s : Session F)
      → is_split cluster request.req ≡ false
      → IsPrimed F stream
      → stream.current_count + left ≡ stream.total
      → StaysStopped job_id
      → lookup job_id s.jobs ≡ some stopped
      → s.counter ≤ 10
      → (last : Session F) × (run cluster others request (suc left) job_id stream s ≡ some last)
        × (last.second ≤ s.second + until_check s.counter)
  unfolding run handle_item
  run-until_check zero job_id stream s whole p e h now low =
      let end = poll_next-end F stream (omega arith) in
      (
        s,
        ap
            (λ p.
              p
              >>= handle_item cluster others request (run cluster others request 0 job_id) job_id s)
            end,
        omega arith,
      )
  run-until_check (suc left) job_id stream s whole p e h now low =
      let y = poll_next-Yields F stream p (omega arith) in
      let again = run cluster others request (suc left) job_id in
      let rates : ℕ × ℕ = (
        rate_of F stream.qps_scheme stream.current_count,
        rate_of F stream.concurrent_connection stream.current_count,
      ) in
      let step = ap (λ p. p >>= handle_item cluster others request again job_id s) in
      elim (Bool-cases (s.counter % 5 == 0)) [
        | inl due ↦ (
          observed cluster others request s,
          step y.item
              ∙ handle_item-stopped cluster others request again job_id s rates y.after
                  (stop_found-stopped job_id s h now ∙ due),
          omega arith,
        )
        | inr not_due ↦
            let (s', ticked, t, counter) =
              tick-Ticked cluster others request rates (observed cluster others request s) whole
                (λ ten. absurd (ground (arith, not_due, ten))) in
            let (last, rest, soon) =
              run-until_check left job_id y.after s' whole y.primed
                (omega (arith, y.count, y.total)) h
                (ap (lookup job_id) t.jobs ∙ h s.second s.jobs now) (rw counter (ground arith)) in
            (
              last,
              step y.item
                  ∙ handle_item-ticked cluster others request again job_id s s' rates y.after
                      (stop_found-stopped job_id s h now ∙ not_due) ticked
                  ∙ rest,
              omega (
                arith,
                soon,
                t.second,
                ap until_check counter,
                until_check-counted_on s.counter low not_due,
              ),
            )
      ]

  -- Once a job is stopped and stays so, its loop ends without a panic, and handles at most four
  -- more seconds, for a job whose requests do not come from a split file.
  pub run-stopped :
      (left : ℕ) (job_id : String) (stream : RequestGenerator F) (s : Session F)
      → is_split cluster request.req ≡ false
      → IsPrimed F stream
      → stream.current_count + left ≡ stream.total
      → StaysStopped job_id
      → lookup job_id s.jobs ≡ some stopped
      → s.counter ≤ 10
      → (last : Session F) × (run cluster others request (suc left) job_id stream s ≡ some last)
        × (last.second ≤ s.second + 4)
  run-stopped left job_id stream s whole p e h now low =
      let (last, runs, soon) = run-until_check left job_id stream s whole p e h now low in
      (last, runs, ground (arith, soon))
