-- ===== src/Jobs/Registry.antt =====
-- Stopping, reading and cleaning up jobs by name.
use Prim.Native.String.{String}
use text.Mathlib.Text.{starts_with, ◌==◌}
use text.Mathlib.TextEquality.{eq_iff}
use overload.Common.{
  Bool, false, ◌||◌, Option, none, some, List, [], ◌∷◌, ◌≡◌, refl, map, if◌then◌else◌, arith,
  Bool-cases, inl, inr, sym, subst,
}
use overload.Common.Dict.{Dict, lookup, remove, lookup-remove, lookup-Behind, IsAscending}
use overload.Jobs.{
  JobStatus, stopped, stop_request_by_job_id, get_status_by_job_id, collect_indices, remove_indices,
  cleanup_job,
}

-- What a stop makes of a job's status.
abbrev pub after_stop : Bool → Option JobStatus → Option JobStatus
after_stop hit none = none
after_stop hit (some status) = if hit then some stopped else some status

-- A stop by a job id sets every job whose name starts with it to `stopped`, and leaves all others
-- and the set of jobs as they are.
lookup-stop_request_by_job_id :
    (job_id id : String) (jobs : Dict JobStatus)
    → lookup id (stop_request_by_job_id job_id jobs).1
      ≡ after_stop (starts_with id job_id) (lookup id jobs)
unfolding stop_request_by_job_id lookup
lookup-stop_request_by_job_id job_id id [] = refl
lookup-stop_request_by_job_id job_id id ((j, status) ∷ rest) =
    ground (arith, eq_iff id j, lookup-stop_request_by_job_id job_id id rest)

-- The answer to a stop lists the jobs that a status request by the same id would, each with the
-- status that it had.
stop_request_by_job_id-previous :
    (job_id : String) (jobs : Dict JobStatus)
    → (stop_request_by_job_id job_id jobs).0
      ≡ map (λ (id, status). (id, some status)) (get_status_by_job_id job_id jobs)
unfolding stop_request_by_job_id get_status_by_job_id
stop_request_by_job_id-previous job_id [] = refl
stop_request_by_job_id-previous job_id ((j, status) ∷ rest) =
    ground (arith, stop_request_by_job_id-previous job_id rest)

-- What a clean-up makes of a job's status.
abbrev pub after_cleanup : (JobStatus → Bool) → Option JobStatus → Option JobStatus
after_cleanup predicate none = none
after_cleanup predicate (some status) = if predicate status then none else some status

has : String → List String → Bool
has j [] = false
has j (k ∷ ks) = j == k || has j ks

lookup-remove_indices :
    (j : String) (ks : List String) (jobs : Dict JobStatus)
    → lookup j (remove_indices ks jobs) ≡ (if has j ks then none else lookup j jobs)
unfolding remove_indices has
lookup-remove_indices j [] jobs = refl
lookup-remove_indices j (k ∷ ks) jobs =
    ground (arith, lookup-remove_indices j ks (remove k jobs), lookup-remove k j jobs)

abbrev holds : (JobStatus → Bool) → Option JobStatus → Bool
holds predicate none = false
holds predicate (some status) = predicate status

has-collect_indices :
    (predicate : JobStatus → Bool) (j : String) (jobs : Dict JobStatus)
    → IsAscending jobs
    → has j (collect_indices predicate jobs) ≡ holds predicate (lookup j jobs)
unfolding has collect_indices lookup
has-collect_indices predicate j [] a = refl
has-collect_indices predicate j ((k, status) ∷ rest) a = elim (Bool-cases (j == k)) [
  | inl same ↦
      let gone : lookup j rest ≡ none =
        subst (λ i. lookup i rest ≡ none) (sym ((eq_iff j k).0 same)) (lookup-Behind k rest a.0) in
      ground (arith, has-collect_indices predicate j rest a.1)
  | inr other ↦ ground (arith, has-collect_indices predicate j rest a.1)
]

-- A clean-up that no other task interrupts removes exactly the jobs whose status the predicate
-- accepts, and leaves the status of every other job as it is, if the registry is in the order of
-- its keys, as a `BTreeMap` is.
lookup-cleanup_job :
    (predicate : JobStatus → Bool) (id : String) (jobs : Dict JobStatus)
    → IsAscending jobs
    → lookup id (cleanup_job predicate jobs) ≡ after_cleanup predicate (lookup id jobs)
unfolding cleanup_job
lookup-cleanup_job predicate id jobs a = ground (
  arith,
  lookup-remove_indices id (collect_indices predicate jobs) jobs,
  has-collect_indices predicate id jobs a,
)
