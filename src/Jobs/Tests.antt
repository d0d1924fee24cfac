-- ===== src/Jobs/Tests.antt =====
-- Runs of the registry's operations, and the theorems about it at a registry of three jobs.
use overload.Common.{none, [], ◌∷◌, ◌≡◌, refl}
use overload.Common.Dict.{Dict}
use overload.Jobs.{JobStatus, starting, in_progress, stopped, completed, stop_job, get_job_status}
use overload.Jobs.Paging.{get_job_status-page}

abbrev jobs : Dict JobStatus
jobs = ("a_0", in_progress) ∷ ("a_1", completed) ∷ ("b", starting) ∷ []

stop_a : stop_job "a" jobs ≡ (
  ("a_0", "Job stopped") ∷ ("a_1", "Job already completed") ∷ [],
  ("a_0", stopped) ∷ ("a_1", stopped) ∷ ("b", starting) ∷ [],
)
unfolding stop_job
stop_a = refl

get_job_status-page_example : get_job_status none 1 1 jobs ≡ ("a_1", completed) ∷ []
get_job_status-page_example = get_job_status-page 1 1 jobs
