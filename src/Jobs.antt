-- ===== src/Jobs.antt =====
-- The registry of jobs: `JOB_STATUS` of cluster-executor/src/lib.rs with its operations, and the
-- handlers above it in overload/src/overload/standalone.rs and cluster/mod.rs. An answer that the
-- source collects into a `HashMap` is the list of its entries; their keys differ.
pub mod Registry
pub mod Paging
pub mod Tests
use Prim.Native.String.{String}
use text.Mathlib.Text.{starts_with}
use overload.Common.{
  ℕ, ◌+◌, ◌-◌, Bool, true, false, ◌&&◌, Option, none, some, List, [], ◌∷◌, map, length, ltb,
  if◌then◌else◌,
}
use overload.Common.Dict.{Dict, lookup, insert, remove}

pub data ErrorCode : Type 0 where
  inactive_cluster no_secondary sqlite_open_failed preparation_failed secondary_cluster_node :
      ErrorCode
  request_file_not_found lua_parse_failure body_generation_failure : ErrorCode
  uri_param_generation_failure others : ErrorCode

pub data JobStatus : Type 0 where
  starting in_progress stopped completed failed : JobStatus
  error : ErrorCode → JobStatus

-- `stop_request_by_job_id`: the jobs whose name starts with `job_id`, with their status until then.
pub stop_request_by_job_id :
    String → Dict JobStatus → List (String × Option JobStatus) × Dict JobStatus
stop_request_by_job_id job_id [] = ([], [])
stop_request_by_job_id job_id ((id, status) ∷ rest) =
    let (stopped_jobs, rest') = stop_request_by_job_id job_id rest in
    if starts_with id job_id
    then ((id, some status) ∷ stopped_jobs, (id, stopped) ∷ rest')
    else (stopped_jobs, (id, status) ∷ rest')

pub get_status_by_job_id : String → Dict JobStatus → Dict JobStatus
get_status_by_job_id job_id [] = []
get_status_by_job_id job_id ((id, status) ∷ rest) =
    let found = get_status_by_job_id job_id rest in
    if starts_with id job_id then (id, status) ∷ found else found

-- The two blocks of `cleanup_job`. The lock is released between them.
pub collect_indices : (JobStatus → Bool) → Dict JobStatus → List String
collect_indices predicate [] = []
collect_indices predicate ((id, status) ∷ rest) =
    let indices = collect_indices predicate rest in
    if predicate status then id ∷ indices else indices

pub remove_indices : List String → Dict JobStatus → Dict JobStatus
remove_indices [] jobs = jobs
remove_indices (id ∷ indices) jobs = remove_indices indices (remove id jobs)

pub cleanup_job : (JobStatus → Bool) → Dict JobStatus → Dict JobStatus
unfolding collect_indices remove_indices
cleanup_job predicate jobs = remove_indices (collect_indices predicate jobs) jobs

-- The predicate that `init` of overload/lib.rs passes every half an hour.
pub is_done : JobStatus → Bool
is_done failed = true
is_done stopped = true
is_done completed = true
is_done _ = false

-- The loop of `get_job_status` over all jobs, for a page of `limit` jobs from `offset` on.
pub page : (count len offset limit : ℕ) → Dict JobStatus → Dict JobStatus
page count len offset limit [] = []
page count len offset limit ((id, status) ∷ rest) =
    let count' = count + 1 in
    let later = page count' len offset limit rest in
    if ltb len count
    then []
    else (if ltb offset count' && ltb limit (count' - offset)
        then []
        else (if ltb offset count' then (id, status) ∷ later else later))

pub get_job_status : Option String → ℕ → ℕ → Dict JobStatus → Dict JobStatus
unfolding get_status_by_job_id page
get_job_status (some job_id) offset limit jobs = get_status_by_job_id job_id jobs
get_job_status none offset limit jobs = page 0 (length jobs) offset limit jobs

pub stop_message : Option JobStatus → String
stop_message (some starting) = "Job stopped"
stop_message (some in_progress) = "Job stopped"
stop_message (some stopped) = "Job already stopped"
stop_message (some completed) = "Job already completed"
stop_message (some failed) = "Job failed"
stop_message (some (error code)) = "Invalid job status"
stop_message none = "Job Not Found"

-- `stop` of standalone.rs and `stop_job` of cluster/mod.rs.
pub stop_job : String → Dict JobStatus → List (String × String) × Dict JobStatus
unfolding stop_request_by_job_id stop_message
stop_job job_id jobs =
    let (result, jobs') = stop_request_by_job_id job_id jobs in
    (map (λ (id, status). (id, stop_message status)) result, jobs')
