-- ===== src/Jobs/Paging.antt =====
-- A page of the job list.
use Prim.Native.String.{String}
use overload.Common.{ℕ, suc, zero, ◌+◌, ◌≡◌, refl, sym, [], ◌∷◌, none, length, take, drop, arith}
use overload.Common.Dict.{Dict}
use overload.Jobs.{JobStatus, page, get_job_status}

take-nil : (n : ℕ) → take {A = String × JobStatus} n [] ≡ []
take-nil zero = refl
take-nil (suc n) = refl

-- Behind the offset: `taken` jobs are in the page, and `keep` more may be.
page_taking :
    (count len offset limit taken keep : ℕ) (jobs : Dict JobStatus)
    → count + length jobs ≡ len
    → count ≡ offset + taken
    → taken + keep ≡ limit
    → page count len offset limit jobs ≡ take keep jobs
unfolding page
page_taking count len offset limit taken keep [] e c k = sym (take-nil keep)
page_taking count len offset limit taken zero ((id, status) ∷ rest) e c k = ground arith
page_taking count len offset limit taken (suc keep) ((id, status) ∷ rest) e c k =
    ground (arith, page_taking (count + 1) len offset limit (taken + 1) keep rest)

-- In front of the offset: `skip` jobs are still to be passed over.
page_skipping :
    (count len offset limit skip : ℕ) (jobs : Dict JobStatus)
    → count + length jobs ≡ len
    → count + skip ≡ offset
    → page count len offset limit jobs ≡ take limit (drop skip jobs)
unfolding page
page_skipping count len offset limit zero jobs e c =
    page_taking count len offset limit 0 limit jobs e (omega arith) (omega arith)
page_skipping count len offset limit (suc skip) [] e c = sym (take-nil limit)
page_skipping count len offset limit (suc skip) ((id, status) ∷ rest) e c =
    ground (arith, page_skipping (count + 1) len offset limit skip rest)

-- Without a job id the status handler answers with the jobs from the one at `offset` on, in the
-- order of their names, and with no more than `limit` of them.
pub get_job_status-page :
    (offset limit : ℕ) (jobs : Dict JobStatus)
    → get_job_status none offset limit jobs ≡ take limit (drop offset jobs)
unfolding get_job_status
get_job_status-page offset limit jobs =
    page_skipping 0 (length jobs) offset limit offset jobs (omega arith) (omega arith)
