-- ===== src/HttpFuture/Driving.antt =====
-- The task of a request: its future is polled until it is ready.
use overload.Common.{ℕ, zero, suc, Option, some, List, ◌++◌, ◌>>=◌}
use overload.Foreign.{Foreign}
use overload.HttpFuture.{Upstream, HttpRequestFuture, Metric, Polled, ready, pending, poll}

pub data Run : Type 0 where
  unfinished : Run
  finished : (polls : ℕ) → List Metric → Run

-- What the task does with the answer of poll `k`, `again` being the polls behind it.
abbrev pub go_on :
    {F : Foreign} {up : Upstream F}
    → (again : ℕ → HttpRequestFuture up → List Metric → Option Run) → ℕ
    → List Metric
    → Polled up
    → Option Run
go_on again k log (ready, self, counted) = some (finished (suc k) (log ++ counted))
go_on again k log (pending woken, self, counted) = again (suc k) self (log ++ counted)

module _ {F : Foreign} (up : Upstream F) (clock : ℕ → ℕ) where
  -- `k` polls were made so far; the clock is read at every poll.
  unfoldable pub drive : (fuel k : ℕ) → HttpRequestFuture up → List Metric → Option Run
  drive zero k self log = some unfinished
  drive (suc fuel) k self log = poll up (clock k) self >>= go_on (drive fuel) k log
