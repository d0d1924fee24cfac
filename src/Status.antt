-- ===== src/Status.antt =====
-- The status of the jobs over HTTP: overload-http/src/lib.rs (`JobStatusQueryParams`),
-- overload/src/filters_cluster.rs (`history`), overload/src/overload/cluster/mod.rs and secondary.rs.
pub mod Plain
pub mod Reader
pub mod Forwarding
pub mod Tests
use Prim.Native.String
use Prim.Native.String.{String}
use overload.Common.{ℕ, Bool, List, [], ◌∷◌, Option, none, some, ltb, if◌then◌else◌}
use overload.Common.Decimal.{show, parse}
use overload.Common.Dict.{Dict, lookup, remove}
use overload.Jobs.{JobStatus, get_job_status}
use overload.Server.Relay.{
  GenericError, GenericResult, Wire, HttpRequest, Primaries, primary_uri, and_then, build,
  forward_other_requests_to_primary,
}

pub data JobStatusQueryParams : Type 0 where
  job_id : String → JobStatusQueryParams
  pager_options : (offset limit : ℕ) → JobStatusQueryParams

-- One constructor for each `GenericError` of these functions; what it prints is left out.
pub data StatusError : Type 0 where
  invalid_offset invalid_limit limit_below_one too_many_params : StatusError
  inactive_cluster unknown_error : StatusError
  forwarding : GenericError → StatusError

unfoldable pub error_code : StatusError → ℕ
error_code invalid_offset = 400
error_code invalid_limit = 400
error_code limit_below_one = 400
error_code too_many_params = 400
error_code inactive_cluster = 404
error_code unknown_error = 500
error_code (forwarding e) = e.error_code

pub data Answer (A : Type 0) : Type 0 where
  ok : A → Answer A
  err : StatusError → Answer A

-- `Display`
unfoldable pub display : JobStatusQueryParams → String
display (job_id id) = String.◌++◌ "job_id=" id
display (pager_options offset limit) =
    String.◌++◌ "offset=" (String.◌++◌ (show offset) (String.◌++◌ "&limit=" (show limit)))

-- `map_or`
unfoldable pub or_text : String → Option String → String
or_text text none = text
or_text text (some s) = s

-- After removing the parameters, the map should be empty.
unfoldable pub finish : JobStatusQueryParams → Dict String → Answer JobStatusQueryParams
finish params [] = ok params
finish params (entry ∷ rest) = err too_many_params

-- What follows the parsing of the limit; `none` is its error.
unfoldable pub check_limit : (offset : ℕ) → Dict String → Option ℕ → Answer JobStatusQueryParams
check_limit offset value none = err invalid_limit
check_limit offset value (some limit) =
    if ltb limit 1 then err limit_below_one else finish (pager_options offset limit) value

unfoldable pub check_offset : Dict String → Option ℕ → Answer JobStatusQueryParams
check_offset value none = err invalid_offset
check_offset value (some offset) =
    check_limit offset (remove "limit" value) (parse (or_text "20" (lookup "limit" value)))

unfoldable pub check_job_id : Dict String → Option String → Answer JobStatusQueryParams
check_job_id value (some id) = finish (job_id id) value
check_job_id value none =
    check_offset (remove "offset" value) (parse (or_text "0" (lookup "offset" value)))

-- `TryFrom<HashMap<String, String>>`
unfoldable pub try_from : Dict String → Answer JobStatusQueryParams
try_from value = check_job_id (remove "job_id" value) (lookup "job_id" value)

unfoldable pub handle_get_status : JobStatusQueryParams → Dict JobStatus → Answer (Dict JobStatus)
handle_get_status (job_id id) jobs = ok (get_job_status (some id) 0 0 jobs)
handle_get_status (pager_options offset limit) jobs = ok (get_job_status none offset limit jobs)

unfoldable pub answer_of : {A : Type 0} → GenericResult A → Answer A
answer_of (GenericResult.ok a) = ok a
answer_of (GenericResult.err e) = err (forwarding e)

abbrev pub status_request :
    {Bytes : Type 0} → (empty : Bytes) → (uri : String) → JobStatusQueryParams → HttpRequest Bytes
status_request empty uri params = record {
  uri = String.◌++◌ uri (String.◌++◌ "/test/status" (String.◌++◌ "?" (display params)));
  method = "GET";
  headers = [];
  body = empty;
}

module _ (wire : Wire) where
  unfoldable pub send_get_status : JobStatusQueryParams → Option String → Answer (Dict JobStatus)
  send_get_status params none = err unknown_error
  send_get_status params (some uri) = answer_of (
      and_then (build wire (status_request wire.empty uri params))
        (forward_other_requests_to_primary wire wire.read_statuses))

  unfoldable pub forward_get_status_request :
      JobStatusQueryParams → Primaries → Answer (Dict JobStatus)
  forward_get_status_request params primaries = send_get_status params (primary_uri primaries)

-- What a node knows of its cluster.
pub record Node : Type 0 where
  pub is_active : Bool
  pub is_primary : Bool
  pub primaries : Primaries

module _ (wire : Wire) (node : Node) (jobs : Dict JobStatus) where
  unfoldable pub handle_history_all : JobStatusQueryParams → Answer (Dict JobStatus)
  handle_history_all params =
      if node.is_active
      then (if node.is_primary
          then handle_get_status params jobs
          else forward_get_status_request wire params node.primaries)
      else err inactive_cluster

  -- The route `history`, and the query that warp has read into a map.
  unfoldable pub respond : Answer JobStatusQueryParams → Answer (Dict JobStatus)
  respond (ok option) = handle_history_all option
  respond (err e) = err e

  unfoldable pub history : Dict String → Answer (Dict JobStatus)
  history pager_option = respond (try_from pager_option)
