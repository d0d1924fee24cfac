-- ===== src/Server/Relay.antt =====
-- How a node of a cluster hands requests to the primary: `stop`, `handle_file_upload` and
-- `save_sqlite` of overload/src/overload/cluster/mod.rs, and the forwarding of cluster/secondary.rs.
use Prim.Native.String
use Prim.Native.String.{String}
use overload.Common.{
  ℕ, Bool, Option, none, some, List, [], ◌∷◌, ◌⊎◌, inl, inr, if◌then◌else◌, ◌>>=◌,
}
use overload.Common.Decimal.{show}
use overload.Common.Dict.{Dict}
use overload.Jobs.{JobStatus, stop_job}
use overload.Server.{Response, unknown_error_resp}

-- The map `data` of an error is always empty.
pub record GenericError : Type 0 where
  pub error_code : ℕ
  pub message : String

pub data GenericResult (A : Type 0) : Type 0 where
  ok : A → GenericResult A
  err : GenericError → GenericResult A

unfoldable pub new : String → ℕ → GenericError
new msg code = record { error_code = code; message = msg }

unfoldable pub internal_500 : String → GenericError
internal_500 msg = new msg 500

-- The error is the status `Error(InactiveCluster)` as serde_json writes it.
unfoldable pub inactive_cluster_error : GenericError
inactive_cluster_error = new "{\"Error\":\"InactiveCluster\"}" 404

unfoldable pub and_then : {A B : Type 0} → GenericResult A → (A → GenericResult B) → GenericResult B
and_then (ok a) next = next a
and_then (err e) next = err e

-- `?` on the errors of hyper and of serde_json.
unfoldable pub or_500 : {A : Type 0} → String ⊎ A → GenericResult A
or_500 (inl e) = err (internal_500 e)
or_500 (inr a) = ok a

pub record HttpRequest (Bytes : Type 0) : Type 0 where
  pub uri : String
  pub method : String
  pub headers : List (String × String)
  pub body : Bytes

-- The client of hyper, with the body that it reads to its end; what http finds wrong with a request that
-- is built, and the joining of a path to a URL; and serde_json. The texts of errors are on the left,
-- and the data of an upload arrives as a whole.
pub record Wire : Type 1 where
  pub Bytes : Type 0
  pub empty : Bytes
  pub send : HttpRequest Bytes → String ⊎ Bytes
  pub build_error : HttpRequest Bytes → Option String
  pub join : (url path : String) → Option String
  pub read_map : Bytes → String ⊎ List (String × String)
  pub read_statuses : Bytes → String ⊎ Dict JobStatus
  pub read_response : Bytes → Option Response

-- The instances of the primaries, in the order of the `HashSet`, each with its URI.
abbrev pub Primaries : Type 0
Primaries = Option (List (Option String))

unfoldable pub primary_uri : Primaries → Option String
primary_uri none = none
primary_uri (some []) = none
primary_uri (some (uri ∷ others)) = uri

module _ (wire : Wire) where
  -- `body` of the builder.
  unfoldable pub build : HttpRequest wire.Bytes → GenericResult (HttpRequest wire.Bytes)
  build req = elim (wire.build_error req) [ none ↦ ok req | some e ↦ err (new e 400) ]

  -- `read` is serde_json's `from_reader` for the type of the data.
  unfoldable pub forward_other_requests_to_primary :
      {A : Type 0} → (read : wire.Bytes → String ⊎ A) → HttpRequest wire.Bytes → GenericResult A
  forward_other_requests_to_primary read req =
      and_then (or_500 (wire.send req)) (λ bytes. or_500 (read bytes))

  unfoldable pub send_stop :
      (job_id : String) → Option String → GenericResult (List (String × String))
  send_stop job_id none = err (internal_500 "Unknown error")
  send_stop job_id (some uri) =
      and_then
        (build (record {
          uri = String.◌++◌ uri (String.◌++◌ "/test/stop" (String.◌++◌ "/" job_id));
          method = "GET";
          headers = [];
          body = wire.empty;
        }))
        (forward_other_requests_to_primary wire.read_map)

  unfoldable pub forward_stop_request_to_primary :
      (job_id : String) → Primaries → GenericResult (List (String × String))
  forward_stop_request_to_primary job_id primaries = send_stop job_id (primary_uri primaries)

  -- The part of both uploads behind the choice of the primary. `none` is the panic of `unwrap`.
  unfoldable pub send_upload :
      (path : String)
      → List (String × String)
      → wire.Bytes
      → Option String
      → Option (GenericResult (List (String × String)))
  send_upload path headers stream none = some (err (internal_500 "Unknown error"))
  send_upload path headers stream (some uri) = do
    url ← wire.join uri path
    some (
        and_then (build (record { uri = url; method = "POST"; headers = headers; body = stream }))
          (forward_other_requests_to_primary wire.read_map))

  -- `none` is an error. `to_string` writes the request as JSON.
  unfoldable pub exchange : HttpRequest wire.Bytes → Option Response
  exchange req = elim (wire.build_error req) [
    | some e ↦ none
    | none ↦ elim (wire.send req) [ inl e ↦ none | inr bytes ↦ wire.read_response bytes ]
  ]

  unfoldable pub send_test :
      {A : Type 0}
      → (to_string : A → Option wire.Bytes) → (path : String) → A
      → (uri : String) → Option Response
  send_test to_string path request uri = do
    body ← to_string request
    exchange (record {
      uri = String.◌++◌ uri (String.◌++◌ "/" path);
      method = "POST";
      headers = [];
      body = body;
    })

  unfoldable pub forward_test_request :
      {A : Type 0}
      → (to_string : A → Option wire.Bytes) → (path : String) → A
      → Primaries
      → Option Response
  forward_test_request to_string path request none = none
  forward_test_request to_string path request (some []) = some (unknown_error_resp "error")
  forward_test_request to_string path request (some (uri ∷ others)) =
      uri >>= send_test to_string path request

-- What a node knows of its cluster.
pub record ClusterView : Type 0 where
  pub is_active : Bool
  pub is_primary : Bool
  pub primaries : Primaries

module _ (wire : Wire) (cluster : ClusterView) where
  unfoldable pub stop :
      (job_id : String) → Dict JobStatus → GenericResult (List (String × String)) × Dict JobStatus
  stop job_id jobs =
      if cluster.is_active
      then (if cluster.is_primary
          then (ok (stop_job job_id jobs).0, (stop_job job_id jobs).1)
          else (forward_stop_request_to_primary wire job_id cluster.primaries, jobs))
      else (err inactive_cluster_error, jobs)

  -- `saved` is what the primary's own upload gives.
  unfoldable pub handle_file_upload :
      (saved : GenericResult (List (String × String)))
      → (data' : wire.Bytes) → (content_len : ℕ) → Option (GenericResult (List (String × String)))
  handle_file_upload saved data' content_len =
      if cluster.is_active
      then (if cluster.is_primary
          then some saved
          else send_upload wire "/request-file/csv" (("content-length", show content_len) ∷ [])
              data' (primary_uri cluster.primaries))
      else some (err inactive_cluster_error)

  unfoldable pub save_sqlite :
      (saved : GenericResult (List (String × String)))
      → (data' : wire.Bytes) → (content_len : ℕ) → (content_encoding : String)
      → Option (GenericResult (List (String × String)))
  save_sqlite saved data' content_len content_encoding =
      if cluster.is_active
      then (if cluster.is_primary
          then some saved
          else send_upload wire "/request-file/sqlite"
              (("content-length", show content_len) ∷ ("content-encoding", content_encoding) ∷ [])
              data' (primary_uri cluster.primaries))
      else some (err inactive_cluster_error)
