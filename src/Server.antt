-- ===== src/Server.antt =====
-- overload/src/overload: how a node answers a test that is posted to it. `handle_request` and
-- `handle_multi_request` of standalone.rs, `handle_request_cluster` and `handle_multi_request_cluster` of cluster/mod.rs, and
-- `pre_check` of lib.rs. A task that is spawned is an element of the second result.
pub mod Starting
pub mod Forwarding
pub mod Relay
pub mod Relaying
pub mod Posting
pub mod Tests
use Prim.Native.String
use Prim.Native.String.{String}
use overload.Common.{
  ℕ, suc, Bool, true, false, Option, none, some, List, [], ◌∷◌, if◌then◌else◌, ◌>>=◌,
}
use overload.Common.Decimal.{show}
use overload.Assert.{ResponseAssertion}
use overload.Datagen.{DataSchema}
use overload.Datagen.Drawing.{Draws, generate_data}
use overload.Datagen.Parsing.{Numbers}
use overload.Foreign.{Foreign}
use overload.Http.{Request, RequestSpec}
use overload.Jobs.{ErrorCode, JobStatus, starting, error}
use overload.Json.{Value}
use overload.Names.{Matching, job_id}

pub record Response : Type 0 where
  pub job_id : String
  pub status : JobStatus

pub record MultiRequest (F : Foreign) : Type 0 where
  pub name : Option String
  pub requests : List (Request F)

-- What one check finds: whether a file exists, the draws for random data, numbered from 0, and
-- whether Lua takes a script.
pub record Findings (F : Foreign) : Type 0 where
  pub exists : String → Bool
  pub numbers : Numbers F
  pub draws : Draws F
  pub verify_lua_chunk : String → Bool

unfoldable pub is_null : {N : Type 0} → Value N → Bool
is_null Value.null = true
is_null _ = false

-- `chunks.join("\n")`.
unfoldable pub join : List String → String
join [] = ""
join (s ∷ []) = s
join (s ∷ t ∷ rest) = String.◌++◌ s (String.◌++◌ "\n" (join (t ∷ rest)))

module _ {F : Foreign} (found : Findings F) where
  -- Data from a schema, `n` being the first draw. `none` is the panic of `generate_data`, here and
  -- below, and the inner `none` is `Ok(())`.
  unfoldable pub check_data :
      Option (DataSchema F) → ErrorCode → (n : ℕ) → Option (Option ErrorCode × ℕ)
  check_data none code n = some (none, n)
  check_data (some schema) code n = do
    drawn ← generate_data found.numbers found.draws schema n
    some (if is_null drawn.0 then some code else none, drawn.1)

  unfoldable pub check_spec : RequestSpec F → Option (Option ErrorCode)
  check_spec (RequestSpec.request_file file) =
      some (if found.exists file.file_name then none else some ErrorCode.request_file_not_found)
  check_spec (RequestSpec.random_data_request req) = do
    body ← check_data req.body_schema ErrorCode.body_generation_failure 0
    elim body.0 [
      | some e ↦ some (some e)
      | none ↦
          check_data req.uri_param_schema ErrorCode.uri_param_generation_failure body.1 >>= λ uri.
          some uri.0
    ]
  check_spec _ = some none

  unfoldable pub check_lua : Option (ResponseAssertion F) → Option ErrorCode
  check_lua none = none
  check_lua (some assertion) = elim assertion.lua_assertion [
    | none ↦ none
    | some chunks ↦
        if found.verify_lua_chunk (join chunks) then none else some ErrorCode.lua_parse_failure
  ]

  unfoldable pub pre_check : Request F → Option (Option ErrorCode)
  pre_check request = do
    checked ← check_spec request.req
    some (elim checked [ some e ↦ some e | none ↦ check_lua request.response_assertion ])

unfoldable pub numbered : {F : Foreign} → String → ℕ → Request F → Request F
numbered job_id idx request = record request {
  name = some (String.◌++◌ job_id (String.◌++◌ "_" (show idx)));
}

module _ {F : Foreign} (text : Matching) (new_v4 : String) (found : ℕ → Findings F) where
  -- The loop of `handle_multi_request`; without an answer it panics.
  unfoldable pub start_checked : String → ℕ → List (Request F) → Option Response × List (Request F)
  start_checked id idx [] = (some (record { job_id = id; status = starting }), [])
  start_checked id idx (request ∷ requests) =
      let rest = start_checked id (suc idx) requests in
      elim (pre_check (found idx) (numbered id idx request)) [
        | none ↦ (none, [])
        | some (some e) ↦ (some (record { job_id = id; status = error e }), [])
        | some none ↦ (rest.0, numbered id idx request ∷ rest.1)
      ]

  unfoldable pub handle_multi_request : MultiRequest F → Option Response × List (Request F)
  handle_multi_request requests =
      start_checked (job_id text new_v4 requests.name) 0 requests.requests

-- What a node of a cluster finds in its `Cluster`, `secondaries` being read twice.
pub record Membership : Type 0 where
  pub is_active : Bool
  pub is_primary : Bool
  pub secondaries : Option (List String)
  pub secondaries_again : Option (List String)

unfoldable pub unknown_error_resp : String → Response
unknown_error_resp id = record { job_id = id; status = error ErrorCode.others }

unfoldable pub or_unknown : String → Option Response → Response
or_unknown id (some resp) = resp
or_unknown id none = unknown_error_resp id

-- The primary's part of `handle_request_cluster`, once there is a secondary.
unfoldable pub start_one :
    {F : Foreign} → Findings F → String → Request F → Option (Response × List (Request F))
start_one found id request = do
  checked ← pre_check found request
  some (elim checked [
    | some e ↦ (record { job_id = id; status = error e }, [])
    | none ↦ (record { job_id = id; status = starting }, request ∷ [])
  ])

-- `handle_request` of standalone.rs.
unfoldable pub handle_request_standalone :
    {F : Foreign}
    → Matching
    → (new_v4 : String) → Findings F
    → Request F
    → Option (Response × List (Request F))
handle_request_standalone text new_v4 found request =
    let id = job_id text new_v4 request.name in
    start_one found id (record request { name = some id })

unfoldable pub number_all : {F : Foreign} → String → ℕ → List (Request F) → List (Request F)
number_all id idx [] = []
number_all id idx (request ∷ requests) = numbered id idx request ∷ number_all id (suc idx) requests

module _ {F : Foreign} (node : Membership) where
  unfoldable pub no_secondary : String → Response × List (Request F)
  no_secondary id = (record { job_id = id; status = error ErrorCode.no_secondary }, [])

  -- `none` is the panic of `unwrap`, or of the check.
  unfoldable pub start_with :
      Findings F
      → Option (List String)
      → Option (List String)
      → String
      → Request F
      → Option (Response × List (Request F))
  start_with found none later id request = some (no_secondary id)
  start_with found (some s) none id request = none
  start_with found (some s) (some []) id request = some (no_secondary id)
  start_with found (some s) (some (t ∷ ts)) id request = start_one found id request

  -- What is behind the choice of the id. `post` is `forward_test_request`, `none` being its error.
  unfoldable pub handle_as :
      (post : Request F → Option Response)
      → Findings F
      → String
      → Request F
      → Option (Response × List (Request F))
  handle_as post found id request =
      let named = record request { name = some id } in
      if node.is_active
      then (if node.is_primary
          then start_with found node.secondaries node.secondaries_again id named
          else some (or_unknown id (post named), []))
      else some (record { job_id = id; status = error ErrorCode.inactive_cluster }, [])

  unfoldable pub handle_multi_as :
      (post : MultiRequest F → Option Response)
      → String
      → MultiRequest F
      → Response × List (Request F)
  handle_multi_as post id requests =
      if node.is_active
      then (if node.is_primary
          then (record { job_id = id; status = starting }, number_all id 0 requests.requests)
          else (or_unknown id (post (record requests { name = some id })), []))
      else (record { job_id = id; status = error ErrorCode.inactive_cluster }, [])

module _ {F : Foreign} (text : Matching) (new_v4 : String) (node : Membership) where
  unfoldable pub handle_request_cluster :
      (post : Request F → Option Response)
      → Findings F
      → Request F
      → Option (Response × List (Request F))
  handle_request_cluster post found request =
      handle_as node post found (job_id text new_v4 request.name) request

  unfoldable pub handle_multi_request_cluster :
      (post : MultiRequest F → Option Response) → MultiRequest F → Response × List (Request F)
  handle_multi_request_cluster post requests =
      handle_multi_as node post (job_id text new_v4 requests.name) requests
