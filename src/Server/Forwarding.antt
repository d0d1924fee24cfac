-- ===== src/Server/Forwarding.antt =====
-- Tests may be posted to every node of a cluster.
use Prim.Native.String.{String}
use overload.Common.{◌≡◌, refl, ap, ◌∙◌, true, false, Option, none, some, List, []}
use overload.Foreign.{Foreign}
use overload.Http.{Request}
use overload.Names.{Matching, EndsInId, job_id, job_id_idem}
use overload.Server.{
  Response, MultiRequest, Findings, Membership, handle_request_cluster,
  handle_multi_request_cluster, handle_as, handle_multi_as, or_unknown,
}

-- The answer of the primary, lost when it panics.
abbrev pub response_of : {F : Foreign} → Option (Response × List (Request F)) → Option Response
response_of none = none
response_of (some answer) = some answer.0

module _ {F : Foreign} (node : Membership) where
  pub handle_as-forwarded :
      (post : Request F → Option Response) (found : Findings F) (id : String) (request : Request F)
      → node.is_active ≡ true
      → node.is_primary ≡ false
      → handle_as node post found id request
        ≡ some (or_unknown id (post (record request { name = some id })), [])
  unfolding handle_as
  handle_as-forwarded post found id request active other = rw active (rw other refl)

  handle_multi_as-forwarded :
      (post : MultiRequest F → Option Response) (id : String) (requests : MultiRequest F)
      → node.is_active ≡ true
      → node.is_primary ≡ false
      → handle_multi_as node post id requests
        ≡ (or_unknown id (post (record requests { name = some id })), [])
  unfolding handle_multi_as
  handle_multi_as-forwarded post id requests active other = rw active (rw other refl)

-- The primary of a cluster and another node of it. `own` and `own_multi` are not called by a primary.
module _ {F : Foreign} (text : Matching) (id later : String) (node primary : Membership)
    (own : Request F → Option Response) (own_multi : MultiRequest F → Option Response)
    (found : Findings F) where
  -- What the primary does with a request under a new id `given`.
  abbrev pub direct : (given : String) → Request F → Option (Response × List (Request F))
  direct given = handle_request_cluster text given primary own found

  abbrev pub direct_multi : (given : String) → MultiRequest F → Response × List (Request F)
  direct_multi given = handle_multi_request_cluster text given primary own_multi

  pub direct_named :
      (request : Request F)
      → EndsInId text id
      → direct later (record request { name = some (job_id text id request.name) })
        ≡ direct id request
  unfolding handle_request_cluster handle_as
  direct_named request h =
      ap (λ i. handle_as primary own found i request) (job_id_idem text id later request.name h)

  direct_multi_named :
      (requests : MultiRequest F)
      → EndsInId text id
      → direct_multi later (record requests { name = some (job_id text id requests.name) })
        ≡ direct_multi id requests
  unfolding handle_multi_request_cluster handle_multi_as
  direct_multi_named requests h =
      ap (λ i. handle_multi_as primary own_multi i requests)
        (job_id_idem text id later requests.name h)

  -- What the node answers, and what the primary does with what it was sent.
  pub record IsRelayed (request : Request F) (requests : MultiRequest F) : Type 0 where
    pub answer :
        handle_request_cluster text id node (λ r. response_of (direct later r)) found request
        ≡ some (or_unknown (job_id text id request.name) (response_of (direct id request)), [])
    pub started :
        direct later (record request { name = some (job_id text id request.name) })
        ≡ direct id request
    pub multi_answer :
        handle_multi_request_cluster text id node (λ r. some ((direct_multi later r).0)) requests
        ≡ ((direct_multi id requests).0, [])
    pub multi_started :
        direct_multi later (record requests { name = some (job_id text id requests.name) })
        ≡ direct_multi id requests

  -- A node that is active and is not the primary, whose requests the primary receives as they were
  -- sent, answers a test, and several tests, as the primary would under the id of the node, and
  -- starts none itself; the primary starts what it would start if they were posted to it. If the
  -- primary panics at the single test, the answer is an unknown error. Every text that ends in the
  -- id of the node is to count as a name with an id.
  pub post-IsRelayed :
      (request : Request F) (requests : MultiRequest F)
      → EndsInId text id
      → node.is_active ≡ true
      → node.is_primary ≡ false
      → IsRelayed request requests
  unfolding handle_request_cluster handle_multi_request_cluster or_unknown
  post-IsRelayed request requests h active other = record {
    answer =
        handle_as-forwarded node (λ r. response_of (direct later r)) found _ request active other
        ∙ ap (λ a. some (or_unknown (job_id text id request.name) (response_of a), []))
            (direct_named request h);
    started = direct_named request h;
    multi_answer =
        handle_multi_as-forwarded node (λ r. some ((direct_multi later r).0)) _ requests active
          other
        ∙ ap (λ a. (a.0, [])) (direct_multi_named requests h);
    multi_started = direct_multi_named requests h;
  }
