-- ===== src/Server/Posting.antt =====
-- A test that is posted to any node of a cluster is answered and started as on a node that runs alone.
use Prim.Native.String
use Prim.Native.String.{String}
use overload.Common.{
  ◌⊎◌, ◌≡◌, refl, ap, ◌∙◌, true, false, Option, none, some, List, [], ◌∷◌, inl, inr,
}
use overload.Foreign.{Foreign}
use overload.Http.{Request}
use overload.Names.{Matching, EndsInId, job_id}
use overload.Server.{
  Response, Findings, Membership, handle_request_cluster, handle_request_standalone, handle_as,
  start_with, or_unknown,
}
use overload.Server.Forwarding.{direct, direct_named, handle_as-forwarded, response_of}
use overload.Server.Relay.{HttpRequest, Wire, forward_test_request, send_test, exchange}

-- A primary with a secondary, both times that it looks.
pub record IsServing (primary : Membership) : Type 0 where
  pub active : primary.is_active ≡ true
  pub is_primary : primary.is_primary ≡ true
  pub secondary : String
  pub others : List String
  pub before : List String
  pub looks : primary.secondaries ≡ some before
  pub looks_again : primary.secondaries_again ≡ some (secondary ∷ others)

module _ {F : Foreign} (text : Matching) (id : String) (primary : Membership)
    (own : Request F → Option Response) (found : Findings F) where
  served :
      (request : Request F)
      → IsServing primary
      → handle_request_cluster text id primary own found request
        ≡ handle_request_standalone text id found request
  unfolding handle_request_cluster handle_request_standalone handle_as start_with
  served request s = rw s.active (rw s.is_primary (rw s.looks (rw s.looks_again refl)))

abbrev pub test_request : {Bytes : Type 0} → (uri : String) → Bytes → HttpRequest Bytes
test_request uri body = record {
  uri = String.◌++◌ uri (String.◌++◌ "/" "test");
  method = "POST";
  headers = [];
  body = body;
}

module _ (wire : Wire) {A : Type 0} (to_string : A → Option wire.Bytes) where
  -- What a client reads, if it gets anything.
  abbrev pub received : String ⊎ wire.Bytes → Option Response
  received (inl e) = none
  received (inr bytes) = wire.read_response bytes

  -- The wire carries a posted test to a primary, and `answer`, which may be lost, back from it.
  pub record Posts (uri : String) (request : A) (answer : Option Response) : Type 0 where
    pub sent : wire.Bytes
    pub writes : to_string request ≡ some sent
    pub builds : wire.build_error (test_request uri sent) ≡ none
    pub answers : received (wire.send (test_request uri sent)) ≡ answer

  exchange-Posts :
      (uri : String) (request : A) (answer : Option Response) (p : Posts uri request answer)
      → exchange wire (test_request uri p.sent) ≡ answer
  unfolding exchange
  exchange-Posts uri request answer p =
      ap (λ o. elim o [ some e ↦ none | none ↦ received (wire.send (test_request uri p.sent)) ])
        p.builds
      ∙ p.answers

  forward-Posts :
      (uri : String) (others : List (Option String)) (request : A) (answer : Option Response)
      → Posts uri request answer
      → forward_test_request wire to_string "test" request (some (some uri ∷ others)) ≡ answer
  unfolding forward_test_request send_test
  forward-Posts uri others request answer p = rw p.writes (exchange-Posts uri request answer p)

-- A test that is posted to an active node other than the primary, over a wire that carries it to a
-- primary with a secondary, is answered by the node, and started by the primary, exactly as a node
-- that runs alone would answer and start it under the same id, the node itself starting nothing; where
-- the check of the test panics on a node alone, it panics on the primary, and the node answers an
-- unknown error. Every text that ends in the id is to count as a name with an id.
pub handle_request_cluster-standalone :
    {F : Foreign} (wire : Wire) (text : Matching) (id later : String) (node primary : Membership)
    (own : Request F → Option Response) (found : Findings F)
    (to_string : Request F → Option wire.Bytes) (uri : String) (others : List (Option String))
    (request : Request F)
    → EndsInId text id
    → node.is_active ≡ true
    → node.is_primary ≡ false
    → IsServing primary
    → Posts wire to_string uri
        (record request { name = some (job_id text id request.name) })
        (response_of (
          direct text id later node primary own
            (λ r. none)
            found
            later
            (record request { name = some (job_id text id request.name) })))
    → (handle_request_cluster text id node
          (λ r. forward_test_request wire to_string "test" r (some (some uri ∷ others)))
          found
          request
        ≡ some (
          or_unknown
              (job_id text id request.name)
              (response_of (handle_request_standalone text id found request)),
          [],
        ))
      × (handle_request_cluster text later primary own found
            (record request { name = some (job_id text id request.name) })
          ≡ handle_request_standalone text id found request)
unfolding handle_request_cluster
handle_request_cluster-standalone wire text id later node primary own found to_string uri others
      request h active other serving posts =
    let named = record request { name = some (job_id text id request.name) } in
    let started =
      direct_named text id later node primary own (λ r. none) found request h
      ∙ served text id primary own found request serving in
    (
      handle_as-forwarded node
            (λ r. forward_test_request wire to_string "test" r (some (some uri ∷ others))) found
            (job_id text id request.name) request active other
          ∙ ap (λ a. some (or_unknown (job_id text id request.name) a, []))
              (forward-Posts wire to_string uri others named _ posts ∙ ap response_of started),
      started,
    )
