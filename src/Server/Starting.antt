-- ===== src/Server/Starting.antt =====
-- Which of several tests that are posted together are started.
use Prim.Native.String.{String}
use overload.Common.{
  ℕ, suc, ◌+◌, ◌≡◌, refl, ap, ◌∙◌, Option, none, some, List, [], ◌∷◌, length, take, get_elem?,
  arith,
}
use overload.Foreign.{Foreign}
use overload.Http.{Request}
use overload.Jobs.{ErrorCode, starting, error}
use overload.Names.{Matching, job_id}
use overload.Server.{
  Response, MultiRequest, Findings, pre_check, numbered, number_all, start_checked,
  handle_multi_request,
}

module _ {F : Foreign} (text : Matching) (new_v4 : String) (found : ℕ → Findings F) where
  -- Every request passes the check that is made of it.
  abbrev pub ArePassing : ℕ → List (Request F) → Type 0
  ArePassing idx [] = Unit
  ArePassing idx (request ∷ requests) =
      (pre_check (found idx) request ≡ some none) × ArePassing (suc idx) requests

  -- How it ends: all requests were started; the first that is not started fails its check; or the
  -- check of that panics.
  pub data IsEnded (id : String) (idx : ℕ) (named : List (Request F)) (started : ℕ)
      : Option Response → Type 0 where
    all :
        started ≡ length named
        → IsEnded id idx named started (some (record { job_id = id; status = starting }))
    fails :
        (e : ErrorCode) (request : Request F)
        → get_elem? named started ≡ some request
        → pre_check (found (idx + started)) request ≡ some (some e)
        → IsEnded id idx named started (some (record { job_id = id; status = error e }))
    panics :
        (request : Request F)
        → get_elem? named started ≡ some request
        → pre_check (found (idx + started)) request ≡ none
        → IsEnded id idx named started none

  IsEnded-suc :
      (id : String) (idx : ℕ) (first : Request F) (named : List (Request F)) (started : ℕ)
      (answer : Option Response)
      → IsEnded id (suc idx) named started answer
      → IsEnded id idx (first ∷ named) (suc started) answer
  IsEnded-suc id idx first named started _ (all e) = all (omega (arith, e))
  IsEnded-suc id idx first named started _ (fails e request got c) =
      let moved : idx + suc started ≡ suc idx + started = omega arith in
      fails e request got (ap (λ i. pre_check (found i) request) moved ∙ c)
  IsEnded-suc id idx first named started _ (panics request got c) =
      let moved : idx + suc started ≡ suc idx + started = omega arith in
      panics request got (ap (λ i. pre_check (found i) request) moved ∙ c)

  pub record IsStarted (id : String) (idx : ℕ) (named : List (Request F))
      (answer : Option Response × List (Request F)) : Type 0 where
    pub count : ℕ
    pub first_ones : answer.1 ≡ take count named
    pub passing : ArePassing idx (take count named)
    pub ended : IsEnded id idx named count answer.0

  start_checked-IsStarted :
      (id : String) (idx : ℕ) (requests : List (Request F))
      → IsStarted id idx
          (number_all id idx requests)
          (start_checked text new_v4 found id idx requests)
  unfolding start_checked number_all
  start_checked-IsStarted id idx [] = record {
    count = 0;
    first_ones = refl;
    passing = tt;
    ended = all refl;
  }
  start_checked-IsStarted id idx (request ∷ requests) =
      one_more (pre_check (found idx) (numbered id idx request)) refl
        (start_checked-IsStarted id (suc idx) requests)
    where
      here :
          pre_check (found (idx + 0)) (numbered id idx request)
          ≡ pre_check (found idx) (numbered id idx request)
      here = ap (λ i. pre_check (found i) (numbered id idx request)) (omega arith)

      one_more :
          (checked : Option (Option ErrorCode))
          → pre_check (found idx) (numbered id idx request) ≡ checked
          → IsStarted id
              (suc idx)
              (number_all id (suc idx) requests)
              (start_checked text new_v4 found id (suc idx) requests)
          → IsStarted id idx
              (numbered id idx request ∷ number_all id (suc idx) requests)
              (elim checked as (λ x. Option Response × List (Request F)) [
                | none ↦ (none, [])
                | some (some e) ↦ (some (record { job_id = id; status = error e }), [])
                | some none ↦ (
                  (start_checked text new_v4 found id (suc idx) requests).0,
                  numbered id idx request
                      ∷ (start_checked text new_v4 found id (suc idx) requests).1,
                )
              ])
      one_more none c rest = record {
        count = 0;
        first_ones = refl;
        passing = tt;
        ended = panics (numbered id idx request) refl (here ∙ c);
      }
      one_more (some (some e)) c rest = record {
        count = 0;
        first_ones = refl;
        passing = tt;
        ended = fails e (numbered id idx request) refl (here ∙ c);
      }
      one_more (some none) c rest = record {
        count = suc rest.count;
        first_ones = ap (◌∷◌ (numbered id idx request)) rest.first_ones;
        passing = (c, rest.passing);
        ended = IsEnded-suc id idx (numbered id idx request) _ rest.count _ rest.ended;
      }

  -- Of several tests that are posted to a node that runs alone, numbered under the id of the answer,
  -- exactly those in front of the first one that does not pass its check are started, in their order.
  -- If that one fails the check, the answer is its error; if its check panics, as the generation of
  -- random data can, there is no answer; if all pass, all are started and the answer says so.
  pub handle_multi_request-IsStarted :
      (requests : MultiRequest F)
      → IsStarted
          (job_id text new_v4 requests.name)
          0
          (number_all (job_id text new_v4 requests.name) 0 requests.requests)
          (handle_multi_request text new_v4 found requests)
  unfolding handle_multi_request
  handle_multi_request-IsStarted requests = start_checked-IsStarted _ 0 requests.requests
