-- ===== src/HttpFuture.antt =====
-- cluster-executor/src/lib.rs: `HttpRequestFuture`, the future that sends a request, reads the body
-- of the response, and checks the assertions. `none` is a panic.
pub mod Driving
pub mod Tests
pub mod Straight
pub mod Phases
pub mod Whole
use Prim.Native.String.{String}
use overload.Common.{
  ℕ, zero, suc, ◌-◌, Bool, true, false, Option, none, some, List, [], ◌∷◌, ◌++◌, map, ◌⊎◌, inl, inr,
  ◌>>=◌,
}
use overload.Assert.{AssertionError, Checked, ok, err, ResponseAssertion, get_id, simple_assert}
use overload.Foreign.{Foreign}
use overload.Http.{HttpReq}
use overload.Json.{Value}

-- A future that is ready after some polls, and one that was ready, which must not be polled again.
pub data Fut (A : Type 0) : Type 0 where
  later : ℕ → A → Fut A
  spent : Fut A

-- The inner `none` is `Poll::Pending`.
unfoldable pub poll_inner : {A : Type 0} → Fut A → Option (Option A × Fut A)
poll_inner (later zero a) = some (some a, spent)
poll_inner (later (suc n) a) = some (none, later n a)
poll_inner spent = none

-- What comes back from the executor of Lua: nothing in time, nothing since it is gone, or a result.
pub data Received : Type 0 where
  timed_out dropped passed : Received
  errors : List AssertionError → Received

-- The bytes of a body with serde_json's `from_slice`, whose error is a text, and `from_utf8`; and
-- what becomes of a message to the executor of Lua, which is received within 50 ms or never.
pub record Upstream (F : Foreign) : Type 1 where
  pub Bytes : Type 0
  pub LuaSender : Type 0
  pub from_slice : Bytes → String ⊎ Value F.Number
  pub from_utf8 : Bytes → Option String
  pub send : LuaSender → String → HttpReq → Fut Received

-- What is counted and measured. A failed assertion is counted under its id.
pub data Metric : Type 0 where
  upstream_request_count : ℕ → Metric
  upstream_response_time : String → (millis : ℕ) → Metric
  upstream_request_status_count : ℕ → String → Metric
  assertion_parse_failure : String → Metric
  assertion_failure : ℕ → AssertionError → Metric

pub data HttpRequestState : Type 0 where
  init in_progress response_received : HttpRequestState

pub data OriginalRequest : Type 0 where
  request : HttpReq → OriginalRequest
  place_holder : OriginalRequest

unfoldable pub generate_metrics_on_failure : List AssertionError → List Metric
generate_metrics_on_failure = map (λ e. assertion_failure (get_id e) e)

-- The metrics of `do_lua_assertion`.
unfoldable pub metrics_of : Received → List Metric
metrics_of (errors es) = generate_metrics_on_failure es
metrics_of _ = []

module _ {F : Foreign} (up : Upstream F) where
  open up use {Bytes, LuaSender}

  -- The body is `none` if reading it fails.
  pub record HttpResponse : Type 0 where
    pub status : String
    pub body : Fut (Option Bytes)

  pub record HttpRequestFuture : Type 0 where
    pub state : HttpRequestState
    pub timer : Option ℕ
    pub response : Fut (String ⊎ HttpResponse)
    pub body : Option (Fut (Option Bytes))
    pub status : Option String
    pub assertion : ResponseAssertion F
    pub request_uri : F.Uri
    pub original_request : OriginalRequest
    pub lua_executor_sender : Option LuaSender
    pub lua_assert_future : Option (Fut Received)

  -- `Poll::Pending` says whether the future woke its task itself.
  pub data Poll : Type 0 where
    ready : Poll
    pending : (woken : Bool) → Poll

  -- The answer of a poll, the future behind it, and what was counted.
  abbrev pub Polled : Type 0
  Polled = Poll × HttpRequestFuture × List Metric

  unfoldable pub do_simple_assertion : HttpRequestFuture → Bytes → Option (List Metric)
  do_simple_assertion self body = elim (up.from_slice body) [
    | inl e ↦ some (assertion_parse_failure e ∷ [])
    | inr json_resp ↦ do
      checked ← simple_assert F self.request_uri none json_resp self.assertion
      some (elim checked [ ok ↦ [] | err es ↦ generate_metrics_on_failure es ])
  ]

  unfoldable pub check_body : HttpRequestFuture → Bytes → Option (List Metric)
  check_body self body = elim self.assertion.simple_assertions [
    | none ↦ some []
    | some assertions ↦ do_simple_assertion self body
  ]

  -- The block `if self.lua_assert_future.is_some()`, with what was counted before it.
  unfoldable pub poll_lua :
      HttpRequestFuture → Fut Received → (woken : Bool) → List Metric → Option Polled
  poll_lua self fut woken counted = do
    polled ← poll_inner fut
    let next = record self { lua_assert_future = some polled.1 }
    some (elim polled.0 [
      | some r ↦ (ready, next, counted ++ metrics_of r)
      | none ↦ (pending woken, next, counted)
    ])

  -- The `match` on the text of the body and the request that was sent.
  unfoldable pub start_lua :
      HttpRequestFuture → LuaSender → List Metric → Option String → OriginalRequest → Option Polled
  start_lua self lua_sender counted none original = some (ready, self, counted)
  start_lua self lua_sender counted (some body_str) place_holder = some (ready, self, counted)
  start_lua self lua_sender counted (some body_str) (request req) =
      poll_lua (record self { body = none }) (up.send lua_sender body_str req) true counted

  unfoldable pub assert_lua :
      HttpRequestFuture → Bytes → List Metric → Option LuaSender → Option Polled
  assert_lua self body counted none = some (ready, self, counted)
  assert_lua self body counted (some lua_sender) =
      start_lua (record self { original_request = place_holder }) lua_sender counted
        (up.from_utf8 body) self.original_request

  unfoldable pub on_body : HttpRequestFuture → Option Bytes → Option Polled
  on_body self none = some (ready, self, [])
  on_body self (some body) = do
    counted ← check_body self body
    assert_lua self body counted self.lua_executor_sender

  -- The block `if self.body.is_some()`. `timer.unwrap()` panics on `none`.
  unfoldable pub poll_body : HttpRequestFuture → Fut (Option Bytes) → Option Polled
  poll_body self fut = do
    polled ← poll_inner fut
    let next = record self { body = some polled.1 }
    elim polled.0 [
      | none ↦ some (pending false, next, [])
      | some body ↦ self.timer >>= λ timer. on_body next body
    ]

  unfoldable pub on_response : ℕ → HttpRequestFuture → String ⊎ HttpResponse → Option Polled
  on_response now self (inl e) = some (ready, self, upstream_request_status_count 1 e ∷ [])
  on_response now self (inr response) = do
    timer ← self.timer
    some (
      pending true,
      record self { status = some response.status; body = some response.body },
      upstream_response_time response.status (now - timer)
          ∷ upstream_request_status_count 1 response.status
          ∷ [],
    )

  unfoldable pub poll_response : ℕ → HttpRequestFuture → Option Polled
  poll_response now self = do
    polled ← poll_inner self.response
    let next = record self { response = polled.1 }
    elim polled.0 [
      | none ↦ some (pending false, next, [])
      | some val ↦ on_response now (record next { state = response_received }) val
    ]

  -- The request has not been answered yet, or its answer had no body to read.
  unfoldable pub poll_rest : ℕ → HttpRequestFuture → HttpRequestState → Option Polled
  poll_rest now self response_received = some (ready, self, [])
  poll_rest now self init = poll_response now self
  poll_rest now self in_progress = poll_response now self

  unfoldable pub dispatch :
      ℕ → HttpRequestFuture → Option (Fut Received) → Option (Fut (Option Bytes)) → Option Polled
  dispatch now self (some fut) body = poll_lua self fut false []
  dispatch now self none (some fut) = poll_body self fut
  dispatch now self none none = poll_rest now self self.state

  -- The block `if let HttpRequestState::Init = self.state`.
  unfoldable pub begin_request :
      ℕ → HttpRequestFuture → HttpRequestState → HttpRequestFuture × List Metric
  begin_request now self init =
      (record self { timer = some now; state = in_progress }, upstream_request_count 1 ∷ [])
  begin_request now self in_progress = (self, [])
  begin_request now self response_received = (self, [])

  unfoldable pub poll : ℕ → HttpRequestFuture → Option Polled
  poll now self = do
    let (begun, counted) = begin_request now self self.state
    polled ← dispatch now begun begun.lua_assert_future begun.body
    some (polled.0, polled.1, counted ++ polled.2)
