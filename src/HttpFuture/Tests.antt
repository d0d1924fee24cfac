-- ===== src/HttpFuture/Tests.antt =====
-- A request whose response comes at the third poll, and its body at the second poll behind that; Lua
-- fails an assertion one poll later.
use overload.Common.{ℕ, ◌*◌, ◌≡◌, refl, some, none, [], ◌∷◌, inr, arith}
use overload.Assert.{AssertionError, get_id}
use overload.HttpFuture.{
  Upstream, HttpRequestFuture, HttpRequestState, OriginalRequest, later, Received,
  upstream_request_count, upstream_response_time, upstream_request_status_count, assertion_failure,
  check_body, metrics_of, generate_metrics_on_failure, poll, begin_request, dispatch, poll_rest,
  poll_response, poll_inner, on_response, poll_body, on_body, assert_lua, start_lua, poll_lua,
}
use overload.HttpFuture.Driving.{finished, drive}
use overload.HttpFuture.Straight.{straight, report}
use overload.HttpFuture.Whole.{fresh, drive-straight}
use overload.Json.{Value}
use overload.Samples.{foreign, row}

abbrev up : Upstream foreign
up = record {
  Bytes = ℕ;
  LuaSender = ℕ;
  from_slice = λ b. inr (Value.number b);
  from_utf8 = λ b. some "text";
  send = λ sender s req. later 1 (Received.errors (AssertionError.lua_assertion_failure 7 ∷ []));
}

abbrev clock : ℕ → ℕ
clock k = k * 10

abbrev asked : HttpRequestFuture up
asked = record {
  state = HttpRequestState.init;
  timer = none;
  response = later 2 (inr (record { status = "200"; body = later 1 (some 5) }));
  body = none;
  status = none;
  assertion = record { simple_assertions = none; lua_assertion = some ("check" ∷ []) };
  request_uri = ("/get", none);
  original_request = OriginalRequest.request (row 1);
  lua_executor_sender = some 0;
  lua_assert_future = none;
}

asked_done :
    drive up clock 9 0 (fresh up clock asked) []
    ≡ some (
        finished 6 (
          upstream_request_count 1
          ∷ upstream_response_time "200" 20
          ∷ upstream_request_status_count 1 "200"
          ∷ assertion_failure 7 (AssertionError.lua_assertion_failure 7)
          ∷ []))
unfolding drive poll dispatch begin_request poll_rest poll_response poll_inner on_response poll_body
    on_body check_body assert_lua start_lua poll_lua metrics_of generate_metrics_on_failure get_id
asked_done = refl

drive-straight_example :
    drive up clock 9 0 (fresh up clock asked) [] ≡ report (straight up clock (fresh up clock asked))
unfolding check_body
drive-straight_example = drive-straight up clock 8 asked (omega arith)
