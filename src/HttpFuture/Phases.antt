-- ===== src/HttpFuture/Phases.antt =====
-- The task of a request, while it waits for Lua, and while it waits for the body.
use mathlib.Core.List.{append_assoc, append-nil}
use Prim.Native.String.{String}
use overload.Common.{
  ℕ, zero, suc, ◌+◌, ◌≤◌, ◌≡◌, refl, ap, ap₂, sym, subst, ◌∙◌, true, Option, none, some, List, ◌++◌,
  arith, ◌>>=◌,
}
use overload.Foreign.{Foreign}
use overload.HttpFuture.{
  Upstream, HttpRequestFuture, HttpRequestState, OriginalRequest, Metric, Received, Fut, later,
  spent, Polled, do_simple_assertion, metrics_of, check_body, poll, dispatch, begin_request,
  poll_inner, poll_lua, poll_body, on_body, assert_lua, start_lua,
}
use overload.HttpFuture.Driving.{finished, drive, go_on}
use overload.HttpFuture.Straight.{
  Outcome, await_lua, await_lua_of, with_lua, with_checks, with_body, report, with_body-le,
}

module _ {F : Foreign} (up : Upstream F) (clock : ℕ → ℕ) where
  -- The future while it waits for Lua, for the body, and for the response.
  abbrev in_lua : HttpRequestFuture up → Fut Received → HttpRequestFuture up
  in_lua self fut = record self {
    state = HttpRequestState.response_received;
    lua_assert_future = some fut;
  }

  drive-lua :
      (l fuel k : ℕ) (r : Received) (self : HttpRequestFuture up) (log : List Metric)
      → suc (k + l) ≤ fuel + k
      → drive up clock fuel k (in_lua self (later l r)) log
        ≡ report (await_lua up (later l r) (suc k) log)
  unfolding drive poll begin_request dispatch poll_lua poll_inner
  drive-lua l zero k r self log h = absurd (omega arith)
  drive-lua zero (suc fuel) k r self log h =
      ap (λ p. some (finished p (log ++ metrics_of r))) (omega arith)
  drive-lua (suc l) (suc fuel) k r self log h =
      ap (λ c. drive up clock fuel (suc k) (in_lua self (later l r)) c) (append-nil log)
      ∙ drive-lua l fuel (suc k) r self log (omega arith)
      ∙ ap (λ p. some (finished p (log ++ metrics_of r))) (omega arith)

  -- The future once it is ready behind the awaited part, and a future that goes on.
  abbrev Goes : (fuel k : ℕ) → List Metric → Option (Polled up) → Outcome → Type 0
  Goes fuel k log polled outcome =
      outcome.0 ≤ suc fuel + k → (polled >>= go_on (drive up clock fuel) k log) ≡ report outcome

  abbrev received : HttpRequestFuture up → HttpRequestFuture up
  received self = record self { state = HttpRequestState.response_received }

  poll_lua-Goes :
      (fuel k : ℕ) (self : HttpRequestFuture up) (log counted : List Metric) (fut : Fut Received)
      → Goes fuel k log
          (poll_lua up (received self) fut true counted)
          (await_lua up fut (suc k) (log ++ counted))
  unfolding poll_lua poll_inner
  poll_lua-Goes fuel k self log counted spent h = refl
  poll_lua-Goes fuel k self log counted (later zero r) h =
      ap₂ (λ p ms. some (finished p ms)) (omega arith)
        (sym (append_assoc log counted (metrics_of r)))
  poll_lua-Goes fuel k self log counted (later (suc l) r) h =
      drive-lua l fuel (suc k) r self (log ++ counted) (omega arith)
      ∙ ap (λ p. some (finished p ((log ++ counted) ++ metrics_of r))) (omega arith)

  start_lua-Goes :
      (fuel k : ℕ) (self : HttpRequestFuture up) (log counted : List Metric) (sender : up.LuaSender)
      (text : Option String) (original : OriginalRequest)
      → Goes fuel k log
          (start_lua up (received self) sender counted text original)
          (await_lua_of up (suc k) (log ++ counted) sender text original)
  unfolding start_lua
  start_lua-Goes fuel k self log counted sender none original h = refl
  start_lua-Goes fuel k self log counted sender (some s) OriginalRequest.place_holder h = refl
  start_lua-Goes fuel k self log counted sender (some s) (OriginalRequest.request req) h =
      poll_lua-Goes fuel k (record self { body = none }) log counted (up.send sender s req) h

  assert_lua-Goes :
      (fuel k : ℕ) (self : HttpRequestFuture up) (log counted : List Metric) (body : up.Bytes)
      (sender : Option (up.LuaSender))
      → Goes fuel k log
          (assert_lua up (received self) body counted sender)
          (with_lua up self (suc k) (log ++ counted) body sender)
  unfolding assert_lua
  assert_lua-Goes fuel k self log counted body none h = refl
  assert_lua-Goes fuel k self log counted body (some sender) h =
      start_lua-Goes fuel k (record self { original_request = OriginalRequest.place_holder }) log
        counted sender (up.from_utf8 body) self.original_request h

  on_body-Goes :
      (fuel k : ℕ) (self : HttpRequestFuture up) (log : List Metric) (body : Option up.Bytes)
      → Goes fuel k log (on_body up (received self) body) (with_body up self (suc k) log body)
  unfolding on_body check_body do_simple_assertion
  on_body-Goes fuel k self log none h = ap (λ ms. some (finished (suc k) ms)) (append-nil log)
  on_body-Goes fuel k self log (some body) h = go (check_body up self body) h
    where
      go :
          (checked : Option (List Metric))
          → Goes fuel k log
              (checked >>= λ counted.
                assert_lua up (received self) body counted self.lua_executor_sender)
              (with_checks up self (suc k) log body checked)
      go none h = refl
      go (some counted) h = assert_lua-Goes fuel k self log counted body self.lua_executor_sender h

  settle :
      (fuel k : ℕ) (log : List Metric) (polled : Option (Polled up)) (outcome : Outcome)
      → Goes fuel k log polled outcome
      → Goes fuel k log (polled >>= λ p. some (p.0, p.1, p.2)) outcome
  settle fuel k log none outcome g h = g h
  settle fuel k log (some p) outcome g h = g h

  abbrev pub in_body : HttpRequestFuture up → ℕ → Fut (Option up.Bytes) → HttpRequestFuture up
  in_body self begun fut = record self {
    state = HttpRequestState.response_received;
    timer = some begun;
    lua_assert_future = none;
    body = some fut;
  }

  pub drive-body :
      (m fuel k begun p : ℕ) (body : Option up.Bytes) (self : HttpRequestFuture up)
      (log : List Metric)
      → suc (k + m) ≡ p
      → (with_body up self p log body).0 ≤ fuel + k
      → drive up clock fuel k (in_body self begun (later m body)) log
        ≡ report (with_body up self p log body)
  unfolding drive poll begin_request dispatch poll_body poll_inner check_body do_simple_assertion
  drive-body m zero k begun p body self log e h =
      absurd (omega (arith, with_body-le up self p log body))
  drive-body zero (suc fuel) k begun p body self log e h =
      let now : suc k ≡ p = omega arith in
      settle fuel k log _ (with_body up self (suc k) log body)
        (on_body-Goes fuel k (in_body self begun spent) log body)
        (subst (λ q. (with_body up self q log body).0 ≤ suc fuel + k) (sym now) h)
      ∙ ap (λ q. report (with_body up self q log body)) now
  drive-body (suc m) (suc fuel) k begun p body self log e h =
      ap (drive up clock fuel (suc k) (in_body self begun (later m body))) (append-nil log)
      ∙ drive-body m fuel (suc k) begun p body self log (omega arith) (omega arith)
