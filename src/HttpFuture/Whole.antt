-- ===== src/HttpFuture/Whole.antt =====
-- The task of a request is the request in a straight line.
use mathlib.Core.List.{append-nil}
use Prim.Native.String.{String}
use overload.Common.{
  ℕ, zero, suc, ◌+◌, ◌-◌, ◌≤◌, ◌≡◌, refl, ap, ap₂, ◌∙◌, Option, none, some, List, [], ◌∷◌, ◌++◌,
  ◌⊎◌, inl, inr, arith, ◌>>=◌,
}
use overload.Foreign.{Foreign}
use overload.HttpFuture.{
  Upstream, HttpRequestFuture, HttpResponse, HttpRequestState, Metric, Fut, later, spent, Polled,
  do_simple_assertion, ready, pending, check_body, poll, dispatch, begin_request, poll_inner,
  poll_body, poll_response, poll_rest, on_response, upstream_request_count, upstream_response_time,
  upstream_request_status_count,
}
use overload.HttpFuture.Driving.{finished, drive, go_on}
use overload.HttpFuture.Straight.{
  Outcome, await_body, with_response, await_response, straight, report, with_response-le,
}
use overload.HttpFuture.Phases.{in_body, drive-body}

module _ {F : Foreign} (up : Upstream F) (clock : ℕ → ℕ) where
  abbrev in_response :
      HttpRequestFuture up → ℕ → Fut (String ⊎ HttpResponse up) → HttpRequestFuture up
  in_response self begun fut = record self {
    state = HttpRequestState.in_progress;
    timer = some begun;
    response = fut;
    body = none;
    lua_assert_future = none;
  }

  await_body-driven :
      (fuel k begun : ℕ) (self : HttpRequestFuture up) (log : List Metric)
      (fut : Fut (Option up.Bytes))
      → (await_body up self (suc k) log fut).0 ≤ fuel + k
      → drive up clock fuel k (in_body up clock self begun fut) log
        ≡ report (await_body up self (suc k) log fut)
  unfolding drive poll begin_request dispatch poll_body poll_inner
  await_body-driven zero k begun self log spent h = absurd (omega arith)
  await_body-driven (suc fuel) k begun self log spent h = refl
  await_body-driven fuel k begun self log (later m body) h =
      drive-body up clock m fuel k begun (suc k + m) body self log (omega arith) h

  drive-response :
      (n fuel k begun p : ℕ) (val : String ⊎ HttpResponse up) (self : HttpRequestFuture up)
      (log : List Metric)
      → suc (k + n) ≡ p
      → (with_response up clock begun self p log val).0 ≤ fuel + k
      → drive up clock fuel k (in_response self begun (later n val)) log
        ≡ report (with_response up clock begun self p log val)
  unfolding drive poll begin_request dispatch poll_rest poll_response on_response poll_inner
      check_body do_simple_assertion
  drive-response n zero k begun p val self log e h =
      absurd (omega (arith, with_response-le up clock begun self p log val))
  drive-response zero (suc fuel) k begun p (inl err) self log e h =
      ap (λ q. some (finished q (log ++ upstream_request_status_count 1 err ∷ []))) (omega arith)
  drive-response zero (suc fuel) k begun p (inr response) self log e h =
      let now : suc k ≡ p = omega arith in
      let at : k ≡ p - 1 = omega arith in
      let same =
        ap₂
          (λ q j.
            await_body up self (suc q)
              (log
                ++ upstream_response_time response.status (clock j - begun)
                  ∷ upstream_request_status_count 1 response.status
                  ∷ [])
              response.body)
          now at in
      await_body-driven fuel (suc k) begun
        (record self { response = spent; status = some response.status }) _ response.body
        (omega (arith, h, ap (λ (o : Outcome). o.0) same))
      ∙ ap report same
  drive-response (suc n) (suc fuel) k begun p val self log e h =
      ap (drive up clock fuel (suc k) (in_response self begun (later n val))) (append-nil log)
      ∙ drive-response n fuel (suc k) begun p val self log (omega arith) (omega arith)

  -- A future that was not polled yet.
  abbrev pub fresh : HttpRequestFuture up → HttpRequestFuture up
  fresh self = record self { state = HttpRequestState.init; body = none; lua_assert_future = none }

  carry :
      (fuel : ℕ) (first : Metric) (polled : Option (Polled up))
      → ((polled >>= λ p. some (p.0, p.1, (first ∷ []) ++ p.2))
          >>= go_on (drive up clock fuel) 0 [])
        ≡ ((polled >>= λ p. some (p.0, p.1, [] ++ p.2))
            >>= go_on (drive up clock fuel) 0 (first ∷ []))
  carry fuel first none = refl
  carry fuel first (some (ready, self, counted)) = refl
  carry fuel first (some (pending woken, self, counted)) = refl

  drive-fresh :
      (fuel : ℕ) (self : HttpRequestFuture up)
      → drive up clock (suc fuel) 0 (fresh self) []
        ≡ drive up clock
            (suc fuel)
            0
            (in_response self (clock 0) self.response)
            (upstream_request_count 1 ∷ [])
  unfolding drive poll begin_request dispatch poll_rest
  drive-fresh fuel self = carry fuel (upstream_request_count 1) _

  await_response-driven :
      (fuel : ℕ) (self : HttpRequestFuture up) (log : List Metric)
      (fut : Fut (String ⊎ HttpResponse up))
      → (await_response up clock (clock 0) self 1 log fut).0 ≤ suc fuel
      → drive up clock (suc fuel) 0 (in_response self (clock 0) fut) log
        ≡ report (await_response up clock (clock 0) self 1 log fut)
  unfolding drive poll begin_request dispatch poll_rest poll_response poll_inner
  await_response-driven fuel self log spent h = refl
  await_response-driven fuel self log (later n val) h =
      drive-response n (suc fuel) 0 (clock 0) (1 + n) val self log (omega arith) (omega (arith, h))

  -- The task of a request that was not polled yet, with at least as many polls allowed as the
  -- straight line needs, ends as the straight line does: after as many polls, or by a panic at the
  -- same poll, with the same counts and measurements in the same order: the request; then the time
  -- until the response, and its status, or the error; then the failed assertions about the body;
  -- then those of Lua.
  pub drive-straight :
      (fuel : ℕ) (self : HttpRequestFuture up)
      → (straight up clock (fresh self)).0 ≤ suc fuel
      → drive up clock (suc fuel) 0 (fresh self) [] ≡ report (straight up clock (fresh self))
  unfolding check_body do_simple_assertion
  drive-straight fuel self h =
      drive-fresh fuel self
      ∙ await_response-driven fuel self (upstream_request_count 1 ∷ []) self.response h
