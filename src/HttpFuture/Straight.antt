-- ===== src/HttpFuture/Straight.antt =====
-- The request in a straight line, as if each inner future were awaited: how often the task polls, and
-- what is counted, `none` if it panics at the last poll.
use Prim.Native.String.{String}
use overload.Common.{
  ℕ, suc, ◌+◌, ◌-◌, ◌≤◌, Option, none, some, List, [], ◌∷◌, ◌++◌, ◌⊎◌, inl, inr, arith,
}
use overload.Foreign.{Foreign}
use overload.HttpFuture.{
  Upstream, HttpRequestFuture, HttpResponse, OriginalRequest, Metric, Received, Fut, later, spent,
  metrics_of, check_body, upstream_request_count, upstream_response_time,
  upstream_request_status_count,
}
use overload.HttpFuture.Driving.{Run, finished}

abbrev pub Outcome : Type 0
Outcome = ℕ × Option (List Metric)

module _ {F : Foreign} (up : Upstream F) where
  open up use {Bytes, LuaSender}

  abbrev pub await_lua : Fut Received → (polls : ℕ) → List Metric → Outcome
  await_lua (later l r) polls log = (polls + l, some (log ++ metrics_of r))
  await_lua spent polls log = (polls, none)

  abbrev pub await_lua_of :
      (polls : ℕ) → List Metric → LuaSender → Option String → OriginalRequest → Outcome
  await_lua_of polls log sender none original = (polls, some log)
  await_lua_of polls log sender (some s) OriginalRequest.place_holder = (polls, some log)
  await_lua_of polls log sender (some s) (OriginalRequest.request req) =
      await_lua (up.send sender s req) polls log

  abbrev pub with_lua :
      HttpRequestFuture up → (polls : ℕ) → List Metric → Bytes → Option LuaSender → Outcome
  with_lua self polls log body none = (polls, some log)
  with_lua self polls log body (some sender) =
      await_lua_of polls log sender (up.from_utf8 body) self.original_request

  abbrev pub with_checks :
      HttpRequestFuture up → (polls : ℕ) → List Metric → Bytes → Option (List Metric) → Outcome
  with_checks self polls log body none = (polls, none)
  with_checks self polls log body (some counted) =
      with_lua self polls (log ++ counted) body self.lua_executor_sender

  abbrev pub with_body : HttpRequestFuture up → (polls : ℕ) → List Metric → Option Bytes → Outcome
  with_body self polls log none = (polls, some log)
  with_body self polls log (some body) = with_checks self polls log body (check_body up self body)

  abbrev pub await_body :
      HttpRequestFuture up → (polls : ℕ) → List Metric → Fut (Option Bytes) → Outcome
  await_body self polls log (later m body) = with_body self (polls + m) log body
  await_body self polls log spent = (polls, none)

  abbrev pub with_response :
      (clock : ℕ → ℕ) (begun : ℕ)
      → HttpRequestFuture up
      → (polls : ℕ) → List Metric
      → String ⊎ HttpResponse up
      → Outcome
  with_response clock begun self polls log (inl e) =
      (polls, some (log ++ upstream_request_status_count 1 e ∷ []))
  with_response clock begun self polls log (inr response) =
      await_body self (suc polls)
        (log
          ++ upstream_response_time response.status (clock (polls - 1) - begun)
            ∷ upstream_request_status_count 1 response.status
            ∷ [])
        response.body

  abbrev pub await_response :
      (clock : ℕ → ℕ) (begun : ℕ)
      → HttpRequestFuture up
      → (polls : ℕ) → List Metric
      → Fut (String ⊎ HttpResponse up)
      → Outcome
  await_response clock begun self polls log (later n val) =
      with_response clock begun self (polls + n) log val
  await_response clock begun self polls log spent = (polls, none)

  -- The first poll counts the request and reads the clock.
  abbrev pub straight : (clock : ℕ → ℕ) → HttpRequestFuture up → Outcome
  straight clock self =
      await_response clock (clock 0) self 1 (upstream_request_count 1 ∷ []) self.response

abbrev pub report : Outcome → Option Run
report (polls, none) = none
report (polls, some log) = some (finished polls log)

-- A lower bound of the polls.
module _ {F : Foreign} (up : Upstream F) where
  await_lua-le :
      (fut : Fut Received) (polls : ℕ) (log : List Metric) → polls ≤ (await_lua up fut polls log).0
  await_lua-le (later l r) polls log = omega arith
  await_lua-le spent polls log = omega arith

  await_lua_of-le :
      (polls : ℕ) (log : List Metric) (sender : up.LuaSender) (text : Option String)
      (original : OriginalRequest)
      → polls ≤ (await_lua_of up polls log sender text original).0
  await_lua_of-le polls log sender none original = omega arith
  await_lua_of-le polls log sender (some s) OriginalRequest.place_holder = omega arith
  await_lua_of-le polls log sender (some s) (OriginalRequest.request req) =
      await_lua-le (up.send sender s req) polls log

  pub with_body-le :
      (self : HttpRequestFuture up) (polls : ℕ) (log : List Metric) (body : Option up.Bytes)
      → polls ≤ (with_body up self polls log body).0
  with_body-le self polls log none = omega arith
  with_body-le self polls log (some body) = go (check_body up self body) self.lua_executor_sender
    where
      go :
          (checked : Option (List Metric)) (sender : Option up.LuaSender)
          → polls
            ≤ (with_checks up
                (record self { lua_executor_sender = sender })
                polls
                log
                body
                checked).0
      go none sender = omega arith
      go (some counted) none = omega arith
      go (some counted) (some sender) =
          await_lua_of-le polls _ sender (up.from_utf8 body) self.original_request

  pub with_response-le :
      (clock : ℕ → ℕ) (begun : ℕ) (self : HttpRequestFuture up) (polls : ℕ) (log : List Metric)
      (val : String ⊎ HttpResponse up)
      → polls ≤ (with_response up clock begun self polls log val).0
  with_response-le clock begun self polls log (inl e) = omega arith
  with_response-le clock begun self polls log (inr response) = go response.body
    where
      go :
          (fut : Fut (Option up.Bytes))
          → polls
            ≤ (await_body up self
                (suc polls)
                (log
                  ++ upstream_response_time response.status (clock (polls - 1) - begun)
                    ∷ upstream_request_status_count 1 response.status
                    ∷ [])
                fut).0
      go spent = omega arith
      go (later m body) = omega (arith, with_body-le self (suc polls + m) _ body)
