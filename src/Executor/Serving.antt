-- ===== src/Executor/Serving.antt =====
-- The rates of a test, as an executor handles them.
use overload.Common.{
  ℕ, suc, ◌+◌, ◌*◌, ◌≤◌, ◌<◌, ◌≡◌, refl, sym, ap, subst, ◌∙◌, true, List, [], ◌∷◌, ◌++◌, length,
  map, All, Option, some, ◌>>=◌, arith,
}
use mathlib.Core.List.{append-nil, append_assoc}
use overload.Common.Int.{◌-ℤ◌}
use overload.Executor.Cycle.{
  Batch, Cycle, End, Clock, is_late, time_remaining, cycle_length, immediate_bundle_size,
  bundle_size, send_n_request_in_t_duration, send_multiple_requests,
}
use overload.Executor.Sending.{sent}
use overload.Executor.Sending.Loop.{Answers, AnswersSome, Finished}
use overload.Executor.Seconds.{
  send_n_request_in_t_duration-Finished, send_multiple_requests-Finished,
}
use overload.Executor.Session.{
  Received, message, finish_exit, Context, Session, Progress, exited, Surroundings, resized,
  clock_of, after_cycle, handle_rate_msg_v2, handle_rate_msg, handle_rate, count_second,
  handle_message, handle_received, carry_on, listen,
}
use overload.Foreign.{Foreign}
use overload.Http.{HttpReq, RequestSpec, LoadGenerationMode}
use overload.Messages.{MessageFromPrimary, RateMessage}
use overload.Providers.{Outcome}
use overload.RateSpec.{u32_mod}

-- What a mode needs of a provider.
abbrev pub Promise : LoadGenerationMode → Outcome (List HttpReq) → Type 0
Promise LoadGenerationMode.immediate outcome = Answers outcome
Promise (LoadGenerationMode.batch size) outcome = AnswersSome outcome

-- Every second is over in the last of the rounds, and the provider keeps its promise.
pub record IsSteady {F : Foreign} {Handle : Type 0} (env : Surroundings F Handle)
    (mode : LoadGenerationMode) : Type 0 where
  pub last_round : ℕ
  pub rounds : env.rounds ≡ suc last_round
  pub over : (k : ℕ) → cycle_length < (env.seconds k).elapsed (2 * last_round + 1)
  pub provides : (spec : RequestSpec F) (n : ℕ) → 1 ≤ n → Promise mode (env.get_requests spec n).0

-- In every second no more requests are sent than its rate says.
abbrev pub KeepsTo : {Handle : Type 0} → List RateMessage → List (List (Batch Handle)) → Type 0
KeepsTo [] [] = Unit
KeepsTo (r ∷ rates) (b ∷ seconds) = (sent b ≤ r.qps) × KeepsTo rates seconds
KeepsTo _ _ = ⊥

over-is_late :
    {Handle : Type 0} (clock : Clock Handle) (k : ℕ)
    → cycle_length < clock.second.elapsed k
    → is_late clock k ≡ true
unfolding is_late time_remaining ◌-ℤ◌
over-is_late clock k h = ground arith

-- A rate that was handled.
pub record Handled (F : Foreign) (Handle : Type 0) (rate : RateMessage)
    (found : Option (Context F Handle × List (Batch Handle))) : Type 0 where
  pub context : Context F Handle
  pub batches : List (Batch Handle)
  pub ends : found ≡ some (context, batches)
  pub within : sent batches ≤ rate.qps

module _ {F : Foreign} {Handle : Type 0} (env : Surroundings F Handle) where
  Finished-Handled :
      (k : ℕ) (rate : RateMessage) (ctx : Context F Handle) (clock : Clock Handle) (bundle : ℕ)
      (fits : rate.qps < u32_mod) (found : Option (End × Cycle Handle (RequestSpec F)))
      → Finished clock bundle rate.qps fits found
      → Handled F Handle rate (found >>= λ cycle. some (after_cycle env k rate ctx cycle))
  unfolding after_cycle
  Finished-Handled k rate ctx clock bundle fits found f = record {
    context = (after_cycle env k rate ctx (f.end, f.last)).0;
    batches = f.last.batches;
    ends = ap (λ found. found >>= λ cycle. some (after_cycle env k rate ctx cycle)) f.ends;
    within = omega (arith, f.cycle.total);
  }

  handle_rate-Handled :
      (mode : LoadGenerationMode)
      → IsSteady env mode
      → (k : ℕ) (rate : RateMessage) (ctx : Context F Handle) → rate.qps < u32_mod
      → Handled F Handle rate (handle_rate env mode k rate ctx)
  unfolding handle_rate handle_rate_msg_v2 handle_rate_msg clock_of
  handle_rate-Handled LoadGenerationMode.immediate steady k rate ctx fits =
      let clock = clock_of env k ctx in
      Finished-Handled k rate ctx clock immediate_bundle_size fits _ (
        subst
          (λ m. Finished clock immediate_bundle_size rate.qps fits (
            send_n_request_in_t_duration clock env.get_requests m rate.qps (resized env rate ctx)
              ctx.request_spec))
          (sym steady.rounds)
          (send_n_request_in_t_duration-Finished clock env.get_requests rate.qps fits
            (resized env rate ctx) ctx.request_spec steady.provides steady.last_round
            (over-is_late clock (2 * steady.last_round + 1) (steady.over k))))
  handle_rate-Handled (LoadGenerationMode.batch size) steady k rate ctx fits =
      let clock = clock_of env k ctx in
      let bundle = bundle_size env.default_bundle_size rate.qps rate.connections in
      Finished-Handled k rate ctx clock bundle fits _ (
        subst
          (λ m. Finished clock bundle rate.qps fits (
            send_multiple_requests clock env.get_requests env.default_bundle_size m rate.qps
              rate.connections (resized env rate ctx) ctx.request_spec))
          (sym steady.rounds)
          (send_multiple_requests-Finished clock env.get_requests rate.qps fits
            (resized env rate ctx) ctx.request_spec steady.provides steady.last_round
            env.default_bundle_size rate.connections
            (over-is_late clock (2 * steady.last_round + 1) (steady.over k))))

  -- What a run of rates leads to.
  pub record Listened (mode : LoadGenerationMode) (rates : List RateMessage) (s : Session F Handle)
      (found : Option (Progress F Handle)) : Type 0 where
    pub last : Session F Handle
    pub seconds : List (List (Batch Handle))
    pub ends : found ≡ some (exited finish_exit last)
    pub counted : last.rates ≡ s.rates + length rates
    pub sent : last.sent ≡ s.sent ++ seconds
    pub keeps : KeepsTo rates seconds

  abbrev pub rated : RateMessage → Received F
  rated rate = message (MessageFromPrimary.rates rate)

  pub listen-Listened :
      (mode : LoadGenerationMode)
      → IsSteady env mode
      → (rates : List RateMessage) (s : Session F Handle) (rest : List (Received F))
      → All (λ r. r.qps < u32_mod) rates
      → Listened mode rates s
          (listen env mode (map rated rates ++ message MessageFromPrimary.finished ∷ rest) s)
  unfolding listen handle_received handle_message carry_on count_second
  listen-Listened mode steady [] s rest fits = record {
    last = s;
    seconds = [];
    ends = refl;
    counted = omega arith;
    sent = sym (append-nil s.sent);
    keeps = tt;
  }
  listen-Listened mode steady (rate ∷ rates) s rest fits =
      let h = handle_rate-Handled mode steady s.rates rate s.context fits.0 in
      let after : Session F Handle = record s {
        context = h.context;
        rates = s.rates + 1;
        sent = s.sent ++ h.batches ∷ [];
      } in
      let l = listen-Listened mode steady rates after rest fits.1 in
      record {
        last = l.last;
        seconds = h.batches ∷ l.seconds;
        ends =
            ap
              (λ found.
                (found >>= λ handled. some (count_second env s handled))
                >>= carry_on env (
                    listen env mode
                      (map rated rates ++ message MessageFromPrimary.finished ∷ rest)))
              h.ends
            ∙ l.ends;
        counted = omega (arith, l.counted);
        sent = l.sent ∙ append_assoc s.sent (h.batches ∷ []) l.seconds;
        keeps = (h.within, l.keeps);
      }
