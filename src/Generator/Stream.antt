-- ===== src/Generator/Stream.antt =====
-- The whole stream of a generator: one pair of rates for each second of the test, and then its end.
use overload.Common.{
  count_up, ℕ, zero, suc, ◌+◌, ◌≤◌, ◌<◌, ◌≡◌, refl, List, [], ◌∷◌, Option, none, some, arith, ◌>>=◌,
  ap, ap₂, ◌∙◌, leb, true, false, map,
}
use overload.Foreign.{Foreign}
use overload.Http.{Request}
use overload.RateSpec.{Step, u32_mod}
use overload.RateSpec.Scheme.{RateScheme, constant, array, bounded, linear, steps, elastic}
use overload.RateSpec.Scheme.Polling.{IsAccepted-IsAt}
use overload.RateSpec.Validate.Accept.{IsAccepted}
use overload.RateSpec.Scheme.Reference.{rate_of, IsReady, next-Answers}
use overload.Generator.{
  RequestGenerator, poll_next, new, into_generator, qps_of, connection_rate_of,
}

module _ (F : Foreign) where
  -- A consumer's loop, `while let Some(item) = stream.next().await`: the items and the generator at
  -- the end of the stream. `none` is a panic, or the end of the fuel.
  pub collect : ℕ → RequestGenerator F → Option (List (ℕ × ℕ) × RequestGenerator F)
  collect zero g = none
  collect (suc fuel) g = poll_next F g >>= λ (item, g'). elim item [
    | none ↦ some ([], g')
    | some rates ↦ collect fuel g' >>= λ (items, last). some (rates ∷ items, last)
  ]

  -- Both schemes are ready for the second that is polled next.
  pub record IsPrimed (g : RequestGenerator F) : Type 0 where
    pub qps_ready : IsReady F g.qps_scheme g.current_count
    pub connection_ready : IsReady F g.concurrent_connection g.current_count

  -- The rates of the seconds from `start` on.
  abbrev pub expected : RateScheme F.Float → RateScheme F.Float → ℕ → ℕ → List (ℕ × ℕ)
  expected qps conn start n = map (λ s. (rate_of F qps s, rate_of F conn s)) (count_up start n)

  pub expected-same :
      (q q' c c' : RateScheme F.Float) (start n : ℕ)
      → ((m : ℕ) → rate_of F q' m ≡ rate_of F q m)
      → ((m : ℕ) → rate_of F c' m ≡ rate_of F c m)
      → expected q' c' start n ≡ expected q c start n
  expected-same q q' c c' start zero h k = refl
  expected-same q q' c c' start (suc n) h k =
      ap₂ ◌∷◌ (ap₂ (λ a b. (a, b)) (h start) (k start)) (expected-same q q' c c' (start + 1) n h k)

  pub poll_next-end :
      (g : RequestGenerator F) → g.total ≤ g.current_count → poll_next F g ≡ some (none, g)
  unfolding poll_next
  poll_next-end g h = let over : leb g.total g.current_count ≡ true = ground arith in rw over refl

  -- What a poll before the end yields.
  pub record Yields (g : RequestGenerator F) : Type 0 where
    pub after : RequestGenerator F
    pub item :
        poll_next F g
        ≡ some (
          some (
            rate_of F g.qps_scheme g.current_count,
            rate_of F g.concurrent_connection g.current_count,
          ),
          after,
        )
    pub primed : IsPrimed after
    pub count : after.current_count ≡ g.current_count + 1
    pub total : after.total ≡ g.total
    pub same_qps : (m : ℕ) → rate_of F after.qps_scheme m ≡ rate_of F g.qps_scheme m
    pub same_connection :
        (m : ℕ) → rate_of F after.concurrent_connection m ≡ rate_of F g.concurrent_connection m

  pub poll_next-Yields :
      (g : RequestGenerator F) → IsPrimed g → g.current_count < g.total → Yields g
  unfolding poll_next
  poll_next-Yields g p h =
      let q = next-Answers F g.qps_scheme g.current_count none p.qps_ready in
      let c = next-Answers F g.concurrent_connection g.current_count none p.connection_ready in
      let inside : leb g.total g.current_count ≡ false = ground arith in
      record {
        after = record g {
          qps_scheme = q.after;
          concurrent_connection = c.after;
          current_count = g.current_count + 1;
        };
        item = rw (inside, q.answer) (rw c.answer refl);
        primed = record { qps_ready = q.ready; connection_ready = c.ready };
        count = refl;
        total = refl;
        same_qps = q.same;
        same_connection = c.same;
      }

  pub collect-expected :
      (left : ℕ) (g : RequestGenerator F)
      → IsPrimed g
      → g.current_count + left ≡ g.total
      → (last : RequestGenerator F) × (collect (suc left) g
          ≡ some (expected g.qps_scheme g.concurrent_connection g.current_count left, last))
        × (poll_next F last ≡ some (none, last))
  unfolding collect
  collect-expected zero g p e = let end = poll_next-end g (omega arith) in (g, rw end refl, end)
  collect-expected (suc left) g p e =
      let y = poll_next-Yields g p (omega arith) in
      let (last, rest, end) =
        collect-expected left y.after y.primed (omega (arith, y.count, y.total)) in
      let tail =
        rest
        ∙ ap (λ l. some (l, last))
            (ap (λ n. expected y.after.qps_scheme y.after.concurrent_connection n left) y.count
              ∙ expected-same _ _ _ _ (g.current_count + 1) left y.same_qps y.same_connection) in
      (last, rw y.item (rw tail refl), end)

  -- A scheme's steps, where it has any, passed the validation of a request.
  abbrev pub IsValidated : RateScheme F.Float → Type 0
  IsValidated (steps spec) = (given : List Step) × IsAccepted given spec
  IsValidated (constant spec) = Unit
  IsValidated (array spec) = Unit
  IsValidated (bounded spec) = Unit
  IsValidated (linear spec) = Unit
  IsValidated (elastic spec) = Unit

  pub IsValidated-IsReady : (scheme : RateScheme F.Float) → IsValidated scheme → IsReady F scheme 0
  IsValidated-IsReady (steps spec) v = IsAccepted-IsAt v.0 spec v.1
  IsValidated-IsReady (constant spec) v = tt
  IsValidated-IsReady (array spec) v = tt
  IsValidated-IsReady (bounded spec) v = tt
  IsValidated-IsReady (linear spec) v = tt
  IsValidated-IsReady (elastic spec) v = tt

  -- The stream of a request whose steps were validated: it does not panic, it gives exactly one
  -- pair for each of the `duration` seconds, the rate of requests and the rate of connections that
  -- the two specifications ask for in that second, and from then on it only says that it has ended.
  -- A linear specification asks for `ceil(ax) + b` in second `x`, the first being 0, up to its cap,
  -- and if that sum does not fit a `u32`, for its remainder up to the cap.
  pub into_generator-collect :
      (r : Request F)
      → r.duration < u32_mod
      → IsValidated (qps_of F r.qps)
      → IsValidated (connection_rate_of F r.concurrent_connection)
      → (last : RequestGenerator F) × (collect (suc r.duration) (into_generator F r)
          ≡ some (
            expected (qps_of F r.qps) (connection_rate_of F r.concurrent_connection) 0 r.duration,
            last,
          ))
        × (poll_next F last ≡ some (none, last))
  unfolding into_generator new
  into_generator-collect r lt q c =
      collect-expected r.duration (into_generator F r)
        (record { qps_ready = IsValidated-IsReady _ q; connection_ready = IsValidated-IsReady _ c })
        (omega arith)
