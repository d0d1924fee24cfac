-- ===== src/RateSpec/Scheme/Reference.antt =====
-- Every scheme, polled once a second, answers with a rate that depends on the second alone.
use overload.Common.{
  ℕ, suc, ◌+◌, ◌%◌, ◌<◌, ◌≡◌, refl, List, [], ◌∷◌, length, get_or, get_elem?-get_or, Option, some,
  ◌==◌, arith, false, ap, ltb, min, if◌then◌else◌, Bool-cases, inl, inr, true,
}
use overload.Foreign.{Foreign}
use overload.RateSpec.{ArraySpec, Linear, u32_mod}
use overload.RateSpec.Scheme.{
  RateScheme, constant, array, bounded, linear, steps, elastic, next, array_next, linear_next,
  steps_next,
}
use overload.RateSpec.Scheme.Polling.{rate_at, IsAt, steps_next-Polled}

-- `ArraySpec` goes round its list, and an empty list stands for no requests.
abbrev pub cyclic_rate : List ℕ → ℕ → ℕ
cyclic_rate rates n = get_or rates (n % length rates) 0

array_next_lem :
    (spec : ArraySpec) (n : ℕ) → array_next spec n ≡ some (cyclic_rate spec.count_per_sec n)
unfolding array_next
array_next_lem spec n = go spec.count_per_sec refl
  where
    go :
        (xs : List ℕ)
        → spec.count_per_sec ≡ xs
        → array_next spec n ≡ some (cyclic_rate spec.count_per_sec n)
    go [] e = rw (e, array_next) refl
    go (x ∷ xs) e =
        let below : n % suc (length xs) < suc (length xs) = omega arith in
        let several : (suc (length xs) == 0) ≡ false = ground arith in
        rw (e, array_next) (rw several (get_elem?-get_or (x ∷ xs) _ 0 below))

module _ (F : Foreign) where
  -- `y = ceil(ax + b)` until the cap, as long as `y` fits a `u32`, and its remainder where it does not.
  abbrev pub linear_rate : Linear F.Float → ℕ → ℕ
  linear_rate spec n =
      let y = F.ceil_mul spec.a n + spec.b in
      if ltb y u32_mod then min y spec.max else min (y % u32_mod) spec.max

  linear_next_lem : (spec : Linear F.Float) (n : ℕ) → linear_next F spec n ≡ linear_rate spec n
  unfolding linear_next
  linear_next_lem spec n = elim (Bool-cases (ltb (F.ceil_mul spec.a n + spec.b) u32_mod)) [
    | inl fits ↦ rw fits (ap (λ y. min y spec.max) (fitting (F.ceil_mul spec.a n + spec.b) fits))
    | inr passes ↦ rw passes refl
  ]
    where
      fitting : (y : ℕ) → ltb y u32_mod ≡ true → y % u32_mod ≡ y
      fitting y h = ground arith

  -- The rate of second `n`, with no state.
  unfoldable pub rate_of : RateScheme F.Float → ℕ → ℕ
  rate_of (constant spec) n = spec.count_per_sec
  rate_of (array spec) n = cyclic_rate spec.count_per_sec n
  rate_of (bounded spec) n = spec.max
  rate_of (linear spec) n = linear_rate spec n
  rate_of (steps spec) n = rate_at spec.steps n
  rate_of (elastic spec) n = 0

  -- The scheme is ready for the poll of second `n`: only steps have a state.
  abbrev pub IsReady : RateScheme F.Float → ℕ → Type 0
  IsReady (steps spec) n = IsAt spec n
  IsReady (constant spec) n = Unit
  IsReady (array spec) n = Unit
  IsReady (bounded spec) n = Unit
  IsReady (linear spec) n = Unit
  IsReady (elastic spec) n = Unit

  -- A poll at second `n` gives the rate of the second, and a scheme with the same rates that is
  -- ready for the next second.
  pub record Answers (scheme : RateScheme F.Float) (n : ℕ) (last : Option ℕ) : Type 0 where
    pub after : RateScheme F.Float
    pub answer : next F scheme n last ≡ some (rate_of scheme n, after)
    pub ready : IsReady after (n + 1)
    pub same : (m : ℕ) → rate_of after m ≡ rate_of scheme m

  pub next-Answers :
      (scheme : RateScheme F.Float) (n : ℕ) (last : Option ℕ)
      → IsReady scheme n
      → Answers scheme n last
  unfolding next rate_of
  next-Answers (constant spec) n last r = record {
    after = constant spec;
    answer = refl;
    ready = tt;
    same = λ m. refl;
  }
  next-Answers (array spec) n last r = record {
    after = array spec;
    answer = rw (array_next_lem spec n);
    ready = tt;
    same = λ m. refl;
  }
  next-Answers (bounded spec) n last r = record {
    after = bounded spec;
    answer = refl;
    ready = tt;
    same = λ m. refl;
  }
  next-Answers (linear spec) n last r = record {
    after = linear spec;
    answer = ap (λ rate. some (rate, linear spec)) (linear_next_lem spec n);
    ready = tt;
    same = λ m. refl;
  }
  next-Answers (steps spec) n last r =
      let (rate, same_steps, at) = steps_next-Polled spec n r in
      record {
        after = steps (steps_next spec n).1;
        answer = rw rate refl;
        ready = at;
        same = λ m. ap (λ l. rate_at l m) same_steps;
      }
  next-Answers (elastic spec) n last r = record {
    after = elastic spec;
    answer = refl;
    ready = tt;
    same = λ m. refl;
  }
