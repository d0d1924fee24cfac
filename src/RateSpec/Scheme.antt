-- ===== src/RateSpec/Scheme.antt =====
-- cluster-executor/src/rate_spec.rs: the trait `RateScheme` and its implementations.
pub mod Polling
pub mod Reference
use overload.Common.{
  ℕ, suc, ◌+◌, ◌%◌, List, [], ◌∷◌, length, get_elem?, Option, none, some, leb, ◌==◌, if◌then◌else◌,
  Bool, true, false, ◌&&◌, min,
}
use mathlib.Core.Option
use overload.Foreign.{Foreign}
use overload.RateSpec.{Step, Steps, u32_mod, ConstantRate, ArraySpec, Bounded, Elastic, Linear}

-- `self.count_per_sec.get(idx).unwrap()` is `none` out of range.
pub array_next : ArraySpec → ℕ → Option ℕ
array_next spec nth =
    let len = length spec.count_per_sec in
    if len == 0 then some 0 else get_elem? spec.count_per_sec (nth % len)

-- `steps.last().map_or(0, |s| s.rate)`
pub last_rate : List Step → ℕ
last_rate [] = 0
last_rate (s ∷ []) = s.rate
last_rate (s ∷ t ∷ rest) = last_rate (t ∷ rest)

-- The rate, and whether `current_step` moves on.
pub steps_select : Steps → ℕ → ℕ × Bool
steps_select s nth = elim (get_elem? s.steps s.current_step) [
  | none ↦ (0, false)
  | some step ↦
      if leb step.start nth && leb nth step.end
      then (step.rate, false)
      else elim (get_elem? s.steps (suc s.current_step)) [
        | none ↦ (last_rate s.steps, false)
        | some next ↦ (next.rate, true)
      ]
]

pub steps_next : Steps → ℕ → ℕ × Steps
unfolding steps_select
steps_next s nth =
    let (rate, found_next) = steps_select s nth in
    (rate, if found_next then record s { current_step = suc s.current_step } else s)

module _ (F : Foreign) where
  open F use {Float, ceil_mul}

  pub linear_next : Linear Float → ℕ → ℕ
  linear_next spec nth = min ((ceil_mul spec.a nth + spec.b) % u32_mod) spec.max

-- A `Box<dyn RateScheme>` is the value of one of its implementations.
pub data RateScheme (Float : Type 0) : Type 0 where
  constant : ConstantRate → RateScheme Float
  array : ArraySpec → RateScheme Float
  bounded : Bounded → RateScheme Float
  linear : Linear Float → RateScheme Float
  steps : Steps → RateScheme Float
  elastic : Elastic → RateScheme Float

module _ (F : Foreign) where
  open F use {Float}

  -- `next(&mut self, nth, last_qps)`: the rate and the new `self`; `none` is a panic.
  pub next : RateScheme Float → ℕ → Option ℕ → Option (ℕ × RateScheme Float)
  next (constant spec) nth last_qps = some (spec.count_per_sec, constant spec)
  next (array spec) nth last_qps = Option.map (λ rate. (rate, array spec)) (array_next spec nth)
  next (bounded spec) nth last_qps = some (spec.max, bounded spec)
  next (linear spec) nth last_qps = some (linear_next F spec nth, linear spec)
  next (steps spec) nth last_qps =
      let (rate, spec') = steps_next spec nth in some (rate, steps spec')
  next (elastic spec) nth last_qps = some (0, elastic spec)
