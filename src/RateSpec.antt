-- ===== src/RateSpec.antt =====
-- overload-http/src/rate_spec.rs: how many requests, or connections, each second gets. A `u32` is a
-- number below 2 ^ 32; where the source adds, the release build wraps, and so does the model.
pub mod Validate
pub mod Scheme
pub mod Tests
use overload.Common.{ℕ, List}

abbrev pub u32_mod : ℕ
u32_mod = 4294967296

pub record ConstantRate : Type 0 where
  pub count_per_sec : ℕ

pub record ArraySpec : Type 0 where
  pub count_per_sec : List ℕ

pub record Bounded : Type 0 where
  pub max : ℕ

pub record Elastic : Type 0 where
  pub max : ℕ

pub record Linear (Float : Type 0) : Type 0 where
  pub a : Float
  pub b : ℕ
  pub max : ℕ

pub record Step : Type 0 where
  pub start : ℕ
  pub end : ℕ
  pub rate : ℕ

pub record Steps : Type 0 where
  pub current_step : ℕ
  pub steps : List Step
