-- ===== src/RateSpec/Validate.antt =====
-- The two `TryFrom` conversions that serde runs on a step and on a list of steps.
pub mod Accept
use overload.Common.{ℕ, ◌+◌, ◌%◌, List, [], ◌∷◌, Option, none, some, leb, ◌==◌, if◌then◌else◌}
use overload.RateSpec.{Step, Steps, u32_mod}

pub record StepShadowType : Type 0 where
  pub start : ℕ
  pub end : ℕ
  pub rate : ℕ

-- One constructor for each message.
pub data StepsError : Type 0 where
  start_not_before_end : (start end : ℕ) → StepsError
  no_steps : StepsError
  single_step : StepsError
  not_from_zero : (start : ℕ) → StepsError
  not_continuous : (prev start : ℕ) → StepsError

pub data Result (A : Type 0) : Type 0 where
  ok : A → Result A
  err : StepsError → Result A

unfoldable pub step_try_from : StepShadowType → Result Step
step_try_from value =
    if leb value.end value.start
    then err (start_not_before_end value.start value.end)
    else ok (record { start = value.start; end = value.end; rate = value.rate })

-- `sort_by_key(|a| a.start)`, the library's stable sort.
unfoldable pub insert_by_start : Step → List Step → List Step
insert_by_start s [] = s ∷ []
insert_by_start s (t ∷ rest) =
    if leb s.start t.start then s ∷ t ∷ rest else t ∷ insert_by_start s rest

unfoldable pub sort_by_start : List Step → List Step
sort_by_start [] = []
sort_by_start (s ∷ rest) = insert_by_start s (sort_by_start rest)

-- The loop over the steps behind the first: `none` if each starts right behind the one before it.
unfoldable pub check_continuity : ℕ → List Step → Option StepsError
check_continuity prev [] = none
check_continuity prev (current ∷ rest) =
    let next = (prev + 1) % u32_mod in
    if next == current.start
    then check_continuity current.end rest
    else some (not_continuous prev current.start)

unfoldable pub check_sorted : List Step → Result Steps
check_sorted [] = err no_steps
check_sorted (first ∷ rest) =
    if first.start == 0
    then elim (check_continuity first.end rest) [
      | none ↦ ok (record { current_step = 0; steps = first ∷ rest })
      | some e ↦ err e
    ]
    else err (not_from_zero first.start)

unfoldable pub steps_try_from : List Step → Result Steps
steps_try_from [] = err no_steps
steps_try_from (s ∷ []) = err single_step
steps_try_from (s ∷ t ∷ rest) = check_sorted (sort_by_start (s ∷ t ∷ rest))
