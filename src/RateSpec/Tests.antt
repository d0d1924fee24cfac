-- ===== src/RateSpec/Tests.antt =====
-- The conversions and the schemes at the inputs of the source's own tests.
use overload.Common.{ℕ, ◌≡◌, refl, List, [], ◌∷◌, arith}
use overload.RateSpec.{Step}
use overload.RateSpec.Validate.{
  ok, err, not_from_zero, start_not_before_end, steps_try_from, step_try_from, sort_by_start,
  insert_by_start, check_continuity, check_sorted,
}
use overload.RateSpec.Validate.Accept.{IsAccepted, steps_try_from-IsAccepted}

abbrev step : ℕ → ℕ → ℕ → Step
step start end rate = record { start = start; end = end; rate = rate }

abbrev shuffled : List Step
shuffled = step 0 5 1 ∷ step 9 10 3 ∷ step 6 8 2 ∷ []

abbrev ordered : List Step
ordered = step 0 5 1 ∷ step 6 8 2 ∷ step 9 10 3 ∷ []

accepts_shuffled : steps_try_from shuffled ≡ ok (record { current_step = 0; steps = ordered })
unfolding steps_try_from sort_by_start insert_by_start check_sorted check_continuity
accepts_shuffled = refl

rejects_late_start :
    steps_try_from (step 1 5 1 ∷ step 9 10 3 ∷ step 6 8 2 ∷ []) ≡ err (not_from_zero 1)
unfolding steps_try_from sort_by_start insert_by_start check_sorted check_continuity
rejects_late_start = refl

rejects_empty_step :
    step_try_from (record { start = 9; end = 9; rate = 3 }) ≡ err (start_not_before_end 9 9)
unfolding step_try_from
rejects_empty_step = refl

-- The end of the first step plus one wraps to 0, where the second step starts.
accepts_overlap :
    steps_try_from (step 0 4294967295 1 ∷ step 0 5 2 ∷ [])
    ≡ ok (record { current_step = 0; steps = step 0 4294967295 1 ∷ step 0 5 2 ∷ [] })
unfolding steps_try_from sort_by_start insert_by_start check_sorted check_continuity
accepts_overlap = refl

steps_try_from-IsAccepted_example :
    IsAccepted shuffled (record { current_step = 0; steps = ordered })
steps_try_from-IsAccepted_example =
    steps_try_from-IsAccepted shuffled (record { current_step = 0; steps = ordered }) (omega arith)
      accepts_shuffled
