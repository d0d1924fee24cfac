-- ===== src/Generator/Tests.antt =====
-- A test of four seconds with two steps, and a linear rate.
use overload.Common.{◌≡◌, refl, [], ◌∷◌, some, none, arith, suc, map, count_up}
use mathlib.Core.List.Perm
use overload.Samples.{foreign, steps_request, two_steps}
use overload.RateSpec.Validate.Accept.{IsAccepted}
use overload.RateSpec.Scheme.{linear}
use overload.RateSpec.Scheme.Reference.{rate_of}
use overload.Generator.{RequestGenerator, into_generator, poll_next, qps_of, connection_rate_of}
use overload.Generator.Stream.{collect, into_generator-collect}

two_steps-IsAccepted : IsAccepted two_steps.steps two_steps
two_steps-IsAccepted = record {
  fresh = refl;
  same = Perm.refl two_steps.steps;
  contiguous = omega arith;
  several = omega arith;
}

into_generator-collect_example :
    (last : RequestGenerator foreign) × (collect foreign
        (suc 4)
        (into_generator foreign steps_request)
      ≡ some ((1, 0) ∷ (1, 0) ∷ (1, 0) ∷ (7, 0) ∷ [], last))
    × (poll_next foreign last ≡ some (none, last))
unfolding qps_of connection_rate_of rate_of
into_generator-collect_example =
    into_generator-collect foreign steps_request (omega arith)
      (two_steps.steps, two_steps-IsAccepted) tt

-- The example of the documentation, with slope 2, intercept 1 and cap 12.
linear_rates :
    map (rate_of foreign (linear (record { a = 2; b = 1; max = 12 }))) (count_up 0 8)
    ≡ 1 ∷ 3 ∷ 5 ∷ 7 ∷ 9 ∷ 11 ∷ 12 ∷ 12 ∷ []
unfolding rate_of
linear_rates = refl
