-- ===== src/Assert/Tests.antt =====
-- A request `/orders/7?user=ann&flag=` with four assertions.
use Prim.Native.String.{String}
use overload.Common.{ℕ, ◌≡◌, refl, [], ◌∷◌, Option, none, some, inr, ◌>>=◌}
use overload.Common.Parts.{split, split_first}
use overload.Common.Dict.{collect, insert, lookup}
use overload.Assert.{
  Expectation, Actual, Assertion, ResponseAssertion, Checked, err, invalid_expectation,
  failed_assert, pairs, query_map, values_eq, split_path, query_params, look_up_param, expected,
  push, compare_to, judge, check, check_all, assertions_of, simple_assert,
}
use overload.Assert.Panics.{parts_of, reads_query, simple_assert-total, simple_assert-panic}
use overload.Assert.Judging.{simple_assert-verdicts}
use overload.Assert.Verdicts.{verdicts, summary}
use overload.Json.{Value}
use overload.Samples.{foreign}

abbrev uri : String × Option String
uri = ("/orders/7", some "user=ann&flag=")

abbrev answer : Value ℕ
answer = Value.string "ann"

abbrev expects : ℕ → Expectation foreign → Value ℕ → Assertion foreign
expects id expectation value = record {
  id = id;
  expectation = expectation;
  actual = Actual.constant value;
}

abbrev user_is_ann : Assertion foreign
user_is_ann = record {
  id = 1;
  expectation = Expectation.request_query_param "user";
  actual = Actual.from_json_response (record { path = "$"; inner = 0 });
}

abbrev assertions : ResponseAssertion foreign
assertions = record {
  simple_assertions = some (
      user_is_ann
      ∷ expects 2 (Expectation.request_path 2) (Value.string "8")
      ∷ expects 3 (Expectation.request_path 3) (Value.string "8")
      ∷ expects 4 (Expectation.request_path 1) (Value.string "orders")
      ∷ []);
  lua_assertion = none;
}

split_paths : (split "/orders/7" b'/' ≡ "" ∷ "orders" ∷ "7" ∷ []) × (split "" b'&' ≡ "" ∷ [])
unfolding split
split_paths = (refl, refl)

runs :
    simple_assert foreign uri none answer assertions
    ≡ some (err (failed_assert 2 ∷ invalid_expectation 3 ∷ []))
unfolding simple_assert check_all assertions_of check expected query_params query_map pairs split
    split_first split_path judge look_up_param lookup collect insert compare_to values_eq push
runs = refl

simple_assert-verdicts_example :
    simple_assert foreign uri none answer assertions
    ≡ (do vs ← verdicts foreign uri none answer (assertions_of assertions); some (summary vs))
simple_assert-verdicts_example = simple_assert-verdicts foreign uri none answer assertions

simple_assert-total_example :
    (c : Checked) × (simple_assert foreign uri none answer assertions ≡ some c)
unfolding parts_of split split_first
simple_assert-total_example =
    simple_assert-total foreign uri none answer assertions (inr (λ h. cc h, (λ h. cc h, tt)))

simple_assert-panic_example :
    simple_assert foreign ("/orders/7", some "user=ann&flag") none answer assertions ≡ none
unfolding parts_of split split_first reads_query assertions_of
simple_assert-panic_example =
    simple_assert-panic foreign ("/orders/7", some "user=ann&flag") none answer assertions [] _
      user_is_ann refl refl ("user=ann" ∷ []) [] "flag" refl refl
