-- ===== src/Assert/Errors.antt =====
-- response-assert/src/lib.rs: the errors and the panic of `simple_assert`.
use overload.Common.{
  ℕ, ◌≡◌, ◌≢◌, refl, sym, ap, ap₂, subst, ◌∙◌, Bool, true, false, List, [], ◌∷◌, map, Option, none,
  some, if◌then◌else◌, >>=-eq-some, some_injective, ◌⊎◌, inl, inr, Bool-cases, Option-cases,
}
use mathlib.Core.List.{cons-ne-nil}
use overload.Assert.{
  Actual, Assertion, ResponseAssertion, AssertionError, get_id, failed_assert, ok, err,
  assertions_of, simple_assert,
}
use overload.Assert.Judging.{simple_assert-verdicts}
use overload.Assert.Verdicts.{
  errors_of, is_none, all_none, wanted, fault, verdict, verdicts, summary,
}
use overload.Foreign.{Foreign}
use overload.Json.{Value}

ok≢err : {errors : List AssertionError} → ok ≢ err errors
ok≢err h = cc h

err_injective : {xs ys : List AssertionError} → err xs ≡ err ys → xs ≡ ys
err_injective h = cc h

module _ (F : Foreign) (url : F.Uri) (body : Option (Value F.Number))
    (response : Value F.Number) where
  -- The ids of the assertions that do not match; a judgement that panics has none.
  unfoldable pub failing : List (Assertion F) → List ℕ
  failing [] = []
  failing (a ∷ rest) =
      let others = failing rest in
      elim (verdict F url body response a) [
        | none ↦ others
        | some none ↦ others
        | some (some e) ↦ a.id ∷ others
      ]

  Blames : ℕ → Option AssertionError → Type 0
  Blames id none = Unit
  Blames id (some e) = get_id e ≡ id

  failed-Blames : (id : ℕ) (b : Bool) → Blames id (if b then none else some (failed_assert id))
  unfolding Blames get_id
  failed-Blames id true = tt
  failed-Blames id false = refl

  fault-Blames :
      (id : ℕ) (actual : Actual F) (values : Option (List (Value F.Number)))
      → Blames id (fault F url body response id actual values)
  unfolding fault Blames get_id
  fault-Blames id actual none = refl
  fault-Blames id actual (some []) = refl
  fault-Blames id (Actual.constant value) (some (v ∷ vs)) = failed-Blames id _
  fault-Blames id (Actual.from_json_response path) (some (v ∷ vs)) =
      elim (Option-cases (F.select path.inner response)) [
        | inl fails ↦ rw (fails, fault) refl
        | inr (found, selected) ↦ rw (selected, fault) (failed-Blames id _)
      ]

  verdict-Blames :
      (a : Assertion F) (v : Option AssertionError)
      → verdict F url body response a ≡ some v
      → Blames a.id v
  unfolding verdict
  verdict-Blames a v h =
      let (values, _, e) = >>=-eq-some (wanted F url body response a.expectation) _ h in
      subst (Blames a.id) (some_injective e) (fault-Blames a.id a.actual values)

  cons-failing :
      (a : Assertion F) (rest : List (Assertion F)) (v : Option AssertionError)
      (others : List (Option AssertionError))
      → verdict F url body response a ≡ some v
      → Blames a.id v
      → map get_id (errors_of others) ≡ failing rest
      → map get_id (errors_of (v ∷ others)) ≡ failing (a ∷ rest)
  unfolding Blames errors_of failing
  cons-failing a rest none others judged b e = rw (judged, failing) e
  cons-failing a rest (some x) others judged b e =
      rw (judged, failing) (ap₂ (λ id ids. id ∷ ids) b e)

  errors_of-failing :
      (assertions : List (Assertion F)) (vs : List (Option AssertionError))
      → verdicts F url body response assertions ≡ some vs
      → map get_id (errors_of vs) ≡ failing assertions
  unfolding verdicts errors_of failing
  errors_of-failing [] vs h =
      subst (λ l. map get_id (errors_of l) ≡ failing []) (some_injective h) refl
  errors_of-failing (a ∷ rest) vs h =
      let (v, judged, h') = >>=-eq-some (verdict F url body response a) _ h in
      let (others, rest_judged, e) = >>=-eq-some (verdicts F url body response rest) _ h' in
      subst (λ l. map get_id (errors_of l) ≡ failing (a ∷ rest)) (some_injective e)
        (cons-failing a rest v others judged (verdict-Blames a v judged)
          (errors_of-failing rest others rest_judged))

  -- Errors behind a list that does not match throughout.
  errors-ne-nil : (vs : List (Option AssertionError)) → all_none vs ≡ false → errors_of vs ≢ []
  unfolding all_none is_none errors_of
  errors-ne-nil [] h = cc h
  errors-ne-nil (none ∷ vs) h = errors-ne-nil vs h
  errors-ne-nil (some x ∷ vs) h = cons-ne-nil x _

  -- If `simple_assert` fails, it answers one error for each assertion that does not match, with the
  -- assertion's id and in the order of the assertions, and there is at least one.
  simple_assert-errors :
      (r : ResponseAssertion F) (errors : List AssertionError)
      → simple_assert F url body response r ≡ some (err errors)
      → (errors ≢ []) × (map get_id errors ≡ failing (assertions_of r))
  unfolding summary
  simple_assert-errors r errors h =
      let (vs, judged, e) =
        >>=-eq-some (verdicts F url body response (assertions_of r)) _
          (sym (simple_assert-verdicts F url body response r) ∙ h) in
      go vs judged (Bool-cases (all_none vs)) (some_injective e)
    where
      go :
          (vs : List (Option AssertionError))
          → verdicts F url body response (assertions_of r) ≡ some vs
          → (all_none vs ≡ true) ⊎ (all_none vs ≡ false)
          → (if all_none vs then ok else err (errors_of vs)) ≡ err errors
          → (errors ≢ []) × (map get_id errors ≡ failing (assertions_of r))
      go vs judged (inl matched) e =
          absurd (ok≢err (ap (λ b. if b then ok else err (errors_of vs)) (sym matched) ∙ e))
      go vs judged (inr failed) e =
          let same =
            err_injective (ap (λ b. if b then ok else err (errors_of vs)) (sym failed) ∙ e) in
          (
            subst (λ l. l ≢ []) same (errors-ne-nil vs failed),
            subst (λ l. map get_id l ≡ failing (assertions_of r)) same
                (errors_of-failing (assertions_of r) vs judged),
          )
