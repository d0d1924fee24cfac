-- ===== src/Assert/Judging.antt =====
-- response-assert/src/lib.rs: `simple_assert` gives the judgements of its assertions.
use overload.Common.{
  ℕ, ◌≡◌, refl, sym, ap, ap₂, ◌∙◌, subst, Bool, false, ◌&&◌, List, [], ◌∷◌, ◌++◌, Option, none,
  some, if◌then◌else◌, ◌>>=◌, inl, inr, arith, Bool-cases, Option-cases,
}
use mathlib.Core.List.{append-nil, append_assoc}
use overload.Assert.{
  Actual, Assertion, ResponseAssertion, AssertionError, invalid_expectation, failed_assert,
  invalid_actual, ok, err, Scan, push, values_eq, split_path, query_params, compare_to, judge,
  check, check_all, fresh, assertions_of, simple_assert,
}
use overload.Foreign.{Foreign}
use overload.Json.{Value}
use overload.Assert.Verdicts.{
  errors_of, is_none, all_none, summary, IsCached, Expects, missing, fault, verdict, verdicts,
  wanted, expected-Expects,
}

module _ (F : Foreign) (url : F.Uri) (body : Option (Value F.Number))
    (response : Value F.Number) where
  -- The errors of one assertion.
  abbrev said : Option AssertionError → List AssertionError
  said none = []
  said (some e) = e ∷ []

  -- `check` gives the verdict.
  abbrev Judges : Scan → Option (Option AssertionError) → Option Scan → Type 0
  Judges s none found = found ≡ none
  Judges s (some v) found =
      (s' : Scan) × (found ≡ some s')
      × IsCached F url body response s'
      × (s'.errors ≡ s.errors ++ said v)
      × (s'.all_matched ≡ s.all_matched && is_none v)

  conclude : Bool × Scan → Scan
  conclude (matched, judged) = if matched then judged else record judged { all_matched = false }

  all_kept :
      (s : Scan)
      → IsCached F url body response s
      → (errors : List AssertionError) (b : Bool)
      → IsCached F url body response (record s { errors = errors; all_matched = b })
  unfolding split_path query_params
  all_kept s c errors b = record { segments = c.segments; params = c.params }

  matched-Judges :
      (s s' : Scan)
      → IsCached F url body response s'
      → s'.errors ≡ s.errors ++ []
      → s'.all_matched ≡ s.all_matched
      → Judges s (some none) (some s')
  unfolding is_none
  matched-Judges s s' c e m = (s', refl, c, e, ground (arith, m))

  missed-Judges :
      (x : AssertionError) (s s' : Scan)
      → IsCached F url body response s'
      → s'.errors ≡ s.errors ++ x ∷ []
      → Judges s (some (some x)) (some (record s' { all_matched = false }))
  unfolding is_none
  missed-Judges x s s' c e = (_, refl, all_kept s' c _ _, e, ground arith)

  failed-Judges :
      (x : AssertionError) (s s' : Scan)
      → IsCached F url body response s'
      → s'.errors ≡ s.errors ++ []
      → s'.all_matched ≡ s.all_matched
      → Judges s (some (some x)) (some (record (push x s') { all_matched = false }))
  unfolding is_none push
  failed-Judges x s s' c e m = (
    _,
    refl,
    all_kept s' c _ _,
    ap (λ errors. errors ++ x ∷ []) (e ∙ append-nil s.errors),
    ground arith,
  )

  judge-Judges :
      (id : ℕ) (actual : Actual F) (values : Option (List (Value F.Number))) (s s' : Scan)
      → IsCached F url body response s'
      → s'.errors ≡ s.errors ++ missing F url body response id values
      → s'.all_matched ≡ s.all_matched
      → Judges s
          (some (fault F url body response id actual values))
          (some (conclude (judge F url body response id actual (values, s'))))
  unfolding missing conclude judge fault compare_to
  judge-Judges id actual none s s' c e m = missed-Judges (invalid_expectation id) s s' c e
  judge-Judges id actual (some []) s s' c e m = failed-Judges (invalid_expectation id) s s' c e m
  judge-Judges id (Actual.constant value) (some (v ∷ vs)) s s' c e m =
      elim (Bool-cases (values_eq F (v ∷ vs) (value ∷ []))) [
        | inl same ↦ rw (same, fault, compare_to) (matched-Judges s s' c e m)
        | inr differ ↦ rw (differ, fault, compare_to) (failed-Judges (failed_assert id) s s' c e m)
      ]
  judge-Judges id (Actual.from_json_response path) (some (v ∷ vs)) s s' c e m =
      elim (Option-cases (F.select path.inner response)) [
        | inl fails ↦ rw (fails, fault, compare_to) (failed-Judges (invalid_actual id) s s' c e m)
        | inr (found, selected) ↦
            rw (selected, fault, compare_to)
              (elim (Bool-cases (values_eq F found (v ∷ vs))) [
                | inl same ↦ rw (same, fault, compare_to) (matched-Judges s s' c e m)
                | inr differ ↦
                    rw (differ, fault, compare_to) (failed-Judges (failed_assert id) s s' c e m)
              ])
      ]

  then-Judges :
      (id : ℕ) (actual : Actual F) (s : Scan) (w : Option (Option (List (Value F.Number))))
      (found : Option (Option (List (Value F.Number)) × Scan))
      → Expects F url body response id s w found
      → Judges s
          (w >>= λ values. some (fault F url body response id actual values))
          (found >>= λ p. some (conclude (judge F url body response id actual p)))
  then-Judges id actual s none found h =
      ap (λ f. f >>= λ p. some (conclude (judge F url body response id actual p))) h
  then-Judges id actual s (some values) found (s', given, c, e, m) =
      subst
        (λ f.
          Judges s (some (fault F url body response id actual values))
            (f >>= λ p. some (conclude (judge F url body response id actual p))))
        (sym given) (judge-Judges id actual values s s' c e m)

  check-verdict :
      (a : Assertion F) (s : Scan)
      → IsCached F url body response s
      → Judges s (verdict F url body response a) (check F url body response a s)
  unfolding check verdict conclude
  check-verdict a s c =
      then-Judges a.id a.actual s (wanted F url body response a.expectation) _
        (expected-Expects F url body response a.id a.expectation s c)

  -- `check_all` collects the verdicts.
  abbrev Collects : Scan → Option (List (Option AssertionError)) → Option Scan → Type 0
  Collects s none found = found ≡ none
  Collects s (some vs) found =
      (s' : Scan) × (found ≡ some s')
      × (s'.errors ≡ s.errors ++ errors_of vs)
      × (s'.all_matched ≡ s.all_matched && all_none vs)

  errors_of-said :
      (v : Option AssertionError) (vs : List (Option AssertionError))
      → errors_of (v ∷ vs) ≡ said v ++ errors_of vs
  unfolding errors_of
  errors_of-said none vs = refl
  errors_of-said (some x) vs = refl

  joined-Collects :
      (v : Option AssertionError) (s s' : Scan) (vs : Option (List (Option AssertionError)))
      (found : Option Scan)
      → s'.errors ≡ s.errors ++ said v
      → s'.all_matched ≡ s.all_matched && is_none v
      → Collects s' vs found
      → Collects s (vs >>= λ xs. some (v ∷ xs)) found
  unfolding all_none
  joined-Collects v s s' none found e m h = h
  joined-Collects v s s' (some vs) found e m (s'', given, e', m') = (
    s'',
    given,
    e'
        ∙ ap (λ errors. errors ++ errors_of vs) e
        ∙ append_assoc s.errors (said v) (errors_of vs)
        ∙ ap (λ more. s.errors ++ more) (sym (errors_of-said v vs)),
    ground (arith, m, m'),
  )

  check_all-verdicts :
      (assertions : List (Assertion F)) (s : Scan)
      → IsCached F url body response s
      → Collects s
          (verdicts F url body response assertions)
          (check_all F url body response assertions s)
  unfolding check_all verdicts errors_of all_none
  check_all-verdicts [] s c = (s, refl, sym (append-nil s.errors), ground arith)
  check_all-verdicts (a ∷ rest) s c =
      go (λ s'. check_all-verdicts rest s') (verdict F url body response a)
        (check F url body response a s) (check-verdict a s c)
    where
      go :
          ((s' : Scan)
            → IsCached F url body response s'
            → Collects s'
                (verdicts F url body response rest)
                (check_all F url body response rest s'))
          → (v : Option (Option AssertionError)) (found : Option Scan) → Judges s v found
          → Collects s
              (v >>= λ x. verdicts F url body response rest >>= λ xs. some (x ∷ xs))
              (found >>= check_all F url body response rest)
      go others none found h = ap (λ f. f >>= check_all F url body response rest) h
      go others (some v) found (s', given, c', e, m) =
          subst
            (λ f.
              Collects s (verdicts F url body response rest >>= λ xs. some (v ∷ xs))
                (f >>= check_all F url body response rest))
            (sym given)
            (joined-Collects v s s' (verdicts F url body response rest) _ e m (others s' c'))

  fresh-IsCached : IsCached F url body response fresh
  unfolding split_path query_params
  fresh-IsCached = record { segments = refl; params = refl }

  -- `simple_assert` succeeds if each assertion matches, judged on its own, and else answers the
  -- errors of those that do not, in their order; it panics exactly if a judgement does.
  pub simple_assert-verdicts :
      (r : ResponseAssertion F)
      → simple_assert F url body response r
        ≡ (do vs ← verdicts F url body response (assertions_of r); some (summary vs))
  unfolding simple_assert summary
  simple_assert-verdicts r =
      go (verdicts F url body response (assertions_of r)) _
        (check_all-verdicts (assertions_of r) fresh fresh-IsCached)
    where
      go :
          (vs : Option (List (Option AssertionError))) (found : Option Scan)
          → Collects fresh vs found
          → (found >>= λ s. some (if s.all_matched then ok else err s.errors))
            ≡ (vs >>= λ xs. some (if all_none xs then ok else err (errors_of xs)))
      go none found h = ap (λ f. f >>= λ s. some (if s.all_matched then ok else err s.errors)) h
      go (some vs) found (s', given, e, m) =
          ap (λ f. f >>= λ s. some (if s.all_matched then ok else err s.errors)) given
          ∙ ap₂ (λ b errors. some (if b then ok else err errors)) m e
