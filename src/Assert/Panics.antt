-- ===== src/Assert/Panics.antt =====
-- response-assert/src/lib.rs: when `simple_assert` panics.
use Prim.Native.String.{String}
use overload.Common.{
  ◌≡◌, ◌≢◌, refl, ap, ◌∙◌, Bool, true, false, List, [], ◌∷◌, ◌++◌, Option, none, some, ◌>>=◌, ◌⊎◌,
  inl, inr, Option-cases, All,
}
use overload.Common.Dict.{collect}
use overload.Common.Parts.{split, split_first}
use overload.Assert.{
  Expectation, Assertion, ResponseAssertion, Checked, AssertionError, pairs, query_map,
  assertions_of, simple_assert,
}
use overload.Assert.Judging.{simple_assert-verdicts}
use overload.Assert.Verdicts.{wanted, fault, verdict, verdicts, summary}
use overload.Foreign.{Foreign}
use overload.Json.{Value}

-- The parts of a query.
unfoldable pub parts_of : Option String → List String
parts_of none = []
parts_of (some queries) = split queries b'&'

abbrev pub HasValue : String → Type 0
HasValue part = split_first part b'=' ≢ none

pairs-total : (parts : List String) → All HasValue parts → pairs parts ≢ none
unfolding pairs
pairs-total [] h e = cc e
pairs-total (part ∷ parts) (h, hs) e = elim (Option-cases (split_first part b'=')) [
  | inl bare ↦ h bare
  | inr (pair, found) ↦ elim (Option-cases (pairs parts)) [
    | inl fails ↦ pairs-total parts hs fails
    | inr (rest, parsed) ↦ cc (e, found, parsed)
  ]
]

query_map-total : (query : Option String) → All HasValue (parts_of query) → query_map query ≢ none
unfolding query_map parts_of
query_map-total none h e = cc e
query_map-total (some queries) h e = elim (Option-cases (pairs (split queries b'&'))) [
  | inl fails ↦ pairs-total (split queries b'&') h fails
  | inr (rest, parsed) ↦ cc (e, parsed)
]

pairs-panic :
    (front back : List String) (part : String)
    → split_first part b'=' ≡ none
    → pairs (front ++ part ∷ back) ≡ none
unfolding pairs
pairs-panic [] back part bare =
    ap (λ f. f >>= λ pair. pairs back >>= λ rest. some (pair ∷ rest)) bare
pairs-panic (other ∷ front) back part bare = elim (Option-cases (split_first other b'=')) [
  | inl fails ↦ rw (fails, pairs) refl
  | inr (pair, found) ↦
      rw (found, pairs)
        (ap (λ f. f >>= λ rest. some (pair ∷ rest)) (pairs-panic front back part bare))
]

query_map-panic :
    (query : Option String) (front back : List String) (part : String)
    → parts_of query ≡ front ++ part ∷ back
    → split_first part b'=' ≡ none
    → query_map query ≡ none
unfolding query_map parts_of
query_map-panic none [] back part h bare = cc h
query_map-panic none (other ∷ front) back part h bare = cc h
query_map-panic (some queries) front back part h bare =
    ap (λ f. f >>= λ parsed. some (collect parsed []))
      (ap pairs h ∙ pairs-panic front back part bare)

-- Whether an assertion reads the query of the request.
unfoldable pub reads_query : {F : Foreign} → Expectation F → Bool
reads_query (Expectation.request_query_param name) = true
reads_query _ = false

module _ (F : Foreign) (url : F.Uri) (body : Option (Value F.Number))
    (response : Value F.Number) where
  wanted-total :
      (e : Expectation F)
      → (reads_query e ≡ false) ⊎ (query_map (F.query url) ≢ none)
      → (values : Option (List (Value F.Number))) × (wanted F url body response e ≡ some values)
  unfolding wanted reads_query
  wanted-total (Expectation.request_path pos) h = (_, refl)
  wanted-total (Expectation.constant value) h = (_, refl)
  wanted-total (Expectation.request_body path) h = (_, refl)
  wanted-total (Expectation.request_query_param name) (inl h) = cc h
  wanted-total (Expectation.request_query_param name) (inr h) =
      elim (Option-cases (query_map (F.query url))) [
        | inl panics ↦ absurd (h panics)
        | inr (params, parsed) ↦ rw parsed (_, refl)
      ]

  verdict-total :
      (a : Assertion F)
      → (reads_query a.expectation ≡ false) ⊎ (query_map (F.query url) ≢ none)
      → (v : Option AssertionError) × (verdict F url body response a ≡ some v)
  unfolding verdict
  verdict-total a h =
      let (values, w) = wanted-total a.expectation h in
      (
        fault F url body response a.id a.actual values,
        ap (λ f. f >>= λ values. some (fault F url body response a.id a.actual values)) w,
      )

  verdicts-total :
      (assertions : List (Assertion F))
      → All (λ a. (reads_query a.expectation ≡ false) ⊎ (query_map (F.query url) ≢ none)) assertions
      → (vs : List (Option AssertionError)) × (verdicts F url body response assertions ≡ some vs)
  unfolding verdicts
  verdicts-total [] h = ([], refl)
  verdicts-total (a ∷ rest) (h, hs) =
      let (v, judged) = verdict-total a h in
      let (vs, others) = verdicts-total rest hs in
      (
        v ∷ vs,
        ap (λ f. f >>= λ x. verdicts F url body response rest >>= λ xs. some (x ∷ xs)) judged
            ∙ ap (λ f. f >>= λ xs. some (v ∷ xs)) others,
      )

  -- If no assertion reads the query, or each part of the query between two `&` has a `=`, then
  -- `simple_assert` gives a result: it does not panic.
  pub simple_assert-total :
      (r : ResponseAssertion F)
      → All (λ a. reads_query a.expectation ≡ false) (assertions_of r)
        ⊎ All HasValue (parts_of (F.query url))
      → (c : Checked) × (simple_assert F url body response r ≡ some c)
  simple_assert-total r h =
      let (vs, judged) = verdicts-total (assertions_of r) (each (assertions_of r) h) in
      (
        summary vs,
        simple_assert-verdicts F url body response r
            ∙ ap (λ f. f >>= λ vs. some (summary vs)) judged,
      )
    where
      each :
          (assertions : List (Assertion F))
          → All (λ a. reads_query a.expectation ≡ false) assertions
            ⊎ All HasValue (parts_of (F.query url))
          → All
              (λ a. (reads_query a.expectation ≡ false) ⊎ (query_map (F.query url) ≢ none))
              assertions
      each [] h = tt
      each (a ∷ rest) (inl (k, ks)) = (inl k, each rest (inl ks))
      each (a ∷ rest) (inr k) = (inr (query_map-total (F.query url) k), each rest (inr k))

  wanted-panic :
      (e : Expectation F)
      → reads_query e ≡ true
      → query_map (F.query url) ≡ none
      → wanted F url body response e ≡ none
  unfolding wanted reads_query
  wanted-panic (Expectation.request_path pos) h k = cc h
  wanted-panic (Expectation.constant value) h k = cc h
  wanted-panic (Expectation.request_body path) h k = cc h
  wanted-panic (Expectation.request_query_param name) h k = rw k refl

  verdict-panic :
      (a : Assertion F)
      → reads_query a.expectation ≡ true
      → query_map (F.query url) ≡ none
      → verdict F url body response a ≡ none
  unfolding verdict
  verdict-panic a h k =
      ap (λ f. f >>= λ values. some (fault F url body response a.id a.actual values))
        (wanted-panic a.expectation h k)

  verdicts-panic :
      (front back : List (Assertion F)) (a : Assertion F)
      → verdict F url body response a ≡ none
      → verdicts F url body response (front ++ a ∷ back) ≡ none
  unfolding verdicts
  verdicts-panic [] back a h =
      ap (λ f. f >>= λ x. verdicts F url body response back >>= λ xs. some (x ∷ xs)) h
  verdicts-panic (b ∷ front) back a h = elim (Option-cases (verdict F url body response b)) [
    | inl fails ↦ rw (fails, verdicts) refl
    | inr (v, judged) ↦
        rw (judged, verdicts) (ap (λ f. f >>= λ xs. some (v ∷ xs)) (verdicts-panic front back a h))
  ]

  -- If an assertion reads the query and some part of the query between two `&` has no `=`, then
  -- `simple_assert` panics, whatever the other assertions and the response are.
  pub simple_assert-panic :
      (r : ResponseAssertion F) (front back : List (Assertion F)) (a : Assertion F)
      → assertions_of r ≡ front ++ a ∷ back
      → reads_query a.expectation ≡ true
      → (before after : List String) (part : String)
      → parts_of (F.query url) ≡ before ++ part ∷ after
      → split_first part b'=' ≡ none
      → simple_assert F url body response r ≡ none
  simple_assert-panic r front back a h reads before after part k bare =
      simple_assert-verdicts F url body response r
      ∙ ap (λ f. f >>= λ vs. some (summary vs))
          (ap (verdicts F url body response) h
            ∙ verdicts-panic front back a
                (verdict-panic a reads (query_map-panic (F.query url) before after part k bare)))
