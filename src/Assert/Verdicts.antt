-- ===== src/Assert/Verdicts.antt =====
-- response-assert/src/lib.rs: `simple_assert` against a judgement of each assertion on its own, with
-- nothing kept between two of them.
use Prim.Native.String.{String}
use overload.Common.{
  ℕ, zero, suc, ◌+◌, ◌≡◌, refl, sym, Bool, true, false, ◌&&◌, List, [], ◌∷◌, ◌++◌, length,
  get_elem?, Option, none, some, ltb, if◌then◌else◌, ◌>>=◌, ◌⊎◌, inl, inr, arith, Option-cases,
}
use mathlib.Core.Option
use mathlib.Core.List.{append-nil}
use overload.Common.Dict.{Dict, lookup}
use overload.Common.Parts.{split}
use overload.Assert.{
  Expectation, Actual, Assertion, AssertionError, invalid_expectation, failed_assert,
  invalid_actual, Checked, ok, err, Scan, push, query_map, values_eq, split_path, query_params,
  look_up_param, select_body, JsonPath, expected,
}
use overload.Foreign.{Foreign}
use overload.Json.{Value}

-- The errors that are there, in order.
unfoldable pub errors_of : List (Option AssertionError) → List AssertionError
errors_of [] = []
errors_of (none ∷ verdicts) = errors_of verdicts
errors_of (some e ∷ verdicts) = e ∷ errors_of verdicts

unfoldable pub is_none : Option AssertionError → Bool
is_none none = true
is_none (some e) = false

unfoldable pub all_none : List (Option AssertionError) → Bool
all_none [] = true
all_none (v ∷ verdicts) = is_none v && all_none verdicts

get_elem?-cases :
    (xs : List String) (pos : ℕ)
    → ((get_elem? xs pos ≡ none) × (ltb (length xs) (pos + 1) ≡ true))
      ⊎ ((x : String) × (get_elem? xs pos ≡ some x) × (ltb (length xs) (pos + 1) ≡ false))
get_elem?-cases [] pos = inl (refl, ground arith)
get_elem?-cases (x ∷ xs) zero = inr (x, refl, ground arith)
get_elem?-cases (x ∷ xs) (suc pos) = elim (get_elem?-cases xs pos) [
  | inl (outside, long) ↦ inl (outside, ground arith)
  | inr (y, inside, long) ↦ inr (y, inside, ground arith)
]

unfoldable pub summary : List (Option AssertionError) → Checked
summary vs = if all_none vs then ok else err (errors_of vs)

module _ (F : Foreign) (url : F.Uri) (body : Option (Value F.Number))
    (response : Value F.Number) where
  -- The values that an assertion expects, if there are any; the outer `none` is a panic.
  unfoldable pub wanted : Expectation F → Option (Option (List (Value F.Number)))
  wanted (Expectation.request_path pos) =
      some (Option.map (λ s. Value.string s ∷ []) (get_elem? (split (F.path url) b'/') pos))
  wanted (Expectation.request_query_param name) = do
    params ← query_map (F.query url)
    some (Option.map (λ s. Value.string s ∷ []) (lookup name params))
  wanted (Expectation.constant value) = some (some (value ∷ []))
  wanted (Expectation.request_body path) = some (body >>= F.select path.inner)

  unfoldable pub fault : ℕ → Actual F → Option (List (Value F.Number)) → Option AssertionError
  fault id actual none = some (invalid_expectation id)
  fault id actual (some []) = some (invalid_expectation id)
  fault id (Actual.constant value) (some (v ∷ vs)) =
      if values_eq F (v ∷ vs) (value ∷ []) then none else some (failed_assert id)
  fault id (Actual.from_json_response path) (some (v ∷ vs)) = elim (F.select path.inner response) [
    | none ↦ some (invalid_actual id)
    | some found ↦ if values_eq F found (v ∷ vs) then none else some (failed_assert id)
  ]

  -- `some none` is a match.
  unfoldable pub verdict : Assertion F → Option (Option AssertionError)
  verdict a = do values ← wanted a.expectation; some (fault a.id a.actual values)

  unfoldable pub verdicts : List (Assertion F) → Option (List (Option AssertionError))
  verdicts [] = some []
  verdicts (a ∷ rest) = do v ← verdict a; vs ← verdicts rest; some (v ∷ vs)

  -- What is kept between assertions is what would be computed again.
  pub record IsCached (s : Scan) : Type 0 where
    pub segments : split_path F url body response s ≡ split (F.path url) b'/'
    pub params : query_params F url body response s ≡ query_map (F.query url)

  -- The errors that `expected` has pushed.
  unfoldable pub missing : ℕ → Option (List (Value F.Number)) → List AssertionError
  missing id none = invalid_expectation id ∷ []
  missing id (some values) = []

  -- `expected` gives the wanted values and pushes an error if there are none.
  abbrev pub Expects :
      ℕ
      → Scan
      → Option (Option (List (Value F.Number)))
      → Option (Option (List (Value F.Number)) × Scan)
      → Type 0
  Expects id s none found = found ≡ none
  Expects id s (some values) found =
      (s' : Scan) × (found ≡ some (values, s'))
      × IsCached s'
      × (s'.errors ≡ s.errors ++ missing id values)
      × (s'.all_matched ≡ s.all_matched)

  seen-IsCached :
      (s : Scan)
      → IsCached s
      → (errors : List AssertionError)
      → IsCached (record s { errors = errors; paths = some (split (F.path url) b'/') })
  unfolding split_path query_params
  seen-IsCached s c errors = record { segments = refl; params = c.params }

  path-Expects :
      (id pos : ℕ) (s : Scan)
      → IsCached s
      → Expects id s
          (wanted (Expectation.request_path pos))
          (expected F url body response id (Expectation.request_path pos) s)
  unfolding wanted expected missing push
  path-Expects id pos s c = rw c.segments (elim (get_elem?-cases (split (F.path url) b'/') pos) [
    | inl (outside, long) ↦ rw (outside, long) (_, refl, seen-IsCached s c _, refl, refl)
    | inr (segment, inside, long) ↦
        rw (inside, long) (_, refl, seen-IsCached s c _, sym (append-nil s.errors), refl)
  ])

  asked-IsCached :
      (s : Scan)
      → IsCached s
      → (errors : List AssertionError) (params : Dict String)
      → query_map (F.query url) ≡ some params
      → IsCached (record s { errors = errors; params = some params })
  unfolding split_path query_params
  asked-IsCached s c errors params parsed = record { segments = c.segments; params = sym parsed }

  found-Expects :
      (id : ℕ) (s : Scan) (params : Dict String) (value : Option String)
      → IsCached s
      → query_map (F.query url) ≡ some params
      → Expects id s
          (some (Option.map (λ t. Value.string t ∷ []) value))
          (some (look_up_param F url body response id (record s { params = some params }) value))
  unfolding missing look_up_param push
  found-Expects id s params none c parsed =
      (_, refl, asked-IsCached s c _ params parsed, refl, refl)
  found-Expects id s params (some value) c parsed =
      (_, refl, asked-IsCached s c _ params parsed, sym (append-nil s.errors), refl)

  param-Expects :
      (id : ℕ) (name : String) (s : Scan)
      → IsCached s
      → Expects id s
          (wanted (Expectation.request_query_param name))
          (expected F url body response id (Expectation.request_query_param name) s)
  unfolding wanted expected
  param-Expects id name s c = rw c.params (elim (Option-cases (query_map (F.query url))) [
    | inl panics ↦ rw panics refl
    | inr (params, parsed) ↦ rw parsed (found-Expects id s params (lookup name params) c parsed)
  ])

  kept :
      (s : Scan)
      → IsCached s
      → (errors : List AssertionError) → IsCached (record s { errors = errors })
  unfolding split_path query_params
  kept s c errors = record { segments = c.segments; params = c.params }

  body-Expects :
      (id : ℕ) (path : JsonPath F) (s : Scan) (value : Option (Value F.Number))
      → IsCached s
      → Expects id s
          (some (value >>= F.select path.inner))
          (some (select_body F url body response id path s value))
  unfolding missing select_body push
  body-Expects id path s none c = (_, refl, kept s c _, refl, refl)
  body-Expects id path s (some value) c = elim (Option-cases (F.select path.inner value)) [
    | inl fails ↦ rw (fails, select_body) (_, refl, kept s c _, refl, refl)
    | inr (values, selected) ↦
        rw (selected, select_body) (_, refl, kept s c _, sym (append-nil s.errors), refl)
  ]

  pub expected-Expects :
      (id : ℕ) (e : Expectation F) (s : Scan)
      → IsCached s
      → Expects id s (wanted e) (expected F url body response id e s)
  unfolding wanted expected missing
  expected-Expects id (Expectation.request_path pos) s c = path-Expects id pos s c
  expected-Expects id (Expectation.request_query_param name) s c = param-Expects id name s c
  expected-Expects id (Expectation.constant value) s c =
      (s, refl, c, sym (append-nil s.errors), refl)
  expected-Expects id (Expectation.request_body path) s c = body-Expects id path s body c
