-- ===== src/Assert.antt =====
-- response-assert/src/lib.rs: the assertions about the response to a request, and `simple_assert`.
-- A message of an error is left out; `Debug` and `format!` only print the assertion and its values.
pub mod Errors
pub mod Panics
pub mod Verdicts
pub mod Judging
pub mod Tests
use Prim.Native.String.{String}
use overload.Common.{
  ℕ, ◌+◌, Bool, true, false, ◌&&◌, List, [], ◌∷◌, ◌++◌, length, get_elem?, map, Option, none, some,
  ltb, if◌then◌else◌, ◌>>=◌,
}
use overload.Common.Dict.{Dict, lookup, collect}
use overload.Common.Parts.{split, split_first}
use overload.Foreign.{Foreign}
use overload.Json.{Value}

pub record JsonPath (F : Foreign) : Type 0 where
  pub path : String
  pub inner : F.CompiledPath

-- A segment number is not zero.
pub data Expectation (F : Foreign) : Type 0 where
  request_path : (segment : ℕ) → Expectation F
  request_query_param : String → Expectation F
  request_body : JsonPath F → Expectation F
  constant : Value F.Number → Expectation F

pub data Actual (F : Foreign) : Type 0 where
  from_json_response : JsonPath F → Actual F
  constant : Value F.Number → Actual F

pub record Assertion (F : Foreign) : Type 0 where
  pub id : ℕ
  pub expectation : Expectation F
  pub actual : Actual F

pub record ResponseAssertion (F : Foreign) : Type 0 where
  pub simple_assertions : Option (List (Assertion F))
  pub lua_assertion : Option (List String)

pub data AssertionError : Type 0 where
  invalid_expectation failed_assert invalid_actual lua_assertion_failure : ℕ → AssertionError

unfoldable pub get_id : AssertionError → ℕ
get_id (invalid_expectation id) = id
get_id (failed_assert id) = id
get_id (invalid_actual id) = id
get_id (lua_assertion_failure id) = id

pub data Checked : Type 0 where
  ok : Checked
  err : List AssertionError → Checked

-- The variables of the loop: `paths` and `params` are filled by the first assertion that needs them.
pub record Scan : Type 0 where
  pub errors : List AssertionError
  pub paths : Option (List String)
  pub params : Option (Dict String)
  pub all_matched : Bool

unfoldable pub push : AssertionError → Scan → Scan
push e s = record s { errors = s.errors ++ e ∷ [] }

-- The pairs around `=` of all parts; `none` is the panic at a part without one.
unfoldable pub pairs : List String → Option (List (String × String))
pairs [] = some []
pairs (part ∷ parts) = do pair ← split_first part b'='; rest ← pairs parts; some (pair ∷ rest)

unfoldable pub query_map : Option String → Option (Dict String)
query_map none = some []
query_map (some queries) = do parsed ← pairs (split queries b'&'); some (collect parsed [])

abbrev pub fresh : Scan
fresh = record { errors = []; paths = none; params = none; all_matched = true }

-- `==` of two vectors.
unfoldable pub values_eq : (F : Foreign) → List (Value F.Number) → List (Value F.Number) → Bool
values_eq F [] [] = true
values_eq F (v ∷ vs) (w ∷ ws) = F.value_eq v w && values_eq F vs ws
values_eq F _ _ = false

unfoldable pub assertions_of : {F : Foreign} → ResponseAssertion F → List (Assertion F)
assertions_of r = elim r.simple_assertions [ none ↦ [] | some assertions ↦ assertions ]

module _ (F : Foreign) (request_url : F.Uri) (request_body : Option (Value F.Number))
    (response : Value F.Number) where
  unfoldable pub split_path : Scan → List String
  split_path s = elim s.paths [ some paths ↦ paths | none ↦ split (F.path request_url) b'/' ]

  unfoldable pub query_params : Scan → Option (Dict String)
  query_params s = elim s.params [
    | some params ↦ some params
    | none ↦ query_map (F.query request_url)
  ]

  unfoldable pub look_up_param : ℕ → Scan → Option String → Option (List (Value F.Number)) × Scan
  look_up_param id s (some value) = (some (Value.string value ∷ []), s)
  look_up_param id s none = (none, push (invalid_expectation id) s)

  unfoldable pub select_body :
      ℕ → JsonPath F → Scan → Option (Value F.Number) → Option (List (Value F.Number)) × Scan
  select_body id json_path s none = (none, push (invalid_expectation id) s)
  select_body id json_path s (some body) = elim (F.select json_path.inner body) [
    | none ↦ (none, push (invalid_expectation id) s)
    | some values ↦ (some values, s)
  ]

  -- The `match` on the expectation: the values that are expected, `none` after an error. The outer
  -- `none` is a panic.
  unfoldable pub expected :
      ℕ → Expectation F → Scan → Option (Option (List (Value F.Number)) × Scan)
  expected id (Expectation.request_path pos) s =
      let segments = split_path s in
      let seen = record s { paths = some segments } in
      if ltb (length segments) (pos + 1)
      then some (none, push (invalid_expectation id) seen)
      else (do segment ← get_elem? segments pos; some (some (Value.string segment ∷ []), seen))
  expected id (Expectation.request_query_param name) s = do
    params ← query_params s
    some (look_up_param id (record s { params = some params }) (lookup name params))
  expected id (Expectation.constant value) s = some (some (value ∷ []), s)
  expected id (Expectation.request_body json_path) s =
      some (select_body id json_path s request_body)

  unfoldable pub compare_to : ℕ → List (Value F.Number) → Actual F → Scan → Bool × Scan
  compare_to id expect (Actual.from_json_response json_path) s =
      elim (F.select json_path.inner response) [
        | some actual ↦
            let matched = values_eq F actual expect in
            (matched, if matched then s else push (failed_assert id) s)
        | none ↦ (false, push (invalid_actual id) s)
      ]
  compare_to id expect (Actual.constant value) s =
      let matched = values_eq F expect (value ∷ []) in
      (matched, if matched then s else push (failed_assert id) s)

  unfoldable pub judge : ℕ → Actual F → Option (List (Value F.Number)) × Scan → Bool × Scan
  judge id actual (none, s) = (false, s)
  judge id actual (some [], s) = (false, push (invalid_expectation id) s)
  judge id actual (some (v ∷ vs), s) = compare_to id (v ∷ vs) actual s

  -- The body of the loop.
  unfoldable pub check : Assertion F → Scan → Option Scan
  check assertion s = do
    expectation ← expected assertion.id assertion.expectation s
    let (matched, judged) = judge assertion.id assertion.actual expectation
    some (if matched then judged else record judged { all_matched = false })

  unfoldable pub check_all : List (Assertion F) → Scan → Option Scan
  check_all [] s = some s
  check_all (assertion ∷ assertions) s = do s' ← check assertion s; check_all assertions s'

  -- `none` is a panic.
  unfoldable pub simple_assert : ResponseAssertion F → Option Checked
  simple_assert assertions = do
    s ← check_all (assertions_of assertions) fresh
    some (if s.all_matched then ok else err s.errors)
