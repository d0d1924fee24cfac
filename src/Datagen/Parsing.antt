-- ===== src/Datagen/Parsing.antt =====
-- datagen/src/lib.rs: reading a schema from JSON (`data_schema_from_value` and what it calls).
-- `none` is an error.
use Prim.Native.String.{String}
use text.Mathlib.Text
use overload.Common.{
  is_some, Bool, true, false, not, Option, none, some, List, [], ◌∷◌, if◌then◌else◌, ◌>>=◌,
}
use mathlib.Core.Logic.{ite}
use mathlib.Core.Option
use overload.Common.Int.{ℤ, ltb_ℤ}
use overload.Datagen.{Keywords, Constraints, DataSchema, Schemas, nil, cons}
use overload.Foreign.{Foreign}
use overload.Json.{Value, Fields, end, field}
use overload.Json.Access.{get, as_object, as_str}

unfoldable pub Keywords-discrete : Discrete Keywords
Keywords-discrete = hlevel

abbrev pub ConstraintMap : Foreign → Type 0
ConstraintMap F = List (Keywords × Constraints F)

-- `HashMap::get` and `insert`.
unfoldable pub find : {F : Foreign} → Keywords → ConstraintMap F → Option (Constraints F)
find k [] = none
find k ((j, c) ∷ m) = ite (Keywords-discrete k j) (some c) (find k m)

unfoldable pub put : {F : Foreign} → Keywords → Constraints F → ConstraintMap F → ConstraintMap F
put k c [] = (k, c) ∷ []
put k c ((j, d) ∷ m) = ite (Keywords-discrete k j) ((k, c) ∷ m) ((j, d) ∷ put k c m)

unfoldable pub as_i64 : {F : Foreign} → Constraints F → Option ℤ
as_i64 (Constraints.min_length x) = some x
as_i64 (Constraints.max_length x) = some x
as_i64 (Constraints.minimum x) = some x
as_i64 (Constraints.maximum x) = some x
as_i64 (Constraints.constant_int x) = some x
as_i64 _ = none

unfoldable pub constraint_str : {F : Foreign} → Constraints F → Option String
constraint_str (Constraints.constant_str x) = some x
constraint_str _ = none

unfoldable pub as_pattern : {F : Foreign} → Constraints F → Option (String × Option F.Hir)
as_pattern (Constraints.regex pattern hir) = some (pattern, hir)
as_pattern _ = none

unfoldable pub as_serde_value : {F : Foreign} → Constraints F → Option (Value F.Number)
as_serde_value (Constraints.constant_value x) = some x
as_serde_value _ = none

-- serde_json's `as_i64` and `json!` of an integer, and the parser of regex_syntax.
pub record Numbers (F : Foreign) : Type 0 where
  pub number_i64 : F.Number → Option ℤ
  pub of_i64 : ℤ → F.Number
  pub parse_hir : String → Option F.Hir

-- `max < min` on two optional integers; nothing is less than any integer.
unfoldable pub less : Option ℤ → Option ℤ → Bool
less (some a) (some b) = ltb_ℤ a b
less none (some b) = true
less a none = false

-- One of the two halves of `validate_constraints`; `true` if it finds no error.
unfoldable pub validate_pair : {F : Foreign} → (min max : Option (Constraints F)) → Bool
unfolding less as_i64
validate_pair (some min) (some max) = not (less (as_i64 max) (as_i64 min))
validate_pair none none = true
validate_pair none (some max) = false
validate_pair (some min) none = false

unfoldable pub validate_constraints : {F : Foreign} → ConstraintMap F → Bool
unfolding validate_pair find
validate_constraints constraints =
    if validate_pair (find Keywords.minimum constraints) (find Keywords.maximum constraints)
    then validate_pair (find Keywords.min_length constraints) (find Keywords.max_length constraints)
    else false

module _ {F : Foreign} (numbers : Numbers F) where
  unfoldable pub value_i64 : Value F.Number → Option ℤ
  value_i64 (Value.number n) = numbers.number_i64 n
  value_i64 _ = none

  unfoldable pub constant_of : Value F.Number → Constraints F
  unfolding value_i64
  constant_of (Value.string s) = Constraints.constant_str s
  constant_of v = elim (value_i64 v) [
    | some val ↦ Constraints.constant_int val
    | none ↦ Constraints.constant_value v
  ]

  unfoldable pub parse_pattern : Value F.Number → ConstraintMap F → Option (ConstraintMap F)
  unfolding as_str put
  parse_pattern v cs = do
    pattern ← as_str v
    hir ← numbers.parse_hir pattern
    some (put Keywords.pattern_key (Constraints.regex pattern (some hir)) cs)

  -- A round of the loop of `parse_constraints`.
  unfoldable pub parse_constraint :
      String → Value F.Number → ConstraintMap F → Option (ConstraintMap F)
  unfolding value_i64 constant_of put parse_pattern
  parse_constraint k v cs =
      if Text.◌==◌ k "minimum"
      then Option.map (λ i. put Keywords.minimum (Constraints.minimum i) cs) (value_i64 v)
      else if Text.◌==◌ k "maximum"
      then Option.map (λ i. put Keywords.maximum (Constraints.maximum i) cs) (value_i64 v)
      else if Text.◌==◌ k "minLength"
      then Option.map (λ i. put Keywords.min_length (Constraints.min_length i) cs) (value_i64 v)
      else if Text.◌==◌ k "maxLength"
      then Option.map (λ i. put Keywords.max_length (Constraints.max_length i) cs) (value_i64 v)
      else if Text.◌==◌ k "constant"
      then some (put Keywords.constant (constant_of v) cs)
      else if Text.◌==◌ k "pattern"
      then parse_pattern v cs
      else some cs

  unfoldable pub parse_each : Fields F.Number → ConstraintMap F → Option (ConstraintMap F)
  unfolding parse_constraint
  parse_each end cs = some cs
  parse_each (field k v rest) cs = parse_constraint k v cs >>= parse_each rest

  unfoldable pub parse_constraints : Value F.Number → ConstraintMap F → Option (ConstraintMap F)
  unfolding parse_each as_object
  parse_constraints property cs = do fields ← as_object property; parse_each fields cs

  unfoldable pub get_constraints : Value F.Number → Option (ConstraintMap F)
  unfolding parse_constraints validate_constraints
  get_constraints property = do
    constraints ← parse_constraints property []
    if validate_constraints constraints then some constraints else none

abbrev pub key_for_keyless_schemas : String
key_for_keyless_schemas = "__"

-- `data.push`, of what a round of the loop pushes.
unfoldable pub push_schema : {F : Foreign} → Option (DataSchema F) → Schemas F → Schemas F
push_schema none data' = data'
push_schema (some schema) data' = cons schema data'

-- An object with the value of its `constant`.
unfoldable pub parse_constant :
    {F : Foreign} → String → Option (Value F.Number) → Option (Option (DataSchema F))
parse_constant k none = none
parse_constant k (some v) = some (
    some (
      DataSchema.constant_object (some k) ((Keywords.constant, Constraints.constant_value v) ∷ [])))

module _ {F : Foreign} (numbers : Numbers F) where
  unfoldable pub string_schema : String → Value F.Number → Option (Option (DataSchema F))
  string_schema k v =
      get_constraints numbers v >>= λ constraints. some (some (DataSchema.string k constraints))

  unfoldable pub integer_schema : String → Value F.Number → Option (Option (DataSchema F))
  integer_schema k v =
      get_constraints numbers v >>= λ constraints. some (some (DataSchema.integer k constraints))

  unfoldable pub array_schema : String → Value F.Number → Schemas F → Option (Option (DataSchema F))
  array_schema k v items = get_constraints numbers v >>= λ constraints.
      some (some (DataSchema.array (some k) items constraints))

module _ {F : Foreign} (numbers : Numbers F) where
  unfoldable mutual
    -- The loop of `parse_properties`.
    pub parse_properties : Fields F.Number → Option (Schemas F)
    parse_properties end = some nil
    parse_properties (field k v rest) = do
      schema ← parse_property k v
      data' ← parse_properties rest
      some (push_schema schema data')

    -- A round of it. The inner `none` is a property that is skipped.
    pub parse_property : String → Value F.Number → Option (Option (DataSchema F))
    parse_property k (Value.object fields) = do
      type_ ← get (Value.object fields) "type" >>= as_str
      if Text.◌==◌ type_ "object"
          then (if is_some (get (Value.object fields) "properties")
              then (parse_inner fields >>= λ data'. some (some (DataSchema.object (some k) data')))
              else parse_constant k (get (Value.object fields) "constant"))
          else (if Text.◌==◌ type_ "string"
              then string_schema numbers k (Value.object fields)
              else (if Text.◌==◌ type_ "integer"
                  then integer_schema numbers k (Value.object fields)
                  else (if Text.◌==◌ type_ "array"
                      then parse_items fields >>= array_schema numbers k (Value.object fields)
                      else some none)))
    parse_property k _ = none

    -- `get("properties")`, `as_object` and `parse_properties`.
    pub parse_inner : Fields F.Number → Option (Schemas F)
    parse_inner end = none
    parse_inner (field j v rest) =
        if Text.◌==◌ "properties" j then parse_members v else parse_inner rest

    pub parse_members : Value F.Number → Option (Schemas F)
    parse_members (Value.object fields) = parse_properties fields
    parse_members _ = none

    -- `get("items")` and `parse_properties` of the map that holds it alone.
    pub parse_items : Fields F.Number → Option (Schemas F)
    parse_items end = none
    parse_items (field j v rest) =
        if Text.◌==◌ "items" j
        then (parse_property key_for_keyless_schemas v >>= λ schema. some (push_schema schema nil))
        else parse_items rest

  unfoldable pub data_schema_from_value : Value F.Number → Option (DataSchema F)
  data_schema_from_value schema = do
    properties ← get schema "properties"
    fields ← as_object properties
    data_schema ← parse_properties fields
    some (DataSchema.object none data_schema)
