-- ===== src/Datagen/Tests.antt =====
-- A schema for an object with a number, a text and an array, and one whose array has booleans.
use Prim.Native.Char.{char}
use overload.Common.{◌≡◌, refl, ℕ, some, none, [], ◌∷◌, arith, List}
use overload.Common.Ensures.{Ensures, Returns}
use overload.Common.Int.{pos, ◌≤ℤ◌, pos_part}
use overload.Datagen.{Keywords, Constraints, DataSchema, nil, cons}
use overload.Datagen.Conformance.{Fits, IsSafe, and_next, none_left}
use overload.Datagen.Drawing.{
  Draws, generate_data, generate_all, bound, or_else, draw_i64, generate_integer_data, integer_by,
  item_loop, keyless,
}
use overload.Datagen.Generating.{generate_data-Fits}
use overload.Datagen.Panics.{unknown_items-panic}
use overload.Datagen.Parsing.{
  Numbers, data_schema_from_value, parse_properties, get_constraints, parse_constraint,
  validate_constraints, as_i64, find, put, integer_schema, array_schema, push_schema,
  Keywords-discrete,
}
use overload.Datagen.Reading.{data_schema_from_value-IsValid}
use overload.Datagen.Validity.{IsValid, IsValidAs, IsValidMap, root, and_schema, no_schema, known}
use overload.Json.{Value, Items, end, field}
use overload.Json.Access.{get, look_up, as_object, as_str, insert}
use overload.Samples.{foreign}

abbrev pub numbers : Numbers foreign
numbers = record { number_i64 = λ n. some (pos n); of_i64 = pos_part; parse_hir = λ s. none }

-- Always the lower bound.
abbrev pub draws : Draws foreign
draws = record {
  i64 = λ n lo hi. lo;
  i64_within = λ n lo hi h. (omega arith, h);
  alphabetic = λ n. char 97 tt;
  from_hir = λ n h. none;
}

abbrev integer_json : Value ℕ
integer_json = Value.object (
    field "maximum" (Value.number 9)
      (field "minimum" (Value.number 5) (field "type" (Value.string "integer") end)))

abbrev of_items : Value ℕ → Value ℕ
of_items items = Value.object (
    field "properties"
      (Value.object (
        field "list" (Value.object (field "items" items (field "type" (Value.string "array") end)))
          end))
      end)

abbrev pub range : List (Keywords × Constraints foreign)
range =
    (Keywords.maximum, Constraints.maximum (pos 9))
    ∷ (Keywords.minimum, Constraints.minimum (pos 5))
    ∷ []

abbrev schema : DataSchema foreign
schema =
    DataSchema.object none
      (cons (DataSchema.array (some "list") (cons (DataSchema.integer "__" range) nil) []) nil)

reads : data_schema_from_value numbers (of_items integer_json) ≡ some schema
unfolding data_schema_from_value get look_up as_object parse_properties as_str integer_schema
    array_schema get_constraints push_schema find put Keywords-discrete parse_constraint
    validate_constraints
reads = refl

-- The same with booleans is read as well.
reads_booleans :
    data_schema_from_value numbers
      (of_items (Value.object (field "type" (Value.string "boolean") end)))
    ≡ some (DataSchema.object none (cons (DataSchema.array (some "list") nil []) nil))
unfolding data_schema_from_value get look_up as_object parse_properties as_str array_schema
    get_constraints push_schema
reads_booleans = refl

data_schema_from_value-IsValid_example :
    Ensures IsValid (data_schema_from_value numbers (of_items integer_json))
data_schema_from_value-IsValid_example =
    data_schema_from_value-IsValid numbers (of_items integer_json)

pub range-IsValidMap : IsValidMap range
unfolding find Keywords-discrete as_i64
range-IsValidMap = record {
  are_of = (tt, (tt, tt));
  values = (pos 5, pos 9, refl, refl, omega arith);
  lengths = tt;
}

empty-IsValidMap : IsValidMap {F = foreign} []
unfolding find
empty-IsValidMap = record { are_of = tt; values = tt; lengths = tt }

schema-IsValid : IsValid schema
schema-IsValid = root (
    and_schema (IsValidAs.array (known (IsValidAs.integer range-IsValidMap)) empty-IsValidMap)
      no_schema)

schema-IsSafe : IsSafe schema
unfolding bound or_else find
schema-IsSafe = IsSafe.object (and_next (IsSafe.array IsSafe.integer (omega arith)) none_left)

generate_data-Fits_example :
    Returns (λ r. Fits numbers schema r.0) (generate_data numbers draws schema 0)
generate_data-Fits_example = generate_data-Fits numbers draws schema 0 schema-IsValid schema-IsSafe

generates :
    generate_data numbers draws schema 0
    ≡ some
        (Value.object (field "list" (Value.array (Items.cons (Value.number 5) Items.nil)) end), 2)
unfolding generate_data generate_all draw_i64 bound or_else find item_loop generate_integer_data
    integer_by Keywords-discrete as_i64 keyless look_up insert
generates = refl

at_least_one : pos 1 ≤ℤ bound {F = foreign} Keywords.min_length [] (pos 1)
unfolding bound or_else find
at_least_one = omega arith

unknown_items-panic_example :
    generate_data numbers draws
      (DataSchema.object none (
        cons
          (DataSchema.integer "number" range)
          (cons (DataSchema.array (some "list") nil []) nil)))
      0
    ≡ none
unknown_items-panic_example =
    unknown_items-panic numbers draws (cons (DataSchema.integer "number" range) nil) nil "list" [] 0
      empty-IsValidMap at_least_one
