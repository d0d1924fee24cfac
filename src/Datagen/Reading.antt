-- ===== src/Datagen/Reading.antt =====
-- A schema that was read from JSON is well-formed.
use Prim.Native.String.{String}
use text.Mathlib.Text
use overload.Common.{is_some, Option, none, some, ◌>>=◌}
use overload.Common.Ensures.{Ensures, fails, gives, Ensures-if, ◌⟫◌, anything}
use overload.Datagen.{DataSchema, Schemas, nil}
use overload.Datagen.Parsing.{
  Numbers, parse_properties, parse_property, parse_inner, parse_members, parse_items, push_schema,
  string_schema, integer_schema, array_schema, parse_constant, data_schema_from_value,
  key_for_keyless_schemas,
}
use overload.Datagen.Validity.{
  IsValidAs, AreValid, AreItems, IsValid, no_schema, and_schema, unknown, known, root,
}
use overload.Foreign.{Foreign}
use overload.Json.{Value, Fields, end, field}
use overload.Json.Access.{as_str, as_object, get}
use overload.Datagen.Keeping.{get_constraints-IsValidMap}

module _ {F : Foreign} (numbers : Numbers F) where
  -- What a round of the loop over the properties yields.
  abbrev Yields : String → Option (DataSchema F) → Type 0
  Yields k = Ensures (IsValidAs k)

  push_schema-AreValid :
      (k : String) (schema : Option (DataSchema F)) (schemas : Schemas F)
      → Yields k schema
      → AreValid schemas
      → AreValid (push_schema schema schemas)
  unfolding push_schema
  push_schema-AreValid k none schemas h a = a
  push_schema-AreValid k (some schema) schemas (gives h) a = and_schema h a

  push_schema-AreItems :
      (schema : Option (DataSchema F))
      → Yields key_for_keyless_schemas schema
      → AreItems (push_schema schema nil)
  unfolding push_schema
  push_schema-AreItems none h = unknown
  push_schema-AreItems (some schema) (gives h) = known h

  parse_constant-Yields :
      (k : String) (v : Option (Value F.Number)) → Ensures (Yields k) (parse_constant k v)
  unfolding parse_constant
  parse_constant-Yields k none = fails
  parse_constant-Yields k (some v) = gives (gives (IsValidAs.constant_object v))

  string_schema-Yields :
      (k : String) (v : Value F.Number) → Ensures (Yields k) (string_schema numbers k v)
  unfolding string_schema
  string_schema-Yields k v =
      get_constraints-IsValidMap numbers v ⟫ λ cs h. gives (gives (IsValidAs.string h))

  integer_schema-Yields :
      (k : String) (v : Value F.Number) → Ensures (Yields k) (integer_schema numbers k v)
  unfolding integer_schema
  integer_schema-Yields k v =
      get_constraints-IsValidMap numbers v ⟫ λ cs h. gives (gives (IsValidAs.integer h))

  array_schema-Yields :
      (k : String) (v : Value F.Number) (items : Schemas F)
      → AreItems items
      → Ensures (Yields k) (array_schema numbers k v items)
  unfolding array_schema
  array_schema-Yields k v items a =
      get_constraints-IsValidMap numbers v ⟫ λ cs h. gives (gives (IsValidAs.array a h))

  mutual
    unfolding parse_properties

    parse_properties-AreValid :
        (fields : Fields F.Number) → Ensures AreValid (parse_properties numbers fields)
    parse_properties-AreValid end = gives no_schema
    parse_properties-AreValid (field k v rest) = parse_property-Yields k v ⟫ λ schema h.
        parse_properties-AreValid rest ⟫ λ schemas a.
        gives (push_schema-AreValid k schema schemas h a)

    parse_property-Yields :
        (k : String) (v : Value F.Number) → Ensures (Yields k) (parse_property numbers k v)
    parse_property-Yields k (Value.object fields) =
        anything (get (Value.object fields) "type" >>= as_str) ⟫ λ type_ _.
        Ensures-if (Text.◌==◌ type_ "object")
          (Ensures-if (is_some (get (Value.object fields) "properties"))
            (parse_inner-AreValid fields ⟫ λ schemas a. gives (gives (IsValidAs.object a)))
            (parse_constant-Yields k (get (Value.object fields) "constant")))
          (Ensures-if (Text.◌==◌ type_ "string") (string_schema-Yields k (Value.object fields)) (
            Ensures-if (Text.◌==◌ type_ "integer") (integer_schema-Yields k (Value.object fields)) (
              Ensures-if (Text.◌==◌ type_ "array")
                (parse_items-AreItems fields ⟫ array_schema-Yields k (Value.object fields))
                (gives fails))))
    parse_property-Yields k _ = fails

    parse_inner-AreValid :
        (fields : Fields F.Number) → Ensures AreValid (parse_inner numbers fields)
    parse_inner-AreValid end = fails
    parse_inner-AreValid (field j v rest) =
        Ensures-if (Text.◌==◌ "properties" j) (parse_members-AreValid v) (parse_inner-AreValid rest)

    parse_members-AreValid : (v : Value F.Number) → Ensures AreValid (parse_members numbers v)
    parse_members-AreValid (Value.object fields) = parse_properties-AreValid fields
    parse_members-AreValid _ = fails

    parse_items-AreItems :
        (fields : Fields F.Number) → Ensures AreItems (parse_items numbers fields)
    parse_items-AreItems end = fails
    parse_items-AreItems (field j v rest) =
        Ensures-if (Text.◌==◌ "items" j)
          (parse_property-Yields key_for_keyless_schemas v ⟫ λ schema h.
            gives (push_schema-AreItems schema h))
          (parse_items-AreItems rest)

  -- A schema that is read from JSON is well-formed: it is an object without a key, every other schema
  -- stands under its key, every constraint under its own keyword, a pattern with its parsed form;
  -- bounds come in pairs, the lower one first; an array has one schema for its items, under the
  -- key of schemas without a key, or none.
  pub data_schema_from_value-IsValid :
      (schema : Value F.Number) → Ensures IsValid (data_schema_from_value numbers schema)
  unfolding data_schema_from_value
  data_schema_from_value-IsValid schema = anything (get schema "properties") ⟫ λ properties _.
      anything (as_object properties) ⟫ λ fields _.
      parse_properties-AreValid fields ⟫ λ schemas a. gives (root a)
