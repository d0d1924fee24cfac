-- ===== src/Datagen/Conformance.antt =====
-- datagen/src/lib.rs: what it means that data fits a schema.
use Prim.Native.String.{String, count}
use overload.Common.{ℕ, suc, ◌≡◌, Option, none, some}
use overload.Common.Int.{ℤ, pos, ◌≤ℤ◌}
use overload.Datagen.{Keywords, Constraints, DataSchema, Schemas, nil, cons}
use overload.Datagen.Drawing.{bound, or_else, i64_min}
use overload.Datagen.Parsing.{
  ConstraintMap, find, as_i64, constraint_str, key_for_keyless_schemas, Numbers,
}
use overload.Foreign.{Foreign}
use overload.Json.{Value, Fields, Items, end, field}
use overload.Json.Access.{look_up}

unfoldable pub key_of : {F : Foreign} → DataSchema F → Option String
key_of DataSchema.empty = none
key_of (DataSchema.string k cs) = some k
key_of (DataSchema.integer k cs) = some k
key_of (DataSchema.object k schemas) = k
key_of (DataSchema.constant_object k cs) = k
key_of (DataSchema.array k items cs) = k

unfoldable pub count_items : {N : Type 0} → Items N → ℕ
count_items Items.nil = 0
count_items (Items.cons v xs) = suc (count_items xs)

module _ {F : Foreign} where
  abbrev pub IsBetween : ConstraintMap F → Keywords → Keywords → (lo hi x : ℤ) → Type 0
  IsBetween cs low high lo hi x = (bound low cs lo ≤ℤ x) × (x ≤ℤ bound high cs hi)

  -- The constant; else whatever was written for the pattern; else a text within the bounds.
  abbrev pub IsText :
      (constant pattern_of : Option (Constraints F)) → ConstraintMap F → String → Type 0
  IsText (some c) p cs s = s ≡ or_else (constraint_str c) "Error: invalid constant constraint"
  IsText none (some p) cs s = Unit
  IsText none none cs s =
      IsBetween cs Keywords.min_length Keywords.max_length (pos 1) (pos 20) (pos (count s))

  abbrev pub IsInteger :
      (constant pattern_of : Option (Constraints F)) → ConstraintMap F → ℤ → Type 0
  IsInteger (some c) p cs i = i ≡ or_else (as_i64 c) i64_min
  IsInteger none (some p) cs i = Unit
  IsInteger none none cs i = IsBetween cs Keywords.minimum Keywords.maximum (pos 0) (pos 100) i

  -- Every schema has an entry.
  abbrev pub AreThere : Schemas F → Fields F.Number → Type 0
  AreThere nil fields = Unit
  AreThere (cons schema schemas) fields =
      (k : String) × (v : Value F.Number) × (key_of schema ≡ some k)
      × (look_up k fields ≡ some v)
      × AreThere schemas fields

module _ {F : Foreign} (numbers : Numbers F) where
  mutual
    pub data Fits : DataSchema F → Value F.Number → Type 0 where
      string :
          {k : String} {cs : ConstraintMap F} {s : String}
          → IsText (find Keywords.constant cs) (find Keywords.pattern_key cs) cs s
          → Fits (DataSchema.string k cs) (Value.string s)
      integer :
          {k : String} {cs : ConstraintMap F} {i : ℤ}
          → IsInteger (find Keywords.constant cs) (find Keywords.pattern_key cs) cs i
          → Fits (DataSchema.integer k cs) (Value.number (numbers.of_i64 i))
      object :
          {k : Option String} {schemas : Schemas F} {fields : Fields F.Number}
          → EntriesFit schemas fields
          → AreThere schemas fields
          → Fits (DataSchema.object k schemas) (Value.object fields)
      constant_object :
          {k : Option String} {cs : ConstraintMap F} {v : Value F.Number}
          → find Keywords.constant cs ≡ some (Constraints.constant_value v)
          → Fits (DataSchema.constant_object k cs) v
      array :
          {k : Option String} {items : Schemas F} {cs : ConstraintMap F} {xs : Items F.Number}
          → ItemsFit items xs
          → IsBetween cs Keywords.min_length Keywords.max_length
              (pos 1)
              (pos 20)
              (pos (count_items xs))
          → Fits (DataSchema.array k items cs) (Value.array xs)

    -- Every entry fits a schema of its key.
    pub data EntriesFit : Schemas F → Fields F.Number → Type 0 where
      no_entry : {schemas : Schemas F} → EntriesFit schemas end
      entry :
          {schemas : Schemas F} {k : String} {v : Value F.Number} {rest : Fields F.Number}
          → OneFits schemas k v
          → EntriesFit schemas rest
          → EntriesFit schemas (field k v rest)

    pub data OneFits : Schemas F → String → Value F.Number → Type 0 where
      here :
          {schema : DataSchema F} {schemas : Schemas F} {k : String} {v : Value F.Number}
          → key_of schema ≡ some k
          → Fits schema v
          → OneFits (cons schema schemas) k v
      there :
          {schema : DataSchema F} {schemas : Schemas F} {k : String} {v : Value F.Number}
          → OneFits schemas k v
          → OneFits (cons schema schemas) k v

    pub data ItemsFit : Schemas F → Items F.Number → Type 0 where
      no_item : {items : Schemas F} → ItemsFit items Items.nil
      item :
          {items : Schemas F} {v : Value F.Number} {xs : Items F.Number}
          → OneFits items key_for_keyless_schemas v
          → ItemsFit items xs
          → ItemsFit items (Items.cons v xs)

-- The schemas that data can be drawn for: no lower bound of a length is negative, and the type of
-- an array's items is one that is read.
mutual
  pub data IsSafe {F : Foreign} : DataSchema F → Type 0 where
    string :
        {k : String} {cs : ConstraintMap F}
        → pos 0 ≤ℤ bound Keywords.min_length cs (pos 1)
        → IsSafe (DataSchema.string k cs)
    integer : {k : String} {cs : ConstraintMap F} → IsSafe (DataSchema.integer k cs)
    object :
        {k : Option String} {schemas : Schemas F}
        → AreSafe schemas
        → IsSafe (DataSchema.object k schemas)
    constant_object :
        {k : Option String} {cs : ConstraintMap F} → IsSafe (DataSchema.constant_object k cs)
    array :
        {k : Option String} {item : DataSchema F} {cs : ConstraintMap F}
        → IsSafe item
        → pos 0 ≤ℤ bound Keywords.min_length cs (pos 1)
        → IsSafe (DataSchema.array k (cons item nil) cs)

  pub data AreSafe {F : Foreign} : Schemas F → Type 0 where
    none_left : AreSafe nil
    and_next :
        {schema : DataSchema F} {schemas : Schemas F}
        → IsSafe schema
        → AreSafe schemas
        → AreSafe (cons schema schemas)
