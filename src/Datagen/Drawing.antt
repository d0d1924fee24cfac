-- ===== src/Datagen/Drawing.antt =====
-- datagen/src/lib.rs: data for a schema (`generate_data` and what it calls). A draw is numbered, and
-- every function returns the number of the next one; `none` is a panic.
use Prim.Native.Char.{Char}
use Prim.Native.String
use Prim.Native.String.{String}
use overload.Common.{ℕ, zero, suc, ◌+◌, Option, none, some, if◌then◌else◌, ◌>>=◌}
use overload.Common.Decimal.{parse_i64}
use overload.Common.Int.{ℤ, pos, negsuc, ltb_ℤ, ◌≤ℤ◌, pos_part}
use overload.Datagen.{Keywords, Constraints, DataSchema, Schemas, nil, cons}
use overload.Datagen.Parsing.{
  ConstraintMap, Numbers, find, as_i64, constraint_str, as_pattern, as_serde_value,
  key_for_keyless_schemas,
}
use overload.Foreign.{Foreign}
use overload.Json.{Value, Fields, end, Items}
use overload.Json.Access.{look_up, insert}

-- What fastrand draws from `lo..=hi`, if that is not empty, and letters; and what regex_generate
-- writes for a pattern, `none` if it fails or if its bytes are no text.
pub record Draws (F : Foreign) : Type 0 where
  pub i64 : ℕ → (lo hi : ℤ) → ℤ
  pub i64_within : (n : ℕ) (lo hi : ℤ) → lo ≤ℤ hi → (lo ≤ℤ i64 n lo hi) × (i64 n lo hi ≤ℤ hi)
  pub alphabetic : ℕ → Char
  pub from_hir : ℕ → F.Hir → Option String

abbrev pub i64_min : ℤ
i64_min = negsuc 9223372036854775807

-- `repeat_with(alphabetic).take(count)`.
unfoldable pub letters : (ℕ → Char) → (count n : ℕ) → String
letters alphabetic zero n = String.[]
letters alphabetic (suc count) n = String.◌∷◌ (alphabetic n) (letters alphabetic count (suc n))

-- A loop of `count` rounds.
unfoldable pub item_loop :
    {N : Type 0} → (ℕ → Option (Value N × ℕ)) → (count n : ℕ) → Option (Items N × ℕ)
item_loop body zero n = some (Items.nil, n)
item_loop body (suc count) n = do
  one ← body n
  more ← item_loop body count one.1
  some (Items.cons one.0 more.0, more.1)

unfoldable pub empty_object : {N : Type 0} → Value N
empty_object = Value.object end

unfoldable pub or_else : {A : Type 0} → Option A → A → A
or_else none a = a
or_else (some b) a = b

unfoldable pub bound : {F : Foreign} → Keywords → ConstraintMap F → ℤ → ℤ
bound keyword constraints default = or_else (find keyword constraints >>= as_i64) default

module _ {F : Foreign} (numbers : Numbers F) (draws : Draws F) where
  unfoldable pub draw_i64 : ℕ → (min max : ℤ) → Option (ℤ × ℕ)
  draw_i64 n min max = if ltb_ℤ max min then none else some (draws.i64 n min max, suc n)

  unfoldable pub regex_text : ℕ → String → Option F.Hir → String
  regex_text n pattern hir =
      let failed = String.◌++◌ "Couldn't generate string for: " pattern in
      elim hir [
        | some h ↦ or_else (draws.from_hir n h) failed
        | none ↦ or_else (numbers.parse_hir pattern >>= draws.from_hir n) failed
      ]

  unfoldable pub integer_of_pattern : ℕ → Constraints F → ℤ
  integer_of_pattern n constraint = elim (as_pattern constraint) [
    | some (pattern, hir) ↦ or_else (parse_i64 (regex_text n pattern hir)) (pos 0)
    | none ↦ or_else (as_i64 constraint) i64_min
  ]

  -- `generate_integer_data`, with the constraints of the two keywords.
  unfoldable pub integer_by :
      (constant pattern_of : Option (Constraints F)) → ConstraintMap F → ℕ → Option (ℤ × ℕ)
  integer_by (some constraint) pattern_of constraints n =
      some (or_else (as_i64 constraint) i64_min, n)
  integer_by none (some constraint) constraints n = some (integer_of_pattern n constraint, suc n)
  integer_by none none constraints n =
      draw_i64 n (bound Keywords.minimum constraints (pos 0))
        (bound Keywords.maximum constraints (pos 100))

  unfoldable pub generate_integer_data : ConstraintMap F → ℕ → Option (ℤ × ℕ)
  generate_integer_data constraints n =
      integer_by (find Keywords.constant constraints) (find Keywords.pattern_key constraints)
        constraints n

  -- `size as usize`, and the allocation of that many bytes, of which `isize::MAX` are allowed.
  unfoldable pub letters_of : ℤ × ℕ → Option (String × ℕ)
  letters_of (pos size, n) = some (letters draws.alphabetic size n, n + size)
  letters_of (negsuc size, n) = none

  unfoldable pub draw_text : ConstraintMap F → ℕ → Option (String × ℕ)
  draw_text constraints n =
      draw_i64 n (bound Keywords.min_length constraints (pos 1))
        (bound Keywords.max_length constraints (pos 20))
      >>= letters_of

  unfoldable pub text_by :
      (constant : Option (Constraints F))
      → (pattern_of : Option (String × Option F.Hir)) → ConstraintMap F
      → ℕ
      → Option (String × ℕ)
  text_by (some constraint) pattern_of constraints n =
      some (or_else (constraint_str constraint) "Error: invalid constant constraint", n)
  text_by none (some (pattern, hir)) constraints n = some (regex_text n pattern hir, suc n)
  text_by none none constraints n = draw_text constraints n

  unfoldable pub generate_string_data : ConstraintMap F → ℕ → Option (String × ℕ)
  generate_string_data constraints n =
      text_by (find Keywords.constant constraints)
        (find Keywords.pattern_key constraints >>= as_pattern) constraints n

  unfoldable pub constant_json : ConstraintMap F → Value F.Number
  constant_json constraints =
      or_else (find Keywords.constant constraints >>= as_serde_value) empty_object

  -- `remove(key_for_keyless_schemas).unwrap()`.
  unfoldable pub keyless : Fields F.Number × ℕ → Option (Value F.Number × ℕ)
  keyless (map, n) = do value ← look_up key_for_keyless_schemas map; some (value, n)

  unfoldable mutual
    -- The loop of `generate_object_data`.
    pub generate_all : Schemas F → Fields F.Number → ℕ → Option (Fields F.Number × ℕ)
    generate_all nil map n = some (map, n)
    generate_all (cons datum data') map n = do
      next ← generate_one datum map n
      generate_all data' next.0 next.1

    -- A round of it.
    pub generate_one : DataSchema F → Fields F.Number → ℕ → Option (Fields F.Number × ℕ)
    generate_one DataSchema.empty map n = some (map, n)
    generate_one (DataSchema.string k c) map n = do
      text ← generate_string_data c n
      some (insert k (Value.string text.0) map, text.1)
    generate_one (DataSchema.integer k c) map n = do
      number ← generate_integer_data c n
      some (insert k (Value.number (numbers.of_i64 number.0)) map, number.1)
    generate_one (DataSchema.object key c) map n = do
      k ← key
      inner ← generate_all c end n
      some (insert k (Value.object inner.0) map, inner.1)
    generate_one (DataSchema.constant_object key c) map n = do
      k ← key
      some (insert k (constant_json c) map, n)
    generate_one (DataSchema.array key schema constraints) map n = do
      k ← key
      len ←
          draw_i64 n (bound Keywords.min_length constraints (pos 1))
            (bound Keywords.max_length constraints (pos 20))
      values ← item_loop (λ i. generate_all schema end i >>= keyless) (pos_part len.0) len.1
      some (insert k (Value.array values.0) map, values.1)

  unfoldable pub generate_data : DataSchema F → ℕ → Option (Value F.Number × ℕ)
  generate_data (DataSchema.object (some k) v) n = some (Value.null, n)
  generate_data (DataSchema.object none v) n = do
    data' ← generate_all v end n
    some (Value.object data'.0, data'.1)
  generate_data _ n = some (Value.null, n)
