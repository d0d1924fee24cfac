-- ===== src/Datagen/Panics.antt =====
-- Schemas that are read without an error, and for which no data can be generated.
use Prim.Native.String.{String}
use overload.Common.{ℕ, zero, suc, ◌≡◌, refl, Option, none, some, arith, ◌>>=◌}
use overload.Common.Ensures.{Returns, returns}
use overload.Common.Int.{ℤ, pos, negsuc, pos_part, ◌≤ℤ◌}
use overload.Datagen.{Keywords, DataSchema, Schemas, nil, cons}
use overload.Datagen.Bounds.{bound_order, draw_i64-within}
use overload.Datagen.Drawing.{
  Draws, bound, generate_all, generate_one, generate_data, item_loop, keyless,
}
use overload.Datagen.Parsing.{ConstraintMap, Numbers}
use overload.Datagen.Validity.{IsValidMap}
use overload.Foreign.{Foreign}
use overload.Json.{Value, Fields, end}
use overload.Json.Access.{look_up}

abbrev pub append : {F : Foreign} → Schemas F → Schemas F → Schemas F
append nil schemas = schemas
append (cons schema front) schemas = cons schema (append front schemas)

fails_behind :
    {A B : Type 0} {P : A → Type 0} {m : Option A} {f : A → Option B}
    → Returns P m
    → ((a : A) → P a → f a ≡ none)
    → (m >>= f) ≡ none
fails_behind (returns p) h = h _ p

fails_after :
    {A B : Type 0} (m : Option A) {f : A → Option B} → ((a : A) → f a ≡ none) → (m >>= f) ≡ none
fails_after none h = refl
fails_after (some a) h = h a

module _ {F : Foreign} (numbers : Numbers F) (draws : Draws F) where
  no_round :
      (count n : ℕ) (body : ℕ → Option (Value F.Number × ℕ))
      → body n ≡ none
      → item_loop body (suc count) n ≡ none
  unfolding item_loop
  no_round count n body e = rw e refl

  keyless-none : (n : ℕ) → (generate_all numbers draws nil end n >>= keyless numbers draws) ≡ none
  unfolding generate_all keyless look_up
  keyless-none n = refl

  item_loop-none :
      (len : ℤ) (n : ℕ)
      → pos 1 ≤ℤ len
      → item_loop
          (λ i. generate_all numbers draws nil end i >>= keyless numbers draws)
          (pos_part len)
          n
        ≡ none
  item_loop-none (pos (suc c)) n h = no_round c n _ (keyless-none n)
  item_loop-none (pos zero) n h = absurd (omega arith)
  item_loop-none (negsuc c) n h = absurd (omega arith)

  array_panic :
      (k : String) (cs : ConstraintMap F) (map : Fields F.Number) (n : ℕ)
      → IsValidMap cs
      → pos 1 ≤ℤ bound Keywords.min_length cs (pos 1)
      → generate_one numbers draws (DataSchema.array (some k) nil cs) map n ≡ none
  unfolding generate_one
  array_panic k cs map n v h =
      fails_behind
        (draw_i64-within numbers draws n _ _ (
          bound_order cs Keywords.min_length Keywords.max_length (pos 1) (pos 20) v.lengths
            (omega arith)))
        λ len b. rw (item_loop-none len.0 len.1 (omega (arith, h, b.0))) refl

  unknown_first :
      (k : String) (cs : ConstraintMap F) (later : Schemas F) (map : Fields F.Number) (n : ℕ)
      → IsValidMap cs
      → pos 1 ≤ℤ bound Keywords.min_length cs (pos 1)
      → generate_all numbers draws (cons (DataSchema.array (some k) nil cs) later) map n ≡ none
  unfolding generate_all
  unknown_first k cs later map n v h = rw (array_panic k cs map n v h) refl

  unknown_among :
      (front later : Schemas F) (k : String) (cs : ConstraintMap F) (map : Fields F.Number) (n : ℕ)
      → IsValidMap cs
      → pos 1 ≤ℤ bound Keywords.min_length cs (pos 1)
      → generate_all numbers draws
          (append front (cons (DataSchema.array (some k) nil cs) later))
          map
          n
        ≡ none
  unfolding generate_all
  unknown_among nil later k cs map n v h = unknown_first k cs later map n v h
  unknown_among (cons schema front) later k cs map n v h =
      fails_after (generate_one numbers draws schema map n)
        λ next. unknown_among front later k cs next.0 next.1 v h

  -- An object with a property that is an array whose items have a type that is not read, with
  -- well-formed constraints that ask for at least one item, as they do by default, makes the
  -- generation panic, whatever is drawn and whatever other properties, well-formed or not, stand in
  -- front of and behind the array.
  pub unknown_items-panic :
      (front later : Schemas F) (k : String) (cs : ConstraintMap F) (n : ℕ)
      → IsValidMap cs
      → pos 1 ≤ℤ bound Keywords.min_length cs (pos 1)
      → generate_data numbers draws
          (DataSchema.object none (append front (cons (DataSchema.array (some k) nil cs) later)))
          n
        ≡ none
  unfolding generate_data
  unknown_items-panic front later k cs n v h = rw (unknown_among front later k cs end n v h) refl
