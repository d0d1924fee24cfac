-- ===== src/Datagen/Generating.antt =====
-- Data that is generated for a well-formed schema fits it.
use Prim.Native.String.{String, count}
use mathlib.Core.Logic.{if_pos}
use overload.Common.{
  ℕ, zero, suc, ◌≡◌, refl, sym, ap, subst, ◌∙◌, Option, some, arith, ◌>>=◌, [], ◌∷◌,
}
use overload.Common.Ensures.{Returns, returns, ◌⟫=◌, weaken}
use overload.Common.Int.{ℤ, pos, negsuc, pos_part, ◌≤ℤ◌}
use overload.Datagen.{Keywords, Constraints, DataSchema, Schemas, nil, cons}
use overload.Datagen.Conformance.{
  key_of, count_items, IsBetween, AreThere, Fits, EntriesFit, OneFits, ItemsFit, no_entry, here,
  there, no_item, item, IsSafe, AreSafe, and_next,
}
use overload.Datagen.Drawing.{
  Draws, bound, or_else, generate_all, generate_one, generate_data, keyless, item_loop,
  constant_json,
}
use overload.Datagen.Parsing.{
  ConstraintMap, Keywords-discrete, Numbers, find, as_serde_value, key_for_keyless_schemas,
}
use overload.Datagen.Validity.{
  IsValidAs, AreValid, IsValid, no_schema, and_schema, known, unknown, root,
}
use overload.Foreign.{Foreign}
use overload.Json.{Value, Fields, end}
use overload.Json.Access.{look_up, insert, look_up-insert_self}
use overload.Datagen.Bounds.{
  bound_order, draw_i64-within, generate_integer_data-IsInteger, generate_string_data-IsText,
}
use overload.Datagen.Entries.{found-insert, EntriesFit-insert}

module _ {F : Foreign} (numbers : Numbers F) (draws : Draws F) where
  -- A value is drawn that fits the schema, and is put under the key.
  Puts : String → DataSchema F → Fields F.Number → Fields F.Number × ℕ → Type 0
  Puts k schema map r = (v : Value F.Number) × Fits numbers schema v × (r.0 ≡ insert k v map)

  item_loop-ItemsFit :
      {items : Schemas F} (body : ℕ → Option (Value F.Number × ℕ)) (count n : ℕ)
      → ((i : ℕ) → Returns (λ r. OneFits numbers items key_for_keyless_schemas r.0) (body i))
      → Returns
          (λ r. ItemsFit numbers items r.0 × (count_items r.0 ≡ count))
          (item_loop body count n)
  unfolding item_loop count_items
  item_loop-ItemsFit body zero n h = returns (no_item, refl)
  item_loop-ItemsFit body (suc count) n h = h n ⟫= λ one f.
      item_loop-ItemsFit body count one.1 h ⟫= λ more a. returns (item f a.0, ap suc a.1)

  key_of-IsValidAs : {k : String} {s : DataSchema F} → IsValidAs k s → key_of s ≡ some k
  unfolding key_of
  key_of-IsValidAs (IsValidAs.string h) = refl
  key_of-IsValidAs (IsValidAs.integer h) = refl
  key_of-IsValidAs (IsValidAs.object h) = refl
  key_of-IsValidAs (IsValidAs.constant_object v) = refl
  key_of-IsValidAs (IsValidAs.array a h) = refl

  -- What the loop makes of the entries `map`, `all` being the schemas of the whole object.
  record AllPut (all schemas : Schemas F) (map : Fields F.Number) (r : Fields F.Number × ℕ)
      : Type 0 where
    fit : EntriesFit numbers all r.0
    are_there : AreThere schemas r.0
    kept :
        (k : String) (v : Value F.Number)
        → look_up k map ≡ some v
        → (w : Value F.Number) × (look_up k r.0 ≡ some w)

  keyless-OneFits :
      (schema : DataSchema F)
      → key_of schema ≡ some key_for_keyless_schemas
      → (r : Fields F.Number × ℕ) → Puts key_for_keyless_schemas schema end r
      → Returns
          (λ v. OneFits numbers (cons schema nil) key_for_keyless_schemas v.0)
          (keyless numbers draws r)
  unfolding keyless Puts
  keyless-OneFits schema e (map, n) (v, f, p) =
      let got : look_up key_for_keyless_schemas map ≡ some v =
        ap (look_up key_for_keyless_schemas) p
        ∙ look_up-insert_self key_for_keyless_schemas v end in
      rw got (returns (here e f))

  one_item :
      (schema : DataSchema F)
      → key_of schema ≡ some key_for_keyless_schemas
      → (i : ℕ)
      → Returns (Puts key_for_keyless_schemas schema end) (generate_one numbers draws schema end i)
      → Returns
          (λ v. OneFits numbers (cons schema nil) key_for_keyless_schemas v.0)
          ((generate_one numbers draws schema end i >>= λ next. some (next.0, next.1))
            >>= keyless numbers draws)
  unfolding Puts
  one_item schema e i puts = (puts ⟫= λ next p. returns p) ⟫= λ r p. keyless-OneFits schema e r p

  not_negative : (i : ℤ) → pos 0 ≤ℤ i → i ≡ pos (pos_part i)
  not_negative (pos n) h = refl
  not_negative (negsuc n) h = absurd (omega arith)

  counted :
      (cs : ConstraintMap F) (len : ℤ) (count : ℕ)
      → pos 0 ≤ℤ bound Keywords.min_length cs (pos 1)
      → IsBetween cs Keywords.min_length Keywords.max_length (pos 1) (pos 20) len
      → count ≡ pos_part len
      → IsBetween cs Keywords.min_length Keywords.max_length (pos 1) (pos 20) (pos count)
  counted cs len count low b e =
      let same : len ≡ pos count = not_negative len (omega (arith, low, b.0)) ∙ ap pos (sym e) in
      subst (IsBetween cs Keywords.min_length Keywords.max_length (pos 1) (pos 20)) same b

  -- A round of the loop keeps what the entries so far satisfy, and the rest of it, what it adds.
  put-Fits :
      {all : Schemas F} (k : String) (schema : DataSchema F) (map : Fields F.Number)
      (next : Fields F.Number × ℕ)
      → ((v : Value F.Number) → Fits numbers schema v → OneFits numbers all k v)
      → Puts k schema map next
      → EntriesFit numbers all map
      → EntriesFit numbers all next.0
  unfolding Puts
  put-Fits k schema map next inside (v, f, p) fits =
      subst (EntriesFit numbers _) (sym p) (EntriesFit-insert numbers k v map (inside v f) fits)

  put_next :
      {all schemas : Schemas F} (k : String) (schema : DataSchema F) (map : Fields F.Number)
      (next r : Fields F.Number × ℕ)
      → key_of schema ≡ some k
      → Puts k schema map next
      → AllPut all schemas next.0 r
      → AllPut all (cons schema schemas) map r
  unfolding Puts
  put_next k schema map next r e (v, f, p) a =
      let own = a.kept k v (ap (look_up k) p ∙ look_up-insert_self k v map) in
      record {
        fit = a.fit;
        are_there = (k, own.0, e, own.1, a.are_there);
        kept = λ j w l.
            let still = found-insert numbers k j v w map l in
            a.kept j still.0 (ap (look_up j) p ∙ still.1);
      }

  find_single : (c : Constraints F) → find Keywords.constant ((Keywords.constant, c) ∷ []) ≡ some c
  unfolding find
  find_single c = if_pos (Keywords-discrete Keywords.constant Keywords.constant) refl _ _

  constant_json-Fits :
      (k : Option String) (v : Value F.Number)
      → Fits numbers
          (DataSchema.constant_object k ((Keywords.constant, Constraints.constant_value v) ∷ []))
          (constant_json numbers draws ((Keywords.constant, Constraints.constant_value v) ∷ []))
  unfolding constant_json or_else as_serde_value
  constant_json-Fits k v =
      let found = find_single (Constraints.constant_value v) in
      rw found (Fits.constant_object found)

  mutual
    unfolding generate_all Puts

    generate_all-AllPut :
        {all schemas : Schemas F}
        → AreValid schemas
        → AreSafe schemas
        → ((k : String) (v : Value F.Number)
            → OneFits numbers schemas k v
            → OneFits numbers all k v)
        → (map : Fields F.Number) (n : ℕ) → EntriesFit numbers all map
        → Returns (AllPut all schemas map) (generate_all numbers draws schemas map n)
    generate_all-AllPut no_schema s inside map n fits =
        returns record { fit = fits; are_there = tt; kept = λ k v l. (v, l) }
    generate_all-AllPut {all} (and_schema {k} {schema} {schemas} valid valids) (and_next safe safes)
          inside map n fits =
        generate_one-Puts valid safe map n ⟫= λ next put.
        weaken
          (generate_all-AllPut valids safes (λ j v h. inside j v (there h)) next.0 next.1
            (put-Fits k schema map next (λ v f. inside k v (here (key_of-IsValidAs valid) f)) put
              fits))
          λ r a. put_next k schema map next r (key_of-IsValidAs valid) put a

    generate_one-Puts :
        {k : String} {schema : DataSchema F}
        → IsValidAs k schema
        → IsSafe schema
        → (map : Fields F.Number) (n : ℕ)
        → Returns (Puts k schema map) (generate_one numbers draws schema map n)
    generate_one-Puts (IsValidAs.string {cs} valid) (IsSafe.string low) map n =
        generate_string_data-IsText numbers draws cs n valid low ⟫= λ text f.
        returns (Value.string text.0, Fits.string f, refl)
    generate_one-Puts (IsValidAs.integer {cs} valid) IsSafe.integer map n =
        generate_integer_data-IsInteger numbers draws cs n valid ⟫= λ number f.
        returns (Value.number (numbers.of_i64 number.0), Fits.integer f, refl)
    generate_one-Puts (IsValidAs.object valids) (IsSafe.object safes) map n =
        generate_all-AllPut valids safes (λ k v h. h) end n no_entry ⟫= λ inner a.
        returns (Value.object inner.0, Fits.object a.fit a.are_there, refl)
    generate_one-Puts (IsValidAs.constant_object v) IsSafe.constant_object map n =
        returns (_, constant_json-Fits _ v, refl)
    generate_one-Puts (IsValidAs.array {cs} (known {schema} item_valid) valid)
          (IsSafe.array item_safe low) map n =
        draw_i64-within numbers draws n _ _ (
          bound_order cs Keywords.min_length Keywords.max_length (pos 1) (pos 20) valid.lengths
            (omega arith))
        ⟫= λ len b.
            item_loop-ItemsFit _ (pos_part len.0) len.1 (λ i.
              one_item schema (key_of-IsValidAs item_valid) i
                (generate_one-Puts item_valid item_safe end i))
            ⟫= λ values f.
                returns (Value.array values.0, Fits.array f.0 (counted cs len.0 _ low b f.1), refl)
    generate_one-Puts (IsValidAs.array unknown valid) safe map n = elim safe [ ]

  -- For a well-formed schema for which data can be drawn, that is, no lower bound of a length is
  -- negative and the type of every array's items is one that is read, data is generated without a
  -- panic, and it fits the schema: constants, bounds of numbers and lengths, an entry for every
  -- property and no other, at every depth.
  pub generate_data-Fits :
      (schema : DataSchema F) (n : ℕ)
      → IsValid schema
      → IsSafe schema
      → Returns (λ r. Fits numbers schema r.0) (generate_data numbers draws schema n)
  unfolding generate_data
  generate_data-Fits _ n (root valids) (IsSafe.object safes) =
      generate_all-AllPut valids safes (λ k v h. h) end n no_entry ⟫= λ r a.
      returns (Fits.object a.fit a.are_there)
