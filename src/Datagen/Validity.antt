-- ===== src/Datagen/Validity.antt =====
-- datagen/src/lib.rs: the well-formed schemas.
use Prim.Native.String.{String}
use mathlib.Core.Logic.{if_pos, if_neg}
use overload.Common.{◌≡◌, sym, subst, Option, none, some, [], ◌∷◌, All}
use overload.Common.Int.{ℤ, ◌≤ℤ◌}
use overload.Common.Ensures.{Ensures, fails, gives}
use overload.Datagen.{Keywords, Constraints, DataSchema, Schemas, nil, cons}
use overload.Datagen.Parsing.{
  ConstraintMap, Keywords-discrete, find, as_i64, key_for_keyless_schemas,
}
use overload.Foreign.{Foreign}
use overload.Json.{Value}

module _ {F : Foreign} where
  -- A constraint stands under its own keyword, and a pattern is kept with its parsed form.
  abbrev pub IsOf : Keywords → Constraints F → Type 0
  IsOf Keywords.min_length (Constraints.min_length x) = Unit
  IsOf Keywords.max_length (Constraints.max_length x) = Unit
  IsOf Keywords.minimum (Constraints.minimum x) = Unit
  IsOf Keywords.maximum (Constraints.maximum x) = Unit
  IsOf Keywords.constant (Constraints.constant_int x) = Unit
  IsOf Keywords.constant (Constraints.constant_str x) = Unit
  IsOf Keywords.constant (Constraints.constant_value x) = Unit
  IsOf Keywords.pattern_key (Constraints.regex pattern (some hir)) = Unit
  IsOf _ _ = ⊥

  abbrev pub AreOf : ConstraintMap F → Type 0
  AreOf = All (λ e. IsOf e.0 e.1)

  pub find-IsOf : (k : Keywords) (cs : ConstraintMap F) → AreOf cs → Ensures (IsOf k) (find k cs)
  unfolding find
  find-IsOf k [] h = fails
  find-IsOf k ((j, c) ∷ cs) h = elim (Keywords-discrete k j) [
    | yes e ↦ rw (if_pos _ e) (gives (subst (λ i. IsOf i c) (sym e) h.0))
    | no d ↦ rw (if_neg _ d) (find-IsOf k cs h.1)
  ]

  -- Both bounds, in their order, or none.
  abbrev pub IsRange : (min max : Option (Constraints F)) → Type 0
  IsRange (some min) (some max) =
      (lo : ℤ) × (hi : ℤ) × (as_i64 min ≡ some lo) × (as_i64 max ≡ some hi) × (lo ≤ℤ hi)
  IsRange none none = Unit
  IsRange _ _ = ⊥

  pub record IsValidMap (cs : ConstraintMap F) : Type 0 where
    pub are_of : AreOf cs
    pub values : IsRange (find Keywords.minimum cs) (find Keywords.maximum cs)
    pub lengths : IsRange (find Keywords.min_length cs) (find Keywords.max_length cs)

-- A schema as it is read under a key.
mutual
  pub data IsValidAs {F : Foreign} : String → DataSchema F → Type 0 where
    string :
        {k : String} {cs : ConstraintMap F} → IsValidMap cs → IsValidAs k (DataSchema.string k cs)
    integer :
        {k : String} {cs : ConstraintMap F} → IsValidMap cs → IsValidAs k (DataSchema.integer k cs)
    object :
        {k : String} {schemas : Schemas F}
        → AreValid schemas
        → IsValidAs k (DataSchema.object (some k) schemas)
    constant_object :
        {k : String} (v : Value F.Number)
        → IsValidAs k (
            DataSchema.constant_object
              (some k)
              ((Keywords.constant, Constraints.constant_value v) ∷ []))
    array :
        {k : String} {items : Schemas F} {cs : ConstraintMap F}
        → AreItems items
        → IsValidMap cs
        → IsValidAs k (DataSchema.array (some k) items cs)

  pub data AreValid {F : Foreign} : Schemas F → Type 0 where
    no_schema : AreValid nil
    and_schema :
        {k : String} {schema : DataSchema F} {schemas : Schemas F}
        → IsValidAs k schema
        → AreValid schemas
        → AreValid (cons schema schemas)

  -- The schema of an array's items; none, where their type is not one that is read.
  pub data AreItems {F : Foreign} : Schemas F → Type 0 where
    unknown : AreItems nil
    known :
        {schema : DataSchema F}
        → IsValidAs key_for_keyless_schemas schema
        → AreItems (cons schema nil)

-- The whole schema is an object without a key.
pub data IsValid {F : Foreign} : DataSchema F → Type 0 where
  root : {schemas : Schemas F} → AreValid schemas → IsValid (DataSchema.object none schemas)
