-- ===== src/Datagen/Keeping.antt =====
-- The constraints that are read for a property.
use Prim.Native.String.{String}
use text.Mathlib.Text
use mathlib.Core.Logic.{if_pos, if_neg}
use overload.Common.{
  ◌≡◌, refl, true, Option, none, some, [], ◌∷◌, inl, inr, arith, ◌⊎◌, if◌then◌else◌, Bool-cases,
}
use mathlib.Core.Option
use overload.Common.Int.{ℤ}
use overload.Common.Ensures.{Ensures, fails, gives, Ensures-if, ◌⟫◌, anything}
use overload.Datagen.{Keywords, Constraints}
use overload.Datagen.Parsing
use overload.Datagen.Parsing.{
  ConstraintMap, Numbers, Keywords-discrete, find, put, as_i64, validate_pair, less,
  validate_constraints, parse_pattern, parse_constraint, parse_each, parse_constraints,
  get_constraints, parse_properties, parse_property, parse_inner, parse_members, parse_items,
  push_schema, string_schema, integer_schema, array_schema, parse_constant, data_schema_from_value,
  constant_of, key_for_keyless_schemas,
}
use overload.Datagen.Validity.{IsOf, AreOf, find-IsOf, IsRange, IsValidMap}
use overload.Foreign.{Foreign}
use overload.Json.{Value, Fields, end, field}
use overload.Json.Access.{as_str, as_object}

abbrev IsNoBound : Keywords → Type 0
IsNoBound Keywords.constant = Unit
IsNoBound Keywords.pattern_key = Unit
IsNoBound _ = ⊥

abbrev IsBound : Keywords → Type 0
IsBound k = IsNoBound k → ⊥

module _ {F : Foreign} where
  put-AreOf :
      (k : Keywords) (c : Constraints F) (cs : ConstraintMap F)
      → IsOf k c
      → AreOf cs
      → AreOf (put k c cs)
  unfolding put
  put-AreOf k c [] h a = (h, tt)
  put-AreOf k c ((j, d) ∷ cs) h a = elim (Keywords-discrete k j) [
    | yes e ↦ rw (if_pos _ e) (h, a.1)
    | no e ↦ rw (if_neg _ e) (a.0, put-AreOf k c cs h a.1)
  ]

  abbrev pub HasNumber : Constraints F → Type 0
  HasNumber c = (x : ℤ) × (as_i64 c ≡ some x)

  bound_cases : (k : Keywords) (c : Constraints F) → IsOf k c → HasNumber c ⊎ IsNoBound k
  unfolding as_i64
  bound_cases Keywords.min_length (Constraints.min_length x) h = inl (x, refl)
  bound_cases Keywords.max_length (Constraints.max_length x) h = inl (x, refl)
  bound_cases Keywords.minimum (Constraints.minimum x) h = inl (x, refl)
  bound_cases Keywords.maximum (Constraints.maximum x) h = inl (x, refl)
  bound_cases Keywords.constant c h = inr tt
  bound_cases Keywords.pattern_key c h = inr tt
  bound_cases _ _ h = absurd h

  bounded :
      (k : Keywords) (m : Option (Constraints F))
      → IsBound k
      → Ensures (IsOf k) m
      → Ensures HasNumber m
  bounded k none b h = fails
  bounded k (some c) b (gives h) = elim (bound_cases k c h) [
    | inl x ↦ gives x
    | inr n ↦ absurd (b n)
  ]

  ranged :
      (min max : Option (Constraints F))
      → validate_pair min max ≡ true
      → Ensures HasNumber min
      → Ensures HasNumber max
      → IsRange min max
  unfolding validate_pair less
  ranged none none v h k = tt
  ranged none (some b) v h k = absurd (ground arith)
  ranged (some a) none v h k = absurd (ground arith)
  ranged (some a) (some b) v (gives (lo, p)) (gives (hi, q)) = (lo, hi, p, q, ground arith)

  IsRange-of :
      (cs : ConstraintMap F) (low high : Keywords)
      → IsBound low
      → IsBound high
      → AreOf cs
      → validate_pair (find low cs) (find high cs) ≡ true
      → IsRange (find low cs) (find high cs)
  IsRange-of cs low high l h a v =
      ranged (find low cs) (find high cs) v (bounded low _ l (find-IsOf low cs a))
        (bounded high _ h (find-IsOf high cs a))

  validated :
      (cs : ConstraintMap F)
      → AreOf cs
      → Ensures IsValidMap (if validate_constraints cs then some cs else none)
  unfolding validate_constraints
  validated cs a =
      elim (Bool-cases (validate_pair (find Keywords.minimum cs) (find Keywords.maximum cs))) [
        | inr v ↦ rw v fails
        | inl v ↦
            elim (Bool-cases
              (validate_pair (find Keywords.min_length cs) (find Keywords.max_length cs))) [
                | inr l ↦ rw v (rw l fails)
                | inl l ↦ rw v (
                    rw l (
                      gives record {
                        are_of = a;
                        values = IsRange-of cs _ _ (λ n. n) (λ n. n) a v;
                        lengths = IsRange-of cs _ _ (λ n. n) (λ n. n) a l;
                      }))
              ]
      ]

module _ {F : Foreign} (numbers : Numbers F) where
  placed :
      (k : Keywords) (make : ℤ → Constraints F) (m : Option ℤ) (cs : ConstraintMap F)
      → ((i : ℤ) → IsOf k (make i))
      → AreOf cs
      → Ensures AreOf (Option.map (λ i. put k (make i) cs) m)
  placed k make none cs h a = fails
  placed k make (some i) cs h a = gives (put-AreOf k (make i) cs (h i) a)

  constant_cases :
      (v : Value F.Number) (m : Option ℤ)
      → IsOf Keywords.constant (elim m as (λ _. Constraints F) [
        | some val ↦ Constraints.constant_int val
        | none ↦ Constraints.constant_value v
      ])
  constant_cases v none = tt
  constant_cases v (some i) = tt

  constant_of-IsOf : (v : Value F.Number) → IsOf Keywords.constant (constant_of numbers v)
  unfolding constant_of
  constant_of-IsOf (Value.string s) = tt
  constant_of-IsOf (Value.number n) = constant_cases (Value.number n) (numbers.number_i64 n)
  constant_of-IsOf _ = tt

  parse_pattern-AreOf :
      (v : Value F.Number) (cs : ConstraintMap F)
      → AreOf cs
      → Ensures AreOf (parse_pattern numbers v cs)
  unfolding parse_pattern
  parse_pattern-AreOf v cs a = anything (as_str v) ⟫ λ pattern _.
      anything (numbers.parse_hir pattern) ⟫ λ hir _.
      gives (put-AreOf _ (Constraints.regex pattern (some hir)) cs tt a)

  parse_constraint-AreOf :
      (k : String) (v : Value F.Number) (cs : ConstraintMap F)
      → AreOf cs
      → Ensures AreOf (parse_constraint numbers k v cs)
  unfolding parse_constraint
  parse_constraint-AreOf k v cs a =
      let number = Parsing.value_i64 numbers v in
      Ensures-if (Text.◌==◌ k "minimum")
        (placed Keywords.minimum Constraints.minimum number cs (λ i. tt) a)
        (Ensures-if (Text.◌==◌ k "maximum")
          (placed Keywords.maximum Constraints.maximum number cs (λ i. tt) a)
          (Ensures-if (Text.◌==◌ k "minLength")
            (placed Keywords.min_length Constraints.min_length number cs (λ i. tt) a)
            (Ensures-if (Text.◌==◌ k "maxLength")
              (placed Keywords.max_length Constraints.max_length number cs (λ i. tt) a)
              (Ensures-if (Text.◌==◌ k "constant")
                (gives
                  (put-AreOf Keywords.constant (constant_of numbers v) cs (constant_of-IsOf v) a))
                (Ensures-if (Text.◌==◌ k "pattern") (parse_pattern-AreOf v cs a) (gives a))))))

  parse_each-AreOf :
      (fields : Fields F.Number) (cs : ConstraintMap F)
      → AreOf cs
      → Ensures AreOf (parse_each numbers fields cs)
  unfolding parse_each
  parse_each-AreOf end cs a = gives a
  parse_each-AreOf (field k v rest) cs a =
      parse_constraint-AreOf k v cs a ⟫ λ cs' a'. parse_each-AreOf rest cs' a'

  pub get_constraints-IsValidMap :
      (property : Value F.Number) → Ensures IsValidMap (get_constraints numbers property)
  unfolding get_constraints parse_constraints
  get_constraints-IsValidMap property =
      (anything (as_object property) ⟫ λ fields _. parse_each-AreOf fields [] tt) ⟫ λ cs a.
      validated cs a
