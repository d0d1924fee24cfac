-- ===== src/Json/Access.antt =====
-- serde_json's access to values: `get`, `as_object`, `as_str`, and `Map` with its `insert` and
-- `remove`. A `Map` is a `BTreeMap`: its entries stand in the order of the keys.
use Prim.Native.Nat.{Ordering}
use Prim.Native.String.{String, compare}
use text.Mathlib.Text
use text.Mathlib.TextEquality.{eq_iff}
use text.Mathlib.TextPositions.{eq_refl}
use overload.Common.{Option, none, some, if◌then◌else◌, ◌≡◌, arith, refl, ◌∙◌, ap}
use overload.Common.Texts.{equal_of_eq}
use overload.Json.{Value, Fields, end, field}

module _ {N : Type 0} where
  unfoldable pub look_up : String → Fields N → Option (Value N)
  look_up k end = none
  look_up k (field j v m) = if Text.◌==◌ k j then some v else look_up k m

  unfoldable pub insert : String → Value N → Fields N → Fields N
  insert k v end = field k v end
  insert k v (field j w m) = elim (compare k j) [
    | Ordering.lt ↦ field k v (field j w m)
    | Ordering.eq ↦ field k v m
    | Ordering.gt ↦ field j w (insert k v m)
  ]

  unfoldable pub as_object : Value N → Option (Fields N)
  as_object (Value.object fields) = some fields
  as_object _ = none

  unfoldable pub as_str : Value N → Option String
  as_str (Value.string s) = some s
  as_str _ = none

  unfoldable pub get : Value N → String → Option (Value N)
  get (Value.object fields) k = look_up k fields
  get _ k = none

  pub look_up-insert :
      (k j : String) (v : Value N) (m : Fields N)
      → look_up j (insert k v m) ≡ (if Text.◌==◌ j k then some v else look_up j m)
  unfolding look_up insert
  look_up-insert k j v end = refl
  look_up-insert k j v (field i w m) =
      ground (arith, eq_iff j k, eq_iff j i, equal_of_eq k i, look_up-insert k j v m)

  pub look_up-insert_self :
      (k : String) (v : Value N) (m : Fields N) → look_up k (insert k v m) ≡ some v
  look_up-insert_self k v m =
      look_up-insert k k v m ∙ ap (λ b. if b then some v else look_up k m) (eq_refl k)
