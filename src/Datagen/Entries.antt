-- ===== src/Datagen/Entries.antt =====
-- Entries that fit, after another is put to them.
use Prim.Native.String.{String, compare}
use text.Mathlib.Text
use Prim.Native.Nat.{Ordering}
use overload.Common.{◌≡◌, ap, ◌∙◌, some, inl, inr, if◌then◌else◌, Bool-cases}
use overload.Datagen.{Schemas, nil, cons}
use overload.Datagen.Conformance.{AreThere, EntriesFit, OneFits, no_entry, entry}
use overload.Datagen.Parsing.{Numbers}
use overload.Foreign.{Foreign}
use overload.Json.{Value, Fields, end, field}
use overload.Json.Access.{look_up, insert, look_up-insert}

module _ {F : Foreign} (numbers : Numbers F) where
  pub found-insert :
      (k j : String) (v w : Value F.Number) (map : Fields F.Number)
      → look_up j map ≡ some w
      → (x : Value F.Number) × (look_up j (insert k v map) ≡ some x)
  found-insert k j v w map l = elim (Bool-cases (Text.◌==◌ j k)) [
    | inl e ↦ (v, look_up-insert k j v map ∙ ap (λ b. if b then some v else look_up j map) e)
    | inr e ↦ (w, look_up-insert k j v map ∙ ap (λ b. if b then some v else look_up j map) e ∙ l)
  ]

  pub AreThere-insert :
      (schemas : Schemas F) (k : String) (v : Value F.Number) (map : Fields F.Number)
      → AreThere schemas map
      → AreThere schemas (insert k v map)
  AreThere-insert nil k v map h = tt
  AreThere-insert (cons schema schemas) k v map (j, w, e, l, rest) =
      let still = found-insert k j v w map l in
      (j, still.0, e, still.1, AreThere-insert schemas k v map rest)

  pub EntriesFit-insert :
      {all : Schemas F} (k : String) (v : Value F.Number) (map : Fields F.Number)
      → OneFits numbers all k v
      → EntriesFit numbers all map
      → EntriesFit numbers all (insert k v map)
  unfolding insert
  EntriesFit-insert k v end h a = entry h no_entry
  EntriesFit-insert {all} k v (field j w m) h (entry f a) =
      elim (compare k j)
        as (λ o. EntriesFit numbers all (elim o as (λ _. Fields F.Number) [
          | Ordering.lt ↦ field k v (field j w m)
          | Ordering.eq ↦ field k v m
          | Ordering.gt ↦ field j w (insert k v m)
        ])) [
          | Ordering.lt ↦ entry h (entry f a)
          | Ordering.eq ↦ entry h a
          | Ordering.gt ↦ entry f (EntriesFit-insert k v m h a)
        ]
