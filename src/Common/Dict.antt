-- ===== src/Common/Dict.antt =====
-- A `BTreeMap` with text keys: its entries, in the order of the keys. The laws of look-up hold for
-- every list of entries; the order is an invariant of its own.
use Prim.Native.Nat.{Ordering}
use Prim.Native.String.{String, compare}
use mathlib.Core.List.{List, [], ◌∷◌}
use mathlib.Core.Logic.{◌⊎◌, inl, inr}
use mathlib.Core.Option.{Option, none, some}
use mathlib.Core.Path.{◌≡◌, refl, sym, ap, ◌∙◌, subst}
use native.Mathlib.Omega.{arith}
use text.Mathlib.Text.{◌==◌}
use text.Mathlib.TextEquality.{eq_iff}
use text.Mathlib.TextPositions.{eq_refl}
use overload.Common.Tests.{Bool-cases, if◌then◌else◌}
use overload.Common.Texts.{Before, Before-trans, Before-of_gt, not-Before_self, equal_of_eq}

abbrev pub Dict {ℓ} : Type ℓ → Type ℓ
Dict V = List (String × V)

Ordering-cases : (o : Ordering) → (o ≡ Ordering.lt) ⊎ ((o ≡ Ordering.eq) ⊎ (o ≡ Ordering.gt))
Ordering-cases Ordering.lt = inl refl
Ordering-cases Ordering.eq = inr (inl refl)
Ordering-cases Ordering.gt = inr (inr refl)

module _ {ℓ} {V : Type ℓ} where
  unfoldable pub lookup : String → Dict V → Option V
  lookup k [] = none
  lookup k ((j, v) ∷ m) = if k == j then some v else lookup k m

  unfoldable pub insert : String → V → Dict V → Dict V
  insert k v [] = (k, v) ∷ []
  insert k v ((j, w) ∷ m) = elim (compare k j) [
    | Ordering.lt ↦ (k, v) ∷ (j, w) ∷ m
    | Ordering.eq ↦ (k, v) ∷ m
    | Ordering.gt ↦ (j, w) ∷ insert k v m
  ]

  unfoldable pub remove : String → Dict V → Dict V
  remove k [] = []
  remove k ((j, w) ∷ m) = if k == j then remove k m else (j, w) ∷ remove k m

  -- `collect` of pairs into a map: a later pair replaces an earlier one with its key.
  unfoldable pub collect : List (String × V) → Dict V → Dict V
  collect [] m = m
  collect ((k, v) ∷ rest) m = collect rest (insert k v m)

  pub lookup-insert :
      (k j : String) (v : V) (m : Dict V)
      → lookup j (insert k v m) ≡ (if j == k then some v else lookup j m)
  unfolding lookup insert
  lookup-insert k j v [] = refl
  lookup-insert k j v ((i, w) ∷ m) =
      ground (arith, eq_iff j k, eq_iff j i, equal_of_eq k i, lookup-insert k j v m)

  pub lookup-remove :
      (k j : String) (m : Dict V) → lookup j (remove k m) ≡ (if j == k then none else lookup j m)
  unfolding lookup remove
  lookup-remove k j [] = ground arith
  lookup-remove k j ((i, w) ∷ m) =
      ground (arith, eq_iff j k, eq_iff j i, eq_iff k i, lookup-remove k j m)

  pub lookup-insert_self : (k : String) (v : V) (m : Dict V) → lookup k (insert k v m) ≡ some v
  lookup-insert_self k v m =
      lookup-insert k k v m ∙ ap (λ b. if b then some v else lookup k m) (eq_refl k)

  pub lookup-remove_self : (k : String) (m : Dict V) → lookup k (remove k m) ≡ none
  lookup-remove_self k m =
      lookup-remove k k m ∙ ap (λ b. if b then none else lookup k m) (eq_refl k)

  -- Every key of the dictionary is behind `k`.
  abbrev pub Behind : String → Dict V → Type 0
  Behind k [] = Unit
  Behind k ((j, v) ∷ m) = Before k j × Behind k m

  abbrev pub IsAscending : Dict V → Type 0
  IsAscending [] = Unit
  IsAscending ((k, v) ∷ m) = Behind k m × IsAscending m

  Behind-trans : (k j : String) (m : Dict V) → Before k j → Behind j m → Behind k m
  Behind-trans k j [] h b = tt
  Behind-trans k j ((i, v) ∷ m) h b = (Before-trans k j i h b.0, Behind-trans k j m h b.1)

  Behind-insert :
      (k j : String) (v : V) (m : Dict V) → Before j k → Behind j m → Behind j (insert k v m)
  unfolding insert
  Behind-insert k j v [] h b = (h, tt)
  Behind-insert k j v ((i, w) ∷ m) h b = ground (arith, Behind-insert k j v m h b.1)

  pub insert-IsAscending :
      (k : String) (v : V) (m : Dict V) → IsAscending m → IsAscending (insert k v m)
  unfolding insert
  insert-IsAscending k v [] a = (tt, tt)
  insert-IsAscending k v ((j, w) ∷ m) a = elim (Ordering-cases (compare k j)) [
    | inl h ↦ rw (h, insert) ((h, Behind-trans k j m h a.0), a)
    | inr (inl h) ↦ rw (h, insert) (subst (λ i. Behind i m) (sym (equal_of_eq k j h)) a.0, a.1)
    | inr (inr h) ↦
        rw (h, insert)
          (Behind-insert k j v m (Before-of_gt k j h) a.0, insert-IsAscending k v m a.1)
  ]

  Behind-remove : (k j : String) (m : Dict V) → Behind j m → Behind j (remove k m)
  unfolding remove
  Behind-remove k j [] b = tt
  Behind-remove k j ((i, w) ∷ m) b = ground (arith, Behind-remove k j m b.1)

  pub remove-IsAscending : (k : String) (m : Dict V) → IsAscending m → IsAscending (remove k m)
  unfolding remove
  remove-IsAscending k [] a = tt
  remove-IsAscending k ((j, w) ∷ m) a =
      ground (arith, Behind-remove k j m a.0, remove-IsAscending k m a.1)

  -- A key in front of every entry is not there.
  pub lookup-Behind : (k : String) (m : Dict V) → Behind k m → lookup k m ≡ none
  unfolding lookup
  lookup-Behind k [] b = refl
  lookup-Behind k ((j, w) ∷ m) b = elim (Bool-cases (k == j)) [
    | inl h ↦ absurd (not-Before_self k (subst (Before k) (sym ((eq_iff k j).0 h)) b.0))
    | inr h ↦ rw h (lookup-Behind k m b.1)
  ]
