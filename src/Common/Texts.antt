-- ===== src/Common/Texts.antt =====
-- The order of texts, by which a `BTreeMap` with text keys is kept.
use Prim.Native.Char.{Char, code}
use Prim.Native.Nat.{Ordering, compare as compare_ℕ}
use Prim.Native.String.{String, compare, [], ◌∷◌, then}
use Prim.Native.String.compare
use mathlib.Core.Path.{◌≡◌}
use text.Mathlib.TextEquality.{path_by_compare}
use text.Mathlib.TextPositions.{compare_refl}
use native.Mathlib.Omega.{arith}

abbrev pub Before : String → String → Type 0
Before s t = compare s t ≡ Ordering.lt

-- The clause of `compare` at two texts with a first character, as a path.
cons-Before :
    (c d : Char) (s t : String)
    → compare (c ∷ s) (d ∷ t) ≡ then (compare_ℕ (code c) (code d)) (compare s t)
cons-Before c d s t = compare.cons-cons c d s t

pub Before-trans : (s t u : String) → Before s t → Before t u → Before s u
Before-trans [] [] u h k = ground (arith, compare.nil-nil)
Before-trans [] (d ∷ t) [] h k = ground (arith, compare.cons-nil d t)
Before-trans [] (d ∷ t) (e ∷ u) h k = compare.nil-cons e u
Before-trans (c ∷ s) [] u h k = ground (arith, compare.cons-nil c s)
Before-trans (c ∷ s) (d ∷ t) [] h k = ground (arith, compare.cons-nil d t)
Before-trans (c ∷ s) (d ∷ t) (e ∷ u) h k =
    ground
      (arith, cons-Before c d s t, cons-Before d e t u, cons-Before c e s u, Before-trans s t u)

pub Before-of_gt : (s t : String) → compare s t ≡ Ordering.gt → Before t s
Before-of_gt [] [] h = ground (arith, compare.nil-nil)
Before-of_gt [] (d ∷ t) h = ground (arith, compare.nil-cons d t)
Before-of_gt (c ∷ s) [] h = compare.nil-cons c s
Before-of_gt (c ∷ s) (d ∷ t) h =
    ground (arith, cons-Before c d s t, cons-Before d c t s, Before-of_gt s t)

pub not-Before_self : (s : String) → ¬ Before s s
not-Before_self s h = ground (arith, compare_refl s)

pub equal_of_eq : (s t : String) → compare s t ≡ Ordering.eq → s ≡ t
equal_of_eq = path_by_compare
