-- ===== src/RateSpec/Validate/Accept.antt =====
-- What the validation of a list of steps accepts.
use mathlib.Core.List.{Perm}
use mathlib.Core.List.Perm
use overload.Common.{
  ℕ, ◌+◌, ◌≤◌, ◌<◌, ◌≡◌, refl, inl, inr, List, [], ◌∷◌, length, none, leb, arith, All, ap, ◌∙◌,
  subst, suc, Bool-cases,
}
use overload.RateSpec.{Step, Steps, u32_mod}
use overload.RateSpec.Validate.{
  ok, insert_by_start, sort_by_start, check_continuity, check_sorted, steps_try_from,
}

-- Every step starts right behind the one before it, the first at `next`, and ends after its start.
abbrev pub Contiguous : ℕ → List Step → Type 0
Contiguous next [] = Unit
Contiguous next (s ∷ rest) = (s.start ≡ next) × (s.start < s.end) × Contiguous (s.end + 1) rest

-- What the conversion of one step guarantees, and that its end is not the last `u32`.
abbrev pub IsStep : Step → Type 0
IsStep s = (s.start < s.end) × (s.end + 1 < u32_mod)

insert-perm : (s : Step) (rest : List Step) → Perm (insert_by_start s rest) (s ∷ rest)
unfolding insert_by_start
insert-perm s [] = Perm.refl _
insert-perm s (t ∷ rest) = elim (Bool-cases (leb s.start t.start)) [
  | inl e ↦ rw e (Perm.refl _)
  | inr e ↦ rw e (Perm.trans (Perm.cons t (insert-perm s rest)) (Perm.swap s t rest))
]

sort-perm : (xs : List Step) → Perm (sort_by_start xs) xs
unfolding sort_by_start
sort-perm [] = Perm.refl []
sort-perm (s ∷ rest) =
    Perm.trans (insert-perm s (sort_by_start rest)) (Perm.cons s (sort-perm rest))

insert-All :
    (P : Step → Type 0) (s : Step) (rest : List Step)
    → P s
    → All P rest
    → All P (insert_by_start s rest)
unfolding insert_by_start
insert-All P s [] h hs = (h, tt)
insert-All P s (t ∷ rest) h hs = elim (Bool-cases (leb s.start t.start)) [
  | inl e ↦ rw e (h, hs)
  | inr e ↦ rw e (hs.0, insert-All P s rest h hs.1)
]

sort-All : (P : Step → Type 0) (xs : List Step) → All P xs → All P (sort_by_start xs)
unfolding sort_by_start
sort-All P [] h = tt
sort-All P (s ∷ rest) h = insert-All P s (sort_by_start rest) h.0 (sort-All P rest h.1)

insert_first :
    (s : Step) (next : ℕ) (rest : List Step)
    → s.start < next
    → Contiguous next rest
    → insert_by_start s rest ≡ s ∷ rest
unfolding insert_by_start
insert_first s next [] h c = refl
insert_first s next (t ∷ rest) h c = ground arith

-- Steps that are in order already stay where they are.
sort-Contiguous : (next : ℕ) (xs : List Step) → Contiguous next xs → sort_by_start xs ≡ xs
unfolding sort_by_start
sort-Contiguous next [] c = refl
sort-Contiguous next (s ∷ rest) c =
    rw (sort-Contiguous (s.end + 1) rest c.2) (insert_first s (s.end + 1) rest (omega arith) c.2)

check_continuity-Contiguous :
    (prev : ℕ) (xs : List Step)
    → prev + 1 < u32_mod
    → All IsStep xs
    → check_continuity prev xs ≡ none
    → Contiguous (prev + 1) xs
unfolding check_continuity
check_continuity-Contiguous prev [] lt h e = tt
check_continuity-Contiguous prev (s ∷ rest) lt h e =
    ground (arith, check_continuity-Contiguous s.end rest)

Contiguous-check_continuity :
    (prev : ℕ) (xs : List Step)
    → prev + 1 < u32_mod
    → All IsStep xs
    → Contiguous (prev + 1) xs
    → check_continuity prev xs ≡ none
unfolding check_continuity
Contiguous-check_continuity prev [] lt h c = refl
Contiguous-check_continuity prev (s ∷ rest) lt h c =
    ground (arith, Contiguous-check_continuity s.end rest)

-- What an accepted specification holds: the given steps in order, without a gap from second 0 on,
-- and the cursor at the first.
pub record IsAccepted (given : List Step) (s : Steps) : Type 0 where
  pub fresh : s.current_step ≡ 0
  pub same : Perm s.steps given
  pub contiguous : Contiguous 0 s.steps
  pub several : 2 ≤ length s.steps

check_sorted-eq-ok :
    (x : Step) (xs : List Step) (s : Steps)
    → check_sorted (x ∷ xs) ≡ ok s
    → (x.start ≡ 0)
      × (check_continuity x.end xs ≡ none)
      × (record { current_step = 0; steps = x ∷ xs } ≡ s)
unfolding check_sorted
check_sorted-eq-ok x xs s e = ground arith

check_sorted-IsAccepted :
    (given xs : List Step) (s : Steps)
    → Perm xs given
    → All IsStep xs
    → 2 ≤ length xs
    → check_sorted xs ≡ ok s
    → IsAccepted given s
unfolding check_sorted
check_sorted-IsAccepted given [] s p h l e = cc
check_sorted-IsAccepted given (x ∷ xs) s p h l e =
    let (zero_start, continuous, same) = check_sorted-eq-ok x xs s e in
    subst (IsAccepted given) same (record {
      fresh = refl;
      same = p;
      contiguous = (zero_start, h.0.0, check_continuity-Contiguous x.end xs h.0.1 h.1 continuous);
      several = l;
    })

length-insert : (s : Step) (xs : List Step) → length (insert_by_start s xs) ≡ suc (length xs)
unfolding insert_by_start
length-insert s [] = refl
length-insert s (t ∷ rest) = ground (arith, length-insert s rest)

length-sort : (xs : List Step) → length (sort_by_start xs) ≡ length xs
unfolding sort_by_start
length-sort [] = refl
length-sort (s ∷ rest) = length-insert s (sort_by_start rest) ∙ ap suc (length-sort rest)

-- An accepted specification is a rearrangement of the given steps that starts at second 0, leaves
-- no gap and no overlap, and holds at least two steps, if each given step ends after its start and
-- before the largest `u32`.
pub steps_try_from-IsAccepted :
    (given : List Step) (s : Steps)
    → All IsStep given
    → steps_try_from given ≡ ok s
    → IsAccepted given s
unfolding steps_try_from
steps_try_from-IsAccepted [] s h e = cc
steps_try_from-IsAccepted (x ∷ []) s h e = cc
steps_try_from-IsAccepted (x ∷ y ∷ rest) s h e =
    let given = x ∷ y ∷ rest in
    check_sorted-IsAccepted given (sort_by_start given) s (sort-perm given)
      (sort-All IsStep given h) (omega (arith, length-sort given)) e

-- Two or more steps that start at second 0 and follow one another are accepted as they stand, with
-- the cursor at the first, if each ends before the largest `u32`.
Contiguous-steps_try_from :
    (given : List Step)
    → All IsStep given
    → Contiguous 0 given
    → 2 ≤ length given
    → steps_try_from given ≡ ok (record { current_step = 0; steps = given })
unfolding steps_try_from check_sorted
Contiguous-steps_try_from [] h c l = absurd (omega arith)
Contiguous-steps_try_from (x ∷ []) h c l = absurd (omega arith)
Contiguous-steps_try_from (x ∷ y ∷ rest) h c l =
    rw (sort-Contiguous 0 (x ∷ y ∷ rest) c)
      (ground (arith, Contiguous-check_continuity x.end (y ∷ rest) h.0.1 h.1 c.2))
