-- ===== src/Datagen/Bounds.antt =====
-- What is drawn for the constraints of a text or an integer lies within them.
use Prim.Native.String.count
use Prim.Native.String.{count}
use overload.Common.{
  ℕ, zero, suc, ◌≡◌, refl, sym, ap, subst, ◌∙◌, false, Option, none, some, arith, ◌>>=◌,
}
use overload.Common.Ensures.{Ensures, value_of, Returns, returns, ◌⟫=◌, weaken}
use overload.Common.Int.{ℤ, pos, negsuc, ◌≤ℤ◌, ltb_ℤ}
use overload.Datagen.{Keywords, Constraints}
use overload.Datagen.Conformance.{IsBetween, IsText, IsInteger}
use overload.Datagen.Drawing.{
  Draws, bound, or_else, draw_i64, draw_text, letters, letters_of, generate_integer_data,
  generate_string_data, integer_by, text_by, i64_min,
}
use overload.Datagen.Parsing.{ConstraintMap, Numbers, find, as_i64, as_pattern}
use overload.Datagen.Validity.{IsOf, find-IsOf, IsRange, IsValidMap}
use overload.Foreign.{Foreign}

module _ {F : Foreign} where
  pub bound_order :
      (cs : ConstraintMap F) (low high : Keywords) (lo hi : ℤ)
      → IsRange (find low cs) (find high cs)
      → lo ≤ℤ hi
      → bound low cs lo ≤ℤ bound high cs hi
  unfolding bound or_else
  bound_order cs low high lo hi r h = go (find low cs) (find high cs) r
    where
      go :
          (min max : Option (Constraints F))
          → IsRange min max
          → or_else (min >>= as_i64) lo ≤ℤ or_else (max >>= as_i64) hi
      go none none r = h
      go (some a) (some b) (x, y, p, q, o) = rw p (rw q o)
      go none (some b) r = absurd r
      go (some a) none r = absurd r

module _ {F : Foreign} (numbers : Numbers F) (draws : Draws F) where
  pub draw_i64-within :
      (n : ℕ) (lo hi : ℤ)
      → lo ≤ℤ hi
      → Returns (λ r. (lo ≤ℤ r.0) × (r.0 ≤ℤ hi)) (draw_i64 numbers draws n lo hi)
  unfolding draw_i64
  draw_i64-within n lo hi h =
      let ordered : ltb_ℤ hi lo ≡ false = ground arith in
      rw ordered (returns (draws.i64_within n lo hi h))

  count-letters : (size n : ℕ) → count (letters draws.alphabetic size n) ≡ size
  unfolding letters
  count-letters zero n = refl
  count-letters (suc size) n =
      count.cons (draws.alphabetic n) _ ∙ ap suc (count-letters size (suc n))

  letters_of-count :
      (size : ℤ) (n : ℕ)
      → pos 0 ≤ℤ size
      → Returns (λ r. pos (count r.0) ≡ size) (letters_of numbers draws (size, n))
  unfolding letters_of
  letters_of-count (pos size) n h = returns (ap pos (count-letters size n))
  letters_of-count (negsuc size) n h = absurd (omega arith)

  integer_by-constant :
      (c : Constraints F) (p : Option (Constraints F)) (cs : ConstraintMap F) (n : ℕ)
      → Returns (λ r. r.0 ≡ or_else (as_i64 c) i64_min) (integer_by numbers draws (some c) p cs n)
  unfolding integer_by
  integer_by-constant c p cs n = returns refl

  integer_by-pattern :
      (p : Constraints F) (cs : ConstraintMap F) (n : ℕ)
      → Returns (λ _. Unit {0}) (integer_by numbers draws none (some p) cs n)
  unfolding integer_by
  integer_by-pattern p cs n = returns tt

  integer_by-range :
      (cs : ConstraintMap F) (n : ℕ)
      → IsValidMap cs
      → Returns (λ r. IsInteger none none cs r.0) (integer_by numbers draws none none cs n)
  unfolding integer_by
  integer_by-range cs n v =
      draw_i64-within n _ _
        (bound_order cs Keywords.minimum Keywords.maximum (pos 0) (pos 100) v.values (omega arith))

  draw_text-IsText :
      (cs : ConstraintMap F) (n : ℕ)
      → IsValidMap cs
      → pos 0 ≤ℤ bound Keywords.min_length cs (pos 1)
      → Returns (λ r. IsText none none cs r.0) (draw_text numbers draws cs n)
  unfolding draw_text
  draw_text-IsText cs n v h =
      draw_i64-within n _ _ (
        bound_order cs Keywords.min_length Keywords.max_length (pos 1) (pos 20) v.lengths
          (omega arith))
      ⟫= λ size b. weaken (letters_of-count size.0 size.1 (omega (arith, h, b.0))) λ text c.
        subst (IsBetween cs Keywords.min_length Keywords.max_length (pos 1) (pos 20)) (sym c) b

  text_by-pattern :
      (p : Constraints F) (cs : ConstraintMap F) (n : ℕ)
      → IsOf Keywords.pattern_key p
      → Returns (λ _. Unit {0}) (text_by numbers draws none (as_pattern p) cs n)
  unfolding text_by as_pattern
  text_by-pattern (Constraints.regex pattern hir) cs n h = returns tt
  text_by-pattern _ cs n h = absurd h

  pub generate_string_data-IsText :
      (cs : ConstraintMap F) (n : ℕ)
      → IsValidMap cs
      → pos 0 ≤ℤ bound Keywords.min_length cs (pos 1)
      → Returns
          (λ r. IsText (find Keywords.constant cs) (find Keywords.pattern_key cs) cs r.0)
          (generate_string_data numbers draws cs n)
  unfolding generate_string_data text_by
  generate_string_data-IsText cs n v h =
      go (find Keywords.constant cs) (find Keywords.pattern_key cs)
        (find-IsOf Keywords.pattern_key cs v.are_of)
    where
      go :
          (constant pattern_of : Option (Constraints F))
          → Ensures (IsOf Keywords.pattern_key) pattern_of
          → Returns
              (λ r. IsText constant pattern_of cs r.0)
              (text_by numbers draws constant (pattern_of >>= as_pattern) cs n)
      go (some c) p k = returns refl
      go none (some p) k = text_by-pattern p cs n (value_of k)
      go none none k = draw_text-IsText cs n v h

  pub generate_integer_data-IsInteger :
      (cs : ConstraintMap F) (n : ℕ)
      → IsValidMap cs
      → Returns
          (λ r. IsInteger (find Keywords.constant cs) (find Keywords.pattern_key cs) cs r.0)
          (generate_integer_data numbers draws cs n)
  unfolding generate_integer_data
  generate_integer_data-IsInteger cs n v =
      go (find Keywords.constant cs) (find Keywords.pattern_key cs)
    where
      go :
          (constant pattern_of : Option (Constraints F))
          → Returns
              (λ r. IsInteger constant pattern_of cs r.0)
              (integer_by numbers draws constant pattern_of cs n)
      go (some c) p = integer_by-constant c p cs n
      go none (some p) = integer_by-pattern p cs n
      go none none = integer_by-range cs n v
