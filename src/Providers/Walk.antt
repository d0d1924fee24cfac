-- ===== src/Providers/Walk.antt =====
-- The walk round a range of rows, one row after another, that a split request file is to make.
use overload.Common.{
  ℕ, zero, suc, ◌+◌, ◌≤◌, ◌≡◌, List, [], ◌∷◌, ◌++◌, count_up, arith, if◌then◌else◌, ap, ap₂, ◌∙◌,
  ltb,
}

-- The row behind `row`, in the range from `first` to `last`.
abbrev pub next_row : (first last row : ℕ) → ℕ
next_row first last row = if ltb row last then row + 1 else first

-- `n` rows, one after another, from `row` on.
abbrev pub walk : (first last row n : ℕ) → List ℕ
walk first last row zero = []
walk first last row (suc n) = row ∷ walk first last (next_row first last row) n

-- The row behind these.
abbrev pub walk_end : (first last row n : ℕ) → ℕ
walk_end first last row zero = row
walk_end first last row (suc n) = walk_end first last (next_row first last row) n

-- Where the cursor stands behind a block that ends in front of `end`.
abbrev pub wrapped : (first last end : ℕ) → ℕ
wrapped first last end = if ltb last end then first else end

pub next_row-wrapped : (first last row : ℕ) → next_row first last row ≡ wrapped first last (row + 1)
next_row-wrapped first last row = ground arith

-- A block of `k + 1` rows inside the range is a stretch of the walk.
module _ (first last : ℕ) where
  pub walk-block :
      (row k n t : ℕ)
      → suc k + n ≡ t
      → row + suc k ≤ last + 1
      → walk first last row t
        ≡ count_up row (suc k) ++ walk first last (wrapped first last (row + suc k)) n
  walk-block row k n zero e h = absurd (omega arith)
  walk-block row zero n (suc t) e h =
      ap (◌∷◌ row) (ap₂ (walk first last) (next_row-wrapped first last row) (omega arith))
  walk-block row (suc k) n (suc t) e h =
      let step : next_row first last row ≡ row + 1 = ground arith in
      let stop : row + 1 + suc k ≡ row + suc (suc k) = omega arith in
      ap (◌∷◌ row) (
        ap (λ r. walk first last r t) step
        ∙ walk-block (row + 1) k n t (omega arith) (omega arith)
        ∙ ap (λ r. count_up (row + 1) (suc k) ++ walk first last (wrapped first last r) n) stop)

  pub walk_end-block :
      (row k n t : ℕ)
      → suc k + n ≡ t
      → row + suc k ≤ last + 1
      → walk_end first last row t ≡ walk_end first last (wrapped first last (row + suc k)) n
  walk_end-block row k n zero e h = absurd (omega arith)
  walk_end-block row zero n (suc t) e h =
      let same : t ≡ n = omega arith in
      ap₂ (walk_end first last) (next_row-wrapped first last row) same
  walk_end-block row (suc k) n (suc t) e h =
      let step : next_row first last row ≡ row + 1 = ground arith in
      let stop : row + 1 + suc k ≡ row + suc (suc k) = omega arith in
      ap (λ r. walk_end first last r t) step
      ∙ walk_end-block (row + 1) k n t (omega arith) (omega arith)
      ∙ ap (λ r. walk_end first last (wrapped first last r) n) stop

pub walk_end-inside :
    (first last row n : ℕ)
    → first ≤ row
    → row ≤ last
    → (first ≤ walk_end first last row n) × (walk_end first last row n ≤ last)
walk_end-inside first last row zero h k = (h, k)
walk_end-inside first last row (suc n) h k =
    walk_end-inside first last (next_row first last row) n (ground arith) (ground arith)
