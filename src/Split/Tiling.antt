-- ===== src/Split/Tiling.antt =====
-- The ranges of `split_ranges` tile the rows 1 to `size`.
use overload.Common.{
  ℕ, zero, suc, ◌+◌, ◌-◌, ◌*◌, ◌/◌, ◌%◌, ◌≤◌, ◌<◌, ◌≡◌, refl, ◌⊎◌, List, [], ◌∷◌, ◌++◌, some,
  length, length-append, replicate, subst, sym, All, All-append, arith, div_mod_shares, div-eq_zero,
  div_pos, ap, min, inl, inr, ◌==◌, false,
}
use native.Mathlib.Nat.{mod-eq_of_lt}
use overload.Split.{push_ranges, split_ranges}

-- The ranges follow one another without a gap or an overlap, from the row `next` to the row `last`.
abbrev pub Tiles : ℕ → List (ℕ × ℕ) → ℕ → Type 0
Tiles next [] last = next ≡ last + 1
Tiles next ((start, end) ∷ ranges) last =
    (start ≡ next) × (start ≤ end) × Tiles (end + 1) ranges last

-- The range has `block` rows or one more.
abbrev pub Width : ℕ → ℕ × ℕ → Type 0
Width block (start, end) = (end + 1 ≡ start + block) ⊎ (end ≡ start + block)

Tiles-append :
    (next middle last : ℕ) (xs ys : List (ℕ × ℕ))
    → Tiles next xs middle
    → Tiles (middle + 1) ys last
    → Tiles next (xs ++ ys) last
Tiles-append next middle last [] ys h k = subst (λ t. Tiles t ys last) (sym h) k
Tiles-append next middle last ((s, e) ∷ xs) ys h k =
    (h.0, h.1, Tiles-append (e + 1) middle last xs ys h.2 k)

-- What one loop yields while the rows last.
record Pushed (size block count last stop : ℕ) : Type 0 where
  tiles : Tiles (last + 1) (push_ranges size block count last).0 stop
  final : (push_ranges size block count last).1 ≡ stop
  width : All (λ r. r.1 + 1 ≡ r.0 + block) (push_ranges size block count last).0
  many : length (push_ranges size block count last).0 ≡ count

push_ranges-Pushed :
    (size block count last stop : ℕ)
    → 0 < block
    → last + count * block ≡ stop
    → stop ≤ size
    → Pushed size block count last stop
unfolding push_ranges
push_ranges-Pushed size block zero last stop pos e fits = record {
  tiles = omega arith;
  final = omega arith;
  width = tt;
  many = refl;
}
push_ranges-Pushed size block (suc count) last stop pos e fits =
    let ih = push_ranges-Pushed size block count (last + block) stop pos (omega arith) fits in
    let end : min size (last + block) ≡ last + block = grind arith in
    let start : min (last + 1) size ≡ last + 1 = grind arith in
    record {
      tiles = rw (end, start) (refl, omega arith, ih.tiles);
      final = rw end ih.final;
      width = rw (end, start) (omega arith, ih.width);
      many = rw end (ap suc ih.many);
    }

-- The loop when all rows are given away.
push_ranges_exhausted :
    (size count : ℕ) → push_ranges size 0 count size ≡ (replicate count (size, size), size)
unfolding push_ranges
push_ranges_exhausted size zero = refl
push_ranges_exhausted size (suc count) =
    let end : min size (size + 0) ≡ size = grind arith in
    let start : min (size + 1) size ≡ size = grind arith in
    rw (end, start, push_ranges_exhausted size count)

-- The ranges tile the rows, there is one for each part, and their sizes differ by at most one row.
pub record IsFairSplit (size split_size : ℕ) (ranges : List (ℕ × ℕ)) : Type 0 where
  pub tiles : Tiles 1 ranges size
  pub many : length ranges ≡ split_size
  pub width : All (Width (size / split_size)) ranges

longer-Width :
    (block : ℕ) (xs : List (ℕ × ℕ))
    → All (λ r. r.1 + 1 ≡ r.0 + (block + 1)) xs
    → All (Width block) xs
longer-Width block [] h = tt
longer-Width block (x ∷ xs) h = (inr (omega arith), longer-Width block xs h.1)

shorter-Width :
    (block : ℕ) (xs : List (ℕ × ℕ)) → All (λ r. r.1 + 1 ≡ r.0 + block) xs → All (Width block) xs
shorter-Width block [] h = tt
shorter-Width block (x ∷ xs) h = (inl h.0, shorter-Width block xs h.1)

-- With at least one part and no more parts than rows, `split_ranges` answers, and its ranges are a
-- fair split: every row from 1 to `size` lies in exactly one range, in order, there are
-- `split_size` ranges, and each has `size / split_size` rows or one more.
pub split_ranges-IsFairSplit :
    (size split_size : ℕ)
    → 0 < split_size
    → split_size ≤ size
    → (ranges : List (ℕ × ℕ)) × (split_ranges size split_size ≡ some ranges)
      × IsFairSplit size split_size ranges
unfolding split_ranges
split_ranges-IsFairSplit size n pos le =
    let a = push_ranges-Pushed size (block + 1) extra 0 middle (omega arith) (omega arith) fits in
    let b = push_ranges-Pushed size block (n - extra) middle size some_rows whole (omega arith) in
    (
      _,
      rw (nonzero, a.final) refl,
      record {
        tiles = Tiles-append 1 middle size longer shorter a.tiles b.tiles;
        many = omega (arith, length-append {0} longer shorter, a.many, b.many);
        width =
            All-append (Width block) _ _ (longer-Width block _ a.width)
              (shorter-Width block _ b.width);
      },
    )
  where
    block : ℕ
    block = size / n

    extra : ℕ
    extra = size % n

    middle : ℕ
    middle = extra * (block + 1)

    longer : List (ℕ × ℕ)
    longer = (push_ranges size (block + 1) extra 0).0

    shorter : List (ℕ × ℕ)
    shorter = (push_ranges size block (n - extra) middle).0

    whole : middle + (n - extra) * block ≡ size
    whole = div_mod_shares size n pos

    fits : middle ≤ size
    fits = omega (arith, whole)

    some_rows : 0 < block
    some_rows = div_pos size n pos le

    nonzero : (n == 0) ≡ false
    nonzero = ground arith

-- With more parts than rows, the first `size` ranges are the single rows in order, and every other
-- range is the last row once more: the parts then overlap.
split_ranges_few_rows :
    (size split_size : ℕ)
    → size < split_size
    → (singles : List (ℕ × ℕ)) × (split_ranges size split_size
        ≡ some (singles ++ replicate (split_size - size) (size, size)))
      × Tiles 1 singles size
      × (length singles ≡ size)
unfolding split_ranges
split_ranges_few_rows size n lt =
    let a = push_ranges-Pushed size 1 size 0 size (omega arith) (omega arith) (omega arith) in
    let block : size / n ≡ 0 = div-eq_zero size n lt in
    let extra : size % n ≡ size = mod-eq_of_lt lt in
    let nonzero : (n == 0) ≡ false = ground arith in
    (_, rw (nonzero, block, extra, a.final, push_ranges_exhausted) refl, a.tiles, a.many)
