-- ===== src/Split.antt =====
-- cluster-executor/src/split_request.rs: `split_ranges`, which shares the rows of a request file
-- among the secondaries. A `usize` is a plain number: every value stays below `2 * size + 2`.
pub mod Tiling
pub mod Sending
pub mod Tests
use overload.Common.{
  ℕ, zero, suc, ◌+◌, ◌-◌, ◌/◌, ◌%◌, min, List, [], ◌∷◌, ◌++◌, Option, none, some, ◌==◌,
  if◌then◌else◌,
}

-- One `for` loop: `count` ranges of `block` rows behind `last_end`, and the end of the last one.
pub push_ranges : (size block count last_end : ℕ) → List (ℕ × ℕ) × ℕ
push_ranges size block zero last_end = ([], last_end)
push_ranges size block (suc count) last_end =
    let new_end = min size (last_end + block) in
    let (rest, final) = push_ranges size block count new_end in
    ((min (last_end + 1) size, new_end) ∷ rest, final)

-- `none` is the panic of a division by zero.
unfoldable pub split_ranges : (size split_size : ℕ) → Option (List (ℕ × ℕ))
split_ranges size split_size =
    if split_size == 0
    then none
    else let block_size = size / split_size in
      let remainder = size % split_size in
      let (longer, last_end) = push_ranges size (block_size + 1) remainder 0 in
      let (shorter, _) = push_ranges size block_size (split_size - remainder) last_end in
      some (longer ++ shorter)
