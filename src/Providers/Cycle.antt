-- ===== src/Providers/Cycle.antt =====
-- A split request file goes round its range of rows, one after another.
use mathlib.Core.List.{append_assoc, append-nil, map-append}
use overload.Common.{
  ℕ, zero, suc, ◌+◌, ◌-◌, ◌%◌, ◌≤◌, ◌<◌, ◌≡◌, refl, sym, min, List, [], ◌++◌, length, length-map,
  length-append, map, none, some, count_up, length-count_up, arith, ◌==◌, ap, ap₂, ◌∙◌, false, true,
  ltb, leb, ◌≢◌,
}
use overload.Foreign.{Foreign}
use overload.Http.{HttpReq, SplitRequestFile}
use overload.Providers.Walk.{walk, walk_end, wrapped, walk-block, walk_end-block, walk_end-inside}
use overload.Providers.{
  Outcome, ok, Sqlite, usize_mod, read_rows, query_end, split_get_n, read_opened, open_file,
  init_range,
}

-- The table behind a connection: its rows are numbered from 1 to `size` without a gap, as those
-- of a table are into which rows were only inserted.
pub record IsTable {F : Foreign} (db : Sqlite F) (connection : F.SqliteConnection) (size : ℕ)
    : Type 0 where
  pub row : ℕ → HttpReq
  pub selects :
      (start end : ℕ)
      → 1 ≤ start
      → end ≤ size + 1
      → db.select_range connection start end ≡ some (map row (count_up start (end - start)))

-- The range of an opened file lies in its table, and the cursor in the range.
pub record IsInRange {F : Foreign} (size : ℕ) (self : SplitRequestFile F) : Type 0 where
  pub from_one : 1 ≤ self.range_start_inclusive
  pub begun : self.range_start_inclusive ≤ self.next_read_cursor
  pub inside : self.next_read_cursor ≤ self.range_end_inclusive
  pub within : self.range_end_inclusive ≤ size

module _ {F : Foreign} (db : Sqlite F) (connection : F.SqliteConnection) where
  read_rows_done :
      (fuel n need : ℕ) (so_far : List HttpReq) (self : SplitRequestFile F)
      → n ≤ length so_far
      → read_rows db (suc fuel) connection n need so_far self ≡ (ok so_far, self)
  unfolding read_rows
  read_rows_done fuel n need so_far self h =
      let full : leb n (length so_far) ≡ true = ground arith in rw full refl

  -- The end of the block that the next query asks for, and the file behind it.
  abbrev block_end : ℕ → SplitRequestFile F → ℕ
  block_end need self = min (self.range_end_inclusive + 1) (self.next_read_cursor + need)

  abbrev moved : ℕ → SplitRequestFile F → SplitRequestFile F
  moved end self = record self {
    next_read_cursor = wrapped self.range_start_inclusive self.range_end_inclusive end;
  }

  query_end-block :
      (self : SplitRequestFile F) (need : ℕ)
      → self.range_end_inclusive + 1 < usize_mod
      → self.next_read_cursor + need < usize_mod
      → query_end db self need ≡ block_end need self
  unfolding query_end
  query_end-block self need below under = ap₂ min (omega arith) (omega arith)

  read_rows_next :
      (fuel n need : ℕ) (so_far rows : List HttpReq) (self : SplitRequestFile F)
      → length so_far < n
      → self.range_end_inclusive + 1 < usize_mod
      → self.next_read_cursor + need < usize_mod
      → db.select_range connection self.next_read_cursor (block_end need self) ≡ some rows
      → read_rows db (suc fuel) connection n need so_far self
        ≡ read_rows db fuel connection n
            ((need + usize_mod - length rows) % usize_mod)
            (so_far ++ rows)
            (moved (block_end need self) self)
  unfolding read_rows
  read_rows_next fuel n need so_far rows self h below under got =
      let open_still : leb n (length so_far) ≡ false = ground arith in
      let asked = query_end-block self need below under in
      let got' : db.select_range connection self.next_read_cursor (query_end db self need)
          ≡ some rows =
        ap (db.select_range connection self.next_read_cursor) asked ∙ got in
      step open_still got'
      ∙ ap
          (λ e.
            read_rows db fuel connection n ((need + usize_mod - length rows) % usize_mod)
              (so_far ++ rows) (moved e self))
          asked
    where
      step :
          leb n (length so_far) ≡ false
          → db.select_range connection self.next_read_cursor (query_end db self need) ≡ some rows
          → read_rows db (suc fuel) connection n need so_far self
            ≡ read_rows db fuel connection n
                ((need + usize_mod - length rows) % usize_mod)
                (so_far ++ rows)
                (moved (query_end db self need) self)
      step o g = rw o (rw g refl)

module _ {F : Foreign} (db : Sqlite F) (connection : F.SqliteConnection) (size : ℕ)
    (table : IsTable db connection size) where
  open table use {row}

  -- What the loop yields: the rows so far and then a stretch of the walk.
  abbrev Reads : (fuel n need : ℕ) → List HttpReq → SplitRequestFile F → Type 0
  Reads fuel n need so_far self = read_rows db fuel connection n need so_far self ≡ (
    ok (
        so_far
        ++ map row
            (walk self.range_start_inclusive self.range_end_inclusive self.next_read_cursor need)),
    record self {
      next_read_cursor =
          walk_end self.range_start_inclusive self.range_end_inclusive self.next_read_cursor need;
    },
  )

  block :
      (n need k rest : ℕ) (self : SplitRequestFile F)
      → IsInRange size self
      → suc k + rest ≡ need
      → block_end db connection need self ≡ self.next_read_cursor + suc k
      → db.select_range connection self.next_read_cursor (block_end db connection need self)
        ≡ some (map row (count_up self.next_read_cursor (suc k)))
  block n need k rest self r e b =
      let many : block_end db connection need self - self.next_read_cursor ≡ suc k =
        omega (arith, b) in
      table.selects self.next_read_cursor (block_end db connection need self)
        (omega (arith, r.from_one, r.begun)) (omega (arith, r.within))
      ∙ ap (λ c. some (map row (count_up self.next_read_cursor c))) many

  moved-IsInRange :
      (need : ℕ) (self : SplitRequestFile F)
      → IsInRange size self
      → IsInRange size (moved db connection (block_end db connection need self) self)
  moved-IsInRange need self r = record {
    from_one = r.from_one;
    begun = ground (arith, r.begun, r.inside);
    inside = ground (arith, r.begun, r.inside);
    within = r.within;
  }

  -- The rows of a block and the rest of the walk behind it are the walk.
  joined_block :
      (so_far : List HttpReq) (self : SplitRequestFile F) (k rest need : ℕ)
      → suc k + rest ≡ need
      → self.next_read_cursor + suc k ≤ self.range_end_inclusive + 1
      → block_end db connection need self ≡ self.next_read_cursor + suc k
      → let first = self.range_start_inclusive in
        let last = self.range_end_inclusive in
        let cursor = self.next_read_cursor in
        let next = moved db connection (block_end db connection need self) self in
        ◌≡◌ {A = Outcome (List HttpReq) × SplitRequestFile F}
          (
            ok (
                (so_far ++ map row (count_up cursor (suc k)))
                ++ map row (walk first last next.next_read_cursor rest)),
            record next { next_read_cursor = walk_end first last next.next_read_cursor rest },
          )
          (
            ok (so_far ++ map row (walk first last cursor need)),
            record self { next_read_cursor = walk_end first last cursor need },
          )
  joined_block so_far self k rest need e fits stop =
      let first = self.range_start_inclusive in
      let last = self.range_end_inclusive in
      let cursor = self.next_read_cursor in
      let turn = ap (wrapped first last) stop in
      let rows =
        append_assoc so_far (map row (count_up cursor (suc k)))
          (map row (walk first last (wrapped first last (block_end db connection need self)) rest))
        ∙ ap (◌++◌ so_far) (
            sym (map-append row (count_up cursor (suc k)) _)
            ∙ ap (map row) (
                ap (λ c. count_up cursor (suc k) ++ walk first last c rest) turn
                ∙ sym (walk-block first last cursor k rest need e fits))) in
      let behind =
        ap (λ c. walk_end first last c rest) turn
        ∙ sym (walk_end-block first last cursor k rest need e fits) in
      ap₂ (λ l c. (ok l, record self { next_read_cursor = c })) rows behind

  read_rows-Reads :
      (fuel n need : ℕ) (so_far : List HttpReq) (self : SplitRequestFile F)
      → IsInRange size self
      → length so_far + need ≡ n
      → need < fuel
      → size + n + 1 < usize_mod
      → Reads fuel n need so_far self
  read_rows-Reads zero n need so_far self r e f m = absurd (omega arith)
  read_rows-Reads (suc fuel) n zero so_far self r e f m =
      read_rows_done db connection fuel n 0 so_far self (omega arith)
      ∙ ap (λ l. (ok l, self)) (sym (append-nil so_far))
  read_rows-Reads (suc fuel) n (suc need) so_far self r e f m =
      let cursor = self.next_read_cursor in
      let last = self.range_end_inclusive in
      let k = min (last - cursor) need in
      let rest = need - k in
      let sum : suc k + rest ≡ suc need = omega arith in
      let fits : cursor + suc k ≤ last + 1 = omega (arith, r.inside) in
      let stop : block_end db connection (suc need) self ≡ cursor + suc k =
        omega (arith, r.inside) in
      let rows = map row (count_up cursor (suc k)) in
      let many : length rows ≡ suc k =
        length-map row (count_up cursor (suc k)) ∙ length-count_up cursor (suc k) in
      let left : (suc need + usize_mod - length rows) % usize_mod ≡ rest = omega (arith, many) in
      let joined = length-append {0} so_far rows in
      let next = moved db connection (block_end db connection (suc need) self) self in
      let ih =
        read_rows-Reads fuel n rest (so_far ++ rows) next (moved-IsInRange (suc need) self r)
          (omega (arith, joined, many)) (omega arith) m in
      read_rows_next db connection fuel n (suc need) so_far rows self (omega arith)
        (omega (arith, r.within)) (omega (arith, r.inside, r.within))
        (block n (suc need) k rest self r sum stop)
      ∙ ap (λ d. read_rows db fuel connection n d (so_far ++ rows) next) left
      ∙ ih
      ∙ joined_block so_far self k rest (suc need) sum fits stop

  -- Asked for a positive number of rows, a split request file whose range lies in its table answers
  -- with exactly that many rows: those that follow the cursor one after another, from the last row
  -- of the range back to the first. The loop ends within `n + 1` rounds, and the cursor is left
  -- inside the range, at the row that comes next.
  pub split_get_n-walk :
      (fuel n : ℕ) (self opened : SplitRequestFile F)
      → open_file db self ≡ (some connection, opened)
      → IsInRange size opened
      → 0 < n
      → n < fuel
      → size + n + 1 < usize_mod
      → let first = opened.range_start_inclusive in
        let last = opened.range_end_inclusive in
        let cursor = opened.next_read_cursor in
        let after = record opened { next_read_cursor = walk_end first last cursor n } in
        (split_get_n db fuel self n ≡ (ok (map row (walk first last cursor n)), after))
        × IsInRange size after
  unfolding split_get_n read_opened
  split_get_n-walk fuel n self opened e r pos f m =
      let asked : (n == 0) ≡ false = ground arith in
      let (low, high) = walk_end-inside _ _ opened.next_read_cursor n r.begun r.inside in
      (
        rw asked
            (ap (read_opened db fuel n) e ∙ read_rows-Reads fuel n n [] opened r (omega arith) f m),
        record { from_one = r.from_one; begun = low; inside = high; within = r.within },
      )

-- A file that is opened for the first time keeps its name, gets the size of its table, and has its
-- range in the table and its cursor in the range,
-- if the table has a row, and the given bounds, where they are not 0, are in order and not behind
-- the last row.
pub open_file-IsInRange :
    {F : Foreign} (db : Sqlite F) (self : SplitRequestFile F) (connection : F.SqliteConnection)
    (size : ℕ)
    → self.inner ≡ none
    → db.connect self.file_name ≡ some connection
    → db.count connection ≡ some size
    → 1 ≤ size
    → self.range_start_inclusive ≤ size
    → (self.range_end_inclusive ≢ 0 → self.range_start_inclusive ≤ self.range_end_inclusive)
    → self.range_end_inclusive ≤ size
    → (opened : SplitRequestFile F) × (open_file db self ≡ (some connection, opened))
      × (opened.size ≡ size)
      × (opened.file_name ≡ self.file_name)
      × IsInRange size opened
unfolding open_file init_range
open_file-IsInRange db self connection size closed connected counted one start order end =
    let rows : ltb size 1 ≡ false = ground arith in
    (
      init_range db (record self { size = size; inner = some connection }),
      rw (closed, open_file) (rw connected (rw counted (rw rows refl))),
      refl,
      refl,
      record {
        from_one = ground arith;
        begun = omega arith;
        inside = ground arith;
        within = ground arith;
      },
    )
