-- ===== src/Providers.antt =====
-- cluster-executor/src/request_providers.rs: where the requests of a test come from.
pub mod Walk
pub mod Cycle
pub mod Tests
pub mod Random
pub mod UrlParams
pub mod Template
pub mod Substitution
pub mod RandomData
pub mod Rendered
use Prim.Native.String.{String}
use overload.Common.{
  ℕ, zero, suc, ◌+◌, ◌-◌, ◌%◌, min, Bool, true, false, List, [], ◌∷◌, ◌++◌, length, get_elem?,
  Option, none, some, ltb, leb, ◌==◌, if◌then◌else◌, ◌>>=◌,
}
use overload.Foreign.{Foreign}
use overload.Http.{HttpReq, RequestList, SplitRequestFile}

-- How a call of `get_n` ends: with requests, with an error, with a panic, or never (the fuel of the
-- model is used up).
pub data Outcome (A : Type 0) : Type 0 where
  ok : A → Outcome A
  failed panicked endless : Outcome A

-- What sqlx answers, `none` being its error: opening a file read-only, counting the rows of
-- `http_req`, and the rows with `ROWID >= start and ROWID < end`.
pub record Sqlite (F : Foreign) : Type 0 where
  pub connect : String → Option F.SqliteConnection
  pub count : F.SqliteConnection → Option ℕ
  pub select_range : F.SqliteConnection → ℕ → ℕ → Option (List HttpReq)

abbrev pub usize_mod : ℕ
usize_mod = 18446744073709551616

-- `fastrand::usize(0..len)` is the next of a stream of draws.
pub pick_all : List HttpReq → (ℕ → ℕ) → ℕ → ℕ → Option (List HttpReq)
pick_all reqs draw i zero = some []
pick_all reqs draw i (suc n) = do
  req ← get_elem? reqs (draw i)
  rest ← pick_all reqs draw (suc i) n
  some (req ∷ rest)

-- `get_n` of `RequestList`.
pub list_get_n : RequestList → (ℕ → ℕ) → ℕ → Outcome (List HttpReq)
unfolding pick_all
list_get_n self draw n =
    if n == 0
    then panicked
    else (if length self.reqs == 0
        then failed
        else elim (pick_all self.reqs draw 0 n) [ none ↦ panicked | some reqs ↦ ok reqs ])

module _ {F : Foreign} (db : Sqlite F) where
  -- The ranges that a freshly opened file starts with: 0 stands for a bound that was not given.
  unfoldable pub init_range : SplitRequestFile F → SplitRequestFile F
  init_range self =
      let start = if self.range_start_inclusive == 0 then 1 else self.range_start_inclusive in
      record self {
        range_start_inclusive = start;
        next_read_cursor = start;
        range_end_inclusive =
            if self.range_end_inclusive == 0 then self.size else self.range_end_inclusive;
      }

  -- The block `if self.inner.is_none()`: the connection, `none` if the call returns an error.
  unfoldable pub open_file : SplitRequestFile F → Option F.SqliteConnection × SplitRequestFile F
  unfolding init_range
  open_file self = elim self.inner [
    | some connection ↦ (some connection, self)
    | none ↦ elim (db.connect self.file_name) [
      | none ↦ (none, self)
      | some connection ↦ elim (db.count connection) [
        | none ↦ (none, self)
        | some size ↦
            let sized = record self { size = size } in
            if ltb size 1
            then (none, sized)
            else (some connection, init_range (record sized { inner = some connection }))
      ]
    ]
  ]

  -- The row behind the last one that a query asks for.
  unfoldable pub query_end : SplitRequestFile F → ℕ → ℕ
  query_end self data_need =
      min ((self.range_end_inclusive + 1) % usize_mod)
        ((self.next_read_cursor + data_need) % usize_mod)

  -- The loop, with the rows read so far. Sums and differences of `usize` wrap.
  unfoldable pub read_rows :
      (fuel : ℕ)
      → F.SqliteConnection
      → (n data_need : ℕ) → List HttpReq
      → SplitRequestFile F
      → Outcome (List HttpReq) × SplitRequestFile F
  read_rows zero connection n data_need request_data self = (endless, self)
  read_rows (suc fuel) connection n data_need request_data self =
      let start = self.next_read_cursor in
      let end = query_end self data_need in
      let cursor = if ltb self.range_end_inclusive end then self.range_start_inclusive else end in
      let rest = λ (rows : List HttpReq).
        read_rows fuel connection n ((data_need + usize_mod - length rows) % usize_mod)
          (request_data ++ rows) (record self { next_read_cursor = cursor }) in
      if leb n (length request_data)
      then (ok request_data, self)
      else elim (db.select_range connection start end) [
        | none ↦ (failed, self)
        | some rows ↦ rest rows
      ]

  -- What `get_n` does with the opened file.
  unfoldable pub read_opened :
      (fuel n : ℕ)
      → Option F.SqliteConnection × SplitRequestFile F
      → Outcome (List HttpReq) × SplitRequestFile F
  unfolding read_rows
  read_opened fuel n (none, self) = (failed, self)
  read_opened fuel n (some connection, self) = read_rows fuel connection n n [] self

  -- `get_n` of `SplitRequestFile`.
  unfoldable pub split_get_n :
      (fuel : ℕ) → SplitRequestFile F → ℕ → Outcome (List HttpReq) × SplitRequestFile F
  split_get_n fuel self n = if n == 0 then (panicked, self) else read_opened fuel n (open_file self)
