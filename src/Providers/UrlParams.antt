-- ===== src/Providers/UrlParams.antt =====
-- overload-http/src/request_specs.rs: the parameters in the URL of a request with random data.
-- Positions count bytes. `none` is a panic.
use Prim.Native.String.{String, ◌++◌, len}
use text.Mathlib.Text.{get?}
use overload.Common.{
  ℕ, zero, suc, ◌+◌, ◌-◌, ◌/◌, true, false, Option, none, some, List, [], ◌∷◌, length, get_elem?,
  leb, if◌then◌else◌, ◌>>=◌,
}
use overload.Common as Common
use overload.Common.Decimal.{show}
use overload.Common.Int.{ℤ, pos, negsuc}
use overload.Http.{UrlParam}
use overload.Json.{Value}
use overload.Json.Access.{get}

-- `Display` of `i64`.
unfoldable pub show_i64 : ℤ → String
show_i64 (pos n) = show n
show_i64 (negsuc n) = "-" ++ show (suc n)

-- std's `BinaryHeap::push`: the element goes to the end, and up over smaller parents.
unfoldable pub put_at : ℕ → UrlParam → List UrlParam → List UrlParam
put_at n x [] = []
put_at zero x (y ∷ heap) = x ∷ heap
put_at (suc n) x (y ∷ heap) = y ∷ put_at n x heap

unfoldable pub sift_up : (fuel at : ℕ) → UrlParam → List UrlParam → List UrlParam
sift_up zero at x heap = put_at at x heap
sift_up (suc fuel) zero x heap = put_at 0 x heap
sift_up (suc fuel) (suc at) x heap = elim (get_elem? heap (at / 2)) [
  | none ↦ put_at (suc at) x heap
  | some parent ↦ elim (leb x.start parent.start) [
    | true ↦ put_at (suc at) x heap
    | false ↦ sift_up fuel (at / 2) x (put_at (suc at) parent heap)
  ]
]

unfoldable pub heap_push : UrlParam → List UrlParam → List UrlParam
heap_push x heap = sift_up (length heap) (length heap) x (Common.◌++◌ heap (x ∷ []))

-- `String::replace_range`.
unfoldable pub replace_range : String → (start end : ℕ) → String → Option String
replace_range url start end val = do
  front ← get? url 0 start
  middle ← get? url start end
  back ← get? url end (len url)
  some (front ++ (val ++ back))

-- The loop of `find_param_positions` over the matches of the regular expression.
unfoldable pub push_matches : String → List (ℕ × ℕ) → List UrlParam → Option (List UrlParam)
push_matches url [] heap = some heap
push_matches url ((start, end) ∷ matches) heap = do
  name ← get? url (start + 1) (end - 1)
  push_matches url matches (heap_push (record { name = name; start = start; end = end }) heap)

unfoldable pub find_param_positions :
    (find_iter : String → List (ℕ × ℕ)) → String → Option (List UrlParam)
find_param_positions find_iter url = push_matches url (find_iter url) []

module _ {N : Type 0} (number_i64 : N → Option ℤ) where
  unfoldable pub text_of : Value N → String
  text_of (Value.string s) = s
  text_of (Value.number n) = elim (number_i64 n) [ none ↦ "unknown" | some t ↦ show_i64 t ]
  text_of _ = "unknown"

  -- A round of the loop: a parameter without a value stays.
  unfoldable pub substitute_one : String → UrlParam → Option (Value N) → Option String
  substitute_one url url_param none = some url
  substitute_one url url_param (some p_val) =
      replace_range url url_param.start url_param.end (text_of p_val)

  -- The loop over the heap, in the order in which it stands in memory.
  unfoldable pub substitute_param_with_data : String → List UrlParam → Value N → Option String
  substitute_param_with_data url [] data' = some url
  substitute_param_with_data url (url_param ∷ positions) data' = do
    url' ← substitute_one url url_param (get data' url_param.name)
    substitute_param_with_data url' positions data'
