-- ===== src/Status/Plain.antt =====
-- Query strings of plain texts, which need no escapes.
use Prim.Native.Char.{Char, code}
use Prim.Native.String
use Prim.Native.String.{String, [], ◌∷◌}
use text.Mathlib.TextLemmas.{append_assoc}
use overload.Common.{
  ℕ, ◌≤◌, ◌≡◌, refl, ap, ◌∙◌, ◌⊎◌, inl, List, [], ◌∷◌, arith, ltb, false, if◌then◌else◌,
}
use overload.Common.Decimal.{show, usize_max, parse-show, IsDigits, show-IsDigits}
use overload.Common.Dict.{Dict, lookup, remove, insert, collect}
use overload.Status.{
  JobStatusQueryParams, job_id, pager_options, ok, err, limit_below_one, display, or_text, finish,
  check_limit, check_offset, check_job_id, try_from,
}

-- A letter, a digit, or one of `-`, `.` and `_`.
abbrev pub IsPlainChar : Char → Type 0
IsPlainChar c =
    ((48 ≤ code c) × (code c ≤ 57))
    ⊎ ((65 ≤ code c) × (code c ≤ 90))
    ⊎ ((97 ≤ code c) × (code c ≤ 122))
    ⊎ ((45 ≤ code c) × (code c ≤ 46))
    ⊎ (code c ≡ 95)

abbrev pub IsPlain : String → Type 0
IsPlain [] = Unit
IsPlain (c ∷ s) = IsPlainChar c × IsPlain s

abbrev pub ArePlain : List (String × String) → Type 0
ArePlain [] = Unit
ArePlain ((k, v) ∷ rest) = IsPlain k × IsPlain v × ArePlain rest

-- `k=v&k=v`
unfoldable pub encode : List (String × String) → String
encode [] = ""
encode ((k, v) ∷ []) = String.◌++◌ k (String.◌++◌ "=" v)
encode ((k, v) ∷ pair ∷ rest) =
    String.◌++◌ k (String.◌++◌ "=" (String.◌++◌ v (String.◌++◌ "&" (encode (pair ∷ rest)))))

-- serde_urlencoded, by which warp reads a query.
pub record QueryReader : Type 0 where
  pub decode : String → Dict String
  pub decode-encode :
      (pairs : List (String × String)) → ArePlain pairs → decode (encode pairs) ≡ collect pairs []

-- The pairs that `display` prints.
unfoldable pub fields : JobStatusQueryParams → List (String × String)
fields (job_id id) = ("job_id", id) ∷ []
fields (pager_options offset limit) = ("offset", show offset) ∷ ("limit", show limit) ∷ []

-- Parameters that can come out of a query: a `usize` each, and at least one job on a page.
abbrev pub IsPage : JobStatusQueryParams → Type 0
IsPage (job_id id) = Unit
IsPage (pager_options offset limit) = (offset ≤ usize_max) × (1 ≤ limit) × (limit ≤ usize_max)

abbrev pub HasPlainName : JobStatusQueryParams → Type 0
HasPlainName (job_id id) = IsPlain id
HasPlainName (pager_options offset limit) = Unit

limit_first :
    (t : String)
    → String.◌++◌ "&limit=" t ≡ String.◌++◌ "&" (String.◌++◌ "limit" (String.◌++◌ "=" t))
limit_first t =
    append_assoc "&" "limit=" t ∙ ap (λ u. String.◌++◌ "&" u) (append_assoc "limit" "=" t)

pub display-encode : (p : JobStatusQueryParams) → display p ≡ encode (fields p)
unfolding display encode fields
display-encode (job_id id) = append_assoc "job_id" "=" id
display-encode (pager_options offset limit) =
    ap (λ t. String.◌++◌ "offset=" (String.◌++◌ (show offset) t)) (limit_first (show limit))
    ∙ append_assoc "offset" "=" (
        String.◌++◌ (show offset)
          (String.◌++◌ "&" (String.◌++◌ "limit" (String.◌++◌ "=" (show limit)))))

IsDigits-IsPlain : (s : String) → IsDigits s → IsPlain s
IsDigits-IsPlain [] h = tt
IsDigits-IsPlain (c ∷ s) (h, hs) = (inl h, IsDigits-IsPlain s hs)

IsPlain-names : IsPlain "job_id" × IsPlain "offset" × IsPlain "limit"
IsPlain-names = (omega arith, omega arith, omega arith)

pub fields-ArePlain : (p : JobStatusQueryParams) → HasPlainName p → ArePlain (fields p)
unfolding fields
fields-ArePlain (job_id id) h = (IsPlain-names.0, h, tt)
fields-ArePlain (pager_options offset limit) h = (
  IsPlain-names.1,
  IsDigits-IsPlain _ (show-IsDigits offset),
  (IsPlain-names.2, IsDigits-IsPlain _ (show-IsDigits limit), tt),
)

not_below : {limit : ℕ} → 1 ≤ limit → ltb limit 1 ≡ false
not_below h = ground arith

pub try_from-fields :
    (p : JobStatusQueryParams) → IsPage p → try_from (collect (fields p) []) ≡ ok p
unfolding fields try_from collect insert lookup remove check_job_id check_offset check_limit finish
    or_text
try_from-fields (job_id id) h = refl
try_from-fields (pager_options offset limit) h =
    rw (parse-show offset h.0, check_offset)
      (rw (parse-show limit h.2, check_limit)
        (ap (λ b. if b then err limit_below_one else ok (pager_options offset limit))
          (not_below h.1)))
