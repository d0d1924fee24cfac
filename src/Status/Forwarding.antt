-- ===== src/Status/Forwarding.antt =====
-- A status request that a secondary forwards to the primary.
use Prim.Native.String.{String}
use overload.Common.{
  ℕ, ◌≤◌, ◌≡◌, refl, ap, sym, List, subst, ◌∙◌, ◌⊎◌, inl, inr, true, false, [], ◌∷◌, Option, none,
  some, arith, ltb, Bool-cases, if◌then◌else◌,
}
use overload.Common.Decimal.{parse, usize_max, parse-le}
use overload.Common.Dict.{Dict, lookup, remove}
use overload.Jobs.{JobStatus}
use overload.Status.{
  JobStatusQueryParams, job_id, pager_options, Answer, ok, err, display, finish, answer_of,
  status_request, send_get_status, handle_get_status, limit_below_one, check_limit, check_offset,
  check_job_id, try_from, Node, forward_get_status_request, handle_history_all, respond, history,
}
use overload.Server.Relay.{
  GenericResult, Wire, HttpRequest, Primaries, primary_uri, and_then, or_500, new, build,
  forward_other_requests_to_primary,
}
use overload.Status.Plain.{
  IsPlain, IsPage, HasPlainName, QueryReader, fields, display-encode, fields-ArePlain,
  try_from-fields,
}

-- Parameters of a page, or with a name of plain characters, are read back from the query string
-- that `display` prints for them, if the page has at least one job and its numbers fit a `usize`.
pub try_from-display :
    (reader : QueryReader) (p : JobStatusQueryParams)
    → IsPage p
    → HasPlainName p
    → try_from (reader.decode (display p)) ≡ ok p
try_from-display reader p h k =
    ap (λ query. try_from (reader.decode query)) (display-encode p)
    ∙ ap try_from (reader.decode-encode (fields p) (fields-ArePlain p k))
    ∙ try_from-fields p h

ok_injective : {p q : JobStatusQueryParams} → ok p ≡ ok q → p ≡ q
ok_injective h = cc h

finish-ok :
    (p q : JobStatusQueryParams) (rest : Dict String) → finish p rest ≡ ok q → (p ≡ q) × (rest ≡ [])
unfolding finish
finish-ok p q [] h = (ok_injective h, refl)
finish-ok p q (entry ∷ rest) h = cc h

check_limit-ok :
    (offset : ℕ) (value : Dict String) (text : String) (limit : Option ℕ) (p : JobStatusQueryParams)
    → parse text ≡ limit
    → check_limit offset value limit ≡ ok p
    → (l : ℕ) × (pager_options offset l ≡ p) × (1 ≤ l) × (l ≤ usize_max)
unfolding check_limit
check_limit-ok offset value text none p e h = cc h
check_limit-ok offset value text (some limit) p e h = elim (Bool-cases (ltb limit 1)) [
  | inl small ↦ cc (h, small)
  | inr large ↦
      let finished =
        subst
          (λ b.
            (if b then err limit_below_one else finish (pager_options offset limit) value) ≡ ok p)
          large h in
      (
        limit,
        (finish-ok (pager_options offset limit) p value finished).0,
        ground arith,
        parse-le text limit e,
      )
]

check_offset-ok :
    (value : Dict String) (text : String) (offset : Option ℕ) (p : JobStatusQueryParams)
    → parse text ≡ offset
    → check_offset value offset ≡ ok p
    → (o l : ℕ) × (pager_options o l ≡ p) × (o ≤ usize_max) × (1 ≤ l) × (l ≤ usize_max)
unfolding check_offset
check_offset-ok value text none p e h = cc h
check_offset-ok value text (some offset) p e h =
    let (limit, same, low, high) = check_limit-ok offset (remove "limit" value) _ _ p refl h in
    (offset, limit, same, parse-le text offset e, low, high)

-- What `try_from` accepts is a page, or names the job that the map names.
pub check_job_id-ok :
    (value : Dict String) (id : Option String) (p : JobStatusQueryParams)
    → check_job_id value id ≡ ok p
    → ((name : String) × (id ≡ some name) × (job_id name ≡ p))
      ⊎ ((o l : ℕ) × (pager_options o l ≡ p) × (o ≤ usize_max) × (1 ≤ l) × (l ≤ usize_max))
unfolding check_job_id
check_job_id-ok value none p h = inr (check_offset-ok (remove "offset" value) _ _ p refl h)
check_job_id-ok value (some name) p h = inl (name, refl, (finish-ok (job_id name) p value h).0)

abbrev pub primary_node : Primaries → Node
primary_node primaries = record { is_active = true; is_primary = true; primaries = primaries }

abbrev pub secondary_node : (uri : String) → List (Option String) → Node
secondary_node uri others = record {
  is_active = true;
  is_primary = false;
  primaries = some (some uri ∷ others);
}

try_from-ok :
    (value : Dict String) (p : JobStatusQueryParams)
    → try_from value ≡ ok p
    → ((id : String) → lookup "job_id" value ≡ some id → IsPlain id)
    → IsPage p × HasPlainName p
unfolding try_from
try_from-ok value p h plain = elim (check_job_id-ok _ _ p h) [
  | inl (name, named, same) ↦ subst (λ q. IsPage q × HasPlainName q) same (tt, plain name named)
  | inr (o, l, same, fits, low, high) ↦
      subst (λ q. IsPage q × HasPlainName q) same ((fits, low, high), tt)
]

handle_get_status-ok :
    (p : JobStatusQueryParams) (jobs : Dict JobStatus)
    → (found : Dict JobStatus) × (handle_get_status p jobs ≡ ok found)
unfolding handle_get_status
handle_get_status-ok (job_id id) jobs = (_, refl)
handle_get_status-ok (pager_options offset limit) jobs = (_, refl)

-- The wire carries a status request to the primary, and the jobs `found` back from it.
pub record Carries (wire : Wire) (req : HttpRequest wire.Bytes) (found : Dict JobStatus)
    : Type 0 where
  pub reply : wire.Bytes
  pub builds : wire.build_error req ≡ none
  pub sends : wire.send req ≡ inr reply
  pub reads : wire.read_statuses reply ≡ inr found

carried :
    (wire : Wire) (uri : String) (others : List (Option String)) (params : JobStatusQueryParams)
    (found : Dict JobStatus)
    → Carries wire (status_request wire.empty uri params) found
    → forward_get_status_request wire params (some (some uri ∷ others)) ≡ ok found
unfolding forward_get_status_request send_get_status primary_uri build
    forward_other_requests_to_primary and_then or_500 answer_of
carried wire uri others params found c =
    ap
      (λ o. answer_of (
        and_then
          (elim o [
            | none ↦ GenericResult.ok (status_request wire.empty uri params)
            | some e ↦ GenericResult.err (new e 400)
          ])
          (forward_other_requests_to_primary wire wire.read_statuses)))
      c.builds
    ∙ ap (λ o. answer_of (and_then (or_500 o) (λ bytes. or_500 (wire.read_statuses bytes)))) c.sends
    ∙ ap (λ o. answer_of (or_500 o)) c.reads

-- A secondary answers a status request as the primary does, with the primary's jobs or with the same
-- error, if every request that the primary, reading the query, would answer with jobs is carried to it
-- and those jobs are carried back, and the job's name, where the query has one, consists of letters,
-- digits, `-`, `.` and `_`.
pub history-forwarded :
    (reader : QueryReader) (wire wire' : Wire) (uri : String) (others : List (Option String))
    (jobs jobs' : Dict JobStatus) (primaries : Primaries)
    → ((params : JobStatusQueryParams) (found : Dict JobStatus)
        → history wire' (primary_node primaries) jobs (reader.decode (display params)) ≡ ok found
        → Carries wire (status_request wire.empty uri params) found)
    → (value : Dict String) → ((id : String) → lookup "job_id" value ≡ some id → IsPlain id)
    → history wire (secondary_node uri others) jobs' value
      ≡ history wire' (primary_node primaries) jobs value
unfolding history handle_history_all respond
history-forwarded reader wire wire' uri others jobs jobs' primaries served value plain =
    go (try_from value) refl
  where
    go :
        (t : Answer JobStatusQueryParams)
        → try_from value ≡ t
        → respond wire (secondary_node uri others) jobs' t
          ≡ respond wire' (primary_node primaries) jobs t
    go (err e) h = refl
    go (ok p) h =
        let (page, name) = try_from-ok value p h plain in
        let (found, answers) = handle_get_status-ok p jobs in
        let read =
          ap (respond wire' (primary_node primaries) jobs) (try_from-display reader p page name) in
        carried wire uri others p found (served p found (read ∙ answers)) ∙ sym answers
