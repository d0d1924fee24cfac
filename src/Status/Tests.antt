-- ===== src/Status/Tests.antt =====
-- Queries, pages and a secondary that forwards them.
use Prim.Native.String.{String, ◌++◌, len}
use text.Mathlib.Text.{get?}
use text.Mathlib.TextLemmas.{append_assoc, append-nil}
use text.Mathlib.TextPositions.{get?-append_middle, len-append}
use overload.Common.{
  some_injective, ◌≡◌, refl, sym, ap, ◌∙◌, inl, inr, Option, subst, [], ◌∷◌, none, some, arith,
}
use overload.Common.Decimal.{show, parse}
use overload.Common.Dict.{Dict, lookup, remove}
use overload.Jobs.{JobStatus, completed, in_progress}
use overload.Providers.Template.{get?_at}
use overload.Server.Relay.{Wire}
use overload.Status.{
  JobStatusQueryParams, status_request, pager_options, Answer, ok, err, invalid_offset,
  limit_below_one, too_many_params, check_job_id, check_offset, check_limit, or_text, finish,
  display, try_from, history,
}
use overload.Status.Forwarding.{
  Carries, primary_node, secondary_node, try_from-display, history-forwarded,
}
use overload.Status.Plain.{IsPlain}
use overload.Status.Reader.{reader}

prints : (show 0 ≡ "0") × (show 18446744073709551615 ≡ "18446744073709551615")
unfolding show
prints = (refl, refl)

reads : (parse "+7" ≡ some 7) × (parse "18446744073709551616" ≡ none) × (parse "" ≡ none)
unfolding parse
reads = (refl, refl, refl)

refuses :
    (try_from (("limit", "0") ∷ []) ≡ err limit_below_one)
    × (try_from (("job_id", "a") ∷ ("limit", "1") ∷ []) ≡ err too_many_params)
    × (try_from (("offset", "-1") ∷ []) ≡ err invalid_offset)
    × (try_from [] ≡ ok (pager_options 0 20))
unfolding try_from check_job_id lookup check_offset parse or_text remove check_limit finish
refuses = (refl, refl, refl, refl)

try_from-display_example :
    try_from (reader.decode (display (pager_options 40 20))) ≡ ok (pager_options 40 20)
try_from-display_example = try_from-display reader (pager_options 40 20) (omega arith) tt

abbrev jobs : Dict JobStatus
jobs = ("a", completed) ∷ ("b", in_progress) ∷ []

abbrev jobs_of : Answer (Dict JobStatus) → Dict JobStatus
jobs_of (ok found) = found
jobs_of (err e) = []

-- A client that gets what `answered` makes of the query of a URI, of which 33 bytes stand in front.
abbrev wire_to : (answered : Option String → Dict JobStatus) → Wire
wire_to answered = record {
  Bytes = Dict JobStatus;
  empty = [];
  send = λ req. inr (answered (get? req.uri 33 (len req.uri)));
  build_error = λ req. none;
  join = λ url path. none;
  read_map = λ bytes. inl "invalid type";
  read_statuses = λ bytes. inr bytes;
  read_response = λ bytes. none;
}

abbrev idle : Wire
idle = wire_to (λ query. [])

-- The primary's answer to a query.
abbrev answered : Option String → Dict JobStatus
answered none = []
answered (some query) = jobs_of (history idle (primary_node none) jobs (reader.decode query))

query_of :
    (query : String)
    → let uri = "http://10.0.0.1:3030" ++ ("/test/status" ++ ("?" ++ query)) in
      get? uri 33 (len uri) ≡ some query
query_of query =
    get?_at
      (sym (append_assoc "http://10.0.0.1:3030" "/test/status" ("?" ++ query))
        ∙ sym (append_assoc "http://10.0.0.1:3030/test/status" "?" query)
        ∙ ap (λ q. "http://10.0.0.1:3030/test/status?" ++ q) (sym (append-nil query)))
      refl
      (omega (
        arith,
        len-append "http://10.0.0.1:3030" ("/test/status" ++ ("?" ++ query)),
        len-append "/test/status" ("?" ++ query),
        len-append "?" query,
      ))
    ∙ get?-append_middle "http://10.0.0.1:3030/test/status?" query ""

carries :
    (params : JobStatusQueryParams) (found : Dict JobStatus)
    → history idle (primary_node none) jobs (reader.decode (display params)) ≡ ok found
    → Carries (wire_to answered) (status_request [] "http://10.0.0.1:3030" params) found
carries params found h = record {
  reply = _;
  builds = refl;
  sends = refl;
  reads = ap (λ q. inr (answered q)) (query_of (display params)) ∙ ap (λ a. inr (jobs_of a)) h;
}

IsPlain-b : (id : String) → lookup "job_id" (("job_id", "b") ∷ []) ≡ some id → IsPlain id
unfolding lookup
IsPlain-b id h = subst IsPlain (some_injective h) (omega arith)

history-forwarded_example :
    history (wire_to answered) (secondary_node "http://10.0.0.1:3030" []) [] (("job_id", "b") ∷ [])
    ≡ history idle (primary_node none) jobs (("job_id", "b") ∷ [])
history-forwarded_example =
    history-forwarded reader (wire_to answered) idle "http://10.0.0.1:3030" [] jobs [] none carries
      (("job_id", "b") ∷ []) (λ id h. IsPlain-b id h)
