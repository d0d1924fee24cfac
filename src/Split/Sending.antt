-- ===== src/Split/Sending.antt =====
-- cluster-executor/src/split_request.rs: `process_and_send_request`, which sends the request of a
-- split file with a range of its own to each secondary.
pub mod Ranges
use Prim.Native.String.{String}
use overload.Common.{ℕ, List, [], ◌∷◌, length, Option, none, some, ◌>>=◌}
use overload.Foreign.{Foreign}
use overload.Http.{Request, RequestSpec, SplitRequestFile, clone_with_new_range, HttpReq}
use overload.Messages.{MessageFromPrimary, Net, World, Senders, send}
use overload.Providers.{Outcome, ok, failed, panicked, endless, Sqlite, split_get_n}
use overload.Split.{split_ranges}

module _ {F : Foreign} (world : World) where
  -- The request with one of the ranges.
  unfoldable pub with_range : Request F → SplitRequestFile F → ℕ × ℕ → Request F
  with_range request req range = record request {
    req = RequestSpec.split_request_file (clone_with_new_range req range);
  }

  -- The loop over the senders, and `error_instances`, which gets every id. `none` is the panic of
  -- an `unwrap` when no range is left.
  unfoldable pub send_splits :
      Request F → SplitRequestFile F → Senders → List (ℕ × ℕ) → Net F → Option (List String × Net F)
  send_splits request req [] splits net = some ([], net)
  send_splits request req (id ∷ senders) [] net = none
  send_splits request req (id ∷ senders) (range ∷ splits) net = do
    let msg = MessageFromPrimary.request (with_range request req range)
    (error_instances, net') ← send_splits request req senders splits (send world id msg net).1
    some (id ∷ error_instances, net')

  -- What follows the call of `get_n`.
  unfoldable pub send_sized :
      Request F
      → Senders
      → Outcome (List HttpReq) × SplitRequestFile F
      → Net F
      → Option (List String × Net F)
  send_sized request senders (ok sample, req) net = do
    splits ← split_ranges req.size (length senders)
    send_splits request req senders splits net
  send_sized request senders (failed, req) net = some ([], net)
  send_sized request senders (panicked, req) net = none
  send_sized request senders (endless, req) net = none

  -- The body, by the kind of the request's source of requests.
  unfoldable pub process_by_kind :
      Sqlite F
      → (fuel : ℕ) → Request F
      → Senders
      → Net F
      → RequestSpec F
      → Option (List String × Net F)
  process_by_kind db fuel request senders net (RequestSpec.split_request_file req) =
      send_sized request senders (split_get_n db fuel req 1) net
  process_by_kind db fuel request senders net _ = some ([], net)

  -- The failed senders; the source answers `Ok` if there is none. `none` is a panic, or a loop of
  -- `get_n` without an end.
  unfoldable pub process_and_send_request :
      Sqlite F → (fuel : ℕ) → Request F → Senders → Net F → Option (List String × Net F)
  process_and_send_request db fuel request senders net =
      process_by_kind db fuel request senders net request.req
