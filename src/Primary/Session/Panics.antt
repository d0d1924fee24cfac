-- ===== src/Primary/Session/Panics.antt =====
-- A split request file when no secondary is left.
use overload.Common.{ℕ, ◌≡◌, refl, true, List, [], none, ap, ◌∙◌}
use overload.Common.Dict.{Dict}
use overload.Foreign.{Foreign}
use overload.Http.{HttpReq, Request, RequestSpec, SplitRequestFile}
use overload.Jobs.{JobStatus}
use overload.Messages.{Net}
use overload.Primary.Dispatch.{
  Cluster, is_split, require_reset, create_senders_for_cluster_nodes, reset_request, send_resets,
}
use overload.Primary.Session.{update_secondaries, count_tick}
use overload.Providers.{ok, split_get_n}
use overload.Split.{split_ranges}
use overload.Split.Sending.{process_and_send_request, process_by_kind, send_sized}

module _ {F : Foreign} (cluster : Cluster F) (others : ℕ → Dict JobStatus → Dict JobStatus)
    (request : Request F) (file opened : SplitRequestFile F) (sample : List HttpReq) where
  open cluster use {world, db, fuel}

  is_split-split :
      request.req ≡ RequestSpec.split_request_file file → is_split cluster request.req ≡ true
  unfolding is_split
  is_split-split e = ap (is_split cluster) e

  process_and_send_request-nobody :
      (net : Net F)
      → request.req ≡ RequestSpec.split_request_file file
      → split_get_n db fuel file 1 ≡ (ok sample, opened)
      → process_and_send_request world db fuel request [] net ≡ none
  unfolding process_and_send_request process_by_kind send_sized split_ranges
  process_and_send_request-nobody net is_split got =
      ap (process_by_kind world db fuel request [] net) is_split
      ∙ ap (λ r. send_sized world request [] r net) got

  -- When every sender of a test with a split request file was dropped, a second that finds
  -- the counter at 10, which is the eleventh after the last update, panics, if the file can be read
  -- and the cluster knows no secondary: the rows are divided among zero senders.
  pub count_tick-panic :
      (net : Net F) (jobs : Dict JobStatus) (second : ℕ)
      → request.req ≡ RequestSpec.split_request_file file
      → split_get_n db fuel file 1 ≡ (ok sample, opened)
      → cluster.secondaries second ≡ none
      → count_tick cluster others request (record {
        senders = [];
        net = net;
        jobs = jobs;
        counter = 10;
        sender_dropped = true;
        second = second;
      })
        ≡ none
  unfolding count_tick update_secondaries create_senders_for_cluster_nodes require_reset
      reset_request send_resets
  count_tick-panic net jobs second split got unknown =
      rw (unknown, create_senders_for_cluster_nodes)
        (rw (is_split-split split) (rw (process_and_send_request-nobody net split got) refl))
