-- ===== src/Split/Sending/Ranges.antt =====
-- Which ranges of a split file the secondaries get.
use Prim.Native.String.{String}
use mathlib.Core.List.{append_assoc, append-nil}
use overload.Common.{
  ℕ, ◌+◌, ◌<◌, ◌≤◌, ◌≡◌, ◌≢◌, refl, sym, subst, List, [], ◌∷◌, ◌++◌, map, length, none, some, arith,
  ap, ◌∙◌,
}
use overload.Foreign.{Foreign}
use overload.Http.{HttpReq, Request, RequestSpec, SplitRequestFile}
use overload.Messages.{
  MessageFromPrimary, Sent, Net, World, Senders, send, receivers, messages, Net-eq,
}
use overload.Providers.{ok, Sqlite, usize_mod}
use overload.Providers.Walk.{walk, walk_end}
use overload.Providers.Cycle.{IsTable, open_file-IsInRange, split_get_n-walk}
use overload.Split.Tiling.{IsFairSplit, split_ranges-IsFairSplit}
use overload.Split.Sending.{
  with_range, send_splits, send_sized, process_by_kind, process_and_send_request,
}

module _ {F : Foreign} (world : World) where
  -- The request of each range.
  abbrev requests : Request F → SplitRequestFile F → List (ℕ × ℕ) → List (MessageFromPrimary F)
  requests request req =
      map λ range. MessageFromPrimary.request (with_range world request req range)

  record Delivery (request : Request F) (req : SplitRequestFile F) (senders : Senders)
      (splits : List (ℕ × ℕ)) (net : Net F) : Type 0 where
    batch : List (Sent F)
    answer :
        send_splits world request req senders splits net
        ≡ some (senders, record { log = net.log ++ batch; calls = net.calls + length senders })
    reached : receivers batch ≡ senders
    sent : messages batch ≡ requests request req splits

  send_splits-Delivery :
      (request : Request F) (req : SplitRequestFile F) (senders : Senders) (splits : List (ℕ × ℕ))
      (net : Net F)
      → length splits ≡ length senders
      → Delivery request req senders splits net
  unfolding send_splits send
  send_splits-Delivery request req [] [] net e = record {
    batch = [];
    answer = ap (λ n. some ([], n)) (Net-eq (sym (append-nil net.log)) (omega arith));
    reached = refl;
    sent = refl;
  }
  send_splits-Delivery request req [] (range ∷ splits) net e = absurd (omega arith)
  send_splits-Delivery request req (id ∷ senders) [] net e = absurd (omega arith)
  send_splits-Delivery request req (id ∷ senders) (range ∷ splits) net e =
      let msg : MessageFromPrimary F =
        MessageFromPrimary.request (with_range world request req range) in
      let ih =
        send_splits-Delivery request req senders splits (send world id msg net).1 (omega arith) in
      let first : Sent F = record { receiver = id; message = msg; arrived = world net.calls id } in
      record {
        batch = first ∷ ih.batch;
        answer = rw ih.answer (
            ap (λ n. some (id ∷ senders, n))
              (Net-eq (append_assoc net.log (first ∷ []) ih.batch) (omega arith)));
        reached = ap (◌∷◌ id) ih.reached;
        sent = ap (◌∷◌ msg) ih.sent;
      }

  -- One message for each sender, in their order: the request with a file of the given name and size
  -- and with a range, where the ranges are a fair split of the rows.
  pub record IsSplitAmong (request : Request F) (file_name : String) (size : ℕ) (senders : Senders)
      (batch : List (Sent F)) : Type 0 where
    pub file : SplitRequestFile F
    pub same_name : file.file_name ≡ file_name
    pub same_size : file.size ≡ size
    pub ranges : List (ℕ × ℕ)
    pub fair : IsFairSplit size (length senders) ranges
    pub reached : receivers batch ≡ senders
    pub sent : messages batch ≡ requests request file ranges

  send_sized-IsSplitAmong :
      (request : Request F) (senders : Senders) (sample : List HttpReq) (req : SplitRequestFile F)
      (net : Net F)
      → 0 < length senders
      → length senders ≤ req.size
      → (batch : List (Sent F)) × (send_sized world request senders (ok sample, req) net
          ≡ some (senders, record { log = net.log ++ batch; calls = net.calls + length senders }))
        × IsSplitAmong request req.file_name req.size senders batch
  unfolding send_sized
  send_sized-IsSplitAmong request senders sample req net pos few =
      let (ranges, split, fair) = split_ranges-IsFairSplit req.size (length senders) pos few in
      let d = send_splits-Delivery request req senders ranges net fair.many in
      (
        d.batch,
        rw split d.answer,
        record {
          file = req;
          same_name = refl;
          same_size = refl;
          ranges = ranges;
          fair = fair;
          reached = d.reached;
          sent = d.sent;
        },
      )

  -- With at least one secondary and no more secondaries than rows in the table, the request of a
  -- split file goes out without a panic, as one message to each secondary: the request itself, but
  -- for the range, and the ranges are a fair split of the rows of the file. The list of failed
  -- secondaries that the call returns holds all of them, whether the messages arrived or not.
  pub process_and_send_request-IsSplitAmong :
      (db : Sqlite F) (connection : F.SqliteConnection) (size fuel : ℕ)
      → IsTable db connection size
      → (request : Request F) (file : SplitRequestFile F) (senders : Senders) (net : Net F)
      → request.req ≡ RequestSpec.split_request_file file
      → file.inner ≡ none
      → db.connect file.file_name ≡ some connection
      → db.count connection ≡ some size
      → file.range_start_inclusive ≤ size
      → (file.range_end_inclusive ≢ 0 → file.range_start_inclusive ≤ file.range_end_inclusive)
      → file.range_end_inclusive ≤ size
      → size + 2 < usize_mod
      → 1 < fuel
      → 0 < length senders
      → length senders ≤ size
      → (batch : List (Sent F)) × (process_and_send_request world db fuel request senders net
          ≡ some (senders, record { log = net.log ++ batch; calls = net.calls + length senders }))
        × IsSplitAmong request file.file_name size senders batch
  unfolding process_and_send_request process_by_kind
  process_and_send_request-IsSplitAmong db connection size fuel table request file senders net
        is_split closed connected counted start order end bound enough pos few =
      let (opened, opens, sized, named, range) =
        open_file-IsInRange db file connection size closed connected counted (omega arith) start
          order end in
      let (got, _) =
        split_get_n-walk db connection size table fuel 1 file opened opens range (omega arith)
          enough (omega arith) in
      let first = opened.range_start_inclusive in
      let last = opened.range_end_inclusive in
      let cursor = opened.next_read_cursor in
      let sample = map table.row (walk first last cursor 1) in
      let after = record opened { next_read_cursor = walk_end first last cursor 1 } in
      let (batch, sent, split) =
        send_sized-IsSplitAmong request senders sample after net pos (omega (arith, sized)) in
      (
        batch,
        ap (process_by_kind world db fuel request senders net) is_split
            ∙ ap (λ r. send_sized world request senders r net) got
            ∙ sent,
        record {
          file = split.file;
          same_name = split.same_name ∙ named;
          same_size = split.same_size ∙ sized;
          ranges = split.ranges;
          fair = subst (λ n. IsFairSplit n (length senders) split.ranges) sized split.fair;
          reached = split.reached;
          sent = split.sent;
        },
      )
