-- ===== src/Split/Tests.antt =====
-- Runs of `split_ranges`, the inputs of the source's own tests among them.
use overload.Common.{zero, suc, true, false, ℕ, ◌≡◌, refl, List, [], ◌∷◌, none, some, arith}
use overload.Messages.{World, Sent}
use overload.Samples.{foreign, nothing_sent, database, table, split_file, split_request}
use overload.Split.Sending.{process_and_send_request}
use overload.Split.Sending.Ranges.{IsSplitAmong, process_and_send_request-IsSplitAmong}
use overload.Split.{push_ranges, split_ranges}
use overload.Split.Tiling.{IsFairSplit, split_ranges-IsFairSplit}

split_10_4 : split_ranges 10 4 ≡ some ((1, 3) ∷ (4, 6) ∷ (7, 8) ∷ (9, 10) ∷ [])
unfolding split_ranges push_ranges
split_10_4 = refl

split_1_4 : split_ranges 1 4 ≡ some ((1, 1) ∷ (1, 1) ∷ (1, 1) ∷ (1, 1) ∷ [])
unfolding split_ranges push_ranges
split_1_4 = refl

split_5_0 : split_ranges 5 0 ≡ none
unfolding split_ranges
split_5_0 = refl

split_ranges-IsFairSplit_example :
    (ranges : List (ℕ × ℕ)) × (split_ranges 10 4 ≡ some ranges) × IsFairSplit 10 4 ranges
split_ranges-IsFairSplit_example = split_ranges-IsFairSplit 10 4 (omega arith) (omega arith)

-- Two secondaries, of which the second is out of reach.
abbrev second_fails : World
second_fails call id = elim call [ suc zero ↦ false | _ ↦ true ]

process_and_send_request-IsSplitAmong_example :
    (batch : List (Sent foreign)) × (process_and_send_request second_fails database 2 split_request
        ("node-1" ∷ "node-2" ∷ [])
        nothing_sent
      ≡ some ("node-1" ∷ "node-2" ∷ [], record { log = batch; calls = 2 }))
    × IsSplitAmong second_fails split_request "data.sqlite" 10 ("node-1" ∷ "node-2" ∷ []) batch
process_and_send_request-IsSplitAmong_example =
    process_and_send_request-IsSplitAmong second_fails database 1 10 2 table split_request
      split_file ("node-1" ∷ "node-2" ∷ []) nothing_sent refl refl refl refl (omega arith)
      (λ h. absurd (h refl)) (omega arith) (omega arith) (omega arith) (omega arith) (omega arith)
