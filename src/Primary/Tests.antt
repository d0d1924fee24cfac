-- ===== src/Primary/Tests.antt =====
-- The rates of the source's own test, 15 requests and 17 connections for two secondaries.
use overload.Common.{ℕ, List, ◌≡◌, refl, [], ◌∷◌, some, none, arith, zero, suc, false, true}
use overload.Samples.{foreign}
use overload.Messages.{Net, Sent, World, Senders}
use overload.Primary.{calculate_req_per_secondary, send_rate_message_to_secondaries}
use overload.Primary.Rates.{IsShare, calculate_req_per_secondary-IsShare}
use overload.Primary.Delivery.{IsDelivered, failed_of, send_rate_message_to_secondaries-IsDelivered}

shares_15_17 : calculate_req_per_secondary 15 17 2 ≡ some (8 ∷ 7 ∷ [], 9 ∷ 8 ∷ [])
unfolding calculate_req_per_secondary
shares_15_17 = refl

no_secondary : calculate_req_per_secondary 15 17 0 ≡ none
unfolding calculate_req_per_secondary
no_secondary = refl

calculate_req_per_secondary-IsShare_example :
    (qs cs : List ℕ) × (calculate_req_per_secondary 15 17 2 ≡ some (qs, cs))
    × IsShare 15 2 qs
    × IsShare 17 2 cs
calculate_req_per_secondary-IsShare_example =
    calculate_req_per_secondary-IsShare 15 17 2 (omega arith)

-- The second attempt fails.
abbrev second_fails : World
second_fails call id = elim call [ suc zero ↦ false | _ ↦ true ]

abbrev quiet : Net foreign
quiet = record { log = []; calls = 0 }

abbrev pair : Senders
pair = "node-1" ∷ "node-2" ∷ []

send_rate_message_to_secondaries-IsDelivered_example :
    (batch : List (Sent foreign)) × (send_rate_message_to_secondaries second_fails pair 15 17 quiet
      ≡ some (failed_of batch, record { log = batch; calls = 2 }))
    × IsDelivered second_fails pair 15 17 batch
send_rate_message_to_secondaries-IsDelivered_example =
    send_rate_message_to_secondaries-IsDelivered second_fails pair 15 17 quiet (omega arith)
