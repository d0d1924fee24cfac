-- ===== src/Primary/Delivery.antt =====
-- What the primary puts on the wire in one second.
use Prim.Native.String.{String}
use mathlib.Core.List.{append_assoc, append-nil}
use overload.Common.{
  ℕ, zero, suc, ◌+◌, ◌<◌, ◌≡◌, refl, sym, List, [], ◌∷◌, ◌++◌, length, get_elem?, sum, drop, some,
  true, arith, if◌then◌else◌, ap, ◌∙◌,
}
use overload.Foreign.{Foreign}
use overload.Messages.{
  RateMessage, MessageFromPrimary, Sent, Net, World, Senders, send, receivers, Net-eq,
}
use overload.Primary.{send_rates, send_rate_message_to_secondaries}
use overload.Primary.Rates.{calculate_req_per_secondary-IsShare}

drop-step {ℓ} :
    {A : Type ℓ} (xs : List A) (pos : ℕ)
    → pos < length xs
    → (x : A) × (get_elem? xs pos ≡ some x) × (drop pos xs ≡ x ∷ drop (suc pos) xs)
drop-step [] pos h = absurd (omega arith)
drop-step (x ∷ xs) zero h = (x, refl, refl)
drop-step (x ∷ xs) (suc pos) h = drop-step xs pos (omega arith)

sum-drop_all : (pos : ℕ) (xs : List ℕ) → length xs ≡ pos → sum (drop pos xs) ≡ 0
sum-drop_all zero [] h = refl
sum-drop_all (suc pos) [] h = refl
sum-drop_all zero (x ∷ xs) h = absurd (omega arith)
sum-drop_all (suc pos) (x ∷ xs) h = sum-drop_all pos xs (omega arith)

module _ {F : Foreign} where
  -- The receivers that a batch did not reach, and the rates that it asks for in all.
  unfoldable pub failed_of : List (Sent F) → List String
  failed_of [] = []
  failed_of (s ∷ batch) =
      let failed = failed_of batch in if s.arrived then failed else s.receiver ∷ failed

  failed_of-arrived :
      (s : Sent F) (batch : List (Sent F))
      → s.arrived ≡ true
      → failed_of batch ≡ []
      → failed_of (s ∷ batch) ≡ []
  unfolding failed_of
  failed_of-arrived s batch e f = rw e f

  unfoldable pub rates_of : MessageFromPrimary F → RateMessage
  rates_of (MessageFromPrimary.rates r) = r
  rates_of _ = record { qps = 0; connections = 0 }

  abbrev pub total : (MessageFromPrimary F → ℕ) → List (Sent F) → ℕ
  total amount [] = 0
  total amount (s ∷ batch) = amount s.message + total amount batch

  abbrev pub qps_in : MessageFromPrimary F → ℕ
  qps_in msg = (rates_of msg).qps

  abbrev pub connections_in : MessageFromPrimary F → ℕ
  connections_in msg = (rates_of msg).connections

  module _ (world : World) where
    record Delivery (pos : ℕ) (senders : Senders) (qs cs : List ℕ) (net : Net F) : Type 0 where
      batch : List (Sent F)
      answer :
          send_rates world pos senders qs cs net
          ≡ some (
            failed_of batch,
            record { log = net.log ++ batch; calls = net.calls + length senders },
          )
      reached : receivers batch ≡ senders
      qps : total qps_in batch ≡ sum (drop pos qs)
      connections : total connections_in batch ≡ sum (drop pos cs)
      arrivals : ((n : ℕ) (id : String) → world n id ≡ true) → failed_of batch ≡ []

    send_rates-Delivery :
        (pos : ℕ) (senders : Senders) (qs cs : List ℕ) (net : Net F)
        → pos + length senders ≡ length qs
        → pos + length senders ≡ length cs
        → Delivery pos senders qs cs net
    unfolding send_rates failed_of rates_of send
    send_rates-Delivery pos [] qs cs net e f = record {
      batch = [];
      answer = ap (λ n. some ([], n)) (Net-eq (sym (append-nil net.log)) (omega arith));
      reached = refl;
      qps = sym (sum-drop_all pos qs (omega arith));
      connections = sym (sum-drop_all pos cs (omega arith));
      arrivals = λ h. refl;
    }
    send_rates-Delivery pos (id ∷ senders) qs cs net e f =
        let (q, got_q, rest_q) = drop-step qs pos (omega arith) in
        let (c, got_c, rest_c) = drop-step cs pos (omega arith) in
        let msg : MessageFromPrimary F =
          MessageFromPrimary.rates (record { qps = q; connections = c }) in
        let ih =
          send_rates-Delivery (suc pos) senders qs cs (send world id msg net).1 (omega arith)
            (omega arith) in
        let first : Sent F = record {
          receiver = id;
          message = msg;
          arrived = world net.calls id;
        } in
        record {
          batch = first ∷ ih.batch;
          answer =
              rw (got_q, got_c)
                (rw ih.answer (
                  ap (λ n. some (failed_of (first ∷ ih.batch), n))
                    (Net-eq (append_assoc net.log (first ∷ []) ih.batch) (omega arith))));
          reached = ap (◌∷◌ id) ih.reached;
          qps = rw rest_q (ap (◌+◌ q) ih.qps);
          connections = rw rest_c (ap (◌+◌ c) ih.connections);
          arrivals = λ h. failed_of-arrived first ih.batch (h net.calls id) (ih.arrivals h);
        }

    -- One message for each sender, in their order, whose rates add up to the given ones.
    pub record IsDelivered (senders : Senders) (qps connections : ℕ) (batch : List (Sent F))
        : Type 0 where
      pub reached : receivers batch ≡ senders
      pub qps_whole : total qps_in batch ≡ qps
      pub connections_whole : total connections_in batch ≡ connections

    pub send_rate_message_to_secondaries-arrivals :
        (senders : Senders) (qps connections : ℕ) (net : Net F)
        → 0 < length senders
        → (batch : List (Sent F)) × (send_rate_message_to_secondaries world senders qps connections
              net
            ≡ some (
              failed_of batch,
              record { log = net.log ++ batch; calls = net.calls + length senders },
            ))
          × IsDelivered senders qps connections batch
          × (((n : ℕ) (id : String) → world n id ≡ true) → failed_of batch ≡ [])
    unfolding send_rate_message_to_secondaries
    send_rate_message_to_secondaries-arrivals senders qps connections net pos =
        let (qs, cs, shared, qs_share, cs_share) =
          calculate_req_per_secondary-IsShare qps connections (length senders) pos in
        let d =
          send_rates-Delivery 0 senders qs cs net (omega (arith, qs_share.many))
            (omega (arith, cs_share.many)) in
        (
          d.batch,
          rw shared d.answer,
          record {
            reached = d.reached;
            qps_whole = d.qps ∙ qs_share.whole;
            connections_whole = d.connections ∙ cs_share.whole;
          },
          d.arrivals,
        )

    -- With at least one sender, the rates of a second go out without a panic, as one message to
    -- each sender; the requests and the connections that the messages ask for add up to those of the
    -- second, and the senders reported as failed are exactly those that a message did not reach.
    pub send_rate_message_to_secondaries-IsDelivered :
        (senders : Senders) (qps connections : ℕ) (net : Net F)
        → 0 < length senders
        → (batch : List (Sent F)) × (send_rate_message_to_secondaries world senders qps connections
              net
            ≡ some (
              failed_of batch,
              record { log = net.log ++ batch; calls = net.calls + length senders },
            ))
          × IsDelivered senders qps connections batch
    send_rate_message_to_secondaries-IsDelivered senders qps connections net pos =
        let (batch, answer, d, _) =
          send_rate_message_to_secondaries-arrivals senders qps connections net pos in
        (batch, answer, d)
