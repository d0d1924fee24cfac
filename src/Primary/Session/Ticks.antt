-- ===== src/Primary/Session/Ticks.antt =====
-- One second of a test on a cluster: it does not panic, and what it asks of the secondaries.
use Prim.Native.String.{String}
use overload.Common.{
  ℕ, ◌+◌, ◌<◌, ◌≤◌, ◌≡◌, refl, true, false, ◌++◌, length, some, arith, ap, ◌∙◌, if◌then◌else◌, ◌==◌,
  Bool-cases, inl, inr,
}
use overload.Common.Dict.{Dict}
use overload.Foreign.{Foreign}
use overload.Http.{Request}
use overload.Jobs.{JobStatus}
use overload.Messages.{Metadata, MessageFromPrimary, send_metadata_with_primary}
use overload.Primary.Delivery.{
  total, qps_in, connections_in, rates_of, failed_of, send_rate_message_to_secondaries-arrivals,
}
use overload.Primary.Dispatch.{
  Cluster, send_metadata, send_request_to, send_request_to_secondary, is_split, require_reset,
}
use overload.Primary.Session.{
  Session, update_secondaries, count_tick, send_tick, tick, remove_senders,
}
use overload.Primary.Totals.{
  total-append, total-metadata, total-requests, IsIdentified,
  create_senders_for_cluster_nodes-Found,
}

-- An amount that only a message with rates can have.
pub record IsQuiet {F : Foreign} (amount : MessageFromPrimary F → ℕ) : Type 0 where
  pub metadata : (m : Metadata) → amount (MessageFromPrimary.metadata m) ≡ 0
  pub request : (r : Request F) → amount (MessageFromPrimary.request r) ≡ 0
  pub finished : amount MessageFromPrimary.finished ≡ 0

pub qps_in-IsQuiet : {F : Foreign} → IsQuiet {F = F} qps_in
unfolding rates_of
qps_in-IsQuiet = record { metadata = λ m. refl; request = λ r. refl; finished = refl }

pub connections_in-IsQuiet : {F : Foreign} → IsQuiet {F = F} connections_in
unfolding rates_of
connections_in-IsQuiet = record { metadata = λ m. refl; request = λ r. refl; finished = refl }

-- The counter goes from 0 to 10 and starts again.
abbrev pub counted_on : ℕ → ℕ
counted_on counter = if counter == 10 then 0 else counter + 1

module _ {F : Foreign} (cluster : Cluster F) (others : ℕ → Dict JobStatus → Dict JobStatus)
    (request : Request F) where
  -- What counting a second leaves: no sender is lost, and nothing is asked for.
  record Counted (s s' : Session F) : Type 0 where
    second : s'.second ≡ s.second
    jobs : s'.jobs ≡ s.jobs
    grown : length s.senders ≤ length s'.senders
    same :
        (amount : MessageFromPrimary F → ℕ)
        → IsQuiet amount
        → total amount s'.net.log ≡ total amount s.net.log

  update_secondaries-Counted :
      (s : Session F)
      → is_split cluster request.req ≡ false
      → IsIdentified cluster
      → (s' : Session F) × (update_secondaries cluster others request s ≡ some s') × Counted s s'
  unfolding update_secondaries require_reset send_request_to_secondary send_metadata
  update_secondaries-Counted s whole identified =
      let f = create_senders_for_cluster_nodes-Found cluster s.second s.senders identified in
      let (host, hosted) = identified.host s.second in
      let greeted = send_metadata_with_primary cluster.world host f.after f.nodes s.net in
      let asked = send_request_to cluster request f.after f.nodes greeted in
      elim (Bool-cases (length f.nodes == 0)) [
        | inl empty ↦ (
          record s { senders = f.after },
          rw f.same (rw (empty, whole) refl),
          record { second = refl; jobs = refl; grown = f.grown; same = λ amount q. refl },
        )
        | inr found ↦ (
          record s { senders = f.after; net = asked.1 },
          rw f.same (rw (found, whole) (rw hosted refl)),
          record {
            second = refl;
            jobs = refl;
            grown = f.grown;
            same = λ amount q.
                total-requests amount cluster request f.after f.nodes greeted (q.request request)
                ∙ total-metadata amount cluster.world q.metadata host f.after f.nodes s.net;
          },
        )
      ]

  count_tick-Counted :
      (s : Session F)
      → is_split cluster request.req ≡ false
      → ((s.counter == 10) ≡ true → IsIdentified cluster)
      → (s' : Session F) × (count_tick cluster others request s ≡ some s')
        × Counted s s'
        × (s'.counter ≡ counted_on s.counter)
  unfolding count_tick
  count_tick-Counted s whole known = elim (Bool-cases (s.counter == 10)) [
    | inl ten ↦
        let (s', updated, c) = update_secondaries-Counted s whole (known ten) in
        (
          record s' { counter = 0 },
          rw ten (rw updated refl),
          record { second = c.second; jobs = c.jobs; grown = c.grown; same = c.same },
          rw ten refl,
        )
    | inr early ↦ (
      record s { counter = s.counter + 1 },
      rw early refl,
      record { second = refl; jobs = refl; grown = omega arith; same = λ amount q. refl },
      rw early refl,
    )
  ]

  -- What a second does if the network fails no attempt: all of its rates are asked for.
  pub record Ticked (rates : ℕ × ℕ) (s s' : Session F) : Type 0 where
    pub second : s'.second ≡ s.second + 1
    pub jobs : s'.jobs ≡ s.jobs
    pub asked :
        ((n : ℕ) (id : String) → cluster.world n id ≡ true)
        → 0 < length s.senders
        → (0 < length s'.senders)
          × (total qps_in s'.net.log ≡ total qps_in s.net.log + rates.0)
          × (total connections_in s'.net.log ≡ total connections_in s.net.log + rates.1)

  send_tick-Ticked :
      (rates : ℕ × ℕ) (s : Session F)
      → (s' : Session F) × (send_tick cluster others request rates s ≡ some s')
        × Ticked rates s s'
        × (s'.counter ≡ s.counter)
  unfolding send_tick remove_senders
  send_tick-Ticked rates s = elim (Bool-cases (length s.senders == 0)) [
    | inl alone ↦ (
      record s { second = s.second + 1 },
      rw alone refl,
      record { second = refl; jobs = refl; asked = λ reliable some_left. absurd (ground arith) },
      refl,
    )
    | inr several ↦
        let (batch, sent, d, arrivals) =
          send_rate_message_to_secondaries-arrivals cluster.world s.senders rates.0 rates.1 s.net
            (ground arith) in
        (
          record s {
            net = record { log = s.net.log ++ batch; calls = s.net.calls + length s.senders };
            sender_dropped = if length (failed_of batch) == 0 then s.sender_dropped else true;
            senders = remove_senders (failed_of batch) s.senders;
            second = s.second + 1;
          },
          rw several (rw sent refl),
          record {
            second = refl;
            jobs = refl;
            asked = λ reliable some_left. (
              rw (arrivals reliable) some_left,
              total-append qps_in s.net.log batch
                  ∙ ap (λ n. total qps_in s.net.log + n) d.qps_whole,
              total-append connections_in s.net.log batch
                  ∙ ap (λ n. total connections_in s.net.log + n) d.connections_whole,
            );
          },
          refl,
        )
  ]

  pub tick-Ticked :
      (rates : ℕ × ℕ) (s : Session F)
      → is_split cluster request.req ≡ false
      → ((s.counter == 10) ≡ true → IsIdentified cluster)
      → (s' : Session F) × (tick cluster others request rates s ≡ some s')
        × Ticked rates s s'
        × (s'.counter ≡ counted_on s.counter)
  unfolding tick
  tick-Ticked rates s whole known =
      let (counted, count, c, counter) = count_tick-Counted s whole known in
      let (s', sent, t, kept) = send_tick-Ticked rates counted in
      (
        s',
        rw count sent,
        record {
          second = omega (arith, t.second, c.second);
          jobs = t.jobs ∙ c.jobs;
          asked = λ reliable some_left.
              let (left, qps, connections) = t.asked reliable (omega (arith, c.grown)) in
              (
                left,
                omega (arith, qps, c.same qps_in qps_in-IsQuiet),
                omega (arith, connections, c.same connections_in connections_in-IsQuiet),
              );
        },
        kept ∙ counter,
      )
