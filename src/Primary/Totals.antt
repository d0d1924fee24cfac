-- ===== src/Primary/Totals.antt =====
-- What a test asks of all secondaries together: only a message with rates adds to it.
use Prim.Native.String.{String}
use overload.Common.{
  ℕ, ◌+◌, ◌≤◌, ◌≡◌, refl, not, ◌&&◌, List, [], ◌∷◌, ◌++◌, length, length-append, arith, ◌∙◌,
  if◌then◌else◌, Bool-cases, inl, inr, Option, some, map, Option-cases, ap,
}
use overload.Foreign.{Foreign}
use overload.Http.{Request}
use overload.Messages.{
  Metadata, MessageFromPrimary, Sent, Net, World, Senders, has_sender, send,
  send_metadata_with_primary, send_end_msg,
}
use overload.Primary.Delivery.{total}
use overload.Primary.Dispatch.{
  Cluster, send_request_to, create_senders, create_senders_for_cluster_nodes,
}
use overload.Primary.Session.{send_ends}

module _ {F : Foreign} (amount : MessageFromPrimary F → ℕ) where
  pub total-append :
      (xs ys : List (Sent F)) → total amount (xs ++ ys) ≡ total amount xs + total amount ys
  total-append [] ys = omega arith
  total-append (x ∷ xs) ys = omega (arith, total-append xs ys)

  pub total-send :
      (world : World) (id : String) (msg : MessageFromPrimary F) (net : Net F)
      → total amount (send world id msg net).1.log ≡ total amount net.log + amount msg
  unfolding send
  total-send world id msg net = omega (
    arith,
    total-append net.log
        (record { receiver = id; message = msg; arrived = world net.calls id } ∷ []),
  )

  module _ (world : World) where
    -- A loop that only sends messages without an amount leaves the total.
    pub total-metadata :
        ((m : Metadata) → amount (MessageFromPrimary.metadata m) ≡ 0)
        → (host : String) (senders : Senders) (instances : List String) (net : Net F)
        → total amount (send_metadata_with_primary world host senders instances net).log
          ≡ total amount net.log
    unfolding send_metadata_with_primary
    total-metadata free host [] instances net = refl
    total-metadata free host (id ∷ senders) instances net =
        total-metadata free host senders instances _ ∙ first
      where
        msg : MessageFromPrimary F
        msg = MessageFromPrimary.metadata (record { primary_host = host })

        first :
            total amount (if has_sender id instances then (send world id msg net).1 else net).log
            ≡ total amount net.log
        first = elim (Bool-cases (has_sender id instances)) [
          | inl is ↦
              rw is
                (omega (arith, total-send world id msg net, free (record { primary_host = host })))
          | inr isnt ↦ rw isnt refl
        ]

    pub total-ends :
        amount MessageFromPrimary.finished ≡ 0
        → (senders : Senders) (net : Net F)
        → total amount (send_ends world senders net).log ≡ total amount net.log
    unfolding send_ends send_end_msg
    total-ends free [] net = refl
    total-ends free (id ∷ senders) net =
        total-ends free senders _
        ∙ omega (arith, total-send world id MessageFromPrimary.finished net, free)

  pub total-requests :
      (cluster : Cluster F) (request : Request F) (senders : Senders) (instances : List String)
      (net : Net F)
      → amount (MessageFromPrimary.request request) ≡ 0
      → total amount (send_request_to cluster request senders instances net).1.log
        ≡ total amount net.log
  unfolding send_request_to
  total-requests cluster request [] instances net free = refl
  total-requests cluster request (id ∷ senders) instances net free =
      total-requests cluster request senders instances _ free ∙ first
    where
      sent : Net F
      sent = (send cluster.world id (MessageFromPrimary.request request) net).1

      first :
          total amount (if has_sender id instances then sent else net).log ≡ total amount net.log
      first = elim (Bool-cases (has_sender id instances)) [
        | inl is ↦ rw is (
            omega
              (arith, total-send cluster.world id (MessageFromPrimary.request request) net, free))
        | inr isnt ↦ rw isnt refl
      ]

-- The cluster knows the host of this node and the ids of the secondaries.
pub record IsIdentified {F : Foreign} (cluster : Cluster F) : Type 0 where
  pub host : (second : ℕ) → (h : String) × (cluster.host second ≡ some h)
  pub ids :
      (second : ℕ) (ids : List (Option String))
      → cluster.secondaries second ≡ some ids
      → (known : List String) × (ids ≡ map some known)

-- A new sender is added, and none is removed.
pub record Found (senders : Senders) (found : Option (List String × Senders)) : Type 0 where
  pub nodes : List String
  pub after : Senders
  pub same : found ≡ some (nodes, after)
  pub grown : length senders ≤ length after

create_senders-Found :
    {F : Foreign} (cluster : Cluster F) (second : ℕ) (known : List String) (senders : Senders)
    → Found senders (create_senders cluster second (map some known) senders)
unfolding create_senders
create_senders-Found cluster second [] senders = record {
  nodes = [];
  after = senders;
  same = refl;
  grown = omega arith;
}
create_senders-Found cluster second (id ∷ known) senders =
    let added = not (has_sender id senders) && cluster.connects second id in
    let grown : length senders ≤ length (if added then senders ++ id ∷ [] else senders) =
      elim (Bool-cases added) [
        | inl is ↦ rw is (omega (arith, length-append senders (id ∷ [])))
        | inr isnt ↦ rw isnt (omega arith)
      ] in
    let later =
      create_senders-Found cluster second known (if added then senders ++ id ∷ [] else senders) in
    record {
      nodes = if added then id ∷ later.nodes else later.nodes;
      after = later.after;
      same = rw later.same refl;
      grown = omega (arith, grown, later.grown);
    }

pub create_senders_for_cluster_nodes-Found :
    {F : Foreign} (cluster : Cluster F) (second : ℕ) (senders : Senders)
    → IsIdentified cluster
    → Found senders (create_senders_for_cluster_nodes cluster second senders)
unfolding create_senders_for_cluster_nodes
create_senders_for_cluster_nodes-Found cluster second senders identified =
    elim (Option-cases (cluster.secondaries second)) [
      | inl nobody ↦ record {
        nodes = [];
        after = senders;
        same = rw (nobody, create_senders_for_cluster_nodes) refl;
        grown = omega arith;
      }
      | inr (ids, several) ↦
          let (known, are) = identified.ids second ids several in
          let f = create_senders-Found cluster second known senders in
          record {
            nodes = f.nodes;
            after = f.after;
            same =
                rw (several, create_senders_for_cluster_nodes)
                  (ap (λ l. create_senders cluster second l senders) are ∙ f.same);
            grown = f.grown;
          }
    ]
