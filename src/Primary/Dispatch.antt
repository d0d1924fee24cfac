-- ===== src/Primary/Dispatch.antt =====
-- cluster-executor/src/primary.rs and lib.rs: how the primary finds its secondaries and gives them
-- their request.
use Prim.Native.String.{String}
use overload.Common.{
  ℕ, Bool, true, false, not, ◌&&◌, List, [], ◌∷◌, ◌++◌, Option, none, some, ◌>>=◌, if◌then◌else◌,
}
use overload.Foreign.{Foreign}
use overload.Http.{Request, RequestSpec}
use overload.Messages.{
  MessageFromPrimary, Net, World, Senders, has_sender, send, send_metadata_with_primary,
}
use overload.Providers.{Sqlite}
use overload.Split.Sending.{process_and_send_request}

-- What the primary of a cluster depends on: the attempts to send, the database, and at each second
-- the host of its own service instance, the instance ids of the secondaries, if the cluster knows any,
-- and those that a connection can be made to; `none` is a host or an id that is not there. `fuel`
-- bounds the rounds of `get_n`.
pub record Cluster (F : Foreign) : Type 0 where
  pub world : World
  pub db : Sqlite F
  pub fuel : ℕ
  pub host : ℕ → Option String
  pub secondaries : ℕ → Option (List (Option String))
  pub connects : ℕ → String → Bool

module _ {F : Foreign} (cluster : Cluster F) where
  open cluster use {world, db, fuel, host, secondaries, connects}

  -- The loop over the secondaries: the new nodes, and the senders with them. A new key stands last.
  -- `none` is a panic, here and below.
  unfoldable pub create_senders :
      (second : ℕ) → List (Option String) → Senders → Option (List String × Senders)
  create_senders second [] senders = some ([], senders)
  create_senders second (none ∷ ids) senders = none
  create_senders second (some id ∷ ids) senders = do
    let added = not (has_sender id senders) && connects second id
    (new_nodes, senders') ←
        create_senders second ids (if added then senders ++ id ∷ [] else senders)
    some (if added then id ∷ new_nodes else new_nodes, senders')

  unfoldable pub create_senders_for_cluster_nodes :
      (second : ℕ) → Senders → Option (List String × Senders)
  create_senders_for_cluster_nodes second senders = elim (secondaries second) [
    | none ↦ some ([], senders)
    | some ids ↦ create_senders second ids senders
  ]

  unfoldable pub send_metadata : (second : ℕ) → Senders → List String → Net F → Option (Net F)
  send_metadata second senders instances net = do
    primary_host ← host second
    some (send_metadata_with_primary world primary_host senders instances net)

  -- The loop of `send_request_to_secondary`: the senders that failed.
  unfoldable pub send_request_to : Request F → Senders → List String → Net F → List String × Net F
  send_request_to request [] instances net = ([], net)
  send_request_to request (id ∷ senders) instances net =
      let chosen = has_sender id instances in
      let (arrived, sent) = send world id (MessageFromPrimary.request request) net in
      let (failed, net') =
        send_request_to request senders instances (if chosen then sent else net) in
      (if chosen && not arrived then id ∷ failed else failed, net')

  unfoldable pub is_split : RequestSpec F → Bool
  is_split (RequestSpec.split_request_file req) = true
  is_split _ = false

  unfoldable pub send_request_to_secondary :
      Request F → Senders → List String → Net F → Option (List String × Net F)
  send_request_to_secondary request senders instances net =
      if is_split request.req
      then process_and_send_request world db fuel request senders net
      else some (send_request_to request senders instances net)

  unfoldable pub init_senders : Request F → Senders → Net F → Option (Senders × Net F)
  init_senders request senders net = do
    (new_instances, senders') ← create_senders_for_cluster_nodes 0 senders
    greeted ← send_metadata 0 senders' new_instances net
    (failed, net') ← send_request_to_secondary request senders' new_instances greeted
    some (senders', net')

  unfoldable pub send_resets : Senders → Net F → Net F
  send_resets [] net = net
  send_resets (id ∷ senders) net =
      send_resets senders (send world id MessageFromPrimary.reset net).1

  unfoldable pub reset_request : Request F → Senders → Net F → Option (Net F)
  reset_request request senders net = do
    (failed, net') ←
        process_and_send_request world db fuel request senders (send_resets senders net)
    some net'

  unfoldable pub require_reset : Request F → Bool
  require_reset request = is_split request.req
