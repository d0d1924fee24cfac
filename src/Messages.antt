-- ===== src/Messages.antt =====
-- cluster-executor/src/lib.rs: what the primary sends, and the sending of it. A sender is known by
-- its key in the map `senders`; the map is the list of its keys, in the order of its iteration.
use Prim.Native.String.{String}
use text.Mathlib.Text.{◌==◌}
use overload.Common.{ℕ, ◌+◌, Bool, false, ◌||◌, List, [], ◌∷◌, ◌++◌, if◌then◌else◌, map, ◌≡◌}
use overload.Foreign.{Foreign}
use overload.Http.{Request}

pub record RateMessage : Type 0 where
  pub qps : ℕ
  pub connections : ℕ

pub record Metadata : Type 0 where
  pub primary_host : String

pub data MessageFromPrimary (F : Foreign) : Type 0 where
  metadata : Metadata → MessageFromPrimary F
  request : Request F → MessageFromPrimary F
  rates : RateMessage → MessageFromPrimary F
  reset stop finished : MessageFromPrimary F

-- An attempt to send, and whether it succeeded.
pub record Sent (F : Foreign) : Type 0 where
  pub receiver : String
  pub message : MessageFromPrimary F
  pub arrived : Bool

-- The attempts so far, oldest first.
pub record Net (F : Foreign) : Type 0 where
  pub log : List (Sent F)
  pub calls : ℕ

module _ {F : Foreign} where
  -- The receivers of a batch, and its messages.
  abbrev pub receivers : List (Sent F) → List String
  receivers = map λ s. s.receiver

  abbrev pub messages : List (Sent F) → List (MessageFromPrimary F)
  messages = map λ s. s.message

  pub Net-eq :
      {log log' : List (Sent F)} {calls calls' : ℕ}
      → log ≡ log'
      → calls ≡ calls'
      → ◌≡◌ {A = Net F}
          (record { log = log; calls = calls })
          (record { log = log'; calls = calls' })
  Net-eq p q = λ i. record { log = p i; calls = q i }

-- The outside world decides whether the n-th attempt, to the given receiver, succeeds.
abbrev pub World : Type 0
World = ℕ → String → Bool

abbrev pub Senders : Type 0
Senders = List String

unfoldable pub has_sender : String → Senders → Bool
has_sender id [] = false
has_sender id (s ∷ senders) = id == s || has_sender id senders

-- `senders.remove(&id)`
unfoldable pub remove_sender : String → Senders → Senders
remove_sender id [] = []
remove_sender id (s ∷ senders) =
    let rest = remove_sender id senders in if id == s then rest else s ∷ rest

module _ {F : Foreign} (world : World) where
  -- `sender.send(msg).await`, true if it is `Ok`.
  unfoldable pub send : String → MessageFromPrimary F → Net F → Bool × Net F
  send id msg net =
      let arrived = world net.calls id in
      (
        arrived,
        record {
          log = net.log ++ record { receiver = id; message = msg; arrived = arrived } ∷ [];
          calls = net.calls + 1;
        },
      )

  -- The loop over the senders that `instances` contains; what they answer is ignored.
  unfoldable pub send_metadata_with_primary : String → Senders → List String → Net F → Net F
  send_metadata_with_primary primary_host [] instances net = net
  send_metadata_with_primary primary_host (id ∷ senders) instances net =
      let msg = MessageFromPrimary.metadata (record { primary_host = primary_host }) in
      send_metadata_with_primary primary_host senders instances
        (if has_sender id instances then (send id msg net).1 else net)

  unfoldable pub send_end_msg : String → (stop : Bool) → Net F → Net F
  send_end_msg id stop_sent net =
      (send id (if stop_sent then MessageFromPrimary.stop else MessageFromPrimary.finished) net).1
