-- ===== src/Executor/Registry.antt =====
-- cluster-executor/src/secondary.rs: the pools of the jobs, which outlive a broken connection to the
-- primary, and who holds them. A `oneshot` channel is its number, and its state is shared.
use Prim.Native.String.{String}
use overload.Common.{
  ℕ, zero, suc, Bool, List, [], ◌∷◌, ◌++◌, length, get_or, Option, none, some, ◌>>=◌,
}
use overload.Common.Dict.{Dict, lookup, insert, remove}
use overload.Executor.Session.{
  Exit, error_exit, closed_exit, stop_exit, finish_exit, prepare_failed,
}
use overload.Http.{ConnectionKeepAlive}
use overload.Pool.{QueuePool}
use overload.Pool as Pool

-- A sender that is there, one that has sent, one that was dropped before, and a receiver that has
-- answered, which must not be awaited again.
pub data Channel : Type 0 where
  waiting notified dropped answered : Channel

pub record Registry (Handle : Type 0) : Type 0 where
  pub connection_pools : Dict (QueuePool Handle)
  pub usage_listener : Dict ℕ
  pub channels : List Channel

unfoldable pub set_channel : ℕ → Channel → List Channel → List Channel
set_channel n state [] = []
set_channel zero state (c ∷ channels) = state ∷ channels
set_channel (suc n) state (c ∷ channels) = c ∷ set_channel n state channels

module _ {Handle : Type 0} (job_id : String) where
  -- The end of `init_connection_pool`: a pool, and the sender of a new channel.
  unfoldable pub new_listener :
      QueuePool Handle → Registry Handle → Option (QueuePool Handle × ℕ) × Registry Handle
  new_listener queue_pool r =
      let tx = length r.channels in
      (
        some (queue_pool, tx),
        record r {
          usage_listener = insert job_id tx r.usage_listener;
          channels = r.channels ++ waiting ∷ [];
        },
      )

  -- `get_existing_queue_pool(..).unwrap()`; `none` is a panic, here and below.
  unfoldable pub take_existing :
      Registry Handle → Option (Option (QueuePool Handle × ℕ) × Registry Handle)
  take_existing r = do
    queue_pool ← lookup job_id r.connection_pools
    some
        (new_listener queue_pool (record r { connection_pools = remove job_id r.connection_pools }))

  -- What follows the wait: for a notification, too long a wait, an error, and a receiver that has
  -- answered, at which tokio panics. But for the first the receiver is put back.
  unfoldable pub waited :
      (rx : ℕ)
      → Channel
      → Registry Handle
      → Option (Option (QueuePool Handle × ℕ) × Registry Handle)
  waited rx notified r = take_existing r
  waited rx waiting r = some (none, record r { usage_listener = insert job_id rx r.usage_listener })
  waited rx dropped r = some (
    none,
    record r {
      usage_listener = insert job_id rx r.usage_listener;
      channels = set_channel rx answered r.channels;
    },
  )
  waited rx answered r = none

  unfoldable pub after_wait :
      (rx : ℕ) → Registry Handle → Option (Option (QueuePool Handle × ℕ) × Registry Handle)
  after_wait rx r = waited rx (get_or r.channels rx dropped) r

  -- `others` is what other sessions do during the wait. The inner `none` is the result `None`.
  unfoldable pub init_connection_pool :
      (others : Registry Handle → Registry Handle)
      → ConnectionKeepAlive
      → (elastic_pool : Bool) → Registry Handle
      → Option (Option (QueuePool Handle × ℕ) × Registry Handle)
  init_connection_pool others keep_alive elastic_pool r = elim (lookup job_id r.usage_listener) [
    | some rx ↦
        after_wait rx (others (record r { usage_listener = remove job_id r.usage_listener }))
    | none ↦ some (new_listener (Pool.new keep_alive elastic_pool) r)
  ]

  -- What follows the loop; a sender that has not sent is dropped.
  unfoldable pub exit_session :
      Exit → (tx : ℕ) → QueuePool Handle → Registry Handle → Registry Handle
  exit_session error_exit tx queue_pool r = record r {
    connection_pools = insert job_id queue_pool r.connection_pools;
    channels = set_channel tx notified r.channels;
  }
  exit_session stop_exit tx queue_pool r = record r {
    connection_pools = remove job_id r.connection_pools;
    usage_listener = remove job_id r.usage_listener;
    channels = set_channel tx dropped r.channels;
  }
  exit_session finish_exit tx queue_pool r = record r {
    connection_pools = remove job_id r.connection_pools;
    usage_listener = remove job_id r.usage_listener;
    channels = set_channel tx dropped r.channels;
  }
  exit_session closed_exit tx queue_pool r = record r {
    channels = set_channel tx dropped r.channels;
  }
  exit_session prepare_failed tx queue_pool r = record r {
    channels = set_channel tx dropped r.channels;
  }
