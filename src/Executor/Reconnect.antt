-- ===== src/Executor/Reconnect.antt =====
-- What is left of a session in the registry: the pool after a broken connection, and nothing after
-- the end of the test.
use Prim.Native.String.{String}
use overload.Common.{
  ℕ, zero, suc, ◌<◌, ◌≡◌, refl, sym, ap, subst, ◌∙◌, Bool, List, [], ◌∷◌, length, get_or, Option,
  none, some, ◌>>=◌, arith,
}
use overload.Common.Dict.{Dict, lookup, insert, remove, lookup-insert_self, lookup-remove_self}
use overload.Executor.Registry.{
  Channel, notified, dropped, answered, Registry, set_channel, waited, new_listener, take_existing,
  after_wait, init_connection_pool, exit_session,
}
use overload.Executor.Session.{error_exit, closed_exit}
use overload.Http.{ConnectionKeepAlive}
use overload.Pool.{QueuePool}

get_or-set_channel :
    (n : ℕ) (state : Channel) (channels : List Channel)
    → n < length channels
    → get_or (set_channel n state channels) n dropped ≡ state
unfolding set_channel
get_or-set_channel n state [] h = absurd (omega arith)
get_or-set_channel zero state (c ∷ channels) h = refl
get_or-set_channel (suc n) state (c ∷ channels) h =
    get_or-set_channel n state channels (omega arith)

length-set_channel :
    (n : ℕ) (state : Channel) (channels : List Channel)
    → length (set_channel n state channels) ≡ length channels
unfolding set_channel
length-set_channel n state [] = refl
length-set_channel zero state (c ∷ channels) = refl
length-set_channel (suc n) state (c ∷ channels) = ap suc (length-set_channel n state channels)

module _ {Handle : Type 0} (job_id : String) where
  -- A session of the job gets `pool`, and nobody else can.
  pub record IsGranted (pool : QueuePool Handle)
      (found : Option (Option (QueuePool Handle × ℕ) × Registry Handle)) : Type 0 where
    pub tx : ℕ
    pub after : Registry Handle
    pub ends : found ≡ some (some (pool, tx), after)
    pub listening : lookup job_id after.usage_listener ≡ some tx
    pub taken : lookup job_id after.connection_pools ≡ none

  take_existing-IsGranted :
      (pool : QueuePool Handle) (r : Registry Handle)
      → lookup job_id r.connection_pools ≡ some pool
      → IsGranted pool (take_existing job_id r)
  unfolding take_existing new_listener
  take_existing-IsGranted pool r h = record {
    tx = _;
    after = _;
    ends =
        ap
          (λ found. found >>= λ queue_pool. some (
            new_listener job_id queue_pool
              (record r { connection_pools = remove job_id r.connection_pools })))
          h;
    listening = lookup-insert_self job_id _ r.usage_listener;
    taken = lookup-remove_self job_id r.connection_pools;
  }

  notified-IsGranted :
      (rx : ℕ) (pool : QueuePool Handle) (r : Registry Handle)
      → get_or r.channels rx dropped ≡ notified
      → lookup job_id r.connection_pools ≡ some pool
      → IsGranted pool (after_wait job_id rx r)
  unfolding after_wait waited
  notified-IsGranted rx pool r h k =
      subst (λ state. IsGranted pool (waited job_id rx state r)) (sym h)
        (take_existing-IsGranted pool r k)

  found_listener :
      (others : Registry Handle → Registry Handle) (keep_alive : ConnectionKeepAlive)
      (elastic_pool : Bool) (r : Registry Handle) (rx : ℕ)
      → lookup job_id r.usage_listener ≡ some rx
      → init_connection_pool job_id others keep_alive elastic_pool r
        ≡ after_wait job_id rx
            (others (record r { usage_listener = remove job_id r.usage_listener }))
  unfolding init_connection_pool
  found_listener others keep_alive elastic_pool r rx h = rw (h, init_connection_pool) refl

  -- When the connection of a primary breaks, the next connection for the job gets the pool that the
  -- broken session had, whether that session ends before or while the new one waits for it.
  pub init_connection_pool-reconnect :
      (keep_alive : ConnectionKeepAlive) (elastic_pool : Bool) (pool : QueuePool Handle) (tx : ℕ)
      (r : Registry Handle)
      → lookup job_id r.usage_listener ≡ some tx
      → tx < length r.channels
      → IsGranted pool (
          init_connection_pool job_id
            (λ r. r)
            keep_alive
            elastic_pool
            (exit_session job_id error_exit tx pool r))
        × IsGranted pool (
            init_connection_pool job_id
              (exit_session job_id error_exit tx pool)
              keep_alive
              elastic_pool
              r)
  unfolding exit_session
  init_connection_pool-reconnect keep_alive elastic_pool pool tx r h there = (
    subst (IsGranted pool)
        (sym (
          found_listener (λ r. r) keep_alive elastic_pool (exit_session job_id error_exit tx pool r)
            tx h))
        (notified-IsGranted tx pool _ (get_or-set_channel tx notified r.channels there)
          (lookup-insert_self job_id pool r.connection_pools)),
    subst (IsGranted pool)
        (sym
          (found_listener (exit_session job_id error_exit tx pool) keep_alive elastic_pool r tx h))
        (notified-IsGranted tx pool _ (get_or-set_channel tx notified r.channels there)
          (lookup-insert_self job_id pool r.connection_pools)),
  )

  -- The next connection for the job is refused, with the listener and the pools as they are; the one
  -- behind it panics.
  pub record IsRefused (keep_alive : ConnectionKeepAlive) (elastic_pool : Bool) (tx : ℕ)
      (pools : Dict (QueuePool Handle)) (r : Registry Handle) : Type 0 where
    pub after : Registry Handle
    pub refused :
        init_connection_pool job_id (λ r. r) keep_alive elastic_pool r ≡ some (none, after)
    pub listening : lookup job_id after.usage_listener ≡ some tx
    pub kept : after.connection_pools ≡ pools
    pub panics : init_connection_pool job_id (λ r. r) keep_alive elastic_pool after ≡ none

  dropped-refused :
      (tx : ℕ) (r : Registry Handle)
      → get_or r.channels tx dropped ≡ dropped
      → after_wait job_id tx r
        ≡ some (
          none,
          record r {
            usage_listener = insert job_id tx r.usage_listener;
            channels = set_channel tx answered r.channels;
          },
        )
  unfolding after_wait waited
  dropped-refused tx r gone = ap (λ state. waited job_id tx state r) gone

  answered-panics :
      (tx : ℕ) (r : Registry Handle)
      → get_or r.channels tx dropped ≡ answered
      → after_wait job_id tx r ≡ none
  unfolding after_wait waited
  answered-panics tx r h = ap (λ state. waited job_id tx state r) h

  -- When the primary closes its channel without a last message, the session's pool is lost and its
  -- listener stays: the next connection for the job is refused without a pool, and the listener stays
  -- again. The connection after that awaits a receiver that has already answered, and panics.
  pub closed_exit-IsRefused :
      (keep_alive : ConnectionKeepAlive) (elastic_pool : Bool) (pool : QueuePool Handle) (tx : ℕ)
      (r : Registry Handle)
      → lookup job_id r.usage_listener ≡ some tx
      → tx < length r.channels
      → IsRefused keep_alive elastic_pool tx r.connection_pools
          (exit_session job_id closed_exit tx pool r)
  unfolding exit_session
  closed_exit-IsRefused keep_alive elastic_pool pool tx r h there =
      let left = remove job_id r.usage_listener in
      record {
        after = record r {
          usage_listener = insert job_id tx left;
          channels = set_channel tx answered (set_channel tx dropped r.channels);
        };
        refused =
            found_listener (λ r. r) keep_alive elastic_pool
              (exit_session job_id closed_exit tx pool r) tx h
            ∙ dropped-refused tx _ (get_or-set_channel tx dropped r.channels there);
        listening = lookup-insert_self job_id tx left;
        kept = refl;
        panics =
            found_listener (λ r. r) keep_alive elastic_pool _ tx (lookup-insert_self job_id tx left)
            ∙ answered-panics tx _ (
                get_or-set_channel tx answered (set_channel tx dropped r.channels)
                  (omega (arith, there, length-set_channel tx dropped r.channels)));
      }
