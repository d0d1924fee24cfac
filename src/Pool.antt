-- ===== src/Pool.antt =====
-- cluster-executor/src/connection.rs: `QueuePool`, the connections of one test. A `usize` that counts
-- connections is a plain number, but for the one subtraction; `max_connection`, an `i64` cast from
-- a `usize`, is that number, and the sign of a difference is written out. An `i32` is an integer.
pub mod Steps
pub mod Sound
pub mod Bounds
pub mod Tests
use overload.Common.{
  ℕ, zero, suc, ◌+◌, ◌-◌, min, Bool, true, false, not, ◌&&◌, ◌||◌, List, [], ◌∷◌, ◌++◌, length, map,
  take, drop, Option, none, some, ltb, leb, ◌==◌, if◌then◌else◌,
}
use overload.Common.Int.{ℤ, pos, ltb_ℤ, ◌-ℤ◌}
use overload.Http.{ConnectionKeepAlive}

-- `Handle` is hyper's `SendRequest`.
pub record HttpConnection (Handle : Type 0) : Type 0 where
  pub request_handle : Handle
  pub should_drop : Bool
  pub expire_at : ℕ
  pub remaining_reuse : ℤ

pub record QueuePool (Handle : Type 0) : Type 0 where
  pub max_connection : ℕ
  pub connections : List (HttpConnection Handle)
  pub recyclable_connections : List (HttpConnection Handle)
  pub new_connections : List (HttpConnection Handle)
  pub busy_connections : ℕ
  pub elastic : Bool
  pub keep_alive : ConnectionKeepAlive
  pub failed_connection : ℕ

-- What the spawned task `resize_connection_pool` is to do.
pub data Resize : Type 0 where
  grow shrink : ℕ → Resize

-- The result of popping connections: the ready ones, how many were dropped and broken, the rest.
pub record Popped (Handle : Type 0) : Type 0 where
  pub given : List (HttpConnection Handle)
  pub dropped : ℕ
  pub broken : ℕ
  pub rest : List (HttpConnection Handle)

abbrev pub u64_max : ℕ
u64_max = 18446744073709551615

abbrev pub i32_max : ℕ
i32_max = 2147483647

module _ {Handle : Type 0} where
  unfoldable pub new : ConnectionKeepAlive → Bool → QueuePool Handle
  new keep_alive elastic_pool = record {
    max_connection = 0;
    connections = [];
    recyclable_connections = [];
    new_connections = [];
    busy_connections = 0;
    elastic = elastic_pool;
    keep_alive = keep_alive;
    failed_connection = 0;
  }

  -- `open_connection` when the handshake succeeds, at time `now`.
  unfoldable pub open_connection : (now : ℕ) → ConnectionKeepAlive → Handle → HttpConnection Handle
  open_connection now keep_alive handle = record {
    request_handle = handle;
    should_drop = false;
    expire_at = min u64_max (now + keep_alive.ttl);
    remaining_reuse = pos (min i32_max keep_alive.max_request_per_connection);
  }

  unfoldable pub set_connection_count : ℕ → QueuePool Handle → QueuePool Handle × Resize
  set_connection_count connection_count self =
      let kept = drop (length self.connections - connection_count) self.connections in
      let active_con = length self.new_connections + self.busy_connections + length kept in
      (
        record self {
          elastic = self.elastic && connection_count == self.max_connection;
          connections = kept;
          max_connection = connection_count;
        },
        if ltb self.max_connection connection_count
            then grow (connection_count - active_con)
            else shrink (self.max_connection - connection_count),
      )

  unfoldable pub resize_conn_container :
      List (HttpConnection Handle) → ℕ → List (HttpConnection Handle)
  resize_conn_container container to_be_removed =
      let len = length container in
      if ltb len to_be_removed then [] else take (len - to_be_removed) container

  -- `add_new_connection` of `count` connections, of which those to `opened` succeed in time.
  unfoldable pub add_new_connection :
      (now count : ℕ) → (opened : List Handle) → QueuePool Handle → QueuePool Handle
  add_new_connection now count opened self = record self {
    failed_connection = self.failed_connection + (count - length opened);
    new_connections = self.new_connections ++ map (open_connection now self.keep_alive) opened;
  }

  unfoldable pub resize_connection_pool :
      (now : ℕ) → (opened : List Handle) → Resize → QueuePool Handle → QueuePool Handle
  resize_connection_pool now opened (grow diff) self =
      if diff == 0 then self else add_new_connection now diff opened self
  resize_connection_pool now opened (shrink diff) self =
      if diff == 0
      then self
      else record self { new_connections = resize_conn_container self.new_connections diff }

  -- The loop that pops connections; `ready i` answers `check_ready` of the i-th.
  unfoldable pub pop_ready :
      (ready : ℕ → Bool) → (connection_request : ℕ) → List (HttpConnection Handle) → Popped Handle
  pop_ready ready zero connections = record {
    given = [];
    dropped = 0;
    broken = 0;
    rest = connections;
  }
  pop_ready ready (suc n) [] = record { given = []; dropped = 0; broken = 0; rest = [] }
  pop_ready ready (suc n) (con ∷ connections) =
      let p = pop_ready ready n connections in
      if con.should_drop
      then record p { dropped = p.dropped + 1 }
      else (if ready n
          then record p { given = con ∷ p.given }
          else record p { broken = p.broken + 1 })

  -- Both claims, and `self.busy_connections -= returned_to_pool`, which wraps.
  unfoldable pub claim_all : QueuePool Handle → QueuePool Handle
  claim_all self =
      let returned_to_pool = length self.recyclable_connections in
      record self {
        connections = self.connections ++ self.recyclable_connections ++ self.new_connections;
        recyclable_connections = [];
        new_connections = [];
        busy_connections =
            if leb returned_to_pool self.busy_connections
            then self.busy_connections - returned_to_pool
            else self.busy_connections + u64_max + 1 - returned_to_pool;
      }

  -- The pool size of a pool that is not elastic.
  unfoldable pub enforce_size : QueuePool Handle → QueuePool Handle
  enforce_size self =
      let available = length self.connections in
      let current_active = available + self.busy_connections in
      if ltb self.max_connection current_active
      then record self {
        connections = take (available - (current_active - self.max_connection)) self.connections;
      }
      else self

  -- The connections that are given out, the pool, and the counts of the two calls of
  -- `add_new_connection_mut`, which spawns no task for 0.
  unfoldable pub get_connections :
      (ready : ℕ → Bool)
      → (connection_request : ℕ) → QueuePool Handle
      → List (HttpConnection Handle) × QueuePool Handle × ℕ × ℕ
  get_connections ready connection_request self =
      let claimed = claim_all self in
      let sized = if claimed.elastic then claimed else enforce_size claimed in
      let wanted = if claimed.elastic then connection_request - length claimed.connections else 0 in
      let popped = pop_ready ready connection_request sized.connections in
      (
        popped.given,
        record sized {
          connections = popped.rest;
          failed_connection = 0;
          busy_connections = sized.busy_connections + length popped.given;
        },
        wanted,
        popped.broken + popped.dropped + sized.failed_connection,
      )

  -- A connection that comes back at time `now`.
  unfoldable pub return_connection :
      (now : ℕ) → HttpConnection Handle → QueuePool Handle → QueuePool Handle
  return_connection now connection self =
      let last_use =
        ltb connection.expire_at now || not (ltb_ℤ (pos 1) connection.remaining_reuse) in
      record self {
        recyclable_connections =
            self.recyclable_connections
            ++ record connection {
              should_drop = if last_use then true else connection.should_drop;
              remaining_reuse = connection.remaining_reuse -ℤ pos 1;
            }
              ∷ [];
      }
