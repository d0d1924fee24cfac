-- ===== src/Primary.antt =====
-- cluster-executor/src/primary.rs: the node that drives a test.
pub mod Rates
pub mod Delivery
pub mod Dispatch
pub mod Session
pub mod Totals
pub mod Tests
use Prim.Native.String.{String}
use overload.Common.{
  ℕ, suc, ◌+◌, ◌/◌, ◌%◌, Bool, true, false, List, [], ◌∷◌, ◌++◌, length, replicate, get_elem?,
  Option, none, some, ◌>>=◌, ltb, ◌==◌, if◌then◌else◌,
}
use overload.Foreign.{Foreign}
use overload.Messages.{RateMessage, MessageFromPrimary, Net, World, Senders, send}

-- The loop over both vectors: one more for the first `qps_remainder`, and for the first
-- `connection_count_remainder`.
pub spread : (pos qps_remainder conn_remainder : ℕ) → List ℕ → List ℕ → List ℕ × List ℕ
spread pos qr cr [] conns = ([], conns)
spread pos qr cr (q ∷ qs) [] = (q ∷ qs, [])
spread pos qr cr (q ∷ qs) (c ∷ cs) =
    let (qs', cs') = spread (pos + 1) qr cr qs cs in
    ((if ltb pos qr then q + 1 else q) ∷ qs', (if ltb pos cr then c + 1 else c) ∷ cs')

-- `none` is the panic of a division by zero.
pub calculate_req_per_secondary : (qps connection_count n_secondary : ℕ) → Option (List ℕ × List ℕ)
unfolding spread
calculate_req_per_secondary qps connection_count n =
    if n == 0
    then none
    else some (
        spread 0 (qps % n) (connection_count % n) (replicate n (qps / n))
          (replicate n (connection_count / n)))

module _ {F : Foreign} (world : World) where
  -- The loop over the senders: the keys of those that failed. `none` is an index out of bounds.
  send_rates : (pos : ℕ) → Senders → List ℕ → List ℕ → Net F → Option (List String × Net F)
  send_rates pos [] qps conns net = some ([], net)
  send_rates pos (id ∷ senders) qps conns net = do
    q ← get_elem? qps pos
    c ← get_elem? conns pos
    let msg = MessageFromPrimary.rates (record { qps = q; connections = c })
    let (arrived, net') = send world id msg net
    (failed, net'') ← send_rates (suc pos) senders qps conns net'
    some (if arrived then failed else id ∷ failed, net'')

  -- The failed senders; the source answers `Ok` if there is none.
  pub send_rate_message_to_secondaries :
      Senders → (qps connection_count : ℕ) → Net F → Option (List String × Net F)
  send_rate_message_to_secondaries senders qps connection_count net = do
    (qps_to, conns_to) ← calculate_req_per_secondary qps connection_count (length senders)
    send_rates 0 senders qps_to conns_to net
