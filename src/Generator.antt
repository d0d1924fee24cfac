-- ===== src/Generator.antt =====
-- cluster-executor/src/lib.rs: `RequestGenerator`, the stream of the rates of each second.
pub mod Stream
pub mod Tests
use overload.Common.{
  ℕ, ◌+◌, ◌*◌, ◌%◌, Option, none, some, Bool, true, false, if◌then◌else◌, leb, ◌>>=◌,
}
use overload.Assert.{ResponseAssertion}
use overload.Foreign.{Foreign}
use overload.Http.{Target, Request, RequestSpec, RateSpecEnum, ConcurrentConnectionRateSpec}
use overload.RateSpec.{u32_mod}
use overload.RateSpec.Scheme.{RateScheme, next}
use overload.RateSpec.Scheme as Scheme

pub record RequestGenerator (F : Foreign) : Type 0 where
  pub duration : ℕ
  pub time_scale : ℕ
  pub total : ℕ
  pub current_count : ℕ
  pub current_qps : ℕ
  pub shared_provider : Bool
  pub target : Target
  pub qps_scheme : RateScheme F.Float
  pub concurrent_connection : RateScheme F.Float
  pub response_assertion : Option (ResponseAssertion F)

module _ (F : Foreign) where
  -- `shared()` of the request providers.
  unfoldable pub shared : RequestSpec F → Bool
  shared (RequestSpec.request_list req) = false
  shared (RequestSpec.request_file req) = true
  shared (RequestSpec.split_request_file req) = true
  shared (RequestSpec.random_data_request req) = true
  shared (RequestSpec.json_template_request req) = true

  unfoldable pub new :
      ℕ
      → RequestSpec F
      → RateScheme F.Float
      → Target
      → RateScheme F.Float
      → Option (ResponseAssertion F)
      → RequestGenerator F
  new duration requests qps_scheme target concurrent_connection response_assertion = record {
    duration = duration;
    time_scale = 1;
    total = duration * 1 % u32_mod;
    current_count = 0;
    current_qps = 0;
    shared_provider = shared requests;
    target = target;
    qps_scheme = qps_scheme;
    concurrent_connection = concurrent_connection;
    response_assertion = response_assertion;
  }

  unfoldable pub qps_of : RateSpecEnum F → RateScheme F.Float
  qps_of (RateSpecEnum.constant_rate qps) = Scheme.constant qps
  qps_of (RateSpecEnum.linear qps) = Scheme.linear qps
  qps_of (RateSpecEnum.array_spec qps) = Scheme.array qps
  qps_of (RateSpecEnum.steps qps) = Scheme.steps qps

  unfoldable pub connection_rate_of : ConcurrentConnectionRateSpec F → RateScheme F.Float
  connection_rate_of (ConcurrentConnectionRateSpec.array_spec spec) = Scheme.array spec
  connection_rate_of (ConcurrentConnectionRateSpec.constant_rate spec) = Scheme.constant spec
  connection_rate_of (ConcurrentConnectionRateSpec.linear spec) = Scheme.linear spec
  connection_rate_of (ConcurrentConnectionRateSpec.elastic spec) = Scheme.elastic spec
  connection_rate_of (ConcurrentConnectionRateSpec.steps spec) = Scheme.steps spec

  -- `impl Into<RequestGenerator> for Request`
  unfoldable pub into_generator : Request F → RequestGenerator F
  into_generator r =
      new r.duration r.req (qps_of r.qps) r.target (connection_rate_of r.concurrent_connection)
        r.response_assertion

  -- `poll_next`: the item, `none` at the end of the stream, and the new state. The outer `none` is a
  -- panic.
  pub poll_next : RequestGenerator F → Option (Option (ℕ × ℕ) × RequestGenerator F)
  poll_next g = if leb g.total g.current_count then some (none, g) else (do
    (qps, qps_scheme) ← next F g.qps_scheme g.current_count none
    (conn, concurrent_connection) ← next F g.concurrent_connection g.current_count none
    some (
      some (qps, conn),
      record g {
        qps_scheme = qps_scheme;
        concurrent_connection = concurrent_connection;
        current_count = g.current_count + 1;
      },
    ))
