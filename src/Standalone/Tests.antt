-- ===== src/Standalone/Tests.antt =====
-- The job of four seconds on a node that runs alone.
use overload.Common.{suc, ◌≡◌, refl, [], some, arith}
use overload.Common.Dict.{lookup}
use overload.Generator.{qps_of, connection_rate_of}
use overload.Jobs.{completed}
use overload.Primary.Delivery.{total, qps_in, connections_in}
use overload.Primary.Session.Tests.{cluster, undisturbed, validated, free, listed, always_kept}
use overload.RateSpec.Scheme.Reference.{rate_of}
use overload.Samples.{foreign, steps_request, nothing_sent}
use overload.Standalone.{Solo, handle_request_solo}
use overload.Standalone.Total.{handle_request_solo-total}

handle_request_solo-total_example :
    (final : Solo foreign) × (handle_request_solo cluster undisturbed steps_request
        (suc 4)
        nothing_sent
        []
      ≡ some final)
    × (final.second ≡ 4)
    × (lookup "steps" final.jobs ≡ some completed)
    × (total qps_in final.net.log ≡ 10)
    × (total connections_in final.net.log ≡ 0)
unfolding qps_of connection_rate_of rate_of
handle_request_solo-total_example =
    handle_request_solo-total cluster undisturbed steps_request "steps" nothing_sent [] refl listed
      (omega arith) validated free always_kept refl
