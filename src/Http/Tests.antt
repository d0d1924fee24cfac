-- ===== src/Http/Tests.antt =====
-- A request of random data, sent without a host header and with one in capitals.
use text.Mathlib.Text
use overload.Common.{◌≡◌, refl, false, none, [], ◌∷◌, ◌||◌}
use overload.Common.Dict.{insert}
use overload.Http.{RequestSpec, RandomDataRequest}
use overload.Http.Conversion.{
  HeaderName, RequestShadow, IsConverted, validate_and_update_host_header, any_key,
  from-IsConverted,
}
use overload.Samples.{foreign, target, steps_request}

abbrev host_name : HeaderName
host_name = record { text = "host"; eq = λ s. Text.◌==◌ s "host" || Text.◌==◌ s "HOST" }

abbrev random_data : RandomDataRequest foreign
random_data = record {
  init = false;
  method = "GET";
  url = "/anything";
  url_param_pos = none;
  headers = ("accept", "text/plain") ∷ [];
  body_schema = none;
  uri_param_schema = none;
}

abbrev sent : RequestShadow foreign
sent = record {
  name = steps_request.name;
  duration = steps_request.duration;
  target = target;
  req = RequestSpec.random_data_request random_data;
  qps = steps_request.qps;
  concurrent_connection = steps_request.concurrent_connection;
  connection_keep_alive = steps_request.connection_keep_alive;
  histogram_buckets = steps_request.histogram_buckets;
  response_assertion = none;
  generation_mode = steps_request.generation_mode;
}

added :
    validate_and_update_host_header host_name (("accept", "text/plain") ∷ []) target
    ≡ ("accept", "text/plain") ∷ ("host", "example.com") ∷ []
unfolding validate_and_update_host_header any_key insert
added = refl

left_alone :
    validate_and_update_host_header host_name (("HOST", "other.org") ∷ []) target
    ≡ ("HOST", "other.org") ∷ []
unfolding validate_and_update_host_header any_key
left_alone = refl

from-IsConverted_example : IsConverted host_name sent
from-IsConverted_example = from-IsConverted host_name sent refl
