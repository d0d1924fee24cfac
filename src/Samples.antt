-- ===== src/Samples.antt =====
-- Concrete values for the runs and the witnesses of all parts: an instance of what the program takes
-- from elsewhere, and small requests.
use overload.Common.{
  ℕ, ◌*◌, ◌-◌, ◌%◌, ◌^◌, ◌<◌, refl, some, none, [], ◌∷◌, map, count_up, arith, ◌==◌, Bool, false,
  Option,
}
use Prim.Native.String.{String}
use text.Mathlib.Text
use overload.Foreign.{Foreign}
use overload.Json.{Value}
use overload.Http.{
  Target, Scheme, Request, HttpReq, RequestSpec, SplitRequestFile, RateSpecEnum,
  ConcurrentConnectionRateSpec, LoadGenerationMode,
}
use overload.Messages.{Net}
use overload.Providers.{Sqlite}
use overload.Providers.Cycle.{IsTable}
use overload.RateSpec.{Steps}

pub times_lt : (a n : ℕ) → a * n % 4294967296 < 2 ^ 32
times_lt a n = omega arith

-- Equality of texts and numbers.
abbrev pub same_value : Value ℕ → Value ℕ → Bool
same_value (Value.string s) (Value.string t) = Text.◌==◌ s t
same_value (Value.number m) (Value.number n) = m == n
same_value _ _ = false

abbrev pub foreign : Foreign
foreign = record {
  Double = ℕ;
  Float = ℕ;
  ceil_mul = λ a n. a * n % 4294967296;
  ceil_mul_lt = times_lt;
  Number = ℕ;
  Hir = ℕ;
  Ast = ℕ;
  Engine = ℕ;
  SqliteConnection = ℕ;
  CompiledPath = ℕ;
  select = λ path value. some (value ∷ []);
  value_eq = same_value;
  Uri = String × Option String;
  path = λ uri. uri.0;
  query = λ uri. uri.1;
}

abbrev pub target : Target
target = record { host = "example.com"; port = 8080; protocol = Scheme.http }

-- Seconds 0 to 2 at rate 1, seconds 3 to 5 at rate 7.
abbrev pub two_steps : Steps
two_steps = record {
  current_step = 0;
  steps = record { start = 0; end = 2; rate = 1 } ∷ record { start = 3; end = 5; rate = 7 } ∷ [];
}

abbrev pub steps_request : Request foreign
steps_request = record {
  name = some "steps";
  duration = 4;
  target = target;
  req = RequestSpec.request_list (record { reqs = [] });
  qps = RateSpecEnum.steps two_steps;
  concurrent_connection = ConcurrentConnectionRateSpec.elastic (record { max = 65535 });
  connection_keep_alive = record { ttl = 1000; max_request_per_connection = 10 };
  histogram_buckets = 20 ∷ 50 ∷ 100 ∷ [];
  response_assertion = none;
  generation_mode = LoadGenerationMode.immediate;
}

abbrev pub nothing_sent : Net foreign
nothing_sent = record { log = []; calls = 0 }

-- A table of ten rows.
abbrev pub row : ℕ → HttpReq
row n = record { id = ""; method = "GET"; url = "/get"; body = none; headers = [] }

abbrev pub database : Sqlite foreign
database = record {
  connect = λ file. some 1;
  count = λ connection. some 10;
  select_range = λ connection start end. some (map row (count_up start (end - start)));
}

pub table : IsTable database 1 10
table = record { row = row; selects = λ start end h k. refl }

abbrev pub split_file : SplitRequestFile foreign
split_file = record {
  file_name = "data.sqlite";
  inner = none;
  size = 2147483647;
  range_start_inclusive = 0;
  range_end_inclusive = 0;
  next_read_cursor = 0;
}

abbrev pub split_request : Request foreign
split_request = record steps_request { req = RequestSpec.split_request_file split_file }
