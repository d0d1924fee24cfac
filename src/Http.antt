-- ===== src/Http.antt =====
-- overload-http/src/lib.rs and request_specs.rs: the description of a load test. A map with text
-- keys is the list of its entries; `http::Method` and `Uri` are their texts.
pub mod Conversion
pub mod Tests
use Prim.Native.String.{String}
use overload.Common.{ℕ, Option, none, List, Bool}
use overload.Datagen.{DataSchema}
use overload.Assert.{ResponseAssertion}
use overload.Foreign.{Foreign}
use overload.Json.{Value}
use overload.RateSpec.{ConstantRate, ArraySpec, Elastic, Linear, Steps}

pub data Scheme : Type 0 where
  http : Scheme

pub record Target : Type 0 where
  pub host : String
  pub port : ℕ
  pub protocol : Scheme

pub record HttpReq : Type 0 where
  pub id : String
  pub method : String
  pub url : String
  pub body : Option String
  pub headers : List (String × String)

pub record RequestList : Type 0 where
  pub reqs : List HttpReq

pub record RequestFile (F : Foreign) : Type 0 where
  pub file_name : String
  pub inner : Option F.SqliteConnection
  pub size : ℕ

pub record SplitRequestFile (F : Foreign) : Type 0 where
  pub file_name : String
  pub inner : Option F.SqliteConnection
  pub size : ℕ
  pub range_start_inclusive : ℕ
  pub range_end_inclusive : ℕ
  pub next_read_cursor : ℕ

unfoldable pub clone_with_new_range :
    {F : Foreign} → SplitRequestFile F → ℕ × ℕ → SplitRequestFile F
clone_with_new_range self range = record {
  file_name = self.file_name;
  inner = none;
  size = self.size;
  range_start_inclusive = range.0;
  range_end_inclusive = range.1;
  next_read_cursor = range.0;
}

pub record UrlParam : Type 0 where
  pub name : String
  pub start : ℕ
  pub end : ℕ

pub record RandomDataRequest (F : Foreign) : Type 0 where
  pub init : Bool
  pub method : String
  pub url : String
  pub url_param_pos : Option (List UrlParam)
  pub headers : List (String × String)
  pub body_schema : Option (DataSchema F)
  pub uri_param_schema : Option (DataSchema F)

pub record JsonTemplate (F : Foreign) : Type 0 where
  pub method : String
  pub url : Value F.Number
  pub headers : List (String × String)
  pub body : Value F.Number
  pub url_template : List (String × F.Ast)
  pub body_template : List (String × F.Ast)
  pub engine : F.Engine

pub data RequestSpec (F : Foreign) : Type 0 where
  request_list : RequestList → RequestSpec F
  request_file : RequestFile F → RequestSpec F
  split_request_file : SplitRequestFile F → RequestSpec F
  random_data_request : RandomDataRequest F → RequestSpec F
  json_template_request : JsonTemplate F → RequestSpec F

pub data RateSpecEnum (F : Foreign) : Type 0 where
  constant_rate : ConstantRate → RateSpecEnum F
  linear : Linear F.Float → RateSpecEnum F
  array_spec : ArraySpec → RateSpecEnum F
  steps : Steps → RateSpecEnum F

pub data ConcurrentConnectionRateSpec (F : Foreign) : Type 0 where
  constant_rate : ConstantRate → ConcurrentConnectionRateSpec F
  linear : Linear F.Float → ConcurrentConnectionRateSpec F
  array_spec : ArraySpec → ConcurrentConnectionRateSpec F
  steps : Steps → ConcurrentConnectionRateSpec F
  elastic : Elastic → ConcurrentConnectionRateSpec F

pub record ConnectionKeepAlive : Type 0 where
  pub ttl : ℕ
  pub max_request_per_connection : ℕ

-- common-types/src/lib.rs
pub data LoadGenerationMode : Type 0 where
  batch : (batch_size : ℕ) → LoadGenerationMode
  immediate : LoadGenerationMode

pub record Request (F : Foreign) : Type 0 where
  pub name : Option String
  pub duration : ℕ
  pub target : Target
  pub req : RequestSpec F
  pub qps : RateSpecEnum F
  pub concurrent_connection : ConcurrentConnectionRateSpec F
  pub connection_keep_alive : ConnectionKeepAlive
  pub histogram_buckets : List F.Double
  pub response_assertion : Option (ResponseAssertion F)
  pub generation_mode : LoadGenerationMode
