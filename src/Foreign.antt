-- ===== src/Foreign.antt =====
-- What the program takes from other crates and from the hardware: types that it only passes around,
-- and the functions whose results it uses.
use overload.Common.{ℕ, ◌<◌, ◌^◌, Bool, Option, List}
use Prim.Native.String.{String}
use overload.Json.{Value}

pub record Foreign : Type 1 where
  -- `f64`, `f32`, and `(a * nth as f32).ceil() as u32`, a cast that saturates.
  pub Double : Type 0
  pub Float : Type 0
  pub ceil_mul : Float → ℕ → ℕ
  pub ceil_mul_lt : (a : Float) (nth : ℕ) → ceil_mul a nth < 2 ^ 32
  -- serde_json's `Number`; the `==` of its values stands below.
  pub Number : Type 0
  -- A regular expression parsed by regex_syntax, a script compiled by rhai, rhai's engine, and an
  -- open connection of sqlx.
  pub Hir : Type 0
  pub Ast : Type 0
  pub Engine : Type 0
  pub SqliteConnection : Type 0
  -- A path compiled by jsonpath_lib, and `select`; `none` is its error.
  pub CompiledPath : Type 0
  pub select : CompiledPath → Value Number → Option (List (Value Number))
  pub value_eq : Value Number → Value Number → Bool
  -- http's `Uri` with `path` and `query`.
  pub Uri : Type 0
  pub path : Uri → String
  pub query : Uri → Option String
