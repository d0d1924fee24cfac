-- ===== src/Datagen.antt =====
-- datagen/src/lib.rs: the data schema of generated requests. The children read it from JSON, and
-- generate data for it.
pub mod Parsing
pub mod Drawing
pub mod Validity
pub mod Keeping
pub mod Reading
pub mod Conformance
pub mod Bounds
pub mod Entries
pub mod Generating
pub mod Panics
pub mod Tests
use Prim.Native.String.{String}
use overload.Common.{Option, List}
use overload.Common.Int.{ℤ}
use overload.Foreign.{Foreign}
use overload.Json.{Value}

pub data Keywords : Type 0 where
  min_length max_length minimum maximum constant pattern_key : Keywords

pub data Constraints (F : Foreign) : Type 0 where
  min_length max_length minimum maximum constant_int : ℤ → Constraints F
  constant_str : String → Constraints F
  constant_value : Value F.Number → Constraints F
  regex : String → Option F.Hir → Constraints F

mutual
  pub data DataSchema (F : Foreign) : Type 0 where
    empty : DataSchema F
    string integer : String → List (Keywords × Constraints F) → DataSchema F
    object : Option String → Schemas F → DataSchema F
    constant_object : Option String → List (Keywords × Constraints F) → DataSchema F
    array : Option String → Schemas F → List (Keywords × Constraints F) → DataSchema F

  pub data Schemas (F : Foreign) : Type 0 where
    nil : Schemas F
    cons : DataSchema F → Schemas F → Schemas F
