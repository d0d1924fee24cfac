-- ===== src/Json.antt =====
-- serde_json's `Value`, over its type of numbers. An object is its entries in order.
pub mod Access
use overload.Common.{Bool}
use Prim.Native.String.{String}

mutual
  pub data Value (N : Type 0) : Type 0 where
    null : Value N
    bool : Bool → Value N
    number : N → Value N
    string : String → Value N
    array : Items N → Value N
    object : Fields N → Value N

  pub data Items (N : Type 0) : Type 0 where
    nil : Items N
    cons : Value N → Items N → Items N

  pub data Fields (N : Type 0) : Type 0 where
    end : Fields N
    field : String → Value N → Fields N → Fields N
