-- ===== src/Amf3/Value.antt =====
-- protocol/amf/const.go: what the AMF3 decoder gives, and what it remembers. A string is its bytes, an
-- int32 its 32 bits, a float64 its 64 bits, and a `time.Time` its seconds.
use live.Base.{ℕ, Bool, List, []}

mutual
  pub data Value : Type 0 where
    null : Value
    boolean : Bool → Value
    integer : ℕ → Value
    double : ℕ → Value
    string : List ℕ → Value
    date : ℕ → Value
    byte_array : List ℕ → Value
    array : Values → Value
    object : Members → Value

  pub data Values : Type 0 where
    no_values : Values
    value : Value → Values → Values

  pub data Members : Type 0 where
    no_members : Members
    member : List ℕ → Value → Members → Members

pub record Trait : Type 0 where
  pub type_name : List ℕ
  pub externalizable : Bool
  pub dynamic : Bool
  pub properties : List (List ℕ)

-- The part of a decoder that the readers of AMF3 change.
pub record Refs : Type 0 where
  pub string_refs : List (List ℕ)
  pub object_refs : List Value
  pub trait_refs : List Trait

abbrev pub no_refs : Refs
no_refs = record { string_refs = []; object_refs = []; trait_refs = [] }
