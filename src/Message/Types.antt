-- ===== src/Message/Types.antt =====
-- src/message/proto/iscp2.v1.rs: the data that messages carry. Bytes are lists of numbers.
use iscp_rs.Base.{
  ℕ, String, ◌≡◌, ◌↔◌, Bool, ◌&&◌, List, arith, Eq, ◌==◌, nat_eq, string_eq, true, false,
}
use iscp_rs.Base.Int.{ℤ}

abbrev pub Bytes : Type 0
Bytes = List ℕ

-- A 128-bit identifier, by its number.
abbrev pub Uuid : Type 0
Uuid = ℕ

pub record DataId : Type 0 where
  pub name : String
  pub type_ : String

-- `elapsed_time` is an `i64`, in nanoseconds.
pub record DataPoint : Type 0 where
  pub elapsed_time : ℤ
  pub payload : Bytes

pub data QoS : Type 0 where
  unreliable reliable partial : QoS

abbrev pub qos_beq : QoS → QoS → Bool
qos_beq unreliable unreliable = true
qos_beq reliable reliable = true
qos_beq partial partial = true
qos_beq _ _ = false

pub record DataFilter : Type 0 where
  pub name : String
  pub type_ : String

pub record DownstreamFilter : Type 0 where
  pub source_node_id : String
  pub data_filters : List DataFilter

abbrev pub data_id_beq : DataId → DataId → Bool
data_id_beq a b = a.name == b.name && a.type_ == b.type_

pub data_id_equal_iff : (a b : DataId) → (data_id_beq a b ≡ true) ↔ (a ≡ b)
data_id_equal_iff a b =
    ground (arith, string_eq.equal_iff a.name b.name, string_eq.equal_iff a.type_ b.type_)

instance abbrev pub data_id_eq : Eq DataId
data_id_eq = record { equal = data_id_beq; equal_iff = data_id_equal_iff }
