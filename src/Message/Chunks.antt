-- ===== src/Message/Chunks.antt =====
-- src/message/proto/iscp2.v1.rs: the chunks of streams, their results and acknowledgements.
use iscp_rs.Base.{
  ℕ, String, Option, List, Map, ◌≡◌, ◌↔◌, ap, Bool, true, false, Eq, nat_eq, ◌==◌, arith,
}
use iscp_rs.Base.Int.{ℤ}
use iscp_rs.Message.Types.{Bytes, DataId, DataPoint, data_id_beq, data_id_equal_iff}

pub record DownstreamFilterReference : Type 0 where
  pub downstream_filter_index : ℕ
  pub data_filter_index : ℕ

pub record DownstreamFilterReferences : Type 0 where
  pub references : List DownstreamFilterReference

pub data DataIdOrAlias : Type 0 where
  data_id : DataId → DataIdOrAlias
  data_id_alias : ℕ → DataIdOrAlias

data_id_inj : {a b : DataId} → data_id a ≡ data_id b → a ≡ b
data_id_inj h = cc

alias_inj : {a b : ℕ} → data_id_alias a ≡ data_id_alias b → a ≡ b
alias_inj h = cc

abbrev pub data_id_or_alias_beq : DataIdOrAlias → DataIdOrAlias → Bool
data_id_or_alias_beq (data_id a) (data_id b) = data_id_beq a b
data_id_or_alias_beq (data_id_alias a) (data_id_alias b) = a == b
data_id_or_alias_beq _ _ = false

pub data_id_or_alias_equal_iff : (a b : DataIdOrAlias) → (data_id_or_alias_beq a b ≡ true) ↔ (a ≡ b)
data_id_or_alias_equal_iff (data_id a) (data_id b) =
    let e = data_id_equal_iff a b in (λ h. ap data_id (e.0 h), λ h. e.1 (data_id_inj h))
data_id_or_alias_equal_iff (data_id a) (data_id_alias b) = (λ h. cc, λ h. cc)
data_id_or_alias_equal_iff (data_id_alias a) (data_id b) = (λ h. cc, λ h. cc)
data_id_or_alias_equal_iff (data_id_alias a) (data_id_alias b) =
    (λ h. ap data_id_alias (ground arith), λ h. ground (arith, alias_inj h))

instance abbrev pub data_id_or_alias_eq : Eq DataIdOrAlias
data_id_or_alias_eq = record {
  equal = data_id_or_alias_beq;
  equal_iff = data_id_or_alias_equal_iff;
}

pub record DataPointGroup : Type 0 where
  pub data_points : List DataPoint
  pub data_filter_ids : List ℕ
  pub data_id_or_alias : Option DataIdOrAlias

pub record StreamChunk : Type 0 where
  pub sequence_number : ℕ
  pub data_point_groups : List DataPointGroup

pub record UpstreamInfo : Type 0 where
  pub session_id : String
  pub stream_id : Bytes
  pub source_node_id : String

pub data UpstreamOrAlias : Type 0 where
  upstream_info : UpstreamInfo → UpstreamOrAlias
  upstream_alias : ℕ → UpstreamOrAlias

pub record UpstreamChunk : Type 0 where
  pub stream_id_alias : ℕ
  pub stream_chunk : Option StreamChunk
  pub data_ids : List DataId
  pub extension_fields : Option (Unit {0})

pub record UpstreamChunkResult : Type 0 where
  pub sequence_number : ℕ
  pub result_code : ℤ
  pub result_string : String
  pub extension_fields : Option (Unit {0})

pub record UpstreamChunkAck : Type 0 where
  pub stream_id_alias : ℕ
  pub results : List UpstreamChunkResult
  pub data_id_aliases : Map ℕ DataId
  pub extension_fields : Option (Unit {0})

pub record DownstreamChunk : Type 0 where
  pub stream_id_alias : ℕ
  pub stream_chunk : Option StreamChunk
  pub extension_fields : Option (Unit {0})
  pub downstream_filter_references : List DownstreamFilterReferences
  pub upstream_or_alias : Option UpstreamOrAlias

pub record DownstreamChunkResult : Type 0 where
  pub stream_id_of_upstream : Bytes
  pub sequence_number_in_upstream : ℕ
  pub result_code : ℤ
  pub result_string : String
  pub extension_fields : Option (Unit {0})

pub record DownstreamChunkAck : Type 0 where
  pub stream_id_alias : ℕ
  pub ack_id : ℕ
  pub results : List DownstreamChunkResult
  pub upstream_aliases : Map ℕ UpstreamInfo
  pub data_id_aliases : Map ℕ DataId
  pub extension_fields : Option (Unit {0})

pub record DownstreamChunkAckComplete : Type 0 where
  pub stream_id_alias : ℕ
  pub ack_id : ℕ
  pub result_code : ℤ
  pub result_string : String
  pub extension_fields : Option (Unit {0})
