-- ===== src/Iscp/Types.antt =====
-- src/iscp/types.rs, and the configuration of a downstream (src/iscp/downstream.rs). A `Duration`
-- is its number of nanoseconds; an `Arc` is what it points to.
use iscp_rs.Base.{ℕ, String, Bool, true, false, List, []}
use iscp_rs.Message.ResultCode.{ResultCode}
use iscp_rs.Message.Types.{DataId, DataPoint, QoS, unreliable, Uuid, DownstreamFilter}

pub record DataPointGroup : Type 0 where
  pub data_id : DataId
  pub data_points : List DataPoint

pub record UpstreamInfo : Type 0 where
  pub session_id : String
  pub stream_id : Uuid
  pub source_node_id : String

pub record UpstreamChunk : Type 0 where
  pub sequence_number : ℕ
  pub data_point_groups : List DataPointGroup

pub record UpstreamChunkResult : Type 0 where
  pub sequence_number : ℕ
  pub result_code : ResultCode
  pub result_string : String

pub record DownstreamChunk : Type 0 where
  pub sequence_number : ℕ
  pub data_point_groups : List DataPointGroup
  pub upstream : UpstreamInfo

pub data DownstreamReordering : Type 0 where
  off best_effort strict : DownstreamReordering

abbrev pub reordering_beq : DownstreamReordering → DownstreamReordering → Bool
reordering_beq off off = true
reordering_beq best_effort best_effort = true
reordering_beq strict strict = true
reordering_beq _ _ = false

abbrev pub Duration : Type 0
Duration = ℕ

pub record DownstreamConfig : Type 0 where
  pub filters : List DownstreamFilter
  pub expiry_interval : Duration
  pub qos : QoS
  pub data_ids : List DataId
  pub ack_interval : Duration
  pub omit_empty_chunk : Bool
  pub reordering : DownstreamReordering
  pub reordering_chunks : ℕ
  pub close_timeout : Duration

-- `DownstreamConfig::default()`.
abbrev pub default_downstream_config : DownstreamConfig
default_downstream_config = record {
  filters = [];
  expiry_interval = 60_000_000_000;
  qos = unreliable;
  data_ids = [];
  ack_interval = 100_000_000;
  omit_empty_chunk = false;
  reordering = off;
  reordering_chunks = 0xFF;
  close_timeout = 10_000_000_000;
}
