-- ===== src/Message/Metadata.antt =====
-- src/message/proto/iscp2.v1.rs: metadata.
use iscp_rs.Base.{ℕ, String, Bool, Option, List}
use iscp_rs.Base.Int.{ℤ}
use iscp_rs.Message.Types.{Bytes, DownstreamFilter}

pub record UpstreamMetadataExtensionFields : Type 0 where
  pub persist : Bool

pub record BaseTime : Type 0 where
  pub session_id : String
  pub name : String
  pub priority : ℕ
  pub elapsed_time : ℕ
  pub base_time : ℤ

pub record UpstreamOpen : Type 0 where
  pub stream_id : Bytes
  pub session_id : String
  pub qos : ℤ

pub record UpstreamAbnormalClose : Type 0 where
  pub stream_id : Bytes
  pub session_id : String

pub record UpstreamResume : Type 0 where
  pub stream_id : Bytes
  pub session_id : String
  pub qos : ℤ

pub record UpstreamNormalClose : Type 0 where
  pub stream_id : Bytes
  pub session_id : String
  pub total_data_points : ℕ
  pub final_sequence_number : ℕ

pub record DownstreamOpen : Type 0 where
  pub stream_id : Bytes
  pub downstream_filters : List DownstreamFilter
  pub qos : ℤ

pub record DownstreamAbnormalClose : Type 0 where
  pub stream_id : Bytes

pub record DownstreamResume : Type 0 where
  pub stream_id : Bytes
  pub downstream_filters : List DownstreamFilter
  pub qos : ℤ

pub record DownstreamNormalClose : Type 0 where
  pub stream_id : Bytes

pub data DownstreamMetadataBody : Type 0 where
  base_time : BaseTime → DownstreamMetadataBody
  upstream_open : UpstreamOpen → DownstreamMetadataBody
  upstream_abnormal_close : UpstreamAbnormalClose → DownstreamMetadataBody
  upstream_resume : UpstreamResume → DownstreamMetadataBody
  upstream_normal_close : UpstreamNormalClose → DownstreamMetadataBody
  downstream_open : DownstreamOpen → DownstreamMetadataBody
  downstream_abnormal_close : DownstreamAbnormalClose → DownstreamMetadataBody
  downstream_resume : DownstreamResume → DownstreamMetadataBody
  downstream_normal_close : DownstreamNormalClose → DownstreamMetadataBody

pub record DownstreamMetadata : Type 0 where
  pub request_id : ℕ
  pub stream_id_alias : ℕ
  pub source_node_id : String
  pub extension_fields : Option (Unit {0})
  pub metadata : Option DownstreamMetadataBody

pub record DownstreamMetadataAck : Type 0 where
  pub request_id : ℕ
  pub result_code : ℤ
  pub result_string : String
  pub extension_fields : Option (Unit {0})

pub record UpstreamMetadataAck : Type 0 where
  pub request_id : ℕ
  pub result_code : ℤ
  pub result_string : String
  pub extension_fields : Option (Unit {0})
