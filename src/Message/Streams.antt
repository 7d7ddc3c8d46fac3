-- ===== src/Message/Streams.antt =====
-- src/message/proto/iscp2.v1.rs: requests and responses about streams.
use iscp_rs.Base.{ℕ, String, Bool, Option, List, Map}
use iscp_rs.Base.Int.{ℤ}
use iscp_rs.Message.Types.{Bytes, DataId, DownstreamFilter}

pub record UpstreamOpenRequestExtensionFields : Type 0 where
  pub persist : Bool

pub record UpstreamCloseRequestExtensionFields : Type 0 where
  pub close_session : Bool

pub record UpstreamOpenRequest : Type 0 where
  pub request_id : ℕ
  pub session_id : String
  pub ack_interval : ℕ
  pub expiry_interval : ℕ
  pub data_ids : List DataId
  pub qos : ℤ
  pub extension_fields : Option UpstreamOpenRequestExtensionFields

pub record UpstreamOpenResponse : Type 0 where
  pub request_id : ℕ
  pub assigned_stream_id : Bytes
  pub assigned_stream_id_alias : ℕ
  pub data_id_aliases : Map ℕ DataId
  pub server_time : ℤ
  pub result_code : ℤ
  pub result_string : String
  pub extension_fields : Option (Unit {0})
  pub resume_token : String

pub record UpstreamResumeRequest : Type 0 where
  pub request_id : ℕ
  pub stream_id : Bytes
  pub extension_fields : Option (Unit {0})
  pub resume_token : String

pub record UpstreamResumeResponse : Type 0 where
  pub request_id : ℕ
  pub assigned_stream_id_alias : ℕ
  pub result_code : ℤ
  pub result_string : String
  pub extension_fields : Option (Unit {0})
  pub resume_token : String

pub record UpstreamCloseRequest : Type 0 where
  pub request_id : ℕ
  pub stream_id : Bytes
  pub total_data_points : ℕ
  pub final_sequence_number : ℕ
  pub extension_fields : Option UpstreamCloseRequestExtensionFields

pub record UpstreamCloseResponse : Type 0 where
  pub request_id : ℕ
  pub result_code : ℤ
  pub result_string : String
  pub extension_fields : Option (Unit {0})

pub record DownstreamOpenRequest : Type 0 where
  pub request_id : ℕ
  pub desired_stream_id_alias : ℕ
  pub downstream_filters : List DownstreamFilter
  pub expiry_interval : ℕ
  pub data_id_aliases : Map ℕ DataId
  pub qos : ℤ
  pub extension_fields : Option (Unit {0})
  pub omit_empty_chunk : Bool

pub record DownstreamOpenResponse : Type 0 where
  pub request_id : ℕ
  pub assigned_stream_id : Bytes
  pub server_time : ℤ
  pub result_code : ℤ
  pub result_string : String
  pub extension_fields : Option (Unit {0})
  pub resume_token : String

pub record DownstreamResumeRequest : Type 0 where
  pub request_id : ℕ
  pub stream_id : Bytes
  pub desired_stream_id_alias : ℕ
  pub extension_fields : Option (Unit {0})
  pub resume_token : String

pub record DownstreamResumeResponse : Type 0 where
  pub request_id : ℕ
  pub result_code : ℤ
  pub result_string : String
  pub extension_fields : Option (Unit {0})
  pub resume_token : String

pub record DownstreamCloseRequest : Type 0 where
  pub request_id : ℕ
  pub stream_id : Bytes
  pub extension_fields : Option (Unit {0})

pub record DownstreamCloseResponse : Type 0 where
  pub request_id : ℕ
  pub result_code : ℤ
  pub result_string : String
  pub extension_fields : Option (Unit {0})
