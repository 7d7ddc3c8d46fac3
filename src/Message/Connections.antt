-- ===== src/Message/Connections.antt =====
-- src/message/proto/iscp2.v1.rs: requests and responses about connections, calls and pings.
use iscp_rs.Base.{ℕ, String, Option}
use iscp_rs.Base.Int.{ℤ}
use iscp_rs.Message.Types.{Bytes}

pub record IntdashExtensionFields : Type 0 where
  pub project_uuid : String

pub record ConnectRequestExtensionFields : Type 0 where
  pub access_token : String
  pub intdash : Option IntdashExtensionFields

pub record ConnectRequest : Type 0 where
  pub request_id : ℕ
  pub protocol_version : String
  pub node_id : String
  pub ping_interval : ℕ
  pub ping_timeout : ℕ
  pub extension_fields : Option ConnectRequestExtensionFields
  pub connection_id : String
  pub connection_group_id : String
  pub expiry_interval : ℕ

pub record ConnectResponse : Type 0 where
  pub request_id : ℕ
  pub protocol_version : String
  pub result_code : ℤ
  pub result_string : String
  pub extension_fields : Option (Unit {0})
  pub connection_id : String
  pub connection_group_id : String

pub record Disconnect : Type 0 where
  pub result_code : ℤ
  pub result_string : String
  pub extension_fields : Option (Unit {0})

pub record Ping : Type 0 where
  pub request_id : ℕ
  pub extension_fields : Option (Unit {0})

pub record Pong : Type 0 where
  pub request_id : ℕ
  pub extension_fields : Option (Unit {0})

pub record UpstreamCall : Type 0 where
  pub call_id : String
  pub request_call_id : String
  pub destination_node_id : String
  pub name : String
  pub type_ : String
  pub payload : Bytes
  pub extension_fields : Option (Unit {0})

pub record UpstreamCallAck : Type 0 where
  pub call_id : String
  pub result_code : ℤ
  pub result_string : String
  pub extension_fields : Option (Unit {0})

pub record DownstreamCall : Type 0 where
  pub call_id : String
  pub request_call_id : String
  pub source_node_id : String
  pub name : String
  pub type_ : String
  pub payload : Bytes
  pub extension_fields : Option (Unit {0})
