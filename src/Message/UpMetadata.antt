-- ===== src/Message/UpMetadata.antt =====
-- src/message/proto/iscp2.v1.rs: metadata that a node sends.
use iscp_rs.Base.{ℕ, Option}
use iscp_rs.Message.Metadata.{UpstreamMetadataExtensionFields, BaseTime}

pub data UpstreamMetadataBody : Type 0 where
  base_time : BaseTime → UpstreamMetadataBody

pub record UpstreamMetadata : Type 0 where
  pub request_id : ℕ
  pub extension_fields : Option UpstreamMetadataExtensionFields
  pub metadata : Option UpstreamMetadataBody
