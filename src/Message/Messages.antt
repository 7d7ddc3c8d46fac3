-- ===== src/Message/Messages.antt =====
-- src/message/proto/iscp2.v1.rs: every message.
use iscp_rs.Base.{Option}
use iscp_rs.Message.Chunks.{
  UpstreamChunk, UpstreamChunkAck, DownstreamChunk, DownstreamChunkAck, DownstreamChunkAckComplete,
}
use iscp_rs.Message.Connections.{
  ConnectRequest, ConnectResponse, Disconnect, Ping, Pong, UpstreamCall, UpstreamCallAck,
  DownstreamCall,
}
use iscp_rs.Message.Streams.{
  UpstreamOpenRequest, UpstreamOpenResponse, UpstreamResumeRequest, UpstreamResumeResponse,
  UpstreamCloseRequest, UpstreamCloseResponse, DownstreamOpenRequest, DownstreamOpenResponse,
  DownstreamResumeRequest, DownstreamResumeResponse, DownstreamCloseRequest,
  DownstreamCloseResponse,
}
use iscp_rs.Message.Metadata.{DownstreamMetadata, DownstreamMetadataAck, UpstreamMetadataAck}
use iscp_rs.Message.UpMetadata.{UpstreamMetadata}

pub data MessageBody : Type 0 where
  connect_request : ConnectRequest → MessageBody
  connect_response : ConnectResponse → MessageBody
  disconnect : Disconnect → MessageBody
  upstream_open_request : UpstreamOpenRequest → MessageBody
  upstream_open_response : UpstreamOpenResponse → MessageBody
  upstream_resume_request : UpstreamResumeRequest → MessageBody
  upstream_resume_response : UpstreamResumeResponse → MessageBody
  upstream_close_request : UpstreamCloseRequest → MessageBody
  upstream_close_response : UpstreamCloseResponse → MessageBody
  upstream_chunk : UpstreamChunk → MessageBody
  upstream_chunk_ack : UpstreamChunkAck → MessageBody
  upstream_metadata : UpstreamMetadata → MessageBody
  upstream_metadata_ack : UpstreamMetadataAck → MessageBody
  downstream_open_request : DownstreamOpenRequest → MessageBody
  downstream_open_response : DownstreamOpenResponse → MessageBody
  downstream_resume_request : DownstreamResumeRequest → MessageBody
  downstream_resume_response : DownstreamResumeResponse → MessageBody
  downstream_close_request : DownstreamCloseRequest → MessageBody
  downstream_close_response : DownstreamCloseResponse → MessageBody
  downstream_chunk : DownstreamChunk → MessageBody
  downstream_chunk_ack : DownstreamChunkAck → MessageBody
  downstream_chunk_ack_complete : DownstreamChunkAckComplete → MessageBody
  downstream_metadata : DownstreamMetadata → MessageBody
  downstream_metadata_ack : DownstreamMetadataAck → MessageBody
  ping : Ping → MessageBody
  pong : Pong → MessageBody
  upstream_call : UpstreamCall → MessageBody
  upstream_call_ack : UpstreamCallAck → MessageBody
  downstream_call : DownstreamCall → MessageBody

pub record Message : Type 0 where
  pub message : Option MessageBody
