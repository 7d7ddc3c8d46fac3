-- ===== src/Message.antt =====
-- src/message: the messages of the protocol.
pub mod Types
pub mod ResultCode
pub mod Chunks
pub mod Connections
pub mod Streams
pub mod Metadata
pub mod UpMetadata
pub mod Messages
pub mod RequestId
pub mod Requests
