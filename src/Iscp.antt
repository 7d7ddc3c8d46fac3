-- ===== src/Iscp.antt =====
-- src/iscp: connections, upstreams and downstreams.
pub mod Types
pub mod Reorder
pub mod DownState
pub mod DownClose
pub mod SmallUuid
pub mod FlushPolicy
pub mod Storage
pub mod Upstream
pub mod Misc
pub mod Metadata
pub mod Retry
pub mod Calls
pub mod Conn
pub mod ConnBuilder
pub mod Resume
pub mod Opening
