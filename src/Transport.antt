-- ===== src/Transport.antt =====
-- src/transport: what carries the encoded messages.
pub mod Datagram
pub mod Compression
pub mod Negotiation
