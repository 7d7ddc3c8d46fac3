-- ===== src/Wire.antt =====
-- src/wire: one connection, its requests and what it reads.
pub mod Requests
pub mod ReadLoop
pub mod Conn
pub mod Writer
mod Tests
