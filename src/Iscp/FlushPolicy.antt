-- ===== src/Iscp/FlushPolicy.antt =====
-- src/iscp/flush_policy.rs: when an upstream is flushed. A `Duration` is its nanoseconds; `usize`
-- has 64 bits.
use iscp_rs.Base.{ℕ, Bool, true, false, Option, none, some, leb}
use iscp_rs.Iscp.Types.{Duration}

pub data FlushPolicy : Type 0 where
  never : FlushPolicy
  interval_only : Duration → FlushPolicy
  buffer_size_only : ℕ → FlushPolicy
  interval_or_buffer_size : Duration → ℕ → FlushPolicy
  immediately : FlushPolicy

abbrev pub default_flush_policy : FlushPolicy
default_flush_policy = interval_only 100_000_000

unfoldable pub interval : FlushPolicy → Option Duration
interval (interval_only d) = some d
interval (interval_or_buffer_size d size) = some d
interval _ = none

unfoldable pub buffer_size : FlushPolicy → Option ℕ
buffer_size (buffer_size_only size) = some size
buffer_size (interval_or_buffer_size d size) = some size
buffer_size _ = none

unfoldable pub need_flush : FlushPolicy → ℕ → Bool
need_flush immediately current = true
need_flush (buffer_size_only size) current = leb size current
need_flush (interval_or_buffer_size d size) current = leb size current
need_flush _ current = false
