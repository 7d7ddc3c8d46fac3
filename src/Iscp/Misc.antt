-- ===== src/Iscp/Misc.antt =====
-- src/iscp/misc.rs: conversions of the values that messages carry. A `SystemTime` is its number of
-- nanoseconds after the epoch, whose seconds are an `i64`. The crate `uuid` is a parameter, and so is
-- the text of prost's error on an unknown enumeration value.
use iscp_rs.Base.{ℕ, zero, suc, String, ◌*◌, ◌^◌, Option, none, some, if◌then◌else◌, ltb}
use iscp_rs.Base.Int.{ℤ, pos, negsuc}
use iscp_rs.Errors.{Outcome, ok, err, invalid_value}
use iscp_rs.Message.Types.{Bytes, Uuid, QoS, unreliable, reliable, partial}
use iscp_rs.Iscp.DownState.{UuidLib}

abbrev pub SystemTime : Type 0
SystemTime = ℤ

unfoldable pub parse_stream_id : UuidLib → Bytes → Outcome Uuid
parse_stream_id uuid bytes = elim (uuid.from_slice bytes) [
  | some stream_id ↦ ok stream_id
  | none ↦ err (invalid_value "invalid bytes for stream id")
]

abbrev pub system_time_end : ℕ
system_time_end = 2 ^ 63 * 1_000_000_000

-- `SystemTime::UNIX_EPOCH.checked_add`.
abbrev pub after_epoch : ℕ → Option SystemTime
after_epoch nanos = if ltb nanos system_time_end then some (pos nanos) else none

unfoldable pub unix_epoch_to_system_time : ℤ → Outcome SystemTime
unix_epoch_to_system_time (negsuc n) = err (invalid_value "server time overflow")
unix_epoch_to_system_time (pos nanos) = elim (after_epoch nanos) [
  | some t ↦ ok t
  | none ↦ err (invalid_value "server time overflow")
]

-- `QoS::try_from`.
abbrev pub qos_of : ℤ → Option QoS
qos_of (pos zero) = some unreliable
qos_of (pos (suc zero)) = some reliable
qos_of (pos (suc (suc zero))) = some partial
qos_of _ = none

-- `as i32`.
abbrev pub qos_value : QoS → ℤ
qos_value unreliable = pos 0
qos_value reliable = pos 1
qos_value partial = pos 2

unfoldable pub from_qos_i32 : (ℤ → String) → ℤ → Outcome QoS
from_qos_i32 unknown qos = elim (qos_of qos) [
  | some q ↦ ok q
  | none ↦ err (invalid_value (unknown qos))
]
