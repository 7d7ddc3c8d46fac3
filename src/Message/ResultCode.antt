-- ===== src/Message/ResultCode.antt =====
-- `ResultCode` (src/message/proto/iscp2.v1.rs): its codes, and the conversions from and to `i32`.
pub mod Codes
mod Tests
use iscp_rs.Base.{ℕ, ◌≡◌, refl, Option, none, List, [], ◌∷◌, Map, get, nat_eq, Eq, arith}
use iscp_rs.Base.Int.{ℤ, pos, negsuc}

pub data ResultCode : Type 0 where
  succeeded : ResultCode
  incompatible_version : ResultCode
  maximum_data_id_alias : ResultCode
  maximum_upstream_alias : ResultCode
  unspecified_error : ResultCode
  no_node_id : ResultCode
  auth_failed : ResultCode
  connect_timeout : ResultCode
  malformed_message : ResultCode
  protocol_error : ResultCode
  ack_timeout : ResultCode
  invalid_payload : ResultCode
  invalid_data_id : ResultCode
  invalid_data_id_alias : ResultCode
  invalid_data_filter : ResultCode
  stream_not_found : ResultCode
  resume_request_conflict : ResultCode
  process_failed : ResultCode
  desired_qos_not_supported : ResultCode
  ping_timeout : ResultCode
  too_large_message_size : ResultCode
  too_many_data_id_aliases : ResultCode
  too_many_streams : ResultCode
  too_long_ack_interval : ResultCode
  too_many_downstream_filters : ResultCode
  too_many_data_filters : ResultCode
  too_long_expiry_interval : ResultCode
  too_long_ping_timeout : ResultCode
  too_short_ping_interval : ResultCode
  too_short_ping_timeout : ResultCode
  rate_limit_reached : ResultCode
  too_large_feed_id : ResultCode
  too_many_target_nodes : ResultCode
  feed_not_found : ResultCode
  invalid_resume_token : ResultCode
  node_id_mismatch : ResultCode
  session_not_found : ResultCode
  session_already_closed : ResultCode
  session_cannot_closed : ResultCode

-- `as i32`.
abbrev pub code_value : ResultCode → ℕ
code_value succeeded = 0
code_value incompatible_version = 1
code_value maximum_data_id_alias = 2
code_value maximum_upstream_alias = 3
code_value unspecified_error = 64
code_value no_node_id = 65
code_value auth_failed = 66
code_value connect_timeout = 67
code_value malformed_message = 68
code_value protocol_error = 69
code_value ack_timeout = 70
code_value invalid_payload = 71
code_value invalid_data_id = 72
code_value invalid_data_id_alias = 73
code_value invalid_data_filter = 74
code_value stream_not_found = 75
code_value resume_request_conflict = 76
code_value process_failed = 77
code_value desired_qos_not_supported = 78
code_value ping_timeout = 79
code_value too_large_message_size = 80
code_value too_many_data_id_aliases = 81
code_value too_many_streams = 82
code_value too_long_ack_interval = 83
code_value too_many_downstream_filters = 84
code_value too_many_data_filters = 85
code_value too_long_expiry_interval = 86
code_value too_long_ping_timeout = 87
code_value too_short_ping_interval = 88
code_value too_short_ping_timeout = 89
code_value rate_limit_reached = 90
code_value too_large_feed_id = 91
code_value too_many_target_nodes = 92
code_value feed_not_found = 93
code_value invalid_resume_token = 94
code_value node_id_mismatch = 128
code_value session_not_found = 129
code_value session_already_closed = 130
code_value session_cannot_closed = 131

abbrev pub codes : Map ℕ ResultCode
codes =
    (0, succeeded)
    ∷ (1, incompatible_version)
    ∷ (2, maximum_data_id_alias)
    ∷ (3, maximum_upstream_alias)
    ∷ (64, unspecified_error)
    ∷ (65, no_node_id)
    ∷ (66, auth_failed)
    ∷ (67, connect_timeout)
    ∷ (68, malformed_message)
    ∷ (69, protocol_error)
    ∷ (70, ack_timeout)
    ∷ (71, invalid_payload)
    ∷ (72, invalid_data_id)
    ∷ (73, invalid_data_id_alias)
    ∷ (74, invalid_data_filter)
    ∷ (75, stream_not_found)
    ∷ (76, resume_request_conflict)
    ∷ (77, process_failed)
    ∷ (78, desired_qos_not_supported)
    ∷ (79, ping_timeout)
    ∷ (80, too_large_message_size)
    ∷ (81, too_many_data_id_aliases)
    ∷ (82, too_many_streams)
    ∷ (83, too_long_ack_interval)
    ∷ (84, too_many_downstream_filters)
    ∷ (85, too_many_data_filters)
    ∷ (86, too_long_expiry_interval)
    ∷ (87, too_long_ping_timeout)
    ∷ (88, too_short_ping_interval)
    ∷ (89, too_short_ping_timeout)
    ∷ (90, rate_limit_reached)
    ∷ (91, too_large_feed_id)
    ∷ (92, too_many_target_nodes)
    ∷ (93, feed_not_found)
    ∷ (94, invalid_resume_token)
    ∷ (128, node_id_mismatch)
    ∷ (129, session_not_found)
    ∷ (130, session_already_closed)
    ∷ (131, session_cannot_closed)
    ∷ []

-- `TryFrom<i32>`.
unfoldable pub code_of : ℤ → Option ResultCode
code_of (pos n) = get n codes
code_of (negsuc n) = none
