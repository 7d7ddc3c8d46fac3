-- ===== src/Iscp/ConnBuilder.antt =====
-- src/iscp/mod.rs: the settings of a connection, and how it begins. The connector and the token source
-- are parameters: whether the transport came up, and the token (`none` when it took too long). The
-- text of an identifier is a parameter.
pub mod Connect
mod Tests
use iscp_rs.Base.{
  ℕ, ◌/◌, ◌≡◌, String, Bool, true, false, not, ◌&&◌, Option, none, some, if◌then◌else◌, ltb, ◌==◌,
  nat_eq, is_some, u32_mod, Eq,
}
use iscp_rs.Errors.{Error, Outcome, ok, err, panic, and_then, invalid_value, timeout, unexpected}
use iscp_rs.Message.Types.{Uuid}
use iscp_rs.Message.Connections.{
  ConnectRequest, ConnectRequestExtensionFields, IntdashExtensionFields,
}
use iscp_rs.Message.Messages.{Message}
use iscp_rs.Message.Requests.{connect_message}
use iscp_rs.Transport.Compression.{Compression, new_compression}
use iscp_rs.Transport.Negotiation.{
  EncodingName, protobuf, per_message, context_takeover, NegotiationParams,
}
use iscp_rs.Iscp.Types.{Duration}
use iscp_rs.Wire.Conn as Wire
use iscp_rs.Wire.Conn.{Waited, fresh_conn, request_message_need_response}

-- `has_token_source`: a token source is set.
pub record ConnBuilder : Type 0 where
  pub encoding_name : EncodingName
  pub compression : Compression
  pub node_id : String
  pub project_uuid : Option Uuid
  pub ping_interval : Duration
  pub ping_timeout : Duration
  pub response_message_timeout : Duration
  pub e2e_call_reply_timeout : Duration
  pub has_token_source : Bool
  pub channel_size : ℕ

abbrev pub new : ConnBuilder
new = record {
  encoding_name = protobuf;
  compression = new_compression;
  node_id = "";
  project_uuid = none;
  ping_interval = 10_000_000_000;
  ping_timeout = 1_000_000_000;
  response_message_timeout = 3_000_000_000;
  e2e_call_reply_timeout = 60_000_000_000;
  has_token_source = false;
  channel_size = 1024;
}

unfoldable pub set_encoding : ConnBuilder → EncodingName → ConnBuilder
set_encoding b name = record b { encoding_name = name }

unfoldable pub set_compression : ConnBuilder → Compression → ConnBuilder
set_compression b c = record b { compression = c }

unfoldable pub set_node_id : ConnBuilder → String → ConnBuilder
set_node_id b id = record b { node_id = id }

unfoldable pub set_project_uuid : ConnBuilder → Option Uuid → ConnBuilder
set_project_uuid b uuid = record b { project_uuid = uuid }

unfoldable pub set_ping_interval : ConnBuilder → Duration → ConnBuilder
set_ping_interval b d = record b { ping_interval = d }

unfoldable pub set_ping_timeout : ConnBuilder → Duration → ConnBuilder
set_ping_timeout b d = record b { ping_timeout = d }

unfoldable pub set_response_message_timeout : ConnBuilder → Duration → ConnBuilder
set_response_message_timeout b d = record b { response_message_timeout = d }

unfoldable pub set_e2e_call_reply_timeout : ConnBuilder → Duration → ConnBuilder
set_e2e_call_reply_timeout b d = record b { e2e_call_reply_timeout = d }

unfoldable pub set_token_source : ConnBuilder → Bool → ConnBuilder
set_token_source b present = record b { has_token_source = present }

unfoldable pub negotiation_params : ConnBuilder → NegotiationParams
negotiation_params b =
    if not b.compression.enabled
    then record {
      encoding_name = b.encoding_name;
      compression_type = none;
      compression_level = none;
      compression_window_bits = none;
    }
    else record {
      encoding_name = b.encoding_name;
      compression_type =
          some (if is_some b.compression.window_bits then context_takeover else per_message);
      compression_level = b.compression.level;
      compression_window_bits = b.compression.window_bits;
    }

-- `Duration::as_secs`.
abbrev pub as_secs : Duration → ℕ
as_secs d = d / 1_000_000_000

-- The whole seconds of a duration, that must be a `u32` and not zero.
unfoldable pub ping_seconds : String → Duration → Outcome ℕ
ping_seconds text d =
    if ltb (as_secs d) u32_mod
    then if as_secs d == 0 then err (invalid_value text) else ok (as_secs d)
    else err (invalid_value text)

abbrev pub intdash_fields : (Uuid → String) → Option Uuid → Option IntdashExtensionFields
intdash_fields show none = none
intdash_fields show (some uuid) = some (record { project_uuid = show uuid })

abbrev pub in_time : Option (Outcome String) → Outcome String
in_time none = err (timeout "token source")
in_time (some token) = token

abbrev pub project_only :
    Option IntdashExtensionFields → Outcome (Option ConnectRequestExtensionFields)
project_only none = ok none
project_only (some i) = ok (some (record { access_token = ""; intdash = some i }))

unfoldable pub extension_fields :
    Bool
    → Option IntdashExtensionFields
    → Option (Outcome String)
    → Outcome (Option ConnectRequestExtensionFields)
extension_fields true intdash token =
    and_then (in_time token)
      (λ access_token. ok (some (record { access_token = access_token; intdash = intdash })))
extension_fields false intdash token = project_only intdash

unfoldable pub connect_request :
    (Uuid → String) → ConnBuilder → Option (Outcome String) → Outcome ConnectRequest
connect_request show b token =
    and_then (ping_seconds "invalid ping_interval" b.ping_interval) (λ interval.
      and_then (ping_seconds "invalid ping_timeout" b.ping_timeout) (λ limit.
        and_then (extension_fields b.has_token_source (intdash_fields show b.project_uuid) token)
          (λ fields. ok (record {
            request_id = 0;
            protocol_version = "3.0.0";
            node_id = b.node_id;
            ping_interval = interval;
            ping_timeout = limit;
            extension_fields = fields;
            connection_id = "";
            connection_group_id = "";
            expiry_interval = 0;
          }))))

-- `connect`: the wire connection, when the request was answered.
unfoldable pub connect :
    (Uuid → String)
    → ConnBuilder
    → Outcome (Unit {0})
    → Option (Outcome String)
    → Waited Bool
    → Waited (Option Message)
    → Outcome Wire.Conn
connect show b transport token queued waited = and_then transport (λ _.
    and_then (connect_request show b token) (λ request.
      let (sent, result, c) =
        request_message_need_response connect_message fresh_conn request queued waited in
      and_then result (λ _. ok c)))

-- `build`, for a connector that takes a context over or not.
unfoldable pub build :
    (Uuid → String)
    → Bool
    → ConnBuilder
    → Outcome (Unit {0})
    → Option (Outcome String)
    → Waited Bool
    → Waited (Option Message)
    → Outcome Wire.Conn
build show compat b transport token queued waited =
    if is_some b.compression.window_bits && not compat
    then err (unexpected "using window bits for unsupported transport")
    else connect show b transport token queued waited
