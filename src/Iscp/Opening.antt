-- ===== src/Iscp/Opening.antt =====
-- How streams open (src/iscp/upstream.rs and src/iscp/downstream.rs), and their builders
-- (src/iscp/builder.rs). `answer` stands for the wire connection: what it makes of a request. A list of
-- data ids is shorter than 2^32.
pub mod Aliases
mod Tests
use iscp_rs.Base.{
  ℕ, ◌+◌, ◌/◌, ◌≡◌, String, Bool, true, false, Option, none, some, List, [], ◌∷◌, if◌then◌else◌,
  ltb, leb, Map, u32_mod,
}
use iscp_rs.Errors.{Error, Outcome, ok, err, panic, and_then, invalid_value}
use iscp_rs.Message.Types.{DataId, QoS, Uuid, unreliable, DownstreamFilter}
use iscp_rs.Message.Streams.{
  UpstreamOpenRequest, UpstreamOpenResponse, DownstreamOpenRequest, DownstreamOpenResponse,
  UpstreamCloseRequest, DownstreamCloseRequest,
}
use iscp_rs.Iscp.Types.{Duration, DownstreamReordering, DownstreamConfig}
use iscp_rs.Iscp.FlushPolicy.{FlushPolicy, default_flush_policy}
use iscp_rs.Iscp.DownState as DownState
use iscp_rs.Iscp.DownState.{UuidLib, State}
use iscp_rs.Iscp.Upstream as Upstream
use iscp_rs.Iscp.Upstream.{UpstreamConfig}
use iscp_rs.Iscp.Misc.{SystemTime, qos_value, parse_stream_id, unix_epoch_to_system_time}
use iscp_rs.Wire.Requests.{downstream_stream_id_alias}

abbrev pub default_upstream_config : UpstreamConfig
default_upstream_config = record {
  session_id = "";
  ack_interval = 100_000_000;
  expiry_interval = 60_000_000_000;
  data_ids = [];
  qos = unreliable;
  persist = false;
  flush_policy = default_flush_policy;
  close_timeout = 10_000_000_000;
  has_send_data_points_callback = false;
  has_receive_ack_callback = false;
}

-- The setters of `UpstreamBuilder`.
pub data UpstreamSetting : Type 0 where
  ack_interval : Duration → UpstreamSetting
  expiry_interval : Duration → UpstreamSetting
  data_ids : List DataId → UpstreamSetting
  qos : QoS → UpstreamSetting
  persist : Bool → UpstreamSetting
  flush_policy : FlushPolicy → UpstreamSetting
  close_timeout : Duration → UpstreamSetting
  send_data_points_callback : Bool → UpstreamSetting
  receive_ack_callback : Bool → UpstreamSetting

unfoldable pub set_upstream : UpstreamConfig → UpstreamSetting → UpstreamConfig
set_upstream c (ack_interval d) = record c { ack_interval = d }
set_upstream c (expiry_interval d) = record c { expiry_interval = d }
set_upstream c (data_ids ids) = record c { data_ids = ids }
set_upstream c (qos q) = record c { qos = q }
set_upstream c (persist b) = record c { persist = b }
set_upstream c (flush_policy p) = record c { flush_policy = p }
set_upstream c (close_timeout d) = record c { close_timeout = d }
set_upstream c (send_data_points_callback b) = record c { has_send_data_points_callback = b }
set_upstream c (receive_ack_callback b) = record c { has_receive_ack_callback = b }

-- The builder of `upstream_builder` behind its setters.
unfoldable pub build_upstream : UpstreamConfig → List UpstreamSetting → UpstreamConfig
build_upstream c [] = c
build_upstream c (s ∷ ss) = build_upstream (set_upstream c s) ss

unfoldable pub upstream_builder : String → List UpstreamSetting → UpstreamConfig
upstream_builder session_id =
    build_upstream (record default_upstream_config { session_id = session_id })

-- `as_millis` and `as_secs`, as a `u32`.
unfoldable pub as_u32 : String → ℕ → Outcome ℕ
as_u32 text n = if ltb n u32_mod then ok n else err (invalid_value text)

unfoldable pub upstream_request : UpstreamConfig → Outcome UpstreamOpenRequest
upstream_request c =
    and_then (as_u32 "ack_interval overflow" (c.ack_interval / 1_000_000)) (λ ack_interval.
      and_then (as_u32 "expiry_interval overflow" (c.expiry_interval / 1_000_000_000))
        (λ expiry_interval. ok (record {
          request_id = 0;
          session_id = c.session_id;
          ack_interval = ack_interval;
          expiry_interval = expiry_interval;
          data_ids = c.data_ids;
          qos = qos_value c.qos;
          extension_fields = some (record { persist = c.persist });
        })))

-- The count of failed requests behind one more result, and whether the connection is cancelled.
unfoldable pub count_failure : {A : Type 0} → ℕ → Outcome A → ℕ × Bool
count_failure n (ok a) = (0, false)
count_failure n (err e) = if leb 4 (n + 1) then (0, true) else (n + 1, false)
count_failure n panic = (n, false)

unfoldable pub open_upstream :
    UuidLib
    → UpstreamConfig
    → (UpstreamOpenRequest → Outcome UpstreamOpenResponse)
    → Outcome (Uuid × String × Upstream.Upstream)
open_upstream uuid c answer = and_then (and_then (upstream_request c) answer) (λ r.
    and_then (parse_stream_id uuid r.assigned_stream_id) (λ stream_id.
      ok (stream_id, r.resume_token, Upstream.new c r.assigned_stream_id_alias r.data_id_aliases)))

-- The data ids of a downstream under their aliases, from `alias` on.
unfoldable pub alias_from : ℕ → List DataId → Map ℕ DataId
alias_from alias [] = []
alias_from alias (d ∷ ds) = (alias, d) ∷ alias_from (alias + 1) ds

unfoldable pub downstream_request : DownstreamConfig → ℕ → Outcome DownstreamOpenRequest
downstream_request c alias =
    and_then (as_u32 "expiry_interval overflow" (c.expiry_interval / 1_000_000_000))
      (λ expiry_interval. ok (record {
        request_id = 0;
        desired_stream_id_alias = alias;
        downstream_filters = c.filters;
        expiry_interval = expiry_interval;
        data_id_aliases = alias_from 1 c.data_ids;
        qos = qos_value c.qos;
        extension_fields = none;
        omit_empty_chunk = c.omit_empty_chunk;
      }))

-- An open downstream: its identifier, its alias, its resume token, its server time and its state.
pub record Opened : Type 0 where
  pub stream_id : Uuid
  pub stream_id_alias : ℕ
  pub resume_token : String
  pub server_time : SystemTime
  pub state : State

-- The expiry interval is looked at before an alias is drawn from `counter`.
unfoldable pub open_downstream :
    UuidLib
    → DownstreamConfig
    → ℕ
    → (DownstreamOpenRequest → Outcome DownstreamOpenResponse)
    → Outcome Opened
open_downstream uuid c counter answer =
    and_then (as_u32 "expiry_interval overflow" (c.expiry_interval / 1_000_000_000)) (λ _.
      and_then (downstream_stream_id_alias counter).0 (λ alias.
        and_then (and_then (downstream_request c alias) answer) (λ r.
          and_then (parse_stream_id uuid r.assigned_stream_id) (λ stream_id.
            and_then (unix_epoch_to_system_time r.server_time) (λ server_time. ok (record {
              stream_id = stream_id;
              stream_id_alias = alias;
              resume_token = r.resume_token;
              server_time = server_time;
              state = DownState.new (alias_from 1 c.data_ids);
            }))))))

-- The setters of `DownstreamBuilder`.
pub data DownstreamSetting : Type 0 where
  down_expiry_interval : Duration → DownstreamSetting
  down_data_ids : List DataId → DownstreamSetting
  down_qos : QoS → DownstreamSetting
  down_ack_interval : Duration → DownstreamSetting
  omit_empty_chunk : Bool → DownstreamSetting
  reordering : DownstreamReordering → DownstreamSetting
  reordering_chunks : ℕ → DownstreamSetting

unfoldable pub set_downstream : DownstreamConfig → DownstreamSetting → DownstreamConfig
set_downstream c (down_expiry_interval d) = record c { expiry_interval = d }
set_downstream c (down_data_ids ids) = record c { data_ids = ids }
set_downstream c (down_qos q) = record c { qos = q }
set_downstream c (down_ack_interval d) = record c { ack_interval = d }
set_downstream c (omit_empty_chunk b) = record c { omit_empty_chunk = b }
set_downstream c (reordering r) = record c { reordering = r }
set_downstream c (reordering_chunks n) = record c { reordering_chunks = n }
