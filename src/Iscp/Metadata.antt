-- ===== src/Iscp/Metadata.antt =====
-- src/iscp/metadata.rs, and `convert_downstream_metadata` in src/iscp/downstream.rs: the metadata of
-- nodes and their messages. A `Duration` is its number of nanoseconds.
pub mod Send
pub mod Carried
pub mod RoundTrip
mod Tests
use iscp_rs.Base.{ℕ, String, Option, none, some, List}
use iscp_rs.Base.Int.{ℤ, pos}
use iscp_rs.Errors.{Outcome, ok, err, invalid_value, and_then}
use iscp_rs.Message.Types.{Uuid, QoS, DownstreamFilter}
use iscp_rs.Message.Metadata as Msg
use iscp_rs.Iscp.DownState.{UuidLib}
use iscp_rs.Iscp.Types.{Duration}
use iscp_rs.Iscp.Misc.{SystemTime, parse_stream_id, unix_epoch_to_system_time, from_qos_i32}

pub record BaseTime : Type 0 where
  pub session_id : String
  pub name : String
  pub priority : ℕ
  pub elapsed_time : Duration
  pub base_time : SystemTime

pub record UpstreamOpen : Type 0 where
  pub stream_id : Uuid
  pub session_id : String
  pub qos : QoS

pub record UpstreamAbnormalClose : Type 0 where
  pub stream_id : Uuid
  pub session_id : String

pub record UpstreamResume : Type 0 where
  pub stream_id : Uuid
  pub session_id : String
  pub qos : QoS

pub record UpstreamNormalClose : Type 0 where
  pub stream_id : Uuid
  pub session_id : String
  pub total_data_points : ℕ
  pub final_sequence_number : ℕ

pub record DownstreamOpen : Type 0 where
  pub stream_id : Uuid
  pub downstream_filters : List DownstreamFilter
  pub qos : QoS

pub record DownstreamAbnormalClose : Type 0 where
  pub stream_id : Uuid

pub record DownstreamResume : Type 0 where
  pub stream_id : Uuid
  pub downstream_filters : List DownstreamFilter
  pub qos : QoS

pub record DownstreamNormalClose : Type 0 where
  pub stream_id : Uuid

pub data ReceivableMetadata : Type 0 where
  base_time : BaseTime → ReceivableMetadata
  upstream_open : UpstreamOpen → ReceivableMetadata
  upstream_abnormal_close : UpstreamAbnormalClose → ReceivableMetadata
  upstream_resume : UpstreamResume → ReceivableMetadata
  upstream_normal_close : UpstreamNormalClose → ReceivableMetadata
  downstream_open : DownstreamOpen → ReceivableMetadata
  downstream_abnormal_close : DownstreamAbnormalClose → ReceivableMetadata
  downstream_resume : DownstreamResume → ReceivableMetadata
  downstream_normal_close : DownstreamNormalClose → ReceivableMetadata

pub record DownstreamMetadata : Type 0 where
  pub source_node_id : String
  pub metadata : ReceivableMetadata

module _ (uuid : UuidLib) (unknown : ℤ → String) where
  unfoldable pub from_prost : Msg.DownstreamMetadataBody → Outcome ReceivableMetadata
  from_prost (Msg.base_time m) = and_then (unix_epoch_to_system_time m.base_time) (λ time. ok (
      base_time (record {
        session_id = m.session_id;
        name = m.name;
        priority = m.priority;
        elapsed_time = m.elapsed_time;
        base_time = time;
      })))
  from_prost (Msg.upstream_open m) = and_then (parse_stream_id uuid m.stream_id) (λ id.
      and_then (from_qos_i32 unknown m.qos)
        (λ q. ok (upstream_open (record { stream_id = id; session_id = m.session_id; qos = q }))))
  from_prost (Msg.upstream_abnormal_close m) =
      and_then (parse_stream_id uuid m.stream_id)
        (λ id. ok (upstream_abnormal_close (record { stream_id = id; session_id = m.session_id })))
  from_prost (Msg.upstream_resume m) = and_then (parse_stream_id uuid m.stream_id) (λ id.
      and_then (from_qos_i32 unknown m.qos)
        (λ q. ok (upstream_resume (record { stream_id = id; session_id = m.session_id; qos = q }))))
  from_prost (Msg.upstream_normal_close m) = and_then (parse_stream_id uuid m.stream_id) (λ id. ok (
      upstream_normal_close (record {
        stream_id = id;
        session_id = m.session_id;
        total_data_points = m.total_data_points;
        final_sequence_number = m.final_sequence_number;
      })))
  from_prost (Msg.downstream_open m) = and_then (parse_stream_id uuid m.stream_id) (λ id.
      and_then (from_qos_i32 unknown m.qos) (λ q. ok (
        downstream_open
          (record { stream_id = id; downstream_filters = m.downstream_filters; qos = q }))))
  from_prost (Msg.downstream_abnormal_close m) =
      and_then (parse_stream_id uuid m.stream_id)
        (λ id. ok (downstream_abnormal_close (record { stream_id = id })))
  from_prost (Msg.downstream_resume m) = and_then (parse_stream_id uuid m.stream_id) (λ id.
      and_then (from_qos_i32 unknown m.qos) (λ q. ok (
        downstream_resume
          (record { stream_id = id; downstream_filters = m.downstream_filters; qos = q }))))
  from_prost (Msg.downstream_normal_close m) =
      and_then (parse_stream_id uuid m.stream_id)
        (λ id. ok (downstream_normal_close (record { stream_id = id })))

  unfoldable pub convert_downstream_metadata :
      Msg.DownstreamMetadata → Outcome (DownstreamMetadata × Msg.DownstreamMetadataAck)
  convert_downstream_metadata m = elim m.metadata [
    | none ↦ err (invalid_value "invalid metadata")
    | some body ↦ and_then (from_prost body) (λ r. ok (
      record { source_node_id = m.source_node_id; metadata = r },
      record {
        request_id = m.request_id;
        result_code = pos 0;
        result_string = "OK";
        extension_fields = none;
      },
    ))
  ]
