-- ===== src/Iscp/Metadata/Tests.antt =====
-- The laws of metadata at concrete messages.
use iscp_rs.Base.{String, true, none, some, [], ◌∷◌}
use iscp_rs.Base.Int.{ℤ, pos}
use iscp_rs.Errors.{Yields}
use iscp_rs.Message.Metadata as Msg
use iscp_rs.Iscp.SmallUuid.{small}
use iscp_rs.Iscp.Metadata.{convert_downstream_metadata}
use iscp_rs.Iscp.Metadata.Send.{MetadataSender, base_time, metadata_sender, set_persist, request}
use iscp_rs.Iscp.Metadata.Carried.{Learnt, convert_downstream_metadata-Learnt}
use iscp_rs.Iscp.Metadata.RoundTrip.{Requested, request-Requested}

abbrev unknown : ℤ → String
unknown n = "unknown enumeration value"

abbrev received : Msg.DownstreamMetadata
received = record {
  request_id = 6;
  stream_id_alias = 1;
  source_node_id = "n";
  extension_fields = none;
  metadata = some (
      Msg.upstream_open (record {
        stream_id = 0 ∷ 0 ∷ 0 ∷ 0 ∷ 0 ∷ 0 ∷ 0 ∷ 0 ∷ 0 ∷ 0 ∷ 0 ∷ 0 ∷ 0 ∷ 0 ∷ 0 ∷ 7 ∷ [];
        session_id = "s";
        qos = pos 1;
      }));
}

convert_downstream_metadata-Learnt_example :
    Yields
      (λ r. Learnt small unknown received r.0 r.1)
      (convert_downstream_metadata small unknown received)
convert_downstream_metadata-Learnt_example =
    convert_downstream_metadata-Learnt small unknown received

abbrev sender : MetadataSender
unfolding metadata_sender set_persist
sender =
    set_persist
      (metadata_sender (
        base_time (record {
          session_id = "s";
          name = "edge_rtc";
          priority = 20;
          elapsed_time = 1_000;
          base_time = pos 1_600_000_000_000_000_000;
        })))
      true

request-Requested_example : Requested small unknown sender (request sender)
request-Requested_example = request-Requested small unknown sender
