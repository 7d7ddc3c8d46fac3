-- ===== src/Iscp/DownState/Tests.antt =====
-- Runs of the state of a downstream at concrete chunks, and the laws at them.
use iscp_rs.Base.{
  ℕ, ◌≡◌, refl, true, none, some, List, [], ◌∷◌, ◌++◌, map, Map, get, insert, nat_eq,
}
use iscp_rs.Base.Int.{pos}
use iscp_rs.Message.Types.{Bytes, DataId}
use iscp_rs.Message.Chunks as Msg
use iscp_rs.Message.Chunks.{upstream_info, upstream_alias, data_id_alias}
use iscp_rs.Errors.{ok}
use iscp_rs.Iscp.SmallUuid.{small, pad, strip}
use iscp_rs.Iscp.Types.{UpstreamInfo}
use iscp_rs.Iscp.DownState.{
  new, find_info, next_alias, add_upstream_info, add_sequence_number, take_ack, get_upstream_info,
  convert_downstream_chunk,
}
use iscp_rs.Iscp.DownState.Aliases.{announce, new-IsValid}
use iscp_rs.Iscp.DownState.Acks.{
  Event, received, informed, ack_due, run, results_of, acked_results, acked_aliases, IdsFrom,
  run-Acked,
}
use iscp_rs.Iscp.DownState.Convert.{
  Converted, convert_downstream_chunk-Converted, get_upstream_info-run,
}

abbrev bytes : Bytes
bytes = 0 ∷ 0 ∷ 0 ∷ 0 ∷ 0 ∷ 0 ∷ 0 ∷ 0 ∷ 0 ∷ 0 ∷ 0 ∷ 0 ∷ 0 ∷ 0 ∷ 0 ∷ 7 ∷ []

abbrev message : Msg.UpstreamInfo
message = record { session_id = "s"; stream_id = bytes; source_node_id = "n" }

abbrev info : UpstreamInfo
info = record { session_id = "s"; stream_id = 7; source_node_id = "n" }

abbrev aliases : Map ℕ DataId
aliases = (3, record { name = "speed"; type_ = "can" }) ∷ []

abbrev events : List Event
events =
    informed message ∷ received 7 1 ∷ ack_due 5 ∷ informed message ∷ ack_due 5 ∷ received 7 2 ∷ []

run-Acked_example :
    (acked_results (run small (new aliases) events).0 ++ (run small (new aliases) events).1.results
      ≡ results_of small events)
    × (acked_aliases (run small (new aliases) events).0
          ++ (run small (new aliases) events).1.for_ack
        ≡ map (announce small) (run small (new aliases) events).1.infos)
    × IdsFrom 0 (run small (new aliases) events).0
run-Acked_example = run-Acked small aliases events

abbrev chunk : Msg.DownstreamChunk
chunk = record {
  stream_id_alias = 5;
  stream_chunk = some (record {
    sequence_number = 9;
    data_point_groups =
        record {
          data_points = record { elapsed_time = pos 4; payload = 1 ∷ 2 ∷ [] } ∷ [];
          data_filter_ids = [];
          data_id_or_alias = some (data_id_alias 3);
        }
        ∷ [];
  });
  extension_fields = none;
  downstream_filter_references = [];
  upstream_or_alias = some (upstream_info message);
}

convert_downstream_chunk-Converted_example :
    Converted small
      (new aliases)
      (convert_downstream_chunk small (new aliases) chunk true).0
      (convert_downstream_chunk small (new aliases) chunk true).1
      chunk
convert_downstream_chunk-Converted_example =
    convert_downstream_chunk-Converted small (new aliases) chunk true (new-IsValid aliases)

known_test : get_upstream_info (run small (new aliases) events).1 0 ≡ ok info
unfolding get_upstream_info run add_upstream_info add_sequence_number take_ack find_info next_alias
    new get insert small pad strip
known_test = refl

get_upstream_info-run_example :
    get_upstream_info (run small (run small (new aliases) events).1 (received 7 3 ∷ [])).1 0
    ≡ ok info
get_upstream_info-run_example =
    get_upstream_info-run small aliases events (received 7 3 ∷ []) 0 info known_test
