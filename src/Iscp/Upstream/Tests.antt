-- ===== src/Iscp/Upstream/Tests.antt =====
-- Runs of an upstream at concrete data points, and the laws at them.
use iscp_rs.Base.{
  ℕ, ◌≡◌, refl, true, false, Option, none, some, List, [], ◌∷◌, map, Map, get, insert, nat_eq,
  arith,
}
use iscp_rs.Base.Int.{pos}
use iscp_rs.Message.Types.{DataId, DataPoint, reliable, data_id_eq}
use iscp_rs.Message.Chunks as Msg
use iscp_rs.Message.Chunks.{data_id_alias, data_id_or_alias_eq}
use iscp_rs.Iscp.Types.{DataPointGroup}
use iscp_rs.Iscp.FlushPolicy.{immediately, need_flush}
use iscp_rs.Iscp.Storage as Storage
use iscp_rs.Iscp.Upstream.{
  UpstreamConfig, Upstream, new, rev_aliases, write_data_points, take_chunk, store_chunk,
  store_taken, flush, process_ack, after_resume, gather, add_points, key_of, sort_points,
  insert_point,
}
use iscp_rs.Iscp.Upstream.Flush.{chunk_points}
use iscp_rs.Iscp.Upstream.Kept.{Step, wrote, flushed, acked, run, chunk_number, drop_acked, without}
use iscp_rs.Iscp.Upstream.Resend.{after_resume-run}

abbrev config : UpstreamConfig
config = record {
  session_id = "s";
  ack_interval = 100_000_000;
  expiry_interval = 60_000_000_000;
  data_ids = [];
  qos = reliable;
  persist = false;
  flush_policy = immediately;
  close_timeout = 10_000_000_000;
  has_send_data_points_callback = true;
  has_receive_ack_callback = false;
}

abbrev speed : DataId
speed = record { name = "speed"; type_ = "can" }

abbrev point : ℕ → DataPoint
point t = record { elapsed_time = pos t; payload = t ∷ [] }

abbrev ids : Map ℕ DataId
ids = (3, speed) ∷ []

abbrev opened : Upstream
opened = new config 5 ids

abbrev filled : Upstream
filled = record opened {
  data_points_buffer =
      record { data_id = speed; data_points = point 4 ∷ [] }
      ∷ record { data_id = speed; data_points = point 9 ∷ point 1 ∷ [] }
      ∷ [];
}

groups_of : Option (Msg.UpstreamChunk × List DataPointGroup) → List Msg.DataPointGroup
groups_of none = []
groups_of (some (c, callback)) = elim c.stream_chunk [ none ↦ [] | some sc ↦ sc.data_point_groups ]

take_chunk_test :
    chunk_points (data_id_alias 3) (groups_of (take_chunk filled).0)
    ≡ point 1 ∷ point 4 ∷ point 9 ∷ []
unfolding groups_of chunk_points take_chunk new rev_aliases gather add_points key_of sort_points
    insert_point get insert
take_chunk_test = refl

abbrev ack_one : Msg.UpstreamChunkAck
ack_one = record {
  stream_id_alias = 5;
  results =
      record {
        sequence_number = 1;
        result_code = pos 0;
        result_string = "OK";
        extension_fields = none;
      }
      ∷ [];
  data_id_aliases = [];
  extension_fields = none;
}

-- Three chunks, the second made without a connection; the first is acknowledged.
abbrev steps : List Step
steps =
    wrote speed (point 1 ∷ [])
    ∷ flushed true
    ∷ wrote speed (point 2 ∷ [])
    ∷ flushed false
    ∷ acked ack_one
    ∷ wrote speed (point 3 ∷ [])
    ∷ flushed true
    ∷ []

after_resume-run_example :
    (out : List Msg.UpstreamChunk) × (u : Upstream) × (run opened [] steps ≡ some (out, u))
    × (after_resume u ≡ some (out, u))
after_resume-run_example = after_resume-run config 5 ids steps refl (omega arith)

resent : Option (List Msg.UpstreamChunk × Upstream) → List ℕ
resent none = []
resent (some (out, u)) = map chunk_number out

resend_test : resent (run opened [] steps) ≡ 2 ∷ 3 ∷ []
unfolding resent run new write_data_points need_flush flush store_chunk store_taken take_chunk
    process_ack Storage.new Storage.add_chunk Storage.process_ack Storage.process_results
    Storage.process_result drop_acked without
resend_test = refl
