-- ===== src/Iscp/Upstream/Closing/Tests.antt =====
-- A close with three data points, the last acknowledgement and what comes behind it.
use iscp_rs.Base.{ℕ, ◌≡◌, refl, true, false, Option, none, some, List, [], ◌∷◌, ◌++◌, nat_eq}
use iscp_rs.Base.Int.{pos}
use iscp_rs.Message.Types.{DataId, DataPoint, reliable, data_id_eq}
use iscp_rs.Message.Chunks as Msg
use iscp_rs.Message.Chunks.{data_id_or_alias_eq}
use iscp_rs.Iscp.FlushPolicy.{immediately, need_flush}
use iscp_rs.Iscp.Storage as Storage
use iscp_rs.Iscp.Upstream.{
  UpstreamConfig, new, write_data_points, take_chunk, store_chunk, store_taken, flush, process_ack,
  count_points,
}
use iscp_rs.Iscp.Upstream.Closing.{
  Phase, closed, Event, wrote, close_called, woken, acked, start, close_request, send_close,
  wait_for_ack, begin_close, after_flush, see_ack, wake, step, run, has_received,
}

abbrev config : UpstreamConfig
config = record {
  session_id = "s";
  ack_interval = 100_000_000;
  expiry_interval = 0;
  data_ids = [];
  qos = reliable;
  persist = false;
  flush_policy = immediately;
  close_timeout = 10_000_000_000;
  has_send_data_points_callback = false;
  has_receive_ack_callback = false;
}

abbrev speed : DataId
speed = record { name = "speed"; type_ = "can" }

abbrev point : ℕ → DataPoint
point t = record { elapsed_time = pos t; payload = t ∷ [] }

abbrev ack : ℕ → Msg.UpstreamChunkAck
ack n = record {
  stream_id_alias = 5;
  results =
      record {
        sequence_number = n;
        result_code = pos 0;
        result_string = "OK";
        extension_fields = none;
      }
      ∷ [];
  data_id_aliases = [];
  extension_fields = none;
}

-- One chunk is flushed; two data points are in the buffer, and one more is written between the call of
-- close and the flush.
abbrev before : List Event
before =
    wrote speed (point 1 ∷ [])
    ∷ woken false true
    ∷ wrote speed (point 2 ∷ [])
    ∷ close_called (some true)
    ∷ wrote speed (point 3 ∷ [])
    ∷ []

-- The first acknowledgement does not end the wait.
abbrev meanwhile : List Event
meanwhile = acked (ack 1) ∷ wrote speed (point 4 ∷ []) ∷ []

abbrev total_of : Phase → Option ℕ
total_of (closed req) = some req.total_data_points
total_of _ = none

close_test :
    total_of
      (run
        (start (7 ∷ []) (new config 5 []))
        (before ++ woken true true ∷ acked (ack 2) ∷ [])).phase
    ≡ some 3
unfolding run step start new wake flush store_chunk store_taken take_chunk after_flush begin_close
    wait_for_ack has_received see_ack send_close close_request write_data_points need_flush
    process_ack count_points Storage.new Storage.add_chunk Storage.process_ack
    Storage.process_results Storage.process_result Storage.later
close_test = refl
