-- ===== src/Iscp/Upstream/Closing.antt =====
-- src/iscp/upstream.rs: the flush loop of an upstream on one wire connection, which ends with the
-- close of the stream. An event is what the loop wakes up for, or a call of the application.
mod Counted
mod Phases
mod Loop
mod Wait
mod Heard
mod Closes
mod Tests
use iscp_rs.Base.{
  ℕ, Bool, true, false, not, ◌&&◌, ◌||◌, Option, none, some, List, [], ◌∷◌, if◌then◌else◌, ◌==◌,
  nat_eq, is_empty, u32_mod, ◌-◌,
}
use iscp_rs.Message.Types.{Bytes, DataId, DataPoint}
use iscp_rs.Message.Chunks as Msg
use iscp_rs.Message.Streams.{UpstreamCloseRequest, UpstreamCloseRequestExtensionFields}
use iscp_rs.Iscp.Upstream.{Upstream, write_data_points, flush, process_ack}

pub data Phase : Type 0 where
  flushing : Phase
  waiting : ℕ → Phase
  closed : UpstreamCloseRequest → Phase
  broken panicked : Phase

-- `close_opts` is `close_session` of the options.
pub record FlushLoop : Type 0 where
  pub stream_id : Bytes
  pub close_opts : Option Bool
  pub upstream : Upstream
  pub phase : Phase

-- `woken close is_sent` is a branch of `select!` that flushes, with whether the connection takes a
-- chunk; `acks_gone` is the end of the channel of acknowledgements, `timed_out` that of
-- `close_timeout`.
pub data Event : Type 0 where
  wrote : DataId → List DataPoint → Event
  close_called : Option Bool → Event
  woken : Bool → Bool → Event
  acked : Msg.UpstreamChunkAck → Event
  acks_gone timed_out : Event

unfoldable pub start : Bytes → Upstream → FlushLoop
start id u = record { stream_id = id; close_opts = none; upstream = u; phase = flushing }

unfoldable pub close_fields : Option Bool → Option UpstreamCloseRequestExtensionFields
close_fields none = none
close_fields (some b) = some (record { close_session = b })

-- The number of the request is drawn when it is sent.
unfoldable pub close_request : FlushLoop → UpstreamCloseRequest
close_request l = record {
  request_id = 0;
  stream_id = l.stream_id;
  total_data_points = l.upstream.total_data_points;
  final_sequence_number = l.upstream.last_issued_sequence_number;
  extension_fields = close_fields l.close_opts;
}

unfoldable pub send_close : FlushLoop → FlushLoop
send_close l = record l { close_opts = none; phase = closed (close_request l) }

unfoldable pub has_received : Option ℕ → ℕ → Bool
has_received none n = false
has_received (some k) n = k == n

-- The head of the loop that waits for the last acknowledgement.
unfoldable pub wait_for_ack : FlushLoop → ℕ → FlushLoop
wait_for_ack l n =
    if has_received l.upstream.storage.last_received_sequence_number n
    then send_close l
    else record l { phase = waiting n }

unfoldable pub begin_close : FlushLoop → FlushLoop
begin_close l =
    let n = l.upstream.last_issued_sequence_number in
    if n == 0 then send_close l else wait_for_ack l n

-- `none` is the panic of `flush`. A chunk that is not sent ends the loop.
unfoldable pub after_flush :
    FlushLoop → Bool → Bool → Option (List Msg.UpstreamChunk × Upstream) → FlushLoop
after_flush l close is_sent none = record l { phase = panicked }
after_flush l close is_sent (some (chunks, u)) =
    let l' = record l { upstream = u } in
    if not is_sent && not (is_empty chunks)
    then record l' { phase = broken }
    else if close || u.last_issued_sequence_number == u32_mod - 1
    then begin_close l'
    else l'

unfoldable pub see_ack : FlushLoop → Msg.UpstreamChunkAck → Phase → FlushLoop
see_ack l ack flushing = record l { upstream = process_ack l.upstream ack }
see_ack l ack (waiting n) = wait_for_ack (record l { upstream = process_ack l.upstream ack }) n
see_ack l ack _ = l

unfoldable pub lose_acks : FlushLoop → Phase → FlushLoop
lose_acks l flushing = record l { phase = broken }
lose_acks l (waiting n) = send_close l
lose_acks l _ = l

unfoldable pub time_out : FlushLoop → Phase → FlushLoop
time_out l (waiting n) = send_close l
time_out l _ = l

-- The branch of the cancellation is open only if there is one.
unfoldable pub wake : FlushLoop → Bool → Bool → Phase → FlushLoop
wake l close is_sent flushing =
    if close && not l.upstream.cancelled
    then l
    else after_flush l close is_sent (flush l.upstream true)
wake l close is_sent _ = l

unfoldable pub step : FlushLoop → Event → FlushLoop
step l (wrote id dps) = record l { upstream = (write_data_points l.upstream id dps).1 }
step l (close_called opts) = record l {
  close_opts = opts;
  upstream = record l.upstream { cancelled = true };
}
step l (woken close is_sent) = wake l close is_sent l.phase
step l (acked ack) = see_ack l ack l.phase
step l acks_gone = lose_acks l l.phase
step l timed_out = time_out l l.phase

unfoldable pub run : FlushLoop → List Event → FlushLoop
run l [] = l
run l (e ∷ es) = run (step l e) es
