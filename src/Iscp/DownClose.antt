-- ===== src/Iscp/DownClose.antt =====
-- src/iscp/downstream.rs: the end of `downstream_loop`, where a downstream that closes waits until its
-- acknowledgements are complete.
mod Complete
mod Tests
use iscp_rs.Base.{ℕ, Bool, true, Option, none, some, List, [], ◌∷◌, if◌then◌else◌, leb}
use iscp_rs.Message.Types.{Bytes}
use iscp_rs.Message.Chunks.{DownstreamChunkAckComplete}
use iscp_rs.Message.Streams.{DownstreamCloseRequest}
use iscp_rs.Iscp.DownState.{check_chunk_ack_complete}

-- A message of the channel, or its end; when the list of them ends, `close_timeout` is over.
pub data Received : Type 0 where
  completed : DownstreamChunkAckComplete → Received
  another senders_gone : Received

pub data WaitEnd : Type 0 where
  all_complete channel_closed timed_out : WaitEnd

unfoldable pub is_complete : Option ℕ → ℕ → Bool
is_complete none ack_id_complete = true
is_complete (some last_issued) ack_id_complete = leb last_issued ack_id_complete

unfoldable pub wait_complete : Option ℕ → ℕ → List Received → WaitEnd
wait_complete last_issued ack_id_complete [] =
    if is_complete last_issued ack_id_complete then all_complete else timed_out
wait_complete last_issued ack_id_complete (completed complete ∷ ms) =
    let rest = wait_complete last_issued (check_chunk_ack_complete complete ack_id_complete) ms in
    if is_complete last_issued ack_id_complete then all_complete else rest
wait_complete last_issued ack_id_complete (another ∷ ms) =
    let rest = wait_complete last_issued ack_id_complete ms in
    if is_complete last_issued ack_id_complete then all_complete else rest
wait_complete last_issued ack_id_complete (senders_gone ∷ ms) =
    if is_complete last_issued ack_id_complete then all_complete else channel_closed
