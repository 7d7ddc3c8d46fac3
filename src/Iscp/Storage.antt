-- ===== src/Iscp/Storage.antt =====
-- src/iscp/storage.rs: the chunks that a reliable upstream keeps until they are acknowledged. A
-- callback is the list of its calls.
use iscp_rs.Base.{
  ℕ, Bool, Option, none, some, List, [], ◌∷◌, ◌++◌, if◌then◌else◌, ltb, nat_eq, Map, remove,
}
use iscp_rs.Base.BTree
use iscp_rs.Base.BTree.{values}
use iscp_rs.Errors.{invalid_value, Outcome, ok, err}
use iscp_rs.Message.Types.{QoS, qos_beq, reliable}
use iscp_rs.Message.ResultCode.{code_of}
use iscp_rs.Message.Chunks as Msg
use iscp_rs.Iscp.Types.{DataPointGroup, UpstreamChunk, UpstreamChunkResult}

-- `sent` and `acked` are the calls of the two callbacks, if they are set.
pub record UpstreamStorage : Type 0 where
  pub is_reliable : Bool
  pub has_send_callback : Bool
  pub has_ack_callback : Bool
  pub chunks : Map ℕ Msg.UpstreamChunk
  pub last_received_sequence_number : Option ℕ
  pub sent : List UpstreamChunk
  pub acked : List UpstreamChunkResult

unfoldable pub new : QoS → Bool → Bool → UpstreamStorage
new qos has_send_callback has_ack_callback = record {
  is_reliable = qos_beq qos reliable;
  has_send_callback = has_send_callback;
  has_ack_callback = has_ack_callback;
  chunks = [];
  last_received_sequence_number = none;
  sent = [];
  acked = [];
}

-- `none` is the panic of a chunk without a stream chunk.
unfoldable pub add_chunk :
    UpstreamStorage → Msg.UpstreamChunk → List DataPointGroup → Option UpstreamStorage
add_chunk s chunk dpgs = elim chunk.stream_chunk [
  | none ↦ none
  | some stream_chunk ↦
      let n = stream_chunk.sequence_number in
      some (record s {
        chunks = if s.is_reliable then BTree.insert n chunk s.chunks else s.chunks;
        sent =
            if s.has_send_callback
            then s.sent ++ record { sequence_number = n; data_point_groups = dpgs } ∷ []
            else s.sent;
      })
]

unfoldable pub convert_upstream_chunk_result : Msg.UpstreamChunkResult → Outcome UpstreamChunkResult
convert_upstream_chunk_result r = elim (code_of r.result_code) [
  | none ↦ err (invalid_value "invalid result_code")
  | some code ↦ ok (record {
    sequence_number = r.sequence_number;
    result_code = code;
    result_string = r.result_string;
  })
]

-- The call of the callback: a result that does not convert is logged only.
unfoldable pub report : UpstreamStorage → Outcome UpstreamChunkResult → List UpstreamChunkResult
report s (ok r) = if s.has_ack_callback then s.acked ++ r ∷ [] else s.acked
report s _ = s.acked

unfoldable pub later : Option ℕ → ℕ → Option ℕ
later none n = some n
later (some last) n = if ltb last n then some n else some last

-- One round of the loop of `process_ack`.
unfoldable pub process_result : UpstreamStorage → Msg.UpstreamChunkResult → UpstreamStorage
process_result s r = record s {
  last_received_sequence_number = later s.last_received_sequence_number r.sequence_number;
  chunks = if s.is_reliable then remove r.sequence_number s.chunks else s.chunks;
  acked = report s (convert_upstream_chunk_result r);
}

unfoldable pub process_results : UpstreamStorage → List Msg.UpstreamChunkResult → UpstreamStorage
process_results s [] = s
process_results s (r ∷ rs) = process_results (process_result s r) rs

unfoldable pub process_ack : UpstreamStorage → Msg.UpstreamChunkAck → UpstreamStorage
process_ack s ack = process_results s ack.results

unfoldable pub iter_chunks : UpstreamStorage → List Msg.UpstreamChunk
iter_chunks s = values s.chunks
