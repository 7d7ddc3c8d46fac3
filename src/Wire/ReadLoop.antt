-- ===== src/Wire/ReadLoop.antt =====
-- src/wire/read_loop.rs: where a message that was read goes. A channel is its number; the receiver of
-- a channel is there, so that a send succeeds.
pub mod Routes
use iscp_rs.Base.{
  ℕ, ◌+◌, ◌%◌, ◌≡◌, String, Bool, true, false, Option, none, some, List, [], ◌∷◌, if◌then◌else◌,
  ◌==◌, nat_eq, string_eq, Eq, Map, get, insert, remove,
}
use iscp_rs.Message.Chunks.{UpstreamChunkAck, DownstreamChunk, DownstreamChunkAckComplete}
use iscp_rs.Message.Connections.{Pong, UpstreamCallAck, DownstreamCall}
use iscp_rs.Message.Metadata.{DownstreamMetadata}
use iscp_rs.Message.Messages.{
  Message, MessageBody, ping, pong, disconnect, downstream_call, upstream_chunk_ack,
  downstream_chunk, downstream_metadata, downstream_chunk_ack_complete, upstream_call_ack,
}
use iscp_rs.Message.RequestId.{request_id}

pub data ReceivableDownstreamMsg : Type 0 where
  chunk : DownstreamChunk → ReceivableDownstreamMsg
  metadata : DownstreamMetadata → ReceivableDownstreamMsg
  chunk_ack_complete : DownstreamChunkAckComplete → ReceivableDownstreamMsg

abbrev pub Tx : Type 0
Tx = ℕ

pub record ReadLoopChannels : Type 0 where
  pub tx_upstream_chunk_ack : Map ℕ Tx
  pub tx_downstream_msg : Map ℕ Tx
  pub tx_call_ack : Map String Tx

pub data ReadLoopCommand : Type 0 where
  add_upstream : ℕ → Tx → ReadLoopCommand
  remove_upstream : ℕ → ReadLoopCommand
  add_downstream : ℕ → Tx → ReadLoopCommand
  remove_downstream : ℕ → ReadLoopCommand
  subscribe_call_ack : String → Tx → ReadLoopCommand
  remove_call_ack : String → ReadLoopCommand

unfoldable pub process_command : ReadLoopChannels → ReadLoopCommand → ReadLoopChannels
process_command c (add_upstream alias tx) = record c {
  tx_upstream_chunk_ack = insert alias tx c.tx_upstream_chunk_ack;
}
process_command c (remove_upstream alias) = record c {
  tx_upstream_chunk_ack = remove alias c.tx_upstream_chunk_ack;
}
process_command c (add_downstream alias tx) = record c {
  tx_downstream_msg = insert alias tx c.tx_downstream_msg;
}
process_command c (remove_downstream alias) = record c {
  tx_downstream_msg = remove alias c.tx_downstream_msg;
}
process_command c (subscribe_call_ack call_id tx) = record c {
  tx_call_ack = insert call_id tx c.tx_call_ack;
}
process_command c (remove_call_ack call_id) = record c {
  tx_call_ack = remove call_id c.tx_call_ack;
}

-- What the loop sends, and to which channel.
pub data Output : Type 0 where
  to_connection : Pong → Output
  to_pong : Pong → Output
  to_calls : DownstreamCall → Output
  to_upstream : Tx → UpstreamChunkAck → Output
  to_downstream : Tx → ReceivableDownstreamMsg → Output
  to_call : Tx → UpstreamCallAck → Output
  to_response : Tx → Message → Output

abbrev pub send_to : Option Tx → (Tx → Output) → List Output
send_to none out = []
send_to (some tx) out = out tx ∷ []

-- `process_message`: `none` hands the message back.
abbrev pub process_body : ReadLoopChannels → MessageBody → Option (List Output × ReadLoopChannels)
process_body c (upstream_chunk_ack ack) =
    some (send_to (get ack.stream_id_alias c.tx_upstream_chunk_ack) (λ tx. to_upstream tx ack), c)
process_body c (downstream_chunk m) =
    some (send_to (get m.stream_id_alias c.tx_downstream_msg) (λ tx. to_downstream tx (chunk m)), c)
process_body c (downstream_metadata m) =
    some
      (send_to (get m.stream_id_alias c.tx_downstream_msg) (λ tx. to_downstream tx (metadata m)), c)
process_body c (downstream_chunk_ack_complete m) = some (
  send_to (get m.stream_id_alias c.tx_downstream_msg)
      (λ tx. to_downstream tx (chunk_ack_complete m)),
  c,
)
process_body c (upstream_call_ack ack) = some (
  send_to (get ack.call_id c.tx_call_ack) (λ tx. to_call tx ack),
  record c { tx_call_ack = remove ack.call_id c.tx_call_ack },
)
process_body c _ = none

-- The channels of the loop, and `response_senders` of the connection.
pub record ReadLoop : Type 0 where
  pub channels : ReadLoopChannels
  pub response_senders : Map ℕ Tx

-- `stop` ends the loop.
pub data Next : Type 0 where
  stop : Next
  go_on : List Output → ReadLoop → Next

unfoldable pub respond : ReadLoop → Message → Next
respond l m = elim (request_id m) [
  | none ↦ go_on [] l
  | some id ↦
      if id % 2 == 0
      then go_on (send_to (get id l.response_senders) (λ tx. to_response tx m))
          (record l { response_senders = remove id l.response_senders })
      else go_on [] l
]

abbrev pub route : ReadLoop → Message → MessageBody → Next
route l m (ping p) =
    go_on (to_connection (record { request_id = p.request_id; extension_fields = none }) ∷ []) l
route l m (pong p) = go_on (to_pong p ∷ []) l
route l m (disconnect d) = stop
route l m (downstream_call call) = go_on (to_calls call ∷ []) l
route l m body = elim (process_body l.channels body) [
  | some (outs, channels) ↦ go_on outs (record l { channels = channels })
  | none ↦ respond l m
]

-- The loop over one message that was read and decoded.
unfoldable pub handle_message : ReadLoop → Message → Next
handle_message l m = elim m.message [ none ↦ respond l m | some body ↦ route l m body ]
