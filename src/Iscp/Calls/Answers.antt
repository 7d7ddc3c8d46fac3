-- ===== src/Iscp/Calls/Answers.antt =====
-- A call and the reply that its caller gets (src/iscp/e2e.rs).
use iscp_rs.Base.{◌≡◌, true, List, [], ◌∷◌, ◌++◌, All}
use iscp_rs.Errors.{ok}
use iscp_rs.Message.Connections as Msg
use iscp_rs.Iscp.Retry.{Retried}
use iscp_rs.Iscp.Calls.{
  UpstreamCall, DownstreamReplyCall, Attempt, Action, subscribed_call_ack,
  subscribed_downstream_call, sent_message, acked, call_message, to_reply,
  try_send_call_and_wait_reply_call,
}
use iscp_rs.Iscp.Calls.Replies.{First, answers}

-- The task had first subscribed to the acknowledgement of the call, and then done `also`, when it sent
-- the call; and it was acknowledged behind that.
pub record Sent (a : Attempt) (also : List Action) (call : Msg.UpstreamCall) : Type 0 where
  pub connected : a.wire_conn ≡ ok tt
  pub subscribed : a.subscribe_call_ack [] call.call_id ≡ ok tt
  pub sent : a.send_message (also ++ subscribed_call_ack call.call_id ∷ []) call ≡ ok tt
  pub ack : Msg.UpstreamCallAck
  pub acknowledged :
      a.ack (sent_message call ∷ (also ++ subscribed_call_ack call.call_id ∷ [])) ≡ acked ack

-- What is done in one attempt before its reply can come, the last first.
abbrev pub done : UpstreamCall → Attempt → List Action
done call a =
    sent_message (call_message a.call_id call)
    ∷ subscribed_downstream_call
    ∷ subscribed_call_ack a.call_id
    ∷ []

-- One attempt that gets its reply.
abbrev pub Replied : UpstreamCall → Attempt → DownstreamReplyCall → Type 0
Replied call a r =
    Sent a (subscribed_downstream_call ∷ []) (call_message a.call_id call)
    × ((c : Msg.DownstreamCall) × First true (answers a.call_id) (a.arrivals (done call a)) c
        × (to_reply c ≡ r))

-- The attempts of `send_call_and_wait_reply_call` up to the one that gets `r`.
pub record Answered (call : UpstreamCall) (attempts : List Attempt) (r : DownstreamReplyCall)
    : Type 0 where
  pub before : List Attempt
  pub last : Attempt
  pub after : List Attempt
  pub whole : attempts ≡ before ++ last ∷ after
  pub retried : All (Retried (λ a. a.ready) (try_send_call_and_wait_reply_call call)) before
  pub began : last.ready ≡ ok tt
  pub replied : Replied call last r
