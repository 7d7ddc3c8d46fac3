-- ===== src/Iscp/Calls.antt =====
-- src/iscp/e2e.rs, and the types of calls in src/iscp/types.rs: calls from node to node. `none` as a
-- result says that the task still waits. Debug assertions are off.
pub mod Replies
pub mod Answers
mod Tests
use iscp_rs.Base.{
  ℕ, ◌≡◌, String, Bool, true, false, not, Option, none, some, List, [], ◌∷◌, ◌++◌, if◌then◌else◌,
  ◌==◌, string_eq,
}
use iscp_rs.Errors.{
  Error, Outcome, ok, err, panic, connection_closed, cancelled_by_close, timeout, and_then,
}
use iscp_rs.Message.Types.{Bytes}
use iscp_rs.Message.Connections as Msg
use iscp_rs.Iscp.Retry.{retry}

pub record UpstreamCall : Type 0 where
  pub destination_node_id : String
  pub name : String
  pub type_ : String
  pub payload : Bytes

pub record UpstreamReplyCall : Type 0 where
  pub request_call_id : String
  pub destination_node_id : String
  pub name : String
  pub type_ : String
  pub payload : Bytes

pub record DownstreamReplyCall : Type 0 where
  pub request_call_id : String
  pub source_node_id : String
  pub name : String
  pub type_ : String
  pub payload : Bytes

pub record DownstreamCall : Type 0 where
  pub call_id : String
  pub source_node_id : String
  pub name : String
  pub type_ : String
  pub payload : Bytes

-- What comes to a task that waits for a call: a call, the loss of `n` calls, the end of the channel, the
-- end of the time for the reply, or the cancellation of the connection.
pub data Arrival : Type 0 where
  arrived : Msg.DownstreamCall → Arrival
  lagged : ℕ → Arrival
  closed : Arrival
  expired : Arrival
  cancelled : Arrival

-- What comes to a task that waits for the acknowledgement of a call.
pub data AckArrival : Type 0 where
  acked : Msg.UpstreamCallAck → AckArrival
  dropped : AckArrival
  stopped : AckArrival
  pending : AckArrival

-- What a task has done on the wire connection of its attempt, the last first.
pub data Action : Type 0 where
  subscribed_call_ack : String → Action
  subscribed_downstream_call : Action
  sent_message : Msg.UpstreamCall → Action

-- The connection during one attempt: the results of its operations, the identifier that `new_call_id`
-- draws, and what comes in; these may depend on what the task has done before. A task that receives
-- calls subscribes in each round anew: `rounds` has, for each, what comes in from that subscription
-- to the next.
pub record Attempt : Type 0 where
  pub ready : Outcome (Unit {0})
  pub call_id : String
  pub wire_conn : Outcome (Unit {0})
  pub subscribe_call_ack : List Action → String → Outcome (Unit {0})
  pub send_message : List Action → Msg.UpstreamCall → Outcome (Unit {0})
  pub ack : List Action → AckArrival
  pub arrivals : List Action → List Arrival
  pub rounds : List (List Arrival)

unfoldable pub call_message : String → UpstreamCall → Msg.UpstreamCall
call_message call_id call = record {
  call_id = call_id;
  request_call_id = "";
  destination_node_id = call.destination_node_id;
  name = call.name;
  type_ = call.type_;
  payload = call.payload;
  extension_fields = none;
}

unfoldable pub reply_message : String → UpstreamReplyCall → Msg.UpstreamCall
reply_message call_id call = record {
  call_id = call_id;
  request_call_id = call.request_call_id;
  destination_node_id = call.destination_node_id;
  name = call.name;
  type_ = call.type_;
  payload = call.payload;
  extension_fields = none;
}

unfoldable pub await_ack : AckArrival → Option (Outcome (Unit {0}))
await_ack (acked ack) = some (ok tt)
await_ack dropped = some (err connection_closed)
await_ack stopped = some (err cancelled_by_close)
await_ack pending = none

-- `and_then` for a task that may wait.
unfoldable pub then_wait :
    {A B : Type 0} → Option (Outcome A) → (A → Option (Outcome B)) → Option (Outcome B)
then_wait none f = none
then_wait (some (ok a)) f = f a
then_wait (some (err e)) f = some (err e)
then_wait (some panic) f = some panic

-- The common part of `send_call_inner` and `send_call_and_wait_reply_call_inner`, which has subscribed
-- to the calls that come in before it sends (`also`).
unfoldable pub send_acked : Attempt → List Action → Msg.UpstreamCall → Option (Outcome (Unit {0}))
send_acked a also call =
    let ready = also ++ subscribed_call_ack call.call_id ∷ [] in
    then_wait
      (some (
        and_then a.wire_conn
          (λ _. and_then (a.subscribe_call_ack [] call.call_id) (λ _. a.send_message ready call))))
      (λ _. await_ack (a.ack (sent_message call ∷ ready)))

unfoldable pub send_call_inner : Attempt → Msg.UpstreamCall → Option (Outcome String)
send_call_inner a call = then_wait (send_acked a [] call) (λ _. some (ok call.call_id))

unfoldable pub try_send_call : UpstreamCall → Attempt → Option (Outcome String)
try_send_call call a = send_call_inner a (call_message a.call_id call)

unfoldable pub try_send_reply_call : UpstreamReplyCall → Attempt → Option (Outcome String)
try_send_reply_call call a = send_call_inner a (reply_message a.call_id call)

-- The cancellation is watched by the callers.
unfoldable pub wait_matching_reply : String → List Arrival → Option (Outcome Msg.DownstreamCall)
wait_matching_reply call_id [] = none
wait_matching_reply call_id (arrived c ∷ rest) =
    if c.request_call_id == call_id then some (ok c) else wait_matching_reply call_id rest
wait_matching_reply call_id (lagged n ∷ rest) = wait_matching_reply call_id rest
wait_matching_reply call_id (closed ∷ rest) = some (err connection_closed)
wait_matching_reply call_id (expired ∷ rest) = some (err (timeout "wait reply call"))
wait_matching_reply call_id (cancelled ∷ rest) = some (err cancelled_by_close)

unfoldable pub to_reply : Msg.DownstreamCall → DownstreamReplyCall
to_reply c = record {
  request_call_id = c.request_call_id;
  source_node_id = c.source_node_id;
  name = c.name;
  type_ = c.type_;
  payload = c.payload;
}

unfoldable pub to_call : Msg.DownstreamCall → DownstreamCall
to_call c = record {
  call_id = c.call_id;
  source_node_id = c.source_node_id;
  name = c.name;
  type_ = c.type_;
  payload = c.payload;
}

unfoldable pub try_send_call_and_wait_reply_call :
    UpstreamCall → Attempt → Option (Outcome DownstreamReplyCall)
try_send_call_and_wait_reply_call call a =
    let message = call_message a.call_id call in
    let done =
      sent_message message ∷ subscribed_downstream_call ∷ subscribed_call_ack a.call_id ∷ [] in
    then_wait (send_acked a (subscribed_downstream_call ∷ []) message) (λ _.
      then_wait (wait_matching_reply a.call_id (a.arrivals done)) (λ c. some (ok (to_reply c))))

-- `recv_call_inner` on a new subscription, where a connection that is down counts as the end of the
-- channel: the first call; what comes behind it is lost to the task. There is no limit of time here.
unfoldable pub recv_call_inner : List Arrival → Option (Outcome Msg.DownstreamCall)
recv_call_inner [] = none
recv_call_inner (arrived c ∷ rest) = some (ok c)
recv_call_inner (lagged n ∷ rest) = recv_call_inner rest
recv_call_inner (closed ∷ rest) = some (err connection_closed)
recv_call_inner (expired ∷ rest) = recv_call_inner rest
recv_call_inner (cancelled ∷ rest) = some (err cancelled_by_close)

-- The loops that receive calls. A round in which nothing comes is the last one.
unfoldable pub try_recv_call : List (List Arrival) → Option (Outcome DownstreamCall)
try_recv_call [] = none
try_recv_call (round ∷ rounds) =
    let next = try_recv_call rounds in
    then_wait (recv_call_inner round)
      (λ c. if c.request_call_id == "" then some (ok (to_call c)) else next)

unfoldable pub try_recv_reply_call : List (List Arrival) → Option (Outcome DownstreamReplyCall)
try_recv_reply_call [] = none
try_recv_reply_call (round ∷ rounds) =
    let next = try_recv_reply_call rounds in
    then_wait (recv_call_inner round)
      (λ c. if c.request_call_id == "" then next else some (ok (to_reply c)))

unfoldable pub send_call : List Attempt → UpstreamCall → Option (Outcome String)
send_call attempts call = retry (λ a. a.ready) (try_send_call call) attempts

unfoldable pub send_reply_call : List Attempt → UpstreamReplyCall → Option (Outcome String)
send_reply_call attempts call = retry (λ a. a.ready) (try_send_reply_call call) attempts

unfoldable pub send_call_and_wait_reply_call :
    List Attempt → UpstreamCall → Option (Outcome DownstreamReplyCall)
send_call_and_wait_reply_call attempts call =
    retry (λ a. a.ready) (try_send_call_and_wait_reply_call call) attempts

unfoldable pub recv_call : List Attempt → Option (Outcome DownstreamCall)
recv_call attempts = retry (λ a. a.ready) (λ a. try_recv_call a.rounds) attempts

unfoldable pub recv_reply_call : List Attempt → Option (Outcome DownstreamReplyCall)
recv_reply_call attempts = retry (λ a. a.ready) (λ a. try_recv_reply_call a.rounds) attempts
