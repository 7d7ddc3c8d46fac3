-- ===== src/Wire/Conn.antt =====
-- src/wire/mod.rs: a request and the wait for its response, and what both readers of one connection
-- share. A oneshot channel is its number, and `Waited` is what a wait under a limit of time comes to.
pub mod Kept
pub mod Matched
pub mod Response
use iscp_rs.Base.{
  ℕ, zero, suc, ◌+◌, ◌≡◌, String, Bool, true, false, Option, none, some, List, [], ◌∷◌, ◌++◌,
  if◌then◌else◌, ◌==◌, nat_eq, Map, insert,
}
use iscp_rs.Errors.{
  Outcome, ok, err, panic, and_then, timeout, cancelled_by_close, unexpected, invalid_value,
  failed_message,
}
use iscp_rs.Message.Messages.{Message}
use iscp_rs.Message.ResultCode.{ResultCode, succeeded}
use iscp_rs.Message.ResultCode.Codes.{result_code_eq}
use iscp_rs.Message.Requests.{RequestMessage}
use iscp_rs.Wire.Requests.{next_request_id}
use iscp_rs.Wire.ReadLoop.{Tx, ReadLoop, Output, to_response, Next, stop, go_on, handle_message}

pub data Waited (A : Type 0) : Type 0 where
  finished : A → Waited A
  elapsed : Waited A
  cancelled : Waited A

-- src/internal.rs.
unfoldable pub timeout_with_ct : {A : Type 0} → Waited A → Outcome A
timeout_with_ct (finished a) = ok a
timeout_with_ct elapsed = err (timeout "")
timeout_with_ct cancelled = err cancelled_by_close

-- Whether the writing loop was there to take the message.
abbrev pub taken : Bool → Outcome (Unit {0})
taken true = ok tt
taken false = err (unexpected "write loop closed")

unfoldable pub send_message : Waited Bool → Outcome (Unit {0})
send_message w = and_then (timeout_with_ct w) taken

-- `next_channel` is the next oneshot channel to be made.
pub record Conn : Type 0 where
  pub request_id_counter : ℕ
  pub next_channel : Tx
  pub loop : ReadLoop

-- The number of a request and the channel for its response, which is registered.
unfoldable pub register : Conn → ℕ × Tx × Conn
register c =
    let (id, counter) = next_request_id c.request_id_counter in
    (
      id,
      c.next_channel,
      record c {
        request_id_counter = counter;
        next_channel = suc c.next_channel;
        loop = record c.loop {
          response_senders = insert id c.next_channel c.loop.response_senders;
        };
      },
    )

module _ {Req Resp : Type 0} (r : RequestMessage Req Resp) where
  abbrev pub convert_body : Message → Option Resp
  convert_body m = elim m.message [ none ↦ none | some body ↦ r.try_into body ]

  unfoldable pub check_code : Resp → Option ResultCode → Outcome Resp
  check_code response none = err (invalid_value "unknown result code")
  check_code response (some code) =
      if code == succeeded
      then ok response
      else err (failed_message code (r.result_string response))

  unfoldable pub check_type : Option Resp → Outcome Resp
  check_type none = err (invalid_value "unexpected message returned")
  check_type (some response) = check_code response (r.result_code response)

  -- `none` is a channel whose sender is gone.
  unfoldable pub check_response : Option Message → Outcome Resp
  check_response none = err (unexpected "internal channel closed")
  check_response (some m) = check_type (convert_body m)

  -- The message that is queued, the result, and the connection behind the registration.
  unfoldable pub request_message_need_response :
      Conn → Req → Waited Bool → Waited (Option Message) → Message × Outcome Resp × Conn
  request_message_need_response c request queued response =
      let (id, tx, c') = register c in
      (
        r.into (r.set_request_id id request),
        and_then (send_message queued) (λ _. and_then (timeout_with_ct response) check_response),
        c',
      )

-- What happens on a connection: a request is registered, or a reader handles a message.
pub data Event : Type 0 where
  asked : Event
  got : Message → Event

-- The connection, the channel of every request under its number, and what the channels were sent.
pub record World : Type 0 where
  pub conn : Conn
  pub requests : Map ℕ Tx
  pub delivered : List (Tx × Message)

abbrev pub fresh_conn : Conn
fresh_conn = record {
  request_id_counter = 0;
  next_channel = 0;
  loop = record {
    channels = record { tx_upstream_chunk_ack = []; tx_downstream_msg = []; tx_call_ack = [] };
    response_senders = [];
  };
}

abbrev pub fresh : World
fresh = record { conn = fresh_conn; requests = []; delivered = [] }

unfoldable pub responses : List Output → List (Tx × Message)
responses [] = []
responses (to_response tx m ∷ outs) = (tx, m) ∷ responses outs
responses (_ ∷ outs) = responses outs

abbrev pub after : World → Next → World
after w stop = w
after w (go_on outs loop) = record w {
  conn = record w.conn { loop = loop };
  delivered = responses outs ++ w.delivered;
}

unfoldable pub step : World → Event → World
step w asked =
    let (id, tx, c) = register w.conn in record w { conn = c; requests = insert id tx w.requests }
step w (got m) = after w (handle_message w.conn.loop m)

unfoldable pub run : World → List Event → World
run w [] = w
run w (e ∷ es) = run (step w e) es

unfoldable pub count_asked : List Event → ℕ
count_asked [] = 0
count_asked (asked ∷ es) = suc (count_asked es)
count_asked (got m ∷ es) = count_asked es
