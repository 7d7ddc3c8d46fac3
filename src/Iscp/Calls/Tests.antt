-- ===== src/Iscp/Calls/Tests.antt =====
-- The laws of calls at concrete attempts.
use iscp_rs.Base.{String, ◌≡◌, refl, none, some, List, [], ◌∷◌, ◌↔◌}
use iscp_rs.Base.Int.{pos}
use iscp_rs.Errors.{ok, can_retry}
use iscp_rs.Message.Connections as Msg
use iscp_rs.Iscp.Retry.{retry, begin, settle, Settled, retry_iff}
use iscp_rs.Iscp.Calls.{
  UpstreamCall, DownstreamCall, Attempt, Arrival, arrived, lagged, acked, dropped, try_send_call,
  try_send_call_and_wait_reply_call, then_wait, await_ack, send_acked, wait_matching_reply,
  call_message, to_reply, try_recv_call, recv_call_inner, send_call_and_wait_reply_call,
}

abbrev downstream_call : String → Msg.DownstreamCall
downstream_call request_call_id = record {
  call_id = "x";
  request_call_id = request_call_id;
  source_node_id = "n";
  name = "reply";
  type_ = "t";
  payload = 1 ∷ [];
  extension_fields = none;
}

abbrev arrivals : List Arrival
arrivals = arrived (downstream_call "") ∷ lagged 2 ∷ arrived (downstream_call "c2") ∷ []

-- The channel of the first attempt ends before the acknowledgement.
abbrev lost : Attempt
lost = record {
  ready = ok tt;
  call_id = "c1";
  wire_conn = ok tt;
  subscribe_call_ack = λ _ _. ok tt;
  send_message = λ _ _. ok tt;
  ack = λ _. dropped;
  arrivals = λ _. [];
  rounds = [];
}

abbrev answered : Attempt
answered = record {
  ready = ok tt;
  call_id = "c2";
  wire_conn = ok tt;
  subscribe_call_ack = λ _ _. ok tt;
  send_message = λ _ _. ok tt;
  ack = λ _. acked (record {
    call_id = "c2";
    result_code = pos 0;
    result_string = "OK";
    extension_fields = none;
  });
  arrivals = λ _. arrivals;
  rounds = [];
}

abbrev attempts : List Attempt
attempts = lost ∷ answered ∷ []

abbrev call : UpstreamCall
call = record { destination_node_id = "m"; name = "ask"; type_ = "t"; payload = [] }

retry_iff_example :
    (retry (λ a. a.ready) (try_send_call call) attempts ≡ some (ok "c2"))
    ↔ Settled (λ a. a.ready) (try_send_call call) attempts (ok "c2")
retry_iff_example = retry_iff (λ a. a.ready) (try_send_call call) attempts (ok "c2")

answered_test :
    send_call_and_wait_reply_call attempts call ≡ some (ok (to_reply (downstream_call "c2")))
unfolding send_call_and_wait_reply_call try_send_call_and_wait_reply_call retry begin settle
    then_wait await_ack send_acked wait_matching_reply can_retry to_reply call_message
answered_test = refl

-- Two rounds: behind the first call of each, another one waits, which is lost.
abbrev rounds : List (List Arrival)
rounds =
    (lagged 2 ∷ arrived (downstream_call "c1") ∷ arrived (downstream_call "") ∷ [])
    ∷ (arrived (downstream_call "c2") ∷ [])
    ∷ []

lost_test : try_recv_call rounds ≡ none
unfolding try_recv_call recv_call_inner then_wait
lost_test = refl
