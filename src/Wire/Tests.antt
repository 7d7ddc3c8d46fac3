-- ===== src/Wire/Tests.antt =====
-- The laws of requests and of the read loop at concrete messages.
use iscp_rs.Base.{
  ℕ, ◌≡◌, refl, subst, some_inj, true, false, Option, none, some, [], ◌∷◌, List, arith,
}
use iscp_rs.Base.Int.{pos}
use iscp_rs.Message.Messages.{Message, MessageBody, ping, disconnect, upstream_resume_response}
use iscp_rs.Message.Connections.{Disconnect}
use iscp_rs.Message.Requests.{upstream_resume_message}
use iscp_rs.Message.Streams.{UpstreamResumeRequest}
use iscp_rs.Message.Types.{Bytes}
use iscp_rs.Transport.Compression.{Compression}
use iscp_rs.Transport.Compression.Codec.{Compressor, Extractor, compress}
use iscp_rs.Transport.Compression.Stored.{no_compression}
use iscp_rs.Wire.Writer.{
  Encoding, WriteEvent, queued, cancelled, drained, write_one, write_packed, go_on_with, drain,
  write_loop,
}
use iscp_rs.Wire.Requests.{request_ids, EvenRising, request_ids-EvenRising}
use iscp_rs.Wire.ReadLoop.{ReadLoop, Output, stop, handle_message}
use iscp_rs.Wire.ReadLoop.Routes.{Handled, Addressed, Sends, handle_message-Handled}
use iscp_rs.Wire.Conn.{
  Event, asked, got, fresh, fresh_conn, run, count_asked, finished, request_message_need_response,
}
use iscp_rs.Wire.Conn.Matched.{IsMatched, run-IsMatched}
use iscp_rs.Wire.Conn.Response.{Answered, request_message_need_response-Answered}

request_ids-EvenRising_example : EvenRising 0 (request_ids 3 0)
request_ids-EvenRising_example = request_ids-EvenRising 3 (omega arith)

-- Request 4 waits on channel 9.
abbrev waiting : ReadLoop
waiting = record {
  channels = record { tx_upstream_chunk_ack = []; tx_downstream_msg = []; tx_call_ack = [] };
  response_senders = (4, 9) ∷ [];
}

abbrev response_to : ℕ → Message
response_to id = record {
  message = some (
      upstream_resume_response (record {
        request_id = id;
        assigned_stream_id_alias = 1;
        result_code = pos 0;
        result_string = "OK";
        extension_fields = none;
        resume_token = "t";
      }));
}

abbrev response : Message
response = response_to 4

handle_message-Handled_example :
    Handled waiting response (handle_message waiting response)
    × ((o : Output)
        → Addressed waiting response o
        → Sends waiting (handle_message waiting response) o)
    × ((d : Disconnect)
        → response.message ≡ some (disconnect d)
        → handle_message waiting response ≡ stop)
handle_message-Handled_example = handle_message-Handled waiting response

-- The second request is answered before the first, and then once more.
abbrev events : List Event
events = asked ∷ asked ∷ got (response_to 2) ∷ got (response_to 0) ∷ got (response_to 2) ∷ []

run-IsMatched_example : IsMatched (run fresh events)
unfolding count_asked
run-IsMatched_example = run-IsMatched events (omega arith)

abbrev request : UpstreamResumeRequest
request = record { request_id = 0; stream_id = []; extension_fields = none; resume_token = "t" }

request_message_need_response-Answered_example :
    let (sent, o, c') =
      request_message_need_response upstream_resume_message fresh_conn request
        (finished true)
        (finished (some (response_to 0))) in
    Answered upstream_resume_message fresh_conn
      (finished true)
      (finished (some (response_to 0)))
      sent
      o
      c'
request_message_need_response-Answered_example =
    request_message_need_response-Answered upstream_resume_message fresh_conn request
      (finished true) (finished (some (response_to 0)))

-- An encoding of pings alone: their number.
abbrev encode_body : MessageBody → Option Bytes
encode_body (ping p) = elim p.extension_fields [ none ↦ some (p.request_id ∷ []) | some e ↦ none ]
encode_body _ = none

abbrev ping_message : ℕ → Message
ping_message id = record {
  message = some (ping (record { request_id = id; extension_fields = none }));
}

abbrev decode_ping : Bytes → Option Message
decode_ping (id ∷ []) = some (ping_message id)
decode_ping _ = none

decodes_body :
    (body : MessageBody) (bytes : Bytes)
    → encode_body body ≡ some bytes
    → decode_ping bytes ≡ some (record { message = some body })
decodes_body (ping p) bytes h = go p.extension_fields bytes h
  where
    go :
        (e : Option (Unit {0})) (b : Bytes)
        → elim e [ none ↦ some (p.request_id ∷ []) | some e ↦ none ] ≡ some b
        → decode_ping b
          ≡ some (record {
            message = some (ping (record { request_id = p.request_id; extension_fields = e }));
          })
    go none b k = subst (λ x. decode_ping x ≡ some (ping_message p.request_id)) (some_inj k) refl
    go (some e) b k = cc
decodes_body _ bytes h = cc

decodes_ping :
    (m : Message) (bytes : Bytes)
    → elim m.message [ none ↦ none | some body ↦ encode_body body ] ≡ some bytes
    → decode_ping bytes ≡ some m
decodes_ping m bytes h = go m.message h
  where
    go :
        (b : Option MessageBody)
        → elim b [ none ↦ none | some body ↦ encode_body body ] ≡ some bytes
        → decode_ping bytes ≡ some (record { message = b })
    go none k = cc
    go (some body) k = decodes_body body bytes k

abbrev ping_encoding : Encoding
ping_encoding = record {
  encode = λ m. elim m.message [ none ↦ none | some body ↦ encode_body body ];
  decode = decode_ping;
  decodes = decodes_ping;
}

-- The second message cannot be encoded; the third is queued when the connection is cancelled.
abbrev write_events : List WriteEvent
write_events =
    queued (ping_message 2) true
    ∷ queued response true
    ∷ cancelled
    ∷ queued (ping_message 4) true
    ∷ []

abbrev plain_settings : Compression
plain_settings = record { enabled = false; level = none; window_bits = none }

abbrev plain_compressor : Compressor
plain_compressor = record {
  stream = none;
  capacity = 0;
  buffer_increment_size = 128;
  dictionary = none;
}

abbrev plain_extractor : Extractor
plain_extractor = record {
  stream = none;
  capacity = 0;
  buffer_increment_size = 128;
  dictionary = none;
}

write_test :
    write_loop no_compression ping_encoding 1 write_events plain_compressor
    ≡ ((2 ∷ []) ∷ (4 ∷ []) ∷ [], drained)
unfolding write_loop drain go_on_with write_one write_packed compress
write_test = refl
