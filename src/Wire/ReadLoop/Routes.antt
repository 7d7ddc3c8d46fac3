-- ===== src/Wire/ReadLoop/Routes.antt =====
-- Where `read_loop` sends a message (src/wire/read_loop.rs).
use iscp_rs.Base.{
  ℕ, ◌%◌, ◌≤◌, ◌≡◌, refl, ap, sym, ◌∙◌, Bool, true, false, [], ◌∷◌, Option, none, some, arith,
  if◌then◌else◌, ◌==◌, nat_eq, string_eq, Eq, Map, get, remove, get-remove, beq_refl, length, All,
  inl, inr, Bool-cases, Option-cases,
}
use iscp_rs.Message.Messages.{
  Message, MessageBody, connect_request, connect_response, disconnect, upstream_open_request,
  upstream_open_response, upstream_resume_request, upstream_resume_response, upstream_close_request,
  upstream_close_response, upstream_chunk, upstream_chunk_ack, upstream_metadata,
  upstream_metadata_ack, downstream_open_request, downstream_open_response,
  downstream_resume_request, downstream_resume_response, downstream_close_request,
  downstream_close_response, downstream_chunk, downstream_chunk_ack, downstream_chunk_ack_complete,
  downstream_metadata, downstream_metadata_ack, ping, pong, upstream_call, upstream_call_ack,
  downstream_call,
}
use iscp_rs.Message.Connections.{Ping, Disconnect}
use iscp_rs.Message.RequestId.{request_id}
use iscp_rs.Wire.ReadLoop.{
  ReadLoop, Tx, Output, to_connection, to_pong, to_calls, to_upstream, to_downstream, to_call,
  to_response, chunk, metadata, chunk_ack_complete, send_to, Next, stop, go_on, respond, route,
  handle_message,
}

-- The bodies that have a place of their own to go to.
abbrev pub is_apart : Option MessageBody → Bool
is_apart none = false
is_apart (some (ping a)) = true
is_apart (some (pong a)) = true
is_apart (some (disconnect a)) = true
is_apart (some (downstream_call a)) = true
is_apart (some (upstream_chunk_ack a)) = true
is_apart (some (downstream_chunk a)) = true
is_apart (some (downstream_metadata a)) = true
is_apart (some (downstream_chunk_ack_complete a)) = true
is_apart (some (upstream_call_ack a)) = true
is_apart (some _) = false

-- The output is what the message calls for, on the channel that is registered for it.
abbrev pub Addressed : ReadLoop → Message → Output → Type 0
Addressed l m (to_connection p) =
    (q : Ping) × (m.message ≡ some (ping q))
    × (p ≡ record { request_id = q.request_id; extension_fields = none })
Addressed l m (to_pong p) = m.message ≡ some (pong p)
Addressed l m (to_calls call) = m.message ≡ some (downstream_call call)
Addressed l m (to_upstream tx ack) =
    (m.message ≡ some (upstream_chunk_ack ack))
    × (get ack.stream_id_alias l.channels.tx_upstream_chunk_ack ≡ some tx)
Addressed l m (to_downstream tx (chunk c)) =
    (m.message ≡ some (downstream_chunk c))
    × (get c.stream_id_alias l.channels.tx_downstream_msg ≡ some tx)
Addressed l m (to_downstream tx (metadata c)) =
    (m.message ≡ some (downstream_metadata c))
    × (get c.stream_id_alias l.channels.tx_downstream_msg ≡ some tx)
Addressed l m (to_downstream tx (chunk_ack_complete c)) =
    (m.message ≡ some (downstream_chunk_ack_complete c))
    × (get c.stream_id_alias l.channels.tx_downstream_msg ≡ some tx)
Addressed l m (to_call tx ack) =
    (m.message ≡ some (upstream_call_ack ack)) × (get ack.call_id l.channels.tx_call_ack ≡ some tx)
Addressed l m (to_response tx answer) =
    (answer ≡ m)
    × (is_apart m.message ≡ false)
    × ((id : ℕ) × (request_id m ≡ some id) × (id % 2 ≡ 0) × (get id l.response_senders ≡ some tx))

-- A channel for one message is gone once it is used.
abbrev pub Spent : ReadLoop → Output → Type 0
Spent l (to_call tx ack) = get ack.call_id l.channels.tx_call_ack ≡ none
Spent l (to_response tx answer) =
    (id : ℕ) × (request_id answer ≡ some id) × (get id l.response_senders ≡ none)
Spent l _ = Unit {0}

-- What the loop may do with a message.
abbrev pub Handled : ReadLoop → Message → Next → Type 0
Handled l m stop = (d : Disconnect) × (m.message ≡ some (disconnect d))
Handled l m (go_on outs l') = All (λ o. Addressed l m o × Spent l' o) outs × (length outs ≤ 1)

sent :
    (P : Output → Type 0) (o : Option Tx) (out : Tx → Output)
    → ((tx : Tx) → o ≡ some tx → P (out tx))
    → All P (send_to o out) × (length (send_to o out) ≤ 1)
sent P none out h = (tt, omega arith)
sent P (some tx) out h = ((h tx refl, tt), omega arith)

gone : {K : Type 0} ⦃e : Eq K⦄ (k : K) (m : Map K Tx) → get k (remove k m) ≡ none
gone k m = get-remove k k m ∙ ap (λ b. if b then none else get k m) (beq_refl k)

respond-Handled :
    (l : ReadLoop) (m : Message) → is_apart m.message ≡ false → Handled l m (respond l m)
unfolding respond
respond-Handled l m apart = elim (Option-cases (request_id m)) [
  | inl e ↦ rw (e, respond) (tt, omega arith)
  | inr (id, e) ↦ elim (Bool-cases (id % 2 == 0)) [
    | inl even ↦
        let next : ReadLoop = record l { response_senders = remove id l.response_senders } in
        rw (e, even, respond)
          (sent (λ o. Addressed l m o × Spent next o) (get id l.response_senders)
            (λ tx. to_response tx m)
            (λ tx h.
              ((refl, apart, (id, e, ground arith, h)), (id, e, gone id l.response_senders))))
    | inr odd ↦ rw (e, odd, respond) (tt, omega arith)
  ]
]

body-Handled :
    (l : ReadLoop) (m : Message) (body : MessageBody)
    → m.message ≡ some body
    → Handled l m (route l m body)
body-Handled l m (ping p) e = ((((p, e, refl), tt), tt), omega arith)
body-Handled l m (pong p) e = (((e, tt), tt), omega arith)
body-Handled l m (disconnect d) e = (d, e)
body-Handled l m (downstream_call call) e = (((e, tt), tt), omega arith)
body-Handled l m (upstream_chunk_ack a) e =
    sent (λ o. Addressed l m o × Spent l o) (get a.stream_id_alias l.channels.tx_upstream_chunk_ack)
      (λ tx. to_upstream tx a) (λ tx h. ((e, h), tt))
body-Handled l m (downstream_chunk a) e =
    sent (λ o. Addressed l m o × Spent l o) (get a.stream_id_alias l.channels.tx_downstream_msg)
      (λ tx. to_downstream tx (chunk a)) (λ tx h. ((e, h), tt))
body-Handled l m (downstream_metadata a) e =
    sent (λ o. Addressed l m o × Spent l o) (get a.stream_id_alias l.channels.tx_downstream_msg)
      (λ tx. to_downstream tx (metadata a)) (λ tx h. ((e, h), tt))
body-Handled l m (downstream_chunk_ack_complete a) e =
    sent (λ o. Addressed l m o × Spent l o) (get a.stream_id_alias l.channels.tx_downstream_msg)
      (λ tx. to_downstream tx (chunk_ack_complete a)) (λ tx h. ((e, h), tt))
body-Handled l m (upstream_call_ack a) e =
    let next : ReadLoop = record l {
      channels = record l.channels { tx_call_ack = remove a.call_id l.channels.tx_call_ack };
    } in
    sent (λ o. Addressed l m o × Spent next o) (get a.call_id l.channels.tx_call_ack)
      (λ tx. to_call tx a) (λ tx h. ((e, h), gone a.call_id l.channels.tx_call_ack))
body-Handled l m (connect_request a) e = respond-Handled l m (ap is_apart e)
body-Handled l m (connect_response a) e = respond-Handled l m (ap is_apart e)
body-Handled l m (upstream_open_request a) e = respond-Handled l m (ap is_apart e)
body-Handled l m (upstream_open_response a) e = respond-Handled l m (ap is_apart e)
body-Handled l m (upstream_resume_request a) e = respond-Handled l m (ap is_apart e)
body-Handled l m (upstream_resume_response a) e = respond-Handled l m (ap is_apart e)
body-Handled l m (upstream_close_request a) e = respond-Handled l m (ap is_apart e)
body-Handled l m (upstream_close_response a) e = respond-Handled l m (ap is_apart e)
body-Handled l m (upstream_chunk a) e = respond-Handled l m (ap is_apart e)
body-Handled l m (upstream_metadata a) e = respond-Handled l m (ap is_apart e)
body-Handled l m (upstream_metadata_ack a) e = respond-Handled l m (ap is_apart e)
body-Handled l m (downstream_open_request a) e = respond-Handled l m (ap is_apart e)
body-Handled l m (downstream_open_response a) e = respond-Handled l m (ap is_apart e)
body-Handled l m (downstream_resume_request a) e = respond-Handled l m (ap is_apart e)
body-Handled l m (downstream_resume_response a) e = respond-Handled l m (ap is_apart e)
body-Handled l m (downstream_close_request a) e = respond-Handled l m (ap is_apart e)
body-Handled l m (downstream_close_response a) e = respond-Handled l m (ap is_apart e)
body-Handled l m (downstream_chunk_ack a) e = respond-Handled l m (ap is_apart e)
body-Handled l m (downstream_metadata_ack a) e = respond-Handled l m (ap is_apart e)
body-Handled l m (upstream_call a) e = respond-Handled l m (ap is_apart e)

handled :
    (l : ReadLoop) (m : Message) (b : Option MessageBody)
    → m.message ≡ b
    → Handled l m (elim b [ none ↦ respond l m | some body ↦ route l m body ])
handled l m none e = respond-Handled l m (ap is_apart e)
handled l m (some body) e = body-Handled l m body e

routed :
    (l : ReadLoop) (m : Message) (body : MessageBody)
    → m.message ≡ some body
    → handle_message l m ≡ route l m body
unfolding handle_message
routed l m body e = ap (λ b. elim b [ none ↦ respond l m | some body ↦ route l m body ]) e

-- What does not go apart goes to the request of its number.
rest_responds :
    (l : ReadLoop) (m : Message) (b : Option MessageBody)
    → is_apart b ≡ false
    → elim b [ none ↦ respond l m | some body ↦ route l m body ] ≡ respond l m
rest_responds l m none h = refl
rest_responds l m (some (connect_request a)) h = refl
rest_responds l m (some (connect_response a)) h = refl
rest_responds l m (some (upstream_open_request a)) h = refl
rest_responds l m (some (upstream_open_response a)) h = refl
rest_responds l m (some (upstream_resume_request a)) h = refl
rest_responds l m (some (upstream_resume_response a)) h = refl
rest_responds l m (some (upstream_close_request a)) h = refl
rest_responds l m (some (upstream_close_response a)) h = refl
rest_responds l m (some (upstream_chunk a)) h = refl
rest_responds l m (some (upstream_metadata a)) h = refl
rest_responds l m (some (upstream_metadata_ack a)) h = refl
rest_responds l m (some (downstream_open_request a)) h = refl
rest_responds l m (some (downstream_open_response a)) h = refl
rest_responds l m (some (downstream_resume_request a)) h = refl
rest_responds l m (some (downstream_resume_response a)) h = refl
rest_responds l m (some (downstream_close_request a)) h = refl
rest_responds l m (some (downstream_close_response a)) h = refl
rest_responds l m (some (downstream_chunk_ack a)) h = refl
rest_responds l m (some (downstream_metadata_ack a)) h = refl
rest_responds l m (some (upstream_call a)) h = refl
rest_responds l m (some _) h = cc

-- The message is sent on, as `o` and as nothing else.
abbrev pub Sends : ReadLoop → Next → Output → Type 0
Sends l n o = (l' : ReadLoop) × (n ≡ go_on (o ∷ []) l')

sends_to :
    (l l' : ReadLoop) (tx : Tx) (t : Option Tx) (out : Tx → Output)
    → t ≡ some tx
    → Sends l (go_on (send_to t out) l') (out tx)
sends_to l l' tx t out h = (l', ap (λ x. go_on (send_to x out) l') h)

addressed-Sends :
    (l : ReadLoop) (m : Message) (o : Output) → Addressed l m o → Sends l (handle_message l m) o
unfolding handle_message respond sends_to
addressed-Sends l m (to_connection p) (q, e, same) =
    (l, routed l m (ping q) e ∙ ap (λ x. go_on (to_connection x ∷ []) l) (sym same))
addressed-Sends l m (to_pong p) e = (l, routed l m (pong p) e)
addressed-Sends l m (to_calls call) e = (l, routed l m (downstream_call call) e)
addressed-Sends l m (to_upstream tx a) (e, h) = (
  l,
  routed l m (upstream_chunk_ack a) e
      ∙ (sends_to l l tx (get a.stream_id_alias l.channels.tx_upstream_chunk_ack)
          (λ t. to_upstream t a) h).1,
)
addressed-Sends l m (to_downstream tx (chunk a)) (e, h) = (
  l,
  routed l m (downstream_chunk a) e
      ∙ (sends_to l l tx (get a.stream_id_alias l.channels.tx_downstream_msg)
          (λ t. to_downstream t (chunk a)) h).1,
)
addressed-Sends l m (to_downstream tx (metadata a)) (e, h) = (
  l,
  routed l m (downstream_metadata a) e
      ∙ (sends_to l l tx (get a.stream_id_alias l.channels.tx_downstream_msg)
          (λ t. to_downstream t (metadata a)) h).1,
)
addressed-Sends l m (to_downstream tx (chunk_ack_complete a)) (e, h) = (
  l,
  routed l m (downstream_chunk_ack_complete a) e
      ∙ (sends_to l l tx (get a.stream_id_alias l.channels.tx_downstream_msg)
          (λ t. to_downstream t (chunk_ack_complete a)) h).1,
)
addressed-Sends l m (to_call tx a) (e, h) =
    let next : ReadLoop = record l {
      channels = record l.channels { tx_call_ack = remove a.call_id l.channels.tx_call_ack };
    } in
    (
      next,
      routed l m (upstream_call_ack a) e
          ∙ (sends_to l next tx (get a.call_id l.channels.tx_call_ack) (λ t. to_call t a) h).1,
    )
addressed-Sends l m (to_response tx answer) (same, apart, (id, e, even, h)) =
    let test : (id % 2 == 0) ≡ true = ground (arith, even) in
    let next : ReadLoop = record l { response_senders = remove id l.response_senders } in
    (
      next,
      rest_responds l m m.message apart
          ∙ rw (e, test, h, respond) (ap (λ x. go_on (to_response tx x ∷ []) next) (sym same)),
    )

-- The loop ends exactly at a disconnect. Any other message goes to one channel at most, and it does go
-- there if it calls for an output: a ping is answered under its number, pongs and calls go to
-- their channel, messages of a stream and acknowledgements of a call to the channel registered for
-- them, and any other message whose number is even to the request of that number, if that is
-- registered; the channel of a request or a call is then no longer registered.
pub handle_message-Handled :
    (l : ReadLoop) (m : Message)
    → Handled l m (handle_message l m)
      × ((o : Output) → Addressed l m o → Sends l (handle_message l m) o)
      × ((d : Disconnect) → m.message ≡ some (disconnect d) → handle_message l m ≡ stop)
unfolding handle_message
handle_message-Handled l m =
    (handled l m m.message refl, addressed-Sends l m, λ d e. routed l m (disconnect d) e)
