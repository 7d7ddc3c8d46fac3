-- ===== src/Wire/Conn/Kept.antt =====
-- The channels that a message leaves registered (src/wire/read_loop.rs).
use iscp_rs.Base.{
  ℕ, ◌%◌, ◌≡◌, refl, Option, none, some, ◌==◌, nat_eq, get, get-remove, arith, inl, inr, ◌⊎◌,
  Bool-cases, Option-cases,
}
use iscp_rs.Message.Messages.{
  Message, MessageBody, disconnect, upstream_chunk_ack, downstream_chunk,
  downstream_chunk_ack_complete, downstream_metadata, ping, pong, upstream_call_ack,
  downstream_call,
}
use iscp_rs.Message.RequestId.{request_id}
use iscp_rs.Wire.ReadLoop.{ReadLoop, Next, stop, go_on, respond, route, handle_message}

-- No channel for a response is registered that was not before.
abbrev pub Keeps : ReadLoop → Next → Type 0
Keeps l stop = Unit {0}
Keeps l (go_on outs l') =
    (id : ℕ)
    → (get id l'.response_senders ≡ none) ⊎ (get id l'.response_senders ≡ get id l.response_senders)

respond-Keeps : (l : ReadLoop) (m : Message) → Keeps l (respond l m)
unfolding respond
respond-Keeps l m = elim (Option-cases (request_id m)) [
  | inl e ↦ rw (e, respond) (λ id. inr refl)
  | inr (id, e) ↦ elim (Bool-cases (id % 2 == 0)) [
    | inl even ↦ rw (e, even, respond) (λ j. ground (arith, get-remove id j l.response_senders))
    | inr odd ↦ rw (e, odd, respond) (λ j. inr refl)
  ]
]

body-Keeps : (l : ReadLoop) (m : Message) (body : MessageBody) → Keeps l (route l m body)
body-Keeps l m (ping p) = λ id. inr refl
body-Keeps l m (pong p) = λ id. inr refl
body-Keeps l m (disconnect d) = tt
body-Keeps l m (downstream_call call) = λ id. inr refl
body-Keeps l m (upstream_chunk_ack a) = λ id. inr refl
body-Keeps l m (downstream_chunk a) = λ id. inr refl
body-Keeps l m (downstream_metadata a) = λ id. inr refl
body-Keeps l m (downstream_chunk_ack_complete a) = λ id. inr refl
body-Keeps l m (upstream_call_ack a) = λ id. inr refl
body-Keeps l m _ = respond-Keeps l m

pub handle_message-Keeps : (l : ReadLoop) (m : Message) → Keeps l (handle_message l m)
unfolding handle_message
handle_message-Keeps l m = go m.message
  where
    go :
        (b : Option MessageBody)
        → Keeps l (elim b [ none ↦ respond l m | some body ↦ route l m body ])
    go none = respond-Keeps l m
    go (some body) = body-Keeps l m body
