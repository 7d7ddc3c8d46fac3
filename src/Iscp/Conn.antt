-- ===== src/Iscp/Conn.antt =====
-- src/iscp/mod.rs: the state of a connection, which its handles and its reconnection loop share. Each
-- wait of the loop and of `close` ends with an event; a wire connection is its number, and a
-- stream is the number of its cancellation token.
pub mod Closing
pub mod Closed
pub mod Events
pub mod Final
mod Tests
use iscp_rs.Base.{
  ℕ, zero, suc, ◌≡◌, Bool, true, false, not, ◌||◌, ◌&&◌, Option, none, some, List, [], ◌∷◌, ◌++◌,
  if◌then◌else◌, ◌==◌, nat_eq, is_empty,
}
use iscp_rs.Errors.{Error, Outcome, ok, err, panic, connection_closed}

pub data ConnectionState : Type 0 where
  connected reconnecting closing closed : ConnectionState

abbrev pub state_beq : ConnectionState → ConnectionState → Bool
state_beq connected connected = true
state_beq reconnecting reconnecting = true
state_beq closing closing = true
state_beq closed closed = true
state_beq _ _ = false

-- Where the reconnection loop is: with a wire connection, between two of them, or returned.
pub data Loop : Type 0 where
  watching : Loop
  retrying : Loop
  returned : Loop

-- The one permit of `close_semaphore`.
pub data Permit : Type 0 where
  free : Permit
  held : Permit
  gone : Permit

-- `has_waiter`: `stream_close_waiter` is there. `disconnects` counts the messages of disconnection that
-- the loop sent. `checked` and `opening` are the calls that open a stream, by the token that the stream
-- will have: those between `check_close` and `stream_wait_group`, and those behind it.
pub record Conn : Type 0 where
  pub state : ConnectionState
  pub loop : Loop
  pub wire : ℕ
  pub is_cancelled : Bool
  pub permit : Permit
  pub stream_ct : List ℕ
  pub checked : List ℕ
  pub opening : List ℕ
  pub has_waiter : Bool
  pub disconnects : ℕ

-- `ConnInner::new`: the loop begins by announcing that it is connected.
abbrev pub new : Conn
new = record {
  state = connected;
  loop = watching;
  wire = 0;
  is_cancelled = false;
  permit = free;
  stream_ct = [];
  checked = [];
  opening = [];
  has_waiter = true;
  disconnects = 0;
}

-- The permits that are left; a permit is given back when `close` returns.
abbrev pub has_permit : Permit → Bool
has_permit held = false
has_permit _ = true

unfoldable pub check_close : Conn → Outcome (Unit {0})
check_close c = if not (has_permit c.permit) || c.is_cancelled then err connection_closed else ok tt

-- `wait_for_state`, over the states that are seen in turn.
unfoldable pub wait_for_state : ConnectionState → List ConnectionState → Option (Outcome (Unit {0}))
wait_for_state target [] = none
wait_for_state target (s ∷ ss) =
    if state_beq s target
    then some (ok tt)
    else if state_beq s closed
    then some (err connection_closed)
    else wait_for_state target ss

unfoldable pub is_in : ℕ → List ℕ → Bool
is_in ct [] = false
is_in ct (x ∷ xs) = x == ct || is_in ct xs

unfoldable pub take_out : ℕ → List ℕ → List ℕ
take_out ct [] = []
take_out ct (x ∷ xs) = if x == ct then xs else x ∷ take_out ct xs

-- The three parts of `open_upstream_with_config` and `open_downstream_with_config`, which no lock holds
-- together: `check_close`; `stream_wait_group`, which panics if the waiter is gone; and
-- `push_stream_ct` behind the wait for the stream, if that has opened.
unfoldable pub check_open : Conn → ℕ → Outcome (Unit {0}) × Conn
check_open c ct = elim (check_close c) [
  | err e ↦ (err e, c)
  | panic ↦ (panic, c)
  | ok u ↦ (ok tt, record c { checked = c.checked ++ ct ∷ [] })
]

unfoldable pub stream_wait_group : Conn → ℕ → Outcome (Unit {0}) × Conn
stream_wait_group c ct =
    if is_in ct c.checked
    then (let c' = record c { checked = take_out ct c.checked } in
        if c.has_waiter then (ok tt, record c' { opening = c.opening ++ ct ∷ [] }) else (panic, c'))
    else (ok tt, c)

unfoldable pub end_open : Conn → ℕ → Bool → Conn
end_open c ct success =
    if is_in ct c.opening
    then (let c' = record c { opening = take_out ct c.opening } in
        if success then record c' { stream_ct = c.stream_ct ++ ct ∷ [] } else c')
    else c

-- `close` up to its first wait: the tokens that it cancels. A panic gives the permit back.
unfoldable pub begin_close : Conn → Outcome (List ℕ) × Conn
begin_close c = elim c.permit [
  | held ↦ (ok [], c)
  | gone ↦ (ok [], c)
  | free ↦
      let c' = record c { permit = held; state = closing; stream_ct = [] } in
      if c.has_waiter
      then (ok c.stream_ct, record c' { has_waiter = false })
      else (panic, record c' { permit = free })
]

-- The wire connection is lost.
unfoldable pub lose : Conn → Conn
lose c = elim c.loop [
  | watching ↦ record c { loop = retrying; state = reconnecting }
  | retrying ↦ c
  | returned ↦ c
]

-- `builder.connect` returns; an error is tried again.
unfoldable pub reconnect : Conn → Bool → Conn
reconnect c success = elim c.loop [
  | watching ↦ c
  | returned ↦ c
  | retrying ↦
      if success then record c { loop = watching; wire = suc c.wire; state = connected } else c
]

-- The loop sees that it is cancelled; the task around it then announces the end.
unfoldable pub see_cancel : Conn → Conn
see_cancel c = elim c.loop [
  | watching ↦
      if c.is_cancelled
      then record c { loop = returned; state = closed; disconnects = suc c.disconnects }
      else c
  | retrying ↦ if c.is_cancelled then record c { loop = returned; state = closed } else c
  | returned ↦ c
]

-- `close` behind the end of its streams, and behind the end of the loop.
unfoldable pub cancel_loop : Conn → Conn
cancel_loop c = elim c.permit [ held ↦ record c { is_cancelled = true } | free ↦ c | gone ↦ c ]

unfoldable pub end_close : Conn → Conn
end_close c = elim c.permit [
  | held ↦ elim c.loop [ returned ↦ record c { permit = gone } | watching ↦ c | retrying ↦ c ]
  | free ↦ c
  | gone ↦ c
]

-- The future of a `close` that has not returned is dropped: the permit is given back.
unfoldable pub drop_close : Conn → Conn
drop_close c = elim c.permit [ held ↦ record c { permit = free } | free ↦ c | gone ↦ c ]

-- What moves the state of the connection.
pub data Move : Type 0 where
  close_called : Move
  streams_ended : Move
  loop_ended : Move
  wire_lost : Move
  connect_returned : Bool → Move
  cancel_seen : Move

pub data Event : Type 0 where
  moved : Move → Event
  open_checked : ℕ → Event
  open_waits : ℕ → Event
  open_ended : ℕ → Bool → Event
  close_dropped : Event

abbrev pub is_panic {ℓ} : {A : Type ℓ} → Outcome A → Bool
is_panic panic = true
is_panic _ = false

-- The connection after a move or an event, and whether that panicked.
unfoldable pub move : Conn → Move → Bool × Conn
move c close_called = let (o, c') = begin_close c in (is_panic o, c')
move c streams_ended = (false, cancel_loop c)
move c loop_ended = (false, end_close c)
move c wire_lost = (false, lose c)
move c (connect_returned success) = (false, reconnect c success)
move c cancel_seen = (false, see_cancel c)

unfoldable pub step : Conn → Event → Bool × Conn
step c (moved m) = move c m
step c (open_checked ct) = let (o, c') = check_open c ct in (is_panic o, c')
step c (open_waits ct) = let (o, c') = stream_wait_group c ct in (is_panic o, c')
step c (open_ended ct success) = (false, end_open c ct success)
step c close_dropped = (false, drop_close c)

unfoldable pub run : Conn → List Event → Bool × Conn
run c [] = (false, c)
run c (e ∷ es) = let (p, c') = step c e in let (q, c'') = run c' es in (p || q, c'')
