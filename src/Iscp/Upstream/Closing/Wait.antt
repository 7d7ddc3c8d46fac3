-- ===== src/Iscp/Upstream/Closing/Wait.antt =====
-- The wait of an upstream for its last acknowledgement.
use iscp_rs.Base.{
  ℕ, ◌+◌, ◌%◌, ◌≡◌, refl, ap, ap₂, sym, ◌∙◌, subst, Bool, true, false, ◌||◌, Option, List, [], ◌∷◌,
  ◌==◌, nat_eq, inl, inr, Bool-cases, false-true, u64_mod, All,
}
use iscp_rs.Message.Types.{DataId, DataPoint}
use iscp_rs.Message.Chunks as Msg
use iscp_rs.Message.Streams.{UpstreamCloseRequest}
use iscp_rs.Errors.{ok, err, stream_closed}
use iscp_rs.Iscp.FlushPolicy.{need_flush}
use iscp_rs.Iscp.Upstream.{Upstream, write_data_points, payload_size, process_ack}
use iscp_rs.Iscp.Upstream.Kept.{choose, writes}
use iscp_rs.Iscp.Upstream.Closing.{
  Phase, flushing, waiting, closed, broken, panicked, FlushLoop, Event, wrote, close_called, woken,
  acked, acks_gone, timed_out, close_request, send_close, wait_for_ack, begin_close, see_ack,
  lose_acks, time_out, wake, step, run, has_received,
}

-- Whether the last chunk is acknowledged, or there is none.
unfoldable pub is_answered : Upstream → Bool
is_answered u =
    let n = u.last_issued_sequence_number in
    n == 0 || has_received u.storage.last_received_sequence_number n

-- A close request counts `n` data points, and bears the last number; it is `calm` if no wait was
-- cut off.
pub record Asked (calm : Bool) (n : ℕ) (u : Upstream) (req : UpstreamCloseRequest) : Type 0 where
  pub total : req.total_data_points ≡ n % u64_mod
  pub final : req.final_sequence_number ≡ u.last_issued_sequence_number
  pub answered : calm ≡ true → is_answered u ≡ true

abbrev pub Allowed : Bool → Event → Type 0
Allowed calm acks_gone = calm ≡ false
Allowed calm timed_out = calm ≡ false
Allowed calm _ = Unit {0}

pub record AtWait (n : ℕ) (u : Upstream) (k : ℕ) : Type 0 where
  pub number : k ≡ u.last_issued_sequence_number
  pub other : (k == 0) ≡ false
  pub unanswered : has_received u.storage.last_received_sequence_number k ≡ false

abbrev pub AtPhase : Bool → ℕ → Upstream → Phase → Type 0
AtPhase calm n u (waiting k) = AtWait n u k
AtPhase calm n u (closed req) = Asked calm n u req
AtPhase calm n u _ = ⊥

pub record IsClosing (calm : Bool) (n : ℕ) (l : FlushLoop) : Type 0 where
  pub total : l.upstream.total_data_points ≡ n % u64_mod
  pub phase : AtPhase calm n l.upstream l.phase

answered_empty : (u : Upstream) → (u.last_issued_sequence_number == 0) ≡ true → is_answered u ≡ true
unfolding is_answered
answered_empty u h = rw h refl

answered_by :
    (u : Upstream) (k : ℕ)
    → k ≡ u.last_issued_sequence_number
    → (k == 0) ≡ false
    → has_received u.storage.last_received_sequence_number k ≡ true
    → is_answered u ≡ true
unfolding is_answered
answered_by u k e z h =
    let received = u.storage.last_received_sequence_number in
    subst (λ n. (n == 0 || has_received received n) ≡ true) e (rw (z, h) refl)

sent-IsClosing :
    (calm : Bool) (n : ℕ) (l : FlushLoop)
    → l.upstream.total_data_points ≡ n % u64_mod
    → (calm ≡ true → is_answered l.upstream ≡ true)
    → IsClosing calm n (send_close l)
unfolding send_close close_request
sent-IsClosing calm n l t a = record {
  total = t;
  phase = record { total = t; final = refl; answered = a };
}

wait-IsClosing :
    (calm : Bool) (n k : ℕ) (l : FlushLoop)
    → l.upstream.total_data_points ≡ n % u64_mod
    → k ≡ l.upstream.last_issued_sequence_number
    → (k == 0) ≡ false
    → IsClosing calm n (wait_for_ack l k)
unfolding wait_for_ack
wait-IsClosing calm n k l t e z =
    let received = l.upstream.storage.last_received_sequence_number in
    elim (Bool-cases (has_received received k)) [
      | inl h ↦ rw h (sent-IsClosing calm n l t (λ _. answered_by l.upstream k e z h))
      | inr h ↦
          rw h (record { total = t; phase = record { number = e; other = z; unanswered = h } })
    ]

pub begin_close-IsClosing :
    (calm : Bool) (n : ℕ) (l : FlushLoop)
    → l.upstream.total_data_points ≡ n % u64_mod
    → IsClosing calm n (begin_close l)
unfolding begin_close
begin_close-IsClosing calm n l t =
    let k = l.upstream.last_issued_sequence_number in
    elim (Bool-cases (k == 0)) [
      | inl h ↦ rw h (sent-IsClosing calm n l t (λ _. answered_empty l.upstream h))
      | inr h ↦ rw h (wait-IsClosing calm n k l t refl h)
    ]

acked-IsClosing :
    (calm : Bool) (n : ℕ) (l : FlushLoop) (ack : Msg.UpstreamChunkAck) (p : Phase)
    → l.phase ≡ p
    → l.upstream.total_data_points ≡ n % u64_mod
    → AtPhase calm n l.upstream p
    → IsClosing calm n (see_ack l ack p)
unfolding see_ack process_ack
acked-IsClosing calm n l ack (waiting k) e t h =
    wait-IsClosing calm n k (record l { upstream = process_ack l.upstream ack }) t h.number h.other
acked-IsClosing calm n l ack (closed req) e t h = record {
  total = t;
  phase = subst (AtPhase calm n l.upstream) (sym e) h;
}
acked-IsClosing calm n l ack flushing e t h = elim h [ ]
acked-IsClosing calm n l ack broken e t h = elim h [ ]
acked-IsClosing calm n l ack panicked e t h = elim h [ ]

lost-IsClosing :
    (calm : Bool) (n : ℕ) (l : FlushLoop) (p : Phase)
    → calm ≡ false
    → l.phase ≡ p
    → l.upstream.total_data_points ≡ n % u64_mod
    → AtPhase calm n l.upstream p
    → IsClosing calm n (lose_acks l p) × IsClosing calm n (time_out l p)
unfolding lose_acks time_out
lost-IsClosing calm n l (waiting k) f e t h =
    let cut : IsClosing calm n (send_close l) =
      sent-IsClosing calm n l t (λ c. absurd (false-true (sym f ∙ c))) in
    (cut, cut)
lost-IsClosing calm n l (closed req) f e t h =
    let same : IsClosing calm n l = record {
      total = t;
      phase = subst (AtPhase calm n l.upstream) (sym e) h;
    } in
    (same, same)
lost-IsClosing calm n l flushing f e t h = elim h [ ]
lost-IsClosing calm n l broken f e t h = elim h [ ]
lost-IsClosing calm n l panicked f e t h = elim h [ ]

woken-IsClosing :
    (calm : Bool) (n : ℕ) (l : FlushLoop) (close is_sent : Bool) (p : Phase)
    → l.phase ≡ p
    → l.upstream.total_data_points ≡ n % u64_mod
    → AtPhase calm n l.upstream p
    → IsClosing calm n (wake l close is_sent p)
unfolding wake
woken-IsClosing calm n l close is_sent (waiting k) e t h = record {
  total = t;
  phase = subst (AtPhase calm n l.upstream) (sym e) h;
}
woken-IsClosing calm n l close is_sent (closed req) e t h = record {
  total = t;
  phase = subst (AtPhase calm n l.upstream) (sym e) h;
}
woken-IsClosing calm n l close is_sent flushing e t h = elim h [ ]
woken-IsClosing calm n l close is_sent broken e t h = elim h [ ]
woken-IsClosing calm n l close is_sent panicked e t h = elim h [ ]

-- What two upstreams agree on that differ in their buffers only.
record Agree (u v : Upstream) : Type 0 where
  total : v.total_data_points ≡ u.total_data_points
  number : v.last_issued_sequence_number ≡ u.last_issued_sequence_number
  storage : v.storage ≡ u.storage

write-Agree :
    (u : Upstream) (id : DataId) (dps : List DataPoint) → Agree u (write_data_points u id dps).1
unfolding write_data_points
write-Agree u id dps =
    let same : Agree u (writes u id dps) = record { total = refl; number = refl; storage = refl } in
    choose u.cancelled
      (need_flush u.config.flush_policy ((u.buffer_payload_size + payload_size dps) % u64_mod))
      (err stream_closed, writes u id dps) (ok tt, record (writes u id dps) { notified = true })
      (ok tt, writes u id dps) (Agree u) same
      (record { total = refl; number = refl; storage = refl }) same

Agree-is_answered : (u v : Upstream) → Agree u v → is_answered v ≡ is_answered u
unfolding is_answered
Agree-is_answered u v a =
    ap₂ (λ n s. n == 0 || has_received s.last_received_sequence_number n) a.number a.storage

Agree-AtPhase :
    (calm : Bool) (n : ℕ) (u v : Upstream) (p : Phase)
    → Agree u v
    → AtPhase calm n u p
    → AtPhase calm n v p
Agree-AtPhase calm n u v (waiting k) a h = record {
  number = h.number ∙ sym a.number;
  other = h.other;
  unanswered = ap (λ s. has_received s.last_received_sequence_number k) a.storage ∙ h.unanswered;
}
Agree-AtPhase calm n u v (closed req) a h = record {
  total = h.total;
  final = h.final ∙ sym a.number;
  answered = λ c. Agree-is_answered u v a ∙ h.answered c;
}
Agree-AtPhase calm n u v flushing a h = h
Agree-AtPhase calm n u v broken a h = h
Agree-AtPhase calm n u v panicked a h = h

Agree-IsClosing :
    (calm : Bool) (n : ℕ) (l : FlushLoop) (opts : Option Bool) (v : Upstream)
    → Agree l.upstream v
    → IsClosing calm n l
    → IsClosing calm n (record l { close_opts = opts; upstream = v })
Agree-IsClosing calm n l opts v a h = record {
  total = a.total ∙ h.total;
  phase = Agree-AtPhase calm n l.upstream v l.phase a h.phase;
}

step-IsClosing :
    (calm : Bool) (n : ℕ) (l : FlushLoop) (e : Event)
    → Allowed calm e
    → IsClosing calm n l
    → IsClosing calm n (step l e)
unfolding step
step-IsClosing calm n l (wrote id dps) a h =
    Agree-IsClosing calm n l l.close_opts (write_data_points l.upstream id dps).1
      (write-Agree l.upstream id dps) h
step-IsClosing calm n l (close_called opts) a h =
    Agree-IsClosing calm n l opts (record l.upstream { cancelled = true })
      (record { total = refl; number = refl; storage = refl }) h
step-IsClosing calm n l (woken close is_sent) a h =
    woken-IsClosing calm n l close is_sent l.phase refl h.total h.phase
step-IsClosing calm n l (acked ack) a h = acked-IsClosing calm n l ack l.phase refl h.total h.phase
step-IsClosing calm n l acks_gone a h = (lost-IsClosing calm n l l.phase a refl h.total h.phase).0
step-IsClosing calm n l timed_out a h = (lost-IsClosing calm n l l.phase a refl h.total h.phase).1

pub run-IsClosing :
    (calm : Bool) (n : ℕ) (l : FlushLoop) (es : List Event)
    → All (Allowed calm) es
    → IsClosing calm n l
    → IsClosing calm n (run l es)
unfolding run
run-IsClosing calm n l [] a h = h
run-IsClosing calm n l (e ∷ es) a h =
    run-IsClosing calm n (step l e) es a.1 (step-IsClosing calm n l e a.0 h)
