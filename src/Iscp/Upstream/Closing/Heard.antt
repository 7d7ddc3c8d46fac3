-- ===== src/Iscp/Upstream/Closing/Heard.antt =====
-- The acknowledgements that a flush loop takes in.
use iscp_rs.Base.{
  ℕ, ◌≡◌, refl, ap, sym, ◌∙◌, Bool, true, false, not, ◌&&◌, ◌||◌, Option, none, some, List, [], ◌∷◌,
  ◌++◌, map, arith, max, ltb, ◌==◌, nat_eq, inl, inr, Bool-cases, is_empty, u32_mod, ◌-◌, u64_mod,
  ◌+◌, ◌%◌, false-true, append-nil,
}
use iscp_rs.Message.Types.{DataId, DataPoint}
use iscp_rs.Message.Chunks as Msg
use iscp_rs.Errors.{ok, err, stream_closed}
use iscp_rs.Iscp.FlushPolicy.{need_flush}
use iscp_rs.Iscp.Storage as Storage
use iscp_rs.Iscp.Storage.{UpstreamStorage}
use iscp_rs.Iscp.Upstream.{Upstream, write_data_points, payload_size, flush, process_ack}
use iscp_rs.Iscp.Upstream.Flush.{made_chunk}
use iscp_rs.Iscp.Upstream.Kept.{choose, writes}
use iscp_rs.Iscp.Upstream.Resend.{store_empty, store_full, after}
use iscp_rs.Iscp.Upstream.Closing.{
  Phase, flushing, waiting, closed, broken, panicked, FlushLoop, Event, wrote, close_called, woken,
  acked, acks_gone, timed_out, send_close, after_flush, see_ack, lose_acks, time_out, wake, step,
  run,
}
use iscp_rs.Iscp.Upstream.Closing.Phases.{waiting_cases, closing_cases}

-- The numbers that acknowledgements name, in their order, and the highest of them.
abbrev pub named : Msg.UpstreamChunkAck → List ℕ
named ack = map (λ r. r.sequence_number) ack.results

unfoldable pub numbers : List Event → List ℕ
numbers [] = []
numbers (acked ack ∷ es) = named ack ++ numbers es
numbers (_ ∷ es) = numbers es

unfoldable pub highest : Option ℕ → List ℕ → Option ℕ
highest o [] = o
highest none (n ∷ ns) = highest (some n) ns
highest (some k) (n ∷ ns) = highest (some (max k n)) ns

highest-append : (o : Option ℕ) (ms ns : List ℕ) → highest o (ms ++ ns) ≡ highest (highest o ms) ns
unfolding highest
highest-append o [] ns = refl
highest-append none (m ∷ ms) ns = highest-append (some m) ms ns
highest-append (some k) (m ∷ ms) ns = highest-append (some (max k m)) ms ns

later-highest : (o : Option ℕ) (n : ℕ) → Storage.later o n ≡ highest o (n ∷ [])
unfolding Storage.later highest
later-highest none n = refl
later-highest (some k) n = elim (Bool-cases (ltb k n)) [
  | inl h ↦ let top : n ≡ max k n = ground (arith, h) in rw h (ap some top)
  | inr h ↦ let top : k ≡ max k n = ground (arith, h) in rw h (ap some top)
]

results_highest :
    (s : UpstreamStorage) (rs : List Msg.UpstreamChunkResult)
    → (Storage.process_results s rs).last_received_sequence_number
      ≡ highest s.last_received_sequence_number (map (λ r. r.sequence_number) rs)
unfolding Storage.process_results Storage.process_result highest
results_highest s [] = refl
results_highest s (r ∷ rs) =
    results_highest (Storage.process_result s r) rs
    ∙ (ap (λ o. highest o (map (λ q. q.sequence_number) rs))
          (later-highest s.last_received_sequence_number r.sequence_number)
        ∙ sym (
            highest-append s.last_received_sequence_number (r.sequence_number ∷ [])
              (map (λ q. q.sequence_number) rs)))

abbrev received : Upstream → Option ℕ
received u = u.storage.last_received_sequence_number

abbrev Holds : Option ℕ → FlushLoop → Type 0
Holds o l = received l.upstream ≡ o

ack_highest :
    (u : Upstream) (ack : Msg.UpstreamChunkAck)
    → received (process_ack u ack) ≡ highest (received u) (named ack)
unfolding process_ack Storage.process_ack
ack_highest u ack = results_highest u.storage ack.results

write_keeps :
    (u : Upstream) (id : DataId) (dps : List DataPoint)
    → received (write_data_points u id dps).1 ≡ received u
unfolding write_data_points
write_keeps u id dps =
    choose u.cancelled
      (need_flush u.config.flush_policy ((u.buffer_payload_size + payload_size dps) % u64_mod))
      (err stream_closed, writes u id dps) (ok tt, record (writes u id dps) { notified = true })
      (ok tt, writes u id dps) (λ v. received v ≡ received u) refl refl refl

flush_keeps :
    (u : Upstream)
    → (chunks : List Msg.UpstreamChunk) × (v : Upstream) × (flush u true ≡ some (chunks, v))
      × (received v ≡ received u)
unfolding flush
flush_keeps u = elim (Bool-cases (is_empty u.data_points_buffer)) [
  | inl h ↦ (
    [],
    record u { buffer_payload_size = 0; data_points_buffer = [] },
    rw (store_empty u h, flush) refl,
    refl,
  )
  | inr h ↦ (made_chunk u ∷ [], after u, rw (store_full u h, flush) refl, refl)
]

after_flush_keeps :
    (l : FlushLoop) (close is_sent : Bool) (chunks : List Msg.UpstreamChunk) (u : Upstream)
    → Holds (received u) (after_flush l close is_sent (some (chunks, u)))
unfolding after_flush send_close
after_flush_keeps l close is_sent chunks u =
    let l' = record l { upstream = u } in
    elim (Bool-cases (not is_sent && not (is_empty chunks))) [
      | inl h ↦ rw h refl
      | inr h ↦ elim (Bool-cases (close || u.last_issued_sequence_number == u32_mod - 1)) [
        | inl k ↦ rw (h, k) (closing_cases l' (Holds (received u)) refl refl)
        | inr k ↦ rw (h, k) refl
      ]
    ]

wake_keeps :
    (l : FlushLoop) (close is_sent : Bool)
    → Holds (received l.upstream) (wake l close is_sent flushing)
unfolding wake
wake_keeps l close is_sent = elim (Bool-cases (close && not l.upstream.cancelled)) [
  | inl h ↦ rw h refl
  | inr h ↦
      let (chunks, u, done, same) = flush_keeps l.upstream in
      rw (h, done) (after_flush_keeps l close is_sent chunks u ∙ same)
]

-- The loop flushes or waits.
abbrev pub is_open : Phase → Bool
is_open flushing = true
is_open (waiting k) = true
is_open _ = false

step_open :
    (l : FlushLoop) (e : Event) (p : Phase)
    → l.phase ≡ p
    → is_open p ≡ true
    → Holds (highest (received l.upstream) (numbers (e ∷ []))) (step l e)
unfolding step numbers highest see_ack lose_acks time_out send_close wake
step_open l (wrote id dps) p h o = write_keeps l.upstream id dps
step_open l (close_called opts) p h o = refl
step_open l (woken close is_sent) flushing h o =
    ap (λ q. received (wake l close is_sent q).upstream) h ∙ wake_keeps l close is_sent
step_open l (woken close is_sent) (waiting k) h o = rw h refl
step_open l (acked ack) flushing h o =
    rw h (
      ack_highest l.upstream ack
      ∙ ap (highest (received l.upstream)) (sym (append-nil (named ack))))
step_open l (acked ack) (waiting k) h o =
    let u = process_ack l.upstream ack in
    ap (λ q. received (see_ack l ack q).upstream) h
    ∙ (waiting_cases (record l { upstream = u }) k (Holds (received u)) refl refl
        ∙ (ack_highest l.upstream ack
            ∙ ap (highest (received l.upstream)) (sym (append-nil (named ack)))))
step_open l acks_gone flushing h o = rw h refl
step_open l acks_gone (waiting k) h o = rw h refl
step_open l timed_out flushing h o = rw h refl
step_open l timed_out (waiting k) h o = rw h refl
step_open l _ (closed r) h o = absurd (false-true o)
step_open l _ broken h o = absurd (false-true o)
step_open l _ panicked h o = absurd (false-true o)

-- What a loop keeps that has ended.
record Ended (l l' : FlushLoop) : Type 0 where
  same : received l'.upstream ≡ received l.upstream
  stays : l'.phase ≡ l.phase

step-Ended :
    (l : FlushLoop) (e : Event) (p : Phase) → l.phase ≡ p → is_open p ≡ false → Ended l (step l e)
unfolding step see_ack lose_acks time_out wake
step-Ended l (wrote id dps) p h o = record { same = write_keeps l.upstream id dps; stays = refl }
step-Ended l (close_called opts) p h o = record { same = refl; stays = refl }
step-Ended l (woken close is_sent) (closed r) h o = record { same = rw h refl; stays = rw h refl }
step-Ended l (woken close is_sent) broken h o = record { same = rw h refl; stays = rw h refl }
step-Ended l (woken close is_sent) panicked h o = record { same = rw h refl; stays = rw h refl }
step-Ended l (acked ack) (closed r) h o = record { same = rw h refl; stays = rw h refl }
step-Ended l (acked ack) broken h o = record { same = rw h refl; stays = rw h refl }
step-Ended l (acked ack) panicked h o = record { same = rw h refl; stays = rw h refl }
step-Ended l acks_gone (closed r) h o = record { same = rw h refl; stays = rw h refl }
step-Ended l acks_gone broken h o = record { same = rw h refl; stays = rw h refl }
step-Ended l acks_gone panicked h o = record { same = rw h refl; stays = rw h refl }
step-Ended l timed_out (closed r) h o = record { same = rw h refl; stays = rw h refl }
step-Ended l timed_out broken h o = record { same = rw h refl; stays = rw h refl }
step-Ended l timed_out panicked h o = record { same = rw h refl; stays = rw h refl }
step-Ended l _ flushing h o = absurd (false-true (sym o))
step-Ended l _ (waiting k) h o = absurd (false-true (sym o))

run-Ended : (l : FlushLoop) (es : List Event) → is_open l.phase ≡ false → Ended l (run l es)
unfolding run
run-Ended l [] o = record { same = refl; stays = refl }
run-Ended l (e ∷ es) o =
    let now = step-Ended l e l.phase refl o in
    let later = run-Ended (step l e) es (ap is_open now.stays ∙ o) in
    record { same = later.same ∙ now.same; stays = later.stays ∙ now.stays }

-- The loop has taken in the acknowledgements of `before`; if it is still open, those are all.
pub record Heard (o : Option ℕ) (es : List Event) (l : FlushLoop) : Type 0 where
  pub before : List Event
  pub rest : List Event
  pub whole : es ≡ before ++ rest
  pub received : l.upstream.storage.last_received_sequence_number ≡ highest o (numbers before)
  pub all : is_open l.phase ≡ true → rest ≡ []

numbers-cons :
    (o : Option ℕ) (e : Event) (es : List Event)
    → highest (highest o (numbers (e ∷ []))) (numbers es) ≡ highest o (numbers (e ∷ es))
unfolding numbers highest
numbers-cons o (acked ack) es =
    ap (λ ns. highest (highest o ns) (numbers es)) (append-nil (named ack))
    ∙ sym (highest-append o (named ack) (numbers es))
numbers-cons o (wrote id dps) es = refl
numbers-cons o (close_called opts) es = refl
numbers-cons o (woken close is_sent) es = refl
numbers-cons o acks_gone es = refl
numbers-cons o timed_out es = refl

pub run-Heard :
    (l : FlushLoop) (es : List Event)
    → Heard l.upstream.storage.last_received_sequence_number es (run l es)
unfolding run highest numbers
run-Heard l [] = record { before = []; rest = []; whole = refl; received = refl; all = λ _. refl }
run-Heard l (e ∷ es) = elim (Bool-cases (is_open l.phase)) [
  | inr o ↦
      let kept = run-Ended l (e ∷ es) o in
      record {
        before = [];
        rest = e ∷ es;
        whole = refl;
        received = kept.same;
        all = λ z. absurd (false-true (sym (ap is_open kept.stays ∙ o) ∙ z));
      }
  | inl o ↦
      let h = run-Heard (step l e) es in
      record {
        before = e ∷ h.before;
        rest = h.rest;
        whole = ap (◌∷◌ e) h.whole;
        received =
            h.received
            ∙ ap (λ x. highest x (numbers h.before)) (step_open l e l.phase refl o)
            ∙ numbers-cons (l.upstream.storage.last_received_sequence_number) e h.before;
        all = h.all;
      }
]
