-- ===== src/Iscp/Upstream/Closing/Loop.antt =====
-- The flush loop keeps the count of the data points.
use iscp_rs.Base.{
  ℕ, ◌+◌, ◌≡◌, refl, subst, Bool, not, ◌&&◌, ◌||◌, some, List, [], ◌∷◌, ◌++◌, arith, ◌==◌, nat_eq,
  is_empty, inl, inr, Bool-cases, u32_mod, ◌-◌, length,
}
use iscp_rs.Message.Chunks as Msg
use iscp_rs.Iscp.Upstream.{Upstream, process_ack}
use iscp_rs.Iscp.Upstream.Closing.{
  Phase, flushing, waiting, closed, broken, panicked, FlushLoop, Event, wrote, close_called, woken,
  acked, acks_gone, timed_out, send_close, after_flush, see_ack, lose_acks, time_out, wake, step,
  run,
}
use iscp_rs.Iscp.Upstream.Closing.Counted.{written, Counted, flush-Counted, write-Counted}
use iscp_rs.Iscp.Upstream.Closing.Phases.{waiting_cases, closing_cases}

pub run-append : (l : FlushLoop) (es fs : List Event) → run l (es ++ fs) ≡ run (run l es) fs
unfolding run
run-append l [] fs = refl
run-append l (e ∷ es) fs = run-append (step l e) es fs

abbrev pub CountedLoop : ℕ → FlushLoop → Type 0
CountedLoop n l = Counted n l.upstream

after_flush-Counted :
    (n : ℕ) (l : FlushLoop) (close is_sent : Bool) (chunks : List Msg.UpstreamChunk) (u : Upstream)
    → Counted n u
    → CountedLoop n (after_flush l close is_sent (some (chunks, u)))
unfolding after_flush send_close
after_flush-Counted n l close is_sent chunks u c =
    let l' = record l { upstream = u } in
    elim (Bool-cases (not is_sent && not (is_empty chunks))) [
      | inl h ↦ rw h c
      | inr h ↦ elim (Bool-cases (close || u.last_issued_sequence_number == u32_mod - 1)) [
        | inl k ↦ rw (h, k) (closing_cases l' (CountedLoop n) c c)
        | inr k ↦ rw (h, k) c
      ]
    ]

wake-Counted :
    (n : ℕ) (l : FlushLoop) (close is_sent : Bool) (p : Phase)
    → CountedLoop n l
    → CountedLoop n (wake l close is_sent p)
unfolding wake
wake-Counted n l close is_sent flushing c = elim (Bool-cases (close && not l.upstream.cancelled)) [
  | inl h ↦ rw h c
  | inr h ↦
      let (chunks, u, done, counted, emptied) = flush-Counted n l.upstream c in
      rw (h, done) (after_flush-Counted n l close is_sent chunks u counted)
]
wake-Counted n l close is_sent (waiting k) c = c
wake-Counted n l close is_sent (closed req) c = c
wake-Counted n l close is_sent broken c = c
wake-Counted n l close is_sent panicked c = c

acked-Counted :
    (n : ℕ) (l : FlushLoop) (ack : Msg.UpstreamChunkAck) (p : Phase)
    → CountedLoop n l
    → CountedLoop n (see_ack l ack p)
unfolding see_ack process_ack send_close
acked-Counted n l ack flushing c = record { fits = c.fits; counted = c.counted }
acked-Counted n l ack (waiting k) c =
    let c' : Counted n (process_ack l.upstream ack) = record {
      fits = c.fits;
      counted = c.counted;
    } in
    waiting_cases (record l { upstream = process_ack l.upstream ack }) k (CountedLoop n) c' c'
acked-Counted n l ack (closed req) c = c
acked-Counted n l ack broken c = c
acked-Counted n l ack panicked c = c

lost-Counted : (n : ℕ) (l : FlushLoop) (p : Phase) → CountedLoop n l → CountedLoop n (lose_acks l p)
unfolding lose_acks send_close
lost-Counted n l flushing c = c
lost-Counted n l (waiting k) c = c
lost-Counted n l (closed req) c = c
lost-Counted n l broken c = c
lost-Counted n l panicked c = c

timed_out-Counted :
    (n : ℕ) (l : FlushLoop) (p : Phase) → CountedLoop n l → CountedLoop n (time_out l p)
unfolding time_out send_close
timed_out-Counted n l flushing c = c
timed_out-Counted n l (waiting k) c = c
timed_out-Counted n l (closed req) c = c
timed_out-Counted n l broken c = c
timed_out-Counted n l panicked c = c

pub run-Counted :
    (n : ℕ) (l : FlushLoop) (es : List Event)
    → CountedLoop n l
    → CountedLoop (n + written es) (run l es)
unfolding run step written
run-Counted n l [] c = subst (λ k. CountedLoop k l) (omega arith) c
run-Counted n l (wrote id dps ∷ es) c =
    subst (λ k. CountedLoop k (run (step l (wrote id dps)) es)) (omega arith)
      (run-Counted (n + length dps) (step l (wrote id dps)) es
        (write-Counted n l.upstream id dps c))
run-Counted n l (close_called opts ∷ es) c =
    run-Counted n (step l (close_called opts)) es (record { fits = c.fits; counted = c.counted })
run-Counted n l (woken close is_sent ∷ es) c =
    run-Counted n (step l (woken close is_sent)) es (wake-Counted n l close is_sent l.phase c)
run-Counted n l (acked ack ∷ es) c =
    run-Counted n (step l (acked ack)) es (acked-Counted n l ack l.phase c)
run-Counted n l (acks_gone ∷ es) c =
    run-Counted n (step l acks_gone) es (lost-Counted n l l.phase c)
run-Counted n l (timed_out ∷ es) c =
    run-Counted n (step l timed_out) es (timed_out-Counted n l l.phase c)
