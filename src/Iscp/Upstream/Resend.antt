-- ===== src/Iscp/Upstream/Resend.antt =====
-- What a reliable upstream sends again after a resume (src/iscp/upstream.rs, src/iscp/storage.rs).
use iscp_rs.Base.{
  ℕ, ◌+◌, ◌<◌, ◌≤◌, ◌≡◌, refl, ap, sym, ◌∙◌, Bool, true, false, none, some, List, [], ◌∷◌, ◌++◌,
  arith, append-nil, if◌then◌else◌, nat_eq, Map, is_empty, inl, inr, Bool-cases, subst,
  wrapping_add, u32_mod, u64_mod, ◌%◌, length,
}
use iscp_rs.Base.BTree
use iscp_rs.Base.BTree.{values}
use iscp_rs.Message.Types.{DataId, reliable, qos_beq}
use iscp_rs.Message.Chunks as Msg
use iscp_rs.Iscp.Storage as Storage
use iscp_rs.Iscp.Upstream.{
  Upstream, UpstreamConfig, new, take_chunk, store_chunk, store_taken, flush, write_data_points,
  process_ack, after_resume, groups_size, count_points,
}
use iscp_rs.Iscp.Upstream.Flush.{made_chunk, made_callback}
use iscp_rs.Iscp.Upstream.Kept.{
  Step, wrote, flushed, acked, issued, drop_acked, run, keyed, insert-keyed, values-keyed, Before,
  Before-append, Tracks, results-Tracks, write-Tracks,
}

-- The state behind a flush of a buffer that is not empty.
abbrev pub after : Upstream → Upstream
after u =
    let n = wrapping_add u.last_issued_sequence_number 1 in
    record u {
      buffer_payload_size = 0;
      data_points_buffer = [];
      last_issued_sequence_number = n;
      data_size = (u.data_size + groups_size u.data_points_buffer) % u64_mod;
      total_data_points = (u.total_data_points + count_points u.data_points_buffer) % u64_mod;
      storage = record u.storage {
        chunks =
            if u.storage.is_reliable
            then BTree.insert n (made_chunk u) u.storage.chunks
            else u.storage.chunks;
        sent =
            if u.storage.has_send_callback
            then u.storage.sent
              ++ record { sequence_number = n; data_point_groups = made_callback u } ∷ []
            else u.storage.sent;
      };
    }

take_empty :
    (u : Upstream)
    → is_empty u.data_points_buffer ≡ true
    → take_chunk u ≡ (none, record u { buffer_payload_size = 0; data_points_buffer = [] })
unfolding take_chunk
take_empty u h = rw h refl

take_full :
    (u : Upstream)
    → is_empty u.data_points_buffer ≡ false
    → take_chunk u
      ≡ (some (made_chunk u, made_callback u), record (after u) { storage = u.storage })
unfolding take_chunk
take_full u h = rw h refl

pub store_empty :
    (u : Upstream)
    → is_empty u.data_points_buffer ≡ true
    → store_chunk u ≡ some (none, record u { buffer_payload_size = 0; data_points_buffer = [] })
unfolding store_chunk store_taken
store_empty u h = ap (λ r. store_taken r.0 r.1) (take_empty u h)

pub store_full :
    (u : Upstream)
    → is_empty u.data_points_buffer ≡ false
    → store_chunk u ≡ some (some (made_chunk u), after u)
unfolding store_chunk store_taken Storage.add_chunk
store_full u h = ap (λ r. store_taken r.0 r.1) (take_full u h)

-- What a flush does to the chunks that the storage holds.
record Flushed (u : Upstream) (has_conn : Bool) (out : List Msg.UpstreamChunk) : Type 0 where
  sent : List Msg.UpstreamChunk
  next : Upstream
  done : flush u has_conn ≡ some (sent, next)
  tracks : Tracks next (out ++ issued u)
  last : next.last_issued_sequence_number ≤ u.last_issued_sequence_number + 1

flush-Flushed :
    (u : Upstream) (has_conn : Bool) (out : List Msg.UpstreamChunk)
    → Tracks u out
    → u.last_issued_sequence_number + 1 < u32_mod
    → Flushed u has_conn out
unfolding flush
flush-Flushed u has_conn out t room = elim (Bool-cases (is_empty u.data_points_buffer)) [
  | inl nothing ↦ record {
    sent = [];
    next = record u { buffer_payload_size = 0; data_points_buffer = [] };
    done = rw (store_empty u nothing, flush) refl;
    tracks = record {
      reliable_qos = t.reliable_qos;
      is_reliable = t.is_reliable;
      chunks =
          t.chunks
          ∙ ap keyed (
              sym (append-nil out)
              ∙ ap (λ b. out ++ (if b then [] else made_chunk u ∷ [])) (sym nothing));
      before =
          subst (Before (u.last_issued_sequence_number + 1))
            (sym (append-nil out)
              ∙ ap (λ b. out ++ (if b then [] else made_chunk u ∷ [])) (sym nothing))
            t.before;
    };
    last = omega arith;
  }
  | inr something ↦
      let n = wrapping_add u.last_issued_sequence_number 1 in
      let next_number : n ≡ u.last_issued_sequence_number + 1 = omega (arith, room) in
      let with_chunk : out ++ made_chunk u ∷ [] ≡ out ++ issued u =
        ap (λ b. out ++ (if b then [] else made_chunk u ∷ [])) (sym something) in
      record {
        sent = if has_conn then made_chunk u ∷ [] else [];
        next = after u;
        done = rw (store_full u something, flush) refl;
        tracks = record {
          reliable_qos = t.reliable_qos;
          is_reliable = t.is_reliable;
          chunks =
              ap
                (λ b.
                  if b then BTree.insert n (made_chunk u) u.storage.chunks else u.storage.chunks)
                t.is_reliable
              ∙ (ap (BTree.insert n (made_chunk u)) t.chunks
                  ∙ (insert-keyed n (made_chunk u) out refl
                        (subst (λ k. Before k out) (sym next_number) t.before)
                      ∙ ap keyed with_chunk));
          before = subst (Before (n + 1)) with_chunk (
              Before-append (u.last_issued_sequence_number + 1) (n + 1) (made_chunk u) out
                (omega (arith, next_number)) (omega arith) t.before);
        };
        last = omega (arith, next_number);
      }
]

run-Tracks :
    (u : Upstream) (out : List Msg.UpstreamChunk) (steps : List Step)
    → Tracks u out
    → u.last_issued_sequence_number + length steps < u32_mod
    → (out' : List Msg.UpstreamChunk) × (u' : Upstream) × (run u out steps ≡ some (out', u'))
      × Tracks u' out'
unfolding run process_ack Storage.process_ack
run-Tracks u out [] t room = (out, u, refl, t)
run-Tracks u out (wrote id dps ∷ steps) t room =
    let w = write-Tracks u id dps out t in
    run-Tracks (write_data_points u id dps).1 out steps w.0 (omega (arith, w.1))
run-Tracks u out (acked ack ∷ steps) t room =
    run-Tracks (process_ack u ack) (drop_acked ack.results out) steps
      (results-Tracks u ack.results out t) (omega (arith, room))
run-Tracks u out (flushed has_conn ∷ steps) t room =
    let f = flush-Flushed u has_conn out t (omega arith) in
    let rest = run-Tracks f.next (out ++ issued u) steps f.tracks (omega (arith, f.last)) in
    (rest.0, rest.1, rw (f.done, run) rest.2, rest.3)

new-Tracks :
    (config : UpstreamConfig) (alias : ℕ) (ids : Map ℕ DataId)
    → config.qos ≡ reliable
    → Tracks (new config alias ids) []
unfolding new Storage.new
new-Tracks config alias ids qos =
    let flag : qos_beq config.qos reliable ≡ true = rw qos refl in
    record { reliable_qos = flag; is_reliable = flag; chunks = refl; before = tt }

new_room :
    (config : UpstreamConfig) (alias : ℕ) (ids : Map ℕ DataId) (steps : List Step)
    → length steps < u32_mod
    → (new config alias ids).last_issued_sequence_number + length steps < u32_mod
unfolding new
new_room config alias ids steps few = omega (arith, few)

resend :
    (u : Upstream) (out : List Msg.UpstreamChunk) → Tracks u out → after_resume u ≡ some (out, u)
unfolding after_resume Storage.iter_chunks
resend u out t =
    rw (t.reliable_qos, after_resume)
      (ap (λ m. some (m, u)) (ap values t.chunks ∙ values-keyed out))

-- A reliable upstream, fewer than 2^32 steps after it was opened (data points written, flushes with or
-- without a connection, acknowledgements): no step panics, and after a resume it sends again exactly
-- the chunks that it made and that no acknowledgement has named since, in the order of their making,
-- and keeps them.
pub after_resume-run :
    (config : UpstreamConfig) (alias : ℕ) (ids : Map ℕ DataId) (steps : List Step)
    → config.qos ≡ reliable
    → length steps < u32_mod
    → (out : List Msg.UpstreamChunk) × (u : Upstream) × (run (new config alias ids) [] steps
        ≡ some (out, u))
      × (after_resume u ≡ some (out, u))
after_resume-run config alias ids steps qos few =
    let ran =
      run-Tracks (new config alias ids) [] steps (new-Tracks config alias ids qos)
        (new_room config alias ids steps few) in
    (ran.0, ran.1, ran.2, resend ran.1 ran.0 ran.3)
