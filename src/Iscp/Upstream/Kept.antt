-- ===== src/Iscp/Upstream/Kept.antt =====
-- The chunks that the storage of a reliable upstream keeps, as a list.
use iscp_rs.Base.{
  ℕ, ◌+◌, ◌<◌, ◌≤◌, ◌≡◌, refl, ap, sym, ◌∙◌, Bool, true, false, Option, none, some, List, [], ◌∷◌,
  ◌++◌, map, arith, if◌then◌else◌, ◌==◌, nat_eq, ltb, Map, remove, is_empty, inl, inr, Bool-cases,
  u64_mod, ◌%◌, All,
}
use iscp_rs.Base.BTree
use iscp_rs.Base.BTree.{values}
use iscp_rs.Message.Types.{DataPoint, DataId, reliable, qos_beq}
use iscp_rs.Message.Chunks as Msg
use iscp_rs.Errors.{ok, err, stream_closed}
use iscp_rs.Iscp.FlushPolicy.{need_flush}
use iscp_rs.Iscp.Storage as Storage
use iscp_rs.Iscp.Upstream.{Upstream, flush, write_data_points, process_ack, payload_size}
use iscp_rs.Iscp.Upstream.Flush.{made_chunk}

pub data Step : Type 0 where
  wrote : DataId → List DataPoint → Step
  flushed : Bool → Step
  acked : Msg.UpstreamChunkAck → Step

abbrev pub chunk_number : Msg.UpstreamChunk → ℕ
chunk_number c = elim c.stream_chunk [ none ↦ 0 | some sc ↦ sc.sequence_number ]

-- The chunk that a flush makes.
abbrev pub issued : Upstream → List Msg.UpstreamChunk
issued u = if is_empty u.data_points_buffer then [] else made_chunk u ∷ []

unfoldable pub without : ℕ → List Msg.UpstreamChunk → List Msg.UpstreamChunk
without n [] = []
without n (c ∷ cs) = if chunk_number c == n then without n cs else c ∷ without n cs

unfoldable pub drop_acked :
    List Msg.UpstreamChunkResult → List Msg.UpstreamChunk → List Msg.UpstreamChunk
drop_acked [] out = out
drop_acked (r ∷ rs) out = drop_acked rs (without r.sequence_number out)

-- The upstream after some steps, beside the chunks that are still to be acknowledged.
unfoldable pub run :
    Upstream → List Msg.UpstreamChunk → List Step → Option (List Msg.UpstreamChunk × Upstream)
run u out [] = some (out, u)
run u out (wrote id dps ∷ steps) = run (write_data_points u id dps).1 out steps
run u out (acked ack ∷ steps) = run (process_ack u ack) (drop_acked ack.results out) steps
run u out (flushed has_conn ∷ steps) = elim (flush u has_conn) [
  | none ↦ none
  | some (sent, u') ↦ run u' (out ++ issued u) steps
]

abbrev pub keyed : List Msg.UpstreamChunk → Map ℕ Msg.UpstreamChunk
keyed = map (λ c. (chunk_number c, c))

pub remove-keyed :
    (n : ℕ) (out : List Msg.UpstreamChunk) → remove n (keyed out) ≡ keyed (without n out)
unfolding remove without
remove-keyed n [] = refl
remove-keyed n (c ∷ cs) = elim (Bool-cases (chunk_number c == n)) [
  | inl h ↦ rw h (remove-keyed n cs)
  | inr h ↦ rw h (ap (◌∷◌ (chunk_number c, c)) (remove-keyed n cs))
]

abbrev pub Before : ℕ → List Msg.UpstreamChunk → Type 0
Before n = All (λ c. chunk_number c < n)

pub insert-keyed :
    (n : ℕ) (c : Msg.UpstreamChunk) (out : List Msg.UpstreamChunk)
    → chunk_number c ≡ n
    → Before n out
    → BTree.insert n c (keyed out) ≡ keyed (out ++ c ∷ [])
unfolding BTree.insert
insert-keyed n c [] h b = ap (λ k. (k, c) ∷ []) (sym h)
insert-keyed n c (d ∷ out) h b =
    let after : ltb n (chunk_number d) ≡ false = ground (arith, b.0) in
    let other : (chunk_number d == n) ≡ false = ground (arith, b.0) in
    rw (after, other) (ap (◌∷◌ (chunk_number d, d)) (insert-keyed n c out h b.1))

pub values-keyed : (out : List Msg.UpstreamChunk) → values (keyed out) ≡ out
unfolding values
values-keyed [] = refl
values-keyed (c ∷ out) = ap (◌∷◌ c) (values-keyed out)

pub without-Before :
    (n k : ℕ) (out : List Msg.UpstreamChunk) → Before k out → Before k (without n out)
unfolding without
without-Before n k [] b = tt
without-Before n k (c ∷ cs) b = elim (Bool-cases (chunk_number c == n)) [
  | inl h ↦ rw h (without-Before n k cs b.1)
  | inr h ↦ rw h (b.0, without-Before n k cs b.1)
]

pub Before-append :
    (m k : ℕ) (c : Msg.UpstreamChunk) (out : List Msg.UpstreamChunk)
    → m ≤ k
    → chunk_number c < k
    → Before m out
    → Before k (out ++ c ∷ [])
Before-append m k c [] h l b = (l, tt)
Before-append m k c (d ∷ out) h l b = (omega (arith, b.0), Before-append m k c out h l b.1)

-- The storage of a reliable upstream holds the chunks `out`.
pub record Tracks (u : Upstream) (out : List Msg.UpstreamChunk) : Type 0 where
  pub reliable_qos : qos_beq u.config.qos reliable ≡ true
  pub is_reliable : u.storage.is_reliable ≡ true
  pub chunks : u.storage.chunks ≡ keyed out
  pub before : Before (u.last_issued_sequence_number + 1) out

pub results-Tracks :
    (u : Upstream) (rs : List Msg.UpstreamChunkResult) (out : List Msg.UpstreamChunk)
    → Tracks u out
    → Tracks (record u { storage = Storage.process_results u.storage rs }) (drop_acked rs out)
unfolding Storage.process_results drop_acked Storage.process_result
results-Tracks u [] out t = t
results-Tracks u (r ∷ rs) out t =
    results-Tracks (record u { storage = Storage.process_result u.storage r }) rs
      (without r.sequence_number out)
      (record {
        reliable_qos = t.reliable_qos;
        is_reliable = t.is_reliable;
        chunks =
            ap (λ b. if b then remove r.sequence_number u.storage.chunks else u.storage.chunks)
              t.is_reliable
            ∙ (ap (remove r.sequence_number) t.chunks ∙ remove-keyed r.sequence_number out);
        before = without-Before r.sequence_number (u.last_issued_sequence_number + 1) out t.before;
      })

pub choose :
    {A : Type 0} (b c : Bool) (x y z : A × Upstream) (P : Upstream → Type 0)
    → P x.1
    → P y.1
    → P z.1
    → P (if b then x else if c then y else z).1
choose true c x y z P p q r = p
choose false true x y z P p q r = q
choose false false x y z P p q r = r

abbrev pub writes : Upstream → DataId → List DataPoint → Upstream
writes u id dps = record u {
  data_points_buffer = u.data_points_buffer ++ record { data_id = id; data_points = dps } ∷ [];
  buffer_payload_size = (u.buffer_payload_size + payload_size dps) % u64_mod;
}

pub write-Tracks :
    (u : Upstream) (id : DataId) (dps : List DataPoint) (out : List Msg.UpstreamChunk)
    → Tracks u out
    → Tracks (write_data_points u id dps).1 out
      × ((write_data_points u id dps).1.last_issued_sequence_number ≡ u.last_issued_sequence_number)
unfolding write_data_points
write-Tracks u id dps out t =
    let kept : Tracks (writes u id dps) out
        × (u.last_issued_sequence_number ≡ u.last_issued_sequence_number) =
      (
        record {
          reliable_qos = t.reliable_qos;
          is_reliable = t.is_reliable;
          chunks = t.chunks;
          before = t.before;
        },
        refl,
      ) in
    let noted : Tracks (record (writes u id dps) { notified = true }) out
        × (u.last_issued_sequence_number ≡ u.last_issued_sequence_number) =
      (
        record {
          reliable_qos = t.reliable_qos;
          is_reliable = t.is_reliable;
          chunks = t.chunks;
          before = t.before;
        },
        refl,
      ) in
    choose u.cancelled
      (need_flush u.config.flush_policy ((u.buffer_payload_size + payload_size dps) % u64_mod))
      (err stream_closed, writes u id dps) (ok tt, record (writes u id dps) { notified = true })
      (ok tt, writes u id dps)
      (λ v. Tracks v out × (v.last_issued_sequence_number ≡ u.last_issued_sequence_number)) kept
      noted kept
