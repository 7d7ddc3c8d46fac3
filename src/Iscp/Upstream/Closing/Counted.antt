-- ===== src/Iscp/Upstream/Closing/Counted.antt =====
-- The data points that a close request counts.
use iscp_rs.Base.{
  ℕ, ◌+◌, ◌%◌, ◌<◌, ◌≡◌, refl, true, some, List, [], ◌∷◌, ◌++◌, arith, nat_eq, is_empty, inl, inr,
  Bool-cases, u64_mod, length, subst,
}
use iscp_rs.Message.Types.{DataId, DataPoint}
use iscp_rs.Message.Chunks as Msg
use iscp_rs.Iscp.Types.{DataPointGroup}
use iscp_rs.Iscp.Upstream.{Upstream, write_data_points, flush, count_points, payload_size}
use iscp_rs.Iscp.Upstream.Resend.{store_empty, store_full, after}
use iscp_rs.Iscp.Upstream.Flush.{made_chunk}
use iscp_rs.Iscp.Upstream.Kept.{choose, writes}
use iscp_rs.Iscp.FlushPolicy.{need_flush}
use iscp_rs.Errors.{ok, err, stream_closed}
use iscp_rs.Iscp.Upstream.Closing.{Event, wrote}

-- The data points that the application wrote.
unfoldable pub written : List Event → ℕ
written [] = 0
written (wrote id dps ∷ es) = length dps + written es
written (_ ∷ es) = written es

-- An upstream has counted or still buffers `n` data points.
pub record Counted (n : ℕ) (u : Upstream) : Type 0 where
  pub fits : u.total_data_points < u64_mod
  pub counted : (u.total_data_points + count_points u.data_points_buffer) % u64_mod ≡ n % u64_mod

count_points-append :
    (gs : List DataPointGroup) (g : DataPointGroup)
    → count_points (gs ++ g ∷ []) ≡ count_points gs + length g.data_points
unfolding count_points
count_points-append [] g = omega arith
count_points-append (h ∷ gs) g = omega (arith, count_points-append gs g)

empty-count : (gs : List DataPointGroup) → is_empty gs ≡ true → count_points gs ≡ 0
unfolding count_points
empty-count [] h = refl
empty-count (g ∷ gs) h = ground (arith, h)

-- What a flush leaves.
pub flush-Counted :
    (n : ℕ) (u : Upstream)
    → Counted n u
    → (chunks : List Msg.UpstreamChunk) × (u' : Upstream) × (flush u true ≡ some (chunks, u'))
      × Counted n u'
      × (u'.data_points_buffer ≡ [])
unfolding flush count_points
flush-Counted n u c = elim (Bool-cases (is_empty u.data_points_buffer)) [
  | inl h ↦
      let counted : (u.total_data_points + 0) % u64_mod ≡ n % u64_mod =
        subst (λ k. (u.total_data_points + k) % u64_mod ≡ n % u64_mod)
          (empty-count u.data_points_buffer h) c.counted in
      (
        [],
        record u { buffer_payload_size = 0; data_points_buffer = [] },
        rw (store_empty u h, flush) refl,
        record { fits = c.fits; counted = counted },
        refl,
      )
  | inr h ↦ (
    made_chunk u ∷ [],
    after u,
    rw (store_full u h, flush) refl,
    record { fits = omega arith; counted = omega (arith, c.counted) },
    refl,
  )
]

pub write-Counted :
    (n : ℕ) (u : Upstream) (id : DataId) (dps : List DataPoint)
    → Counted n u
    → Counted (n + length dps) (write_data_points u id dps).1
unfolding write_data_points
write-Counted n u id dps c =
    let kept : Counted (n + length dps) (writes u id dps) = record {
      fits = c.fits;
      counted = omega (
        arith,
        c.counted,
        count_points-append u.data_points_buffer (record { data_id = id; data_points = dps }),
      );
    } in
    choose u.cancelled
      (need_flush u.config.flush_policy ((u.buffer_payload_size + payload_size dps) % u64_mod))
      (err stream_closed, writes u id dps) (ok tt, record (writes u id dps) { notified = true })
      (ok tt, writes u id dps) (Counted (n + length dps)) kept
      (record { fits = kept.fits; counted = kept.counted }) kept
