-- ===== src/Iscp/Metadata/RoundTrip.antt =====
-- The base time that a node sends, at the node that receives it (src/iscp/metadata.rs).
use iscp_rs.Base.{
  ℕ, ◌^◌, ◌<◌, ◌≡◌, refl, String, Bool, true, Option, none, some, arith, inl, inr, Bool-cases, ltb,
  u64_mod,
}
use iscp_rs.Base.Int.{ℤ, pos, negsuc}
use iscp_rs.Errors.{Outcome, ok, err, panic, IsInvalid, and_then}
use iscp_rs.Message.Metadata as Msg
use iscp_rs.Message.UpMetadata as Up
use iscp_rs.Iscp.DownState.{UuidLib}
use iscp_rs.Iscp.Misc.{unix_epoch_to_system_time, system_time_end}
use iscp_rs.Iscp.Metadata.{BaseTime, from_prost}
use iscp_rs.Iscp.Metadata as Recv
use iscp_rs.Iscp.Metadata.Send.{
  SendableMetadata, base_time, MetadataSender, convert_to_upstream_metadata, with_elapsed_time,
  with_base_time, with_persist, request,
}

-- The elapsed time is a `u64`, and the base time an `i64` that is not before the epoch.
abbrev pub Fits : BaseTime → Type 0
Fits b = (b.elapsed_time < u64_mod) × ((nanos : ℕ) × (b.base_time ≡ pos nanos) × (nanos < 2 ^ 63))

module _ (uuid : UuidLib) (unknown : ℤ → String) where
  pub record Read (b : BaseTime) (r : Up.UpstreamMetadata) : Type 0 where
    pub fits : Fits b
    pub body : Msg.BaseTime
    pub sent : r.metadata ≡ some (Up.base_time body)
    pub read : from_prost uuid unknown (Msg.base_time body) ≡ ok (Recv.base_time b)

  abbrev pub Delivered : BaseTime → Outcome Up.UpstreamMetadata → Type 0
  Delivered b (ok r) = Read b r × (r.extension_fields ≡ none)
  Delivered b (err e) = IsInvalid e × (Fits b → ⊥)
  Delivered b panic = ⊥

  timed :
      (b : BaseTime) (t : ℤ)
      → b.elapsed_time < u64_mod
      → Delivered
          (record b { base_time = t })
          (with_elapsed_time (record b { base_time = t }) (some b.elapsed_time))
  unfolding with_elapsed_time with_base_time from_prost unix_epoch_to_system_time
  timed b (negsuc n) h = (tt, (λ f. absurd cc))
  timed b (pos n) h = elim (Bool-cases (ltb n (2 ^ 63))) [
    | inr over ↦
        rw (over, with_elapsed_time, with_base_time)
          (tt, (λ f. let same : n ≡ f.1.0 = cc in absurd (ground (arith, over, f.1.2))))
    | inl small ↦
        let early : ltb n system_time_end ≡ true = ground (arith, small) in
        rw (small, with_elapsed_time, with_base_time)
          (
            record {
              fits = (h, (n, refl, ground (arith, small)));
              body = record {
                session_id = b.session_id;
                name = b.name;
                priority = b.priority;
                elapsed_time = b.elapsed_time;
                base_time = pos n;
              };
              sent = refl;
              read = rw (early, from_prost, unix_epoch_to_system_time) refl;
            },
            refl,
          )
  ]

  convert-Delivered : (b : BaseTime) → Delivered b (convert_to_upstream_metadata (base_time b))
  unfolding convert_to_upstream_metadata with_elapsed_time
  convert-Delivered b = elim (Bool-cases (ltb b.elapsed_time u64_mod)) [
    | inr e ↦ rw (e, with_elapsed_time) (tt, (λ f. absurd (ground (arith, f.0))))
    | inl e ↦ rw (e, convert_to_upstream_metadata) (timed b b.base_time (ground (arith, e)))
  ]

  abbrev pub extension : Option Bool → Option Msg.UpstreamMetadataExtensionFields
  extension none = none
  extension (some persist) = some (record { persist = persist })

  abbrev pub Requested : MetadataSender → Outcome Up.UpstreamMetadata → Type 0
  Requested s (ok r) =
      ((b : BaseTime) × (s.metadata ≡ base_time b) × Read b r)
      × (r.extension_fields ≡ extension s.persist)
  Requested s (err e) = IsInvalid e × ((b : BaseTime) × (s.metadata ≡ base_time b) × (Fits b → ⊥))
  Requested s panic = ⊥

  persisted :
      (b : BaseTime) (persist : Option Bool) (r : Up.UpstreamMetadata)
      → r.extension_fields ≡ none
      → Read b r
      → Requested (record { metadata = base_time b; persist = persist }) (with_persist persist r)
  unfolding with_persist
  persisted b none r e h = ((b, refl, h), e)
  persisted b (some p) r e h =
      ((b, refl, record { fits = h.fits; body = h.body; sent = h.sent; read = h.read }), refl)

  requested :
      (b : BaseTime) (persist : Option Bool) (o : Outcome Up.UpstreamMetadata)
      → Delivered b o
      → Requested
          (record { metadata = base_time b; persist = persist })
          (and_then o (with_persist persist))
  requested b persist (ok r) h = persisted b persist r h.1 h.0
  requested b persist (err e) h = (h.0, (b, refl, h.1))
  requested b persist panic h = absurd h

  -- A base time whose elapsed time is a `u64` and whose time is an `i64` not before the epoch is sent
  -- with the wish to persist it, if there is one, and a node that receives what was sent reads the
  -- same base time; any other base time is refused as an invalid value before anything is sent.
  pub request-Requested : (s : MetadataSender) → Requested s (request s)
  unfolding request
  request-Requested s = go s.metadata s.persist
    where
      go :
          (m : SendableMetadata) (persist : Option Bool)
          → Requested
              (record { metadata = m; persist = persist })
              (and_then (convert_to_upstream_metadata m) (with_persist persist))
      go (base_time b) persist =
          requested b persist (convert_to_upstream_metadata (base_time b)) (convert-Delivered b)
