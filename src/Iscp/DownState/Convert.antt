-- ===== src/Iscp/DownState/Convert.antt =====
-- The conversion of received chunks (src/iscp/downstream.rs) and the state that it leaves.
use iscp_rs.Base.{
  ℕ, ◌≡◌, refl, ap, sym, ◌∙◌, Bool, ◌&&◌, Option, none, some, List, [], ◌∷◌, ◌++◌, map, arith, Map,
  get, is_empty, append-nil, inl, inr, ◌⊎◌, Bool-cases, Option-cases, nat_eq,
}
use iscp_rs.Message.Types.{DataId, DataPoint}
use iscp_rs.Message.Chunks as Msg
use iscp_rs.Iscp.Types.{UpstreamInfo, DataPointGroup, DownstreamChunk}
use iscp_rs.Errors.{Outcome, ok, err, panic, Error}
use iscp_rs.Iscp.DownState.{
  State, UuidLib, new, result, resolve, convert_groups, get_upstream_info, resolve_upstream,
  add_sequence_number, convert_stream_chunk, convert_downstream_chunk,
}
use iscp_rs.Iscp.DownState.Aliases.{IsValid, Grown, add-Grown, same-Grown, new-IsValid}
use iscp_rs.Iscp.DownState.Acks.{Event, run, run-Sent}

Outcome-cases {ℓ} :
    {A : Type ℓ} (o : Outcome A)
    → ((a : A) × (o ≡ ok a)) ⊎ (((e : Error) × (o ≡ err e)) ⊎ (o ≡ panic))
Outcome-cases (ok a) = inl (a, refl)
Outcome-cases (err e) = inr (inl (e, refl))
Outcome-cases panic = inr (inr refl)

ok_inj {ℓ} : {A : Type ℓ} {a b : A} → ok a ≡ ok b → a ≡ b
ok_inj h = cc

not_ok_err {ℓ} : {A : Type ℓ} {a : A} {e : Error} → ¬ (err e ≡ ok a)
not_ok_err h = cc

not_ok_panic {ℓ} : {A : Type ℓ} {a : A} → ¬ (panic ≡ ok a)
not_ok_panic h = cc

get-append {ℓ} :
    {V : Type ℓ} (k : ℕ) (v : V) (m n : Map ℕ V) → get k m ≡ some v → get k (m ++ n) ≡ some v
unfolding get
get-append k v [] n h = cc
get-append k v ((j, w) ∷ m) n h = ground (arith, get-append k v m n)

found_info :
    (s : State) (alias : ℕ) (info : UpstreamInfo)
    → get_upstream_info s alias ≡ ok info
    → get alias s.infos ≡ some info
unfolding get_upstream_info
found_info s alias info h = elim (Option-cases (get alias s.infos)) [
  | inl e ↦ absurd (not_ok_err (rw (e, get_upstream_info) at h))
  | inr (w, e) ↦ e ∙ ap some (ok_inj (rw (e, get_upstream_info) at h))
]

known_info :
    (s : State) (alias : ℕ) (info : UpstreamInfo)
    → get alias s.infos ≡ some info
    → get_upstream_info s alias ≡ ok info
unfolding get_upstream_info
known_info s alias info e = rw (e, get_upstream_info) refl

abbrev pub points : List DataPointGroup → List (List DataPoint)
points = map (λ g. g.data_points)

abbrev pub message_points : List Msg.DataPointGroup → List (List DataPoint)
message_points = map (λ g. g.data_points)

-- The chunk that is handed on has the number and the data points of the one received.
abbrev pub Carries : Msg.DownstreamChunk → Outcome (Option DownstreamChunk) → Type 0
Carries chunk (ok (some c)) =
    (sc : Msg.StreamChunk) × (chunk.stream_chunk ≡ some sc)
    × (c.sequence_number ≡ sc.sequence_number)
    × (points c.data_point_groups ≡ message_points sc.data_point_groups)
Carries chunk _ = Unit {0}

module _ (uuid : UuidLib) where
  -- The results that the outcome of a conversion calls for.
  abbrev pub acks_of : Outcome (Option DownstreamChunk) → List Msg.DownstreamChunkResult
  acks_of (ok (some c)) = result uuid c.upstream.stream_id c.sequence_number ∷ []
  acks_of _ = []

  convert_groups-points :
      (s : State) (dpgs : List Msg.DataPointGroup) (groups : List DataPointGroup)
      → convert_groups uuid s dpgs ≡ ok groups
      → points groups ≡ message_points dpgs
  unfolding convert_groups
  convert_groups-points s [] groups h = ap points (sym (ok_inj h))
  convert_groups-points s (dpg ∷ dpgs) groups h =
      elim (Outcome-cases (resolve uuid s dpg.data_id_or_alias)) [
        | inl (d, e) ↦ elim (Outcome-cases (convert_groups uuid s dpgs)) [
          | inl (gs, e') ↦
              let made = ok_inj (rw (e, e', convert_groups) at h) in
              ap points (sym made) ∙ ap (◌∷◌ dpg.data_points) (convert_groups-points s dpgs gs e')
          | inr (inl (x, e')) ↦ absurd (not_ok_err (rw (e, e', convert_groups) at h))
          | inr (inr e') ↦ absurd (not_ok_panic (rw (e, e', convert_groups) at h))
        ]
        | inr (inl (x, e)) ↦ absurd (not_ok_err (rw (e, convert_groups) at h))
        | inr (inr e) ↦ absurd (not_ok_panic (rw (e, convert_groups) at h))
      ]

  resolve_upstream-Grown :
      (s : State) (u : Option Msg.UpstreamOrAlias)
      → IsValid s
      → Grown uuid s (resolve_upstream uuid s u).1
  unfolding resolve_upstream
  resolve_upstream-Grown s none v = same-Grown uuid s v
  resolve_upstream-Grown s (some (Msg.upstream_info info)) v = add-Grown uuid s info v
  resolve_upstream-Grown s (some (Msg.upstream_alias alias)) v = same-Grown uuid s v

  -- What a conversion does to a valid state.
  pub record Converted (s : State) (o : Outcome (Option DownstreamChunk)) (t : State)
      (chunk : Msg.DownstreamChunk) : Type 0 where
    pub acked : t.results ≡ s.results ++ acks_of o
    pub valid : IsValid t
    pub carries : Carries chunk o

  stream_chunk-Converted :
      (s : State) (sc : Msg.StreamChunk) (chunk : Msg.DownstreamChunk)
      → IsValid s
      → chunk.stream_chunk ≡ some sc
      → let r = convert_stream_chunk uuid s sc chunk.upstream_or_alias in Converted s r.0 r.1 chunk
  unfolding convert_stream_chunk add_sequence_number
  stream_chunk-Converted s sc chunk v h =
      let u = chunk.upstream_or_alias in
      let g = resolve_upstream-Grown s u v in
      let silent = g.results ∙ sym (append-nil s.results) in
      elim (Outcome-cases (convert_groups uuid s sc.data_point_groups)) [
        | inl (groups, e) ↦ elim (Outcome-cases (resolve_upstream uuid s u).0) [
          | inl (upstream, e') ↦
              rw (e, e', convert_stream_chunk)
                (record {
                  acked =
                      ap (λ r. r ++ result uuid upstream.stream_id sc.sequence_number ∷ [])
                        g.results;
                  valid = record { infos = g.valid.infos; for_ack = g.valid.for_ack };
                  carries = (sc, h, refl, convert_groups-points s sc.data_point_groups groups e);
                })
          | inr (inl (x, e')) ↦
              rw (e, e', convert_stream_chunk)
                (record { acked = silent; valid = g.valid; carries = tt })
          | inr (inr e') ↦
              rw (e, e', convert_stream_chunk)
                (record { acked = silent; valid = g.valid; carries = tt })
        ]
        | inr (inl (x, e)) ↦
            rw (e, convert_stream_chunk)
              (record { acked = sym (append-nil s.results); valid = v; carries = tt })
        | inr (inr e) ↦
            rw (e, convert_stream_chunk)
              (record { acked = sym (append-nil s.results); valid = v; carries = tt })
      ]

  -- In a valid state, a conversion adds the one result of the chunk that it hands on, and no result
  -- when it hands on none; that chunk has the number and, in order, the data points of the one
  -- received; the state stays valid.
  pub convert_downstream_chunk-Converted :
      (s : State) (chunk : Msg.DownstreamChunk) (omit_empty_chunk : Bool)
      → IsValid s
      → let r = convert_downstream_chunk uuid s chunk omit_empty_chunk in Converted s r.0 r.1 chunk
  unfolding convert_downstream_chunk
  convert_downstream_chunk-Converted s chunk omit v =
      let none_handed : Converted s (ok none) s chunk = record {
        acked = sym (append-nil s.results);
        valid = v;
        carries = tt;
      } in
      elim (Option-cases chunk.stream_chunk) [
        | inl e ↦ simp (e, convert_downstream_chunk) none_handed
        | inr (sc, e) ↦ elim (Bool-cases (omit && is_empty sc.data_point_groups)) [
          | inl skip ↦ simp (e, skip, convert_downstream_chunk) none_handed
          | inr keep ↦
              simp (e, keep, convert_downstream_chunk) (stream_chunk-Converted s sc chunk v e)
        ]
      ]

  -- An alias that stands for an upstream after a run from the first state stands for it after any
  -- further run.
  pub get_upstream_info-run :
      (data_ids : Map ℕ DataId) (es later : List Event) (alias : ℕ) (info : UpstreamInfo)
      → get_upstream_info (run uuid (new data_ids) es).1 alias ≡ ok info
      → get_upstream_info (run uuid (run uuid (new data_ids) es).1 later).1 alias ≡ ok info
  get_upstream_info-run data_ids es later alias info h =
      let first = run-Sent uuid (new data_ids) es (new-IsValid data_ids) in
      let next = run-Sent uuid (run uuid (new data_ids) es).1 later first.valid in
      let found =
        get-append alias info (run uuid (new data_ids) es).1.infos next.added
          (found_info (run uuid (new data_ids) es).1 alias info h) in
      known_info (run uuid (run uuid (new data_ids) es).1 later).1 alias info
        (ap (get alias) next.infos ∙ found)
