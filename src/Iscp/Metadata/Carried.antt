-- ===== src/Iscp/Metadata/Carried.antt =====
-- What a node learns from the metadata it receives (src/iscp/metadata.rs).
use iscp_rs.Base.{
  zero, suc, String, ◌≡◌, refl, ap, ap₂, subst, some_inj, none, some, inl, inr, Option-cases,
  Bool-cases, ltb,
}
use iscp_rs.Base.Int.{ℤ, pos, negsuc}
use iscp_rs.Errors.{Yields, and_then-Yields}
use iscp_rs.Message.Types.{Bytes, QoS}
use iscp_rs.Message.Metadata as Msg
use iscp_rs.Iscp.DownState.{UuidLib}
use iscp_rs.Iscp.Misc.{
  system_time_end, parse_stream_id, unix_epoch_to_system_time, from_qos_i32, qos_of, qos_value,
}
use iscp_rs.Iscp.Metadata.{
  ReceivableMetadata, base_time, upstream_open, upstream_abnormal_close, upstream_resume,
  upstream_normal_close, downstream_open, downstream_abnormal_close, downstream_resume,
  downstream_normal_close, DownstreamMetadata, from_prost, convert_downstream_metadata,
}

parse_stream_id-Yields :
    (uuid : UuidLib) (bytes : Bytes)
    → Yields (λ id. uuid.into_bytes id ≡ bytes) (parse_stream_id uuid bytes)
unfolding parse_stream_id
parse_stream_id-Yields uuid bytes = elim (Option-cases (uuid.from_slice bytes)) [
  | inl e ↦ rw (e, parse_stream_id) tt
  | inr (id, e) ↦ rw (e, parse_stream_id) (uuid.into-from bytes id e)
]

time-Yields : (nanos : ℤ) → Yields (λ t. t ≡ nanos) (unix_epoch_to_system_time nanos)
unfolding unix_epoch_to_system_time
time-Yields (negsuc n) = tt
time-Yields (pos n) = elim (Bool-cases (ltb n system_time_end)) [
  | inl e ↦ rw (e, unix_epoch_to_system_time) refl
  | inr e ↦ rw (e, unix_epoch_to_system_time) tt
]

qos_of-value : (n : ℤ) (q : QoS) → qos_of n ≡ some q → qos_value q ≡ n
qos_of-value (pos zero) q h = subst (λ q. qos_value q ≡ pos 0) (some_inj h) refl
qos_of-value (pos (suc zero)) q h = subst (λ q. qos_value q ≡ pos 1) (some_inj h) refl
qos_of-value (pos (suc (suc zero))) q h = subst (λ q. qos_value q ≡ pos 2) (some_inj h) refl
qos_of-value (pos (suc (suc (suc n)))) q h = cc
qos_of-value (negsuc n) q h = cc

from_qos_i32-Yields :
    (unknown : ℤ → String) (n : ℤ) → Yields (λ q. qos_value q ≡ n) (from_qos_i32 unknown n)
unfolding from_qos_i32
from_qos_i32-Yields unknown n = elim (Option-cases (qos_of n)) [
  | inl e ↦ rw (e, from_qos_i32) tt
  | inr (q, e) ↦ rw (e, from_qos_i32) (qos_of-value n q e)
]

module _ (uuid : UuidLib) (unknown : ℤ → String) where
  -- The message that says the same as `r`.
  abbrev pub said : ReceivableMetadata → Msg.DownstreamMetadataBody
  said (base_time m) = Msg.base_time (record {
    session_id = m.session_id;
    name = m.name;
    priority = m.priority;
    elapsed_time = m.elapsed_time;
    base_time = m.base_time;
  })
  said (upstream_open m) = Msg.upstream_open (record {
    stream_id = uuid.into_bytes m.stream_id;
    session_id = m.session_id;
    qos = qos_value m.qos;
  })
  said (upstream_abnormal_close m) =
      Msg.upstream_abnormal_close
        (record { stream_id = uuid.into_bytes m.stream_id; session_id = m.session_id })
  said (upstream_resume m) = Msg.upstream_resume (record {
    stream_id = uuid.into_bytes m.stream_id;
    session_id = m.session_id;
    qos = qos_value m.qos;
  })
  said (upstream_normal_close m) = Msg.upstream_normal_close (record {
    stream_id = uuid.into_bytes m.stream_id;
    session_id = m.session_id;
    total_data_points = m.total_data_points;
    final_sequence_number = m.final_sequence_number;
  })
  said (downstream_open m) = Msg.downstream_open (record {
    stream_id = uuid.into_bytes m.stream_id;
    downstream_filters = m.downstream_filters;
    qos = qos_value m.qos;
  })
  said (downstream_abnormal_close m) =
      Msg.downstream_abnormal_close (record { stream_id = uuid.into_bytes m.stream_id })
  said (downstream_resume m) = Msg.downstream_resume (record {
    stream_id = uuid.into_bytes m.stream_id;
    downstream_filters = m.downstream_filters;
    qos = qos_value m.qos;
  })
  said (downstream_normal_close m) =
      Msg.downstream_normal_close (record { stream_id = uuid.into_bytes m.stream_id })

  from_prost-Yields :
      (body : Msg.DownstreamMetadataBody)
      → Yields (λ r. said r ≡ body) (from_prost uuid unknown body)
  unfolding from_prost
  from_prost-Yields (Msg.base_time m) =
      and_then-Yields _ _ (unix_epoch_to_system_time m.base_time) (time-Yields m.base_time)
        (λ t e. ap (λ x. Msg.base_time (record m { base_time = x })) e)
  from_prost-Yields (Msg.upstream_open m) =
      and_then-Yields _ _ (parse_stream_id uuid m.stream_id)
        (parse_stream_id-Yields uuid m.stream_id)
        (λ id e.
          and_then-Yields _ _ (from_qos_i32 unknown m.qos) (from_qos_i32-Yields unknown m.qos)
            (λ q e'. ap₂ (λ x y. Msg.upstream_open (record m { stream_id = x; qos = y })) e e'))
  from_prost-Yields (Msg.upstream_abnormal_close m) =
      and_then-Yields _ _ (parse_stream_id uuid m.stream_id)
        (parse_stream_id-Yields uuid m.stream_id)
        (λ id e. ap (λ x. Msg.upstream_abnormal_close (record m { stream_id = x })) e)
  from_prost-Yields (Msg.upstream_resume m) =
      and_then-Yields _ _ (parse_stream_id uuid m.stream_id)
        (parse_stream_id-Yields uuid m.stream_id)
        (λ id e.
          and_then-Yields _ _ (from_qos_i32 unknown m.qos) (from_qos_i32-Yields unknown m.qos)
            (λ q e'. ap₂ (λ x y. Msg.upstream_resume (record m { stream_id = x; qos = y })) e e'))
  from_prost-Yields (Msg.upstream_normal_close m) =
      and_then-Yields _ _ (parse_stream_id uuid m.stream_id)
        (parse_stream_id-Yields uuid m.stream_id)
        (λ id e. ap (λ x. Msg.upstream_normal_close (record m { stream_id = x })) e)
  from_prost-Yields (Msg.downstream_open m) =
      and_then-Yields _ _ (parse_stream_id uuid m.stream_id)
        (parse_stream_id-Yields uuid m.stream_id)
        (λ id e.
          and_then-Yields _ _ (from_qos_i32 unknown m.qos) (from_qos_i32-Yields unknown m.qos)
            (λ q e'. ap₂ (λ x y. Msg.downstream_open (record m { stream_id = x; qos = y })) e e'))
  from_prost-Yields (Msg.downstream_abnormal_close m) =
      and_then-Yields _ _ (parse_stream_id uuid m.stream_id)
        (parse_stream_id-Yields uuid m.stream_id)
        (λ id e. ap (λ x. Msg.downstream_abnormal_close (record { stream_id = x })) e)
  from_prost-Yields (Msg.downstream_resume m) =
      and_then-Yields _ _ (parse_stream_id uuid m.stream_id)
        (parse_stream_id-Yields uuid m.stream_id)
        (λ id e.
          and_then-Yields _ _ (from_qos_i32 unknown m.qos) (from_qos_i32-Yields unknown m.qos)
            (λ q e'. ap₂ (λ x y. Msg.downstream_resume (record m { stream_id = x; qos = y })) e e'))
  from_prost-Yields (Msg.downstream_normal_close m) =
      and_then-Yields _ _ (parse_stream_id uuid m.stream_id)
        (parse_stream_id-Yields uuid m.stream_id)
        (λ id e. ap (λ x. Msg.downstream_normal_close (record { stream_id = x })) e)

  pub record Learnt (m : Msg.DownstreamMetadata) (d : DownstreamMetadata)
      (a : Msg.DownstreamMetadataAck) : Type 0 where
    pub from_node : d.source_node_id ≡ m.source_node_id
    pub whole : some (said d.metadata) ≡ m.metadata
    pub answered : a.request_id ≡ m.request_id
    pub accepted : a.result_code ≡ pos 0

  -- A received metadata message that converts gives the metadata that say the same, field by field,
  -- under the sender's node id, and an acknowledgement that bears the number of the message and
  -- the code of success; one that does not convert is refused as an invalid value.
  pub convert_downstream_metadata-Learnt :
      (m : Msg.DownstreamMetadata)
      → Yields (λ r. Learnt m r.0 r.1) (convert_downstream_metadata uuid unknown m)
  unfolding convert_downstream_metadata
  convert_downstream_metadata-Learnt m =
      elim m.metadata
        as (λ o.
          Yields (λ r. Learnt (record m { metadata = o }) r.0 r.1)
            (convert_downstream_metadata uuid unknown (record m { metadata = o }))) [
              | none ↦ tt
              | some body ↦
                  and_then-Yields _ _ (from_prost uuid unknown body) (from_prost-Yields body)
                    (λ r e. record {
                      from_node = refl;
                      whole = ap some e;
                      answered = refl;
                      accepted = refl;
                    })
            ]
