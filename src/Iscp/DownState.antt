-- ===== src/Iscp/DownState.antt =====
-- src/iscp/down_state.rs and the conversion of chunks in src/iscp/downstream.rs: what a downstream
-- knows of the upstreams it receives, and the acknowledgements it owes. An operation holds its locks
-- from its start to its end, so it is one step. The crate `uuid` is a parameter.
pub mod Acks
pub mod Aliases
pub mod Convert
mod Tests
use iscp_rs.Base.{
  ℕ, ◌+◌, ◌≡◌, String, Bool, true, false, ◌&&◌, Option, none, some, List, [], ◌∷◌, ◌++◌,
  if◌then◌else◌, ltb, ◌==◌, nat_eq, string_eq, Eq, Map, get, insert, is_empty, wrapping_add,
  u32_mod,
}
use iscp_rs.Base.Int.{pos}
use iscp_rs.Errors.{Error, invalid_value, Outcome, ok, err, panic}
use iscp_rs.Message.Types.{Bytes, Uuid, DataId}
use iscp_rs.Message.Chunks as Msg
use iscp_rs.Message.Chunks.{data_id, data_id_alias, upstream_info, upstream_alias}
use iscp_rs.Iscp.Types.{UpstreamInfo, DataPointGroup, DownstreamChunk}

-- `Uuid::from_slice` and `Uuid::into_bytes`: a slice that is accepted holds the bytes of its
-- identifier.
pub record UuidLib : Type 0 where
  pub from_slice : Bytes → Option Uuid
  pub into_bytes : Uuid → Bytes
  pub into-from : (bytes : Bytes) (u : Uuid) → from_slice bytes ≡ some u → into_bytes u ≡ bytes

pub record State : Type 0 where
  pub data_id_aliases : Map ℕ DataId
  pub infos : Map ℕ UpstreamInfo
  pub for_ack : Map ℕ Msg.UpstreamInfo
  pub last_issued_upstream_info_alias : Option ℕ
  pub last_issued_chunk_ack_id : Option ℕ
  pub results : List Msg.DownstreamChunkResult

unfoldable pub new : Map ℕ DataId → State
new data_id_aliases = record {
  data_id_aliases = data_id_aliases;
  infos = [];
  for_ack = [];
  last_issued_upstream_info_alias = none;
  last_issued_chunk_ack_id = none;
  results = [];
}

abbrev pub info_beq : UpstreamInfo → UpstreamInfo → Bool
info_beq a b =
    a.session_id == b.session_id
    && (a.stream_id == b.stream_id && a.source_node_id == b.source_node_id)

-- `infos.iter().find(..)`: the value.
unfoldable pub find_info : UpstreamInfo → Map ℕ UpstreamInfo → Option UpstreamInfo
find_info info [] = none
find_info info ((alias, v) ∷ m) = if info_beq v info then some v else find_info info m

-- The alias that comes next: `none` is the panic of `checked_add`.
unfoldable pub next_alias : Option ℕ → Option ℕ
next_alias none = some 0
next_alias (some alias) = if ltb (alias + 1) u32_mod then some (alias + 1) else none

unfoldable pub next_ack_id : Option ℕ → ℕ
next_ack_id none = 0
next_ack_id (some ack_id) = wrapping_add ack_id 1

unfoldable pub get_upstream_info : State → ℕ → Outcome UpstreamInfo
get_upstream_info s alias = elim (get alias s.infos) [
  | some info ↦ ok info
  | none ↦ err (invalid_value "unknown upstream info alias")
]

unfoldable pub get_data_id : State → ℕ → Option DataId
get_data_id s alias = get alias s.data_id_aliases

unfoldable pub take_ack : State → ℕ → Option Msg.DownstreamChunkAck × State
take_ack s stream_id_alias =
    if is_empty s.results && is_empty s.for_ack
    then (none, record s { results = []; for_ack = [] })
    else let ack_id = next_ack_id s.last_issued_chunk_ack_id in
      (
        some (record {
          stream_id_alias = stream_id_alias;
          ack_id = ack_id;
          results = s.results;
          upstream_aliases = s.for_ack;
          data_id_aliases = [];
          extension_fields = none;
        }),
        record s { results = []; for_ack = []; last_issued_chunk_ack_id = some ack_id },
      )

module _ (uuid : UuidLib) where
  abbrev pub result : Uuid → ℕ → Msg.DownstreamChunkResult
  result stream_id sequence_number = record {
    stream_id_of_upstream = uuid.into_bytes stream_id;
    sequence_number_in_upstream = sequence_number;
    result_code = pos 0;
    result_string = "OK";
    extension_fields = none;
  }

  unfoldable pub add_sequence_number : State → Uuid → ℕ → State
  add_sequence_number s stream_id sequence_number = record s {
    results = s.results ++ result stream_id sequence_number ∷ [];
  }

  unfoldable pub add_upstream_info : State → Msg.UpstreamInfo → Outcome UpstreamInfo × State
  add_upstream_info s received = elim (uuid.from_slice received.stream_id) [
    | none ↦ (err (invalid_value "invalid bytes for stream id"), s)
    | some stream_id ↦
        let info : UpstreamInfo = record {
          session_id = received.session_id;
          stream_id = stream_id;
          source_node_id = received.source_node_id;
        } in
        elim (find_info info s.infos) [
          | some v ↦ (ok v, s)
          | none ↦ elim (next_alias s.last_issued_upstream_info_alias) [
            | none ↦ (panic, s)
            | some alias ↦ (
              ok info,
              record s {
                last_issued_upstream_info_alias = some alias;
                infos = insert alias info s.infos;
                for_ack =
                    insert alias
                      (record {
                        session_id = info.session_id;
                        stream_id = uuid.into_bytes info.stream_id;
                        source_node_id = info.source_node_id;
                      })
                      s.for_ack;
              },
            )
          ]
        ]
  ]

  -- The data id of a group of a chunk.
  unfoldable pub resolve : State → Option Msg.DataIdOrAlias → Outcome DataId
  resolve s (some (data_id d)) = ok d
  resolve s (some (data_id_alias alias)) = elim (get_data_id s alias) [
    | some d ↦ ok d
    | none ↦ err (invalid_value "unknown data id")
  ]
  resolve s none = err (invalid_value "invalid data_id_or_alias")

  unfoldable pub convert_groups : State → List Msg.DataPointGroup → Outcome (List DataPointGroup)
  convert_groups s [] = ok []
  convert_groups s (dpg ∷ dpgs) = elim (resolve s dpg.data_id_or_alias) [
    | err e ↦ err e
    | panic ↦ panic
    | ok d ↦ elim (convert_groups s dpgs) [
      | err e ↦ err e
      | panic ↦ panic
      | ok groups ↦ ok (record { data_id = d; data_points = dpg.data_points } ∷ groups)
    ]
  ]

  unfoldable pub resolve_upstream :
      State → Option Msg.UpstreamOrAlias → Outcome UpstreamInfo × State
  resolve_upstream s (some (upstream_info info)) = add_upstream_info s info
  resolve_upstream s (some (upstream_alias alias)) = (get_upstream_info s alias, s)
  resolve_upstream s none = (err (invalid_value "invalid upstream_or_alias"), s)

  -- The part of `convert_downstream_chunk` behind its early returns.
  unfoldable pub convert_stream_chunk :
      State
      → Msg.StreamChunk
      → Option Msg.UpstreamOrAlias
      → Outcome (Option DownstreamChunk) × State
  convert_stream_chunk s stream_chunk upstream_or_alias =
      elim (convert_groups s stream_chunk.data_point_groups) [
        | err e ↦ (err e, s)
        | panic ↦ (panic, s)
        | ok groups ↦
            let (outcome, s') = resolve_upstream s upstream_or_alias in
            elim outcome [
              | err e ↦ (err e, s')
              | panic ↦ (panic, s')
              | ok upstream ↦ (
                ok (
                    some (record {
                      sequence_number = stream_chunk.sequence_number;
                      data_point_groups = groups;
                      upstream = upstream;
                    })),
                add_sequence_number s' upstream.stream_id stream_chunk.sequence_number,
              )
            ]
      ]

  unfoldable pub convert_downstream_chunk :
      State → Msg.DownstreamChunk → Bool → Outcome (Option DownstreamChunk) × State
  convert_downstream_chunk s chunk omit_empty_chunk = elim chunk.stream_chunk [
    | none ↦ (ok none, s)
    | some stream_chunk ↦
        if omit_empty_chunk && is_empty stream_chunk.data_point_groups
        then (ok none, s)
        else convert_stream_chunk s stream_chunk chunk.upstream_or_alias
  ]

-- `check_chunk_ack_complete`: the new value of `ack_id_complete`; the result code is logged only.
unfoldable pub check_chunk_ack_complete : Msg.DownstreamChunkAckComplete → ℕ → ℕ
check_chunk_ack_complete complete ack_id_complete =
    if ltb ack_id_complete complete.ack_id then complete.ack_id else ack_id_complete
