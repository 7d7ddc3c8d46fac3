-- ===== src/Iscp/Upstream/Flush.antt =====
-- The chunk that a flush makes of the buffer.
use mathlib.Core.List.{Perm}
use iscp_rs.Base.{
  ◌+◌, ◌%◌, ◌≡◌, none, some, List, [], ◌∷◌, ◌++◌, All, map, if◌then◌else◌, ◌==◌, nat_eq,
  wrapping_add, u64_mod,
}
use iscp_rs.Message.Types.{DataPoint, data_id_eq}
use iscp_rs.Message.Chunks as Msg
use iscp_rs.Message.Chunks.{DataIdOrAlias, data_id_or_alias_eq, data_id_or_alias_beq}
use iscp_rs.Iscp.Types.{DataPointGroup}
use iscp_rs.Iscp.Upstream.{
  Upstream, take_chunk, gather, key_of, message_group, callback_group, count_points,
}
use iscp_rs.Iscp.Upstream.Grouping.{points_for, IsSorted}

-- The data points of all the groups of a chunk that bear the key, one group behind the other.
unfoldable pub chunk_points : DataIdOrAlias → List Msg.DataPointGroup → List DataPoint
chunk_points key [] = []
chunk_points key (g ∷ gs) = elim g.data_id_or_alias [
  | none ↦ chunk_points key gs
  | some j ↦ if j == key then g.data_points ++ chunk_points key gs else chunk_points key gs
]

-- Every group bears a key.
abbrev pub Keyed : Msg.DataPointGroup → Type 0
Keyed g = (key : DataIdOrAlias) × (g.data_id_or_alias ≡ some key)

-- The data points of the buffer under a key.
abbrev pub buffered : Upstream → DataIdOrAlias → List DataPoint
buffered u key = points_for key (map (key_of u.rev_data_id_aliases) u.data_points_buffer)

-- The chunk of the buffer, and the groups for the callback.
abbrev pub made_chunk : Upstream → Msg.UpstreamChunk
made_chunk u = record {
  stream_id_alias = u.stream_id_alias;
  stream_chunk = some (record {
    sequence_number = wrapping_add u.last_issued_sequence_number 1;
    data_point_groups =
        map message_group (gather [] (map (key_of u.rev_data_id_aliases) u.data_points_buffer));
  });
  data_ids = [];
  extension_fields = none;
}

abbrev pub made_callback : Upstream → List DataPointGroup
made_callback u =
    if u.config.has_send_data_points_callback
    then map callback_group (gather [] (map (λ g. (g.data_id, g.data_points)) u.data_points_buffer))
    else []

-- What the chunk of a non-empty buffer holds, and what stays behind.
pub record Chunked (u : Upstream) (key : DataIdOrAlias) : Type 0 where
  pub chunk : Msg.UpstreamChunk
  pub callback : List DataPointGroup
  pub groups : List Msg.DataPointGroup
  pub taken : (take_chunk u).0 ≡ some (chunk, callback)
  pub numbered :
      chunk.stream_chunk
      ≡ some (record {
        sequence_number = wrapping_add u.last_issued_sequence_number 1;
        data_point_groups = groups;
      })
  pub keyed : All Keyed groups
  pub sorted : IsSorted (chunk_points key groups)
  pub points : Perm (chunk_points key groups) (buffered u key)
  pub emptied : (take_chunk u).1.data_points_buffer ≡ []
  pub counted :
      (take_chunk u).1.total_data_points
      ≡ (u.total_data_points + count_points u.data_points_buffer) % u64_mod
  pub last :
      (take_chunk u).1.last_issued_sequence_number ≡ wrapping_add u.last_issued_sequence_number 1
