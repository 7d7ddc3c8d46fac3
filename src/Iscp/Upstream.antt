-- ===== src/Iscp/Upstream.antt =====
-- src/iscp/upstream.rs: an upstream, its buffer and its flusher. One record holds `UpstreamInner`, its
-- `State` and `UpstreamFlusher`; a `HashMap` is walked in the order of its insertions.
pub mod Grouping
pub mod Flush
pub mod Kept
pub mod Resend
pub mod Closing
mod Tests
use iscp_rs.Base.{
  ℕ, ◌+◌, ◌%◌, ◌≡◌, String, Bool, true, false, Option, none, some, List, [], ◌∷◌, ◌++◌, map,
  if◌then◌else◌, ◌==◌, nat_eq, Eq, Map, get, insert, length, is_empty, u32_mod, u64_mod,
  wrapping_add,
}
use iscp_rs.Base.Int.{leb_int}
use iscp_rs.Errors.{Outcome, ok, err, stream_closed}
use iscp_rs.Message.Types.{DataId, DataPoint, QoS, qos_beq, reliable, data_id_eq}
use iscp_rs.Message.Chunks as Msg
use iscp_rs.Message.Chunks.{DataIdOrAlias, data_id, data_id_alias, data_id_or_alias_eq}
use iscp_rs.Iscp.Types.{Duration, DataPointGroup}
use iscp_rs.Iscp.FlushPolicy.{FlushPolicy, need_flush}
use iscp_rs.Iscp.Storage as Storage
use iscp_rs.Iscp.Storage.{UpstreamStorage}

-- The callbacks are told by whether they are set.
pub record UpstreamConfig : Type 0 where
  pub session_id : String
  pub ack_interval : Duration
  pub expiry_interval : Duration
  pub data_ids : List DataId
  pub qos : QoS
  pub persist : Bool
  pub flush_policy : FlushPolicy
  pub close_timeout : Duration
  pub has_send_data_points_callback : Bool
  pub has_receive_ack_callback : Bool

-- `notified` is the permit of `notify_flush`, `cancelled` the state of `ct`.
pub record Upstream : Type 0 where
  pub config : UpstreamConfig
  pub stream_id_alias : ℕ
  pub data_id_aliases : Map ℕ DataId
  pub total_data_points : ℕ
  pub last_issued_sequence_number : ℕ
  pub data_points_buffer : List DataPointGroup
  pub buffer_payload_size : ℕ
  pub notified : Bool
  pub cancelled : Bool
  pub rev_data_id_aliases : Map DataId ℕ
  pub data_size : ℕ
  pub storage : UpstreamStorage

unfoldable pub rev_aliases : Map ℕ DataId → Map DataId ℕ → Map DataId ℕ
rev_aliases [] acc = acc
rev_aliases ((k, v) ∷ m) acc = rev_aliases m (insert v k acc)

-- `UpstreamInner`, `State::new` and `UpstreamFlusher::new` for the answer to an open request.
unfoldable pub new : UpstreamConfig → ℕ → Map ℕ DataId → Upstream
new config stream_id_alias data_id_aliases = record {
  config = config;
  stream_id_alias = stream_id_alias;
  data_id_aliases = data_id_aliases;
  total_data_points = 0;
  last_issued_sequence_number = 0;
  data_points_buffer = [];
  buffer_payload_size = 0;
  notified = false;
  cancelled = false;
  rev_data_id_aliases = rev_aliases data_id_aliases [];
  data_size = 0;
  storage =
      Storage.new config.qos config.has_send_data_points_callback config.has_receive_ack_callback;
}

unfoldable pub payload_size : List DataPoint → ℕ
payload_size [] = 0
payload_size (dp ∷ dps) = length dp.payload + payload_size dps

unfoldable pub write_data_points :
    Upstream → DataId → List DataPoint → Outcome (Unit {0}) × Upstream
write_data_points u id dps =
    let current_size = (u.buffer_payload_size + payload_size dps) % u64_mod in
    let written = record u {
      data_points_buffer = u.data_points_buffer ++ record { data_id = id; data_points = dps } ∷ [];
      buffer_payload_size = current_size;
    } in
    if u.cancelled
    then (err stream_closed, written)
    else if need_flush u.config.flush_policy current_size
    then (ok tt, record written { notified = true })
    else (ok tt, written)

-- `sort_by_key(|dp| dp.elapsed_time)`, a stable sort.
unfoldable pub insert_point : DataPoint → List DataPoint → List DataPoint
insert_point p [] = p ∷ []
insert_point p (q ∷ qs) =
    if leb_int p.elapsed_time q.elapsed_time then p ∷ q ∷ qs else q ∷ insert_point p qs

unfoldable pub sort_points : List DataPoint → List DataPoint
sort_points [] = []
sort_points (p ∷ ps) = insert_point p (sort_points ps)

-- The loops of `take_chunk` that gather the data points of a key.
module _ {K : Type 0} ⦃e : Eq K⦄ where
  unfoldable pub add_points : Map K (List DataPoint) → K → List DataPoint → Map K (List DataPoint)
  add_points m k dps = elim (get k m) [ some old ↦ insert k (old ++ dps) m | none ↦ insert k dps m ]

  unfoldable pub gather :
      Map K (List DataPoint) → List (K × List DataPoint) → Map K (List DataPoint)
  gather m [] = m
  gather m ((k, dps) ∷ rest) = gather (add_points m k dps) rest

unfoldable pub key_of : Map DataId ℕ → DataPointGroup → DataIdOrAlias × List DataPoint
key_of rev dpg = elim (get dpg.data_id rev) [
  | some alias ↦ (data_id_alias alias, dpg.data_points)
  | none ↦ (data_id dpg.data_id, dpg.data_points)
]

abbrev pub message_group : DataIdOrAlias × List DataPoint → Msg.DataPointGroup
message_group (key, dps) = record {
  data_points = sort_points dps;
  data_filter_ids = [];
  data_id_or_alias = some key;
}

abbrev pub callback_group : DataId × List DataPoint → DataPointGroup
callback_group (id, dps) = record { data_id = id; data_points = sort_points dps }

unfoldable pub count_points : List DataPointGroup → ℕ
count_points [] = 0
count_points (g ∷ gs) = length g.data_points + count_points gs

unfoldable pub groups_size : List DataPointGroup → ℕ
groups_size [] = 0
groups_size (g ∷ gs) = payload_size g.data_points + groups_size gs

-- The chunk, the groups for the callback, and the new state.
unfoldable pub take_chunk : Upstream → Option (Msg.UpstreamChunk × List DataPointGroup) × Upstream
take_chunk u =
    let dpgs = u.data_points_buffer in
    let emptied = record u { buffer_payload_size = 0; data_points_buffer = [] } in
    if is_empty dpgs
    then (none, emptied)
    else let dpg_callback =
        if u.config.has_send_data_points_callback
        then map callback_group (gather [] (map (λ g. (g.data_id, g.data_points)) dpgs))
        else [] in
      let groups = map message_group (gather [] (map (key_of u.rev_data_id_aliases) dpgs)) in
      let sequence_number = wrapping_add u.last_issued_sequence_number 1 in
      (
        some (
          record {
            stream_id_alias = u.stream_id_alias;
            stream_chunk =
                some (record { sequence_number = sequence_number; data_point_groups = groups });
            data_ids = [];
            extension_fields = none;
          },
          dpg_callback,
        ),
        record emptied {
          last_issued_sequence_number = sequence_number;
          data_size = (u.data_size + groups_size dpgs) % u64_mod;
          total_data_points = (u.total_data_points + count_points dpgs) % u64_mod;
        },
      )

-- `take_chunk`, then `add_chunk`: `process_remaining_data_points`, and the start of `flush`. `none`
-- would be the panic of `add_chunk`.
unfoldable pub store_taken :
    Option (Msg.UpstreamChunk × List DataPointGroup)
    → Upstream
    → Option (Option Msg.UpstreamChunk × Upstream)
store_taken none u = some (none, u)
store_taken (some (chunk, dpg)) u = elim (Storage.add_chunk u.storage chunk dpg) [
  | none ↦ none
  | some storage ↦ some (some chunk, record u { storage = storage })
]

unfoldable pub store_chunk : Upstream → Option (Option Msg.UpstreamChunk × Upstream)
store_chunk u = let (taken, u') = take_chunk u in store_taken taken u'

-- `flush`: the chunks that it gives to the connection, if there is one.
unfoldable pub flush : Upstream → Bool → Option (List Msg.UpstreamChunk × Upstream)
flush u has_conn = elim (store_chunk u) [
  | none ↦ none
  | some (none, u') ↦ some ([], u')
  | some (some chunk, u') ↦ some (if has_conn then chunk ∷ [] else [], u')
]

unfoldable pub process_ack : Upstream → Msg.UpstreamChunkAck → Upstream
process_ack u ack = record u { storage = Storage.process_ack u.storage ack }

-- `after_resume`: the chunks that it sends again, up to the first error of the connection.
unfoldable pub after_resume : Upstream → Option (List Msg.UpstreamChunk × Upstream)
after_resume u =
    if qos_beq u.config.qos reliable
    then some (Storage.iter_chunks u.storage, u)
    else elim (store_chunk u) [ none ↦ none | some (chunk, u') ↦ some ([], u') ]
