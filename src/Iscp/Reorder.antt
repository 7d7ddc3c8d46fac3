-- ===== src/Iscp/Reorder.antt =====
-- src/iscp/down_order.rs: `DownReorderer`, which puts the chunks of each upstream back in the
-- order of their sequence numbers. `none` stands for the panic of an `unwrap`.
pub mod Slot
pub mod Order
pub mod Streams
pub mod Deliver
pub mod Laws
pub mod Runs
mod Tests
use iscp_rs.Base.{
  ℕ, zero, suc, ◌+◌, ◌≡◌, Bool, true, false, not, ◌&&◌, Option, none, some, List, [], ◌∷◌, ◌++◌,
  if◌then◌else◌, leb, ◌==◌, nat_eq, Map, get, insert, remove, length, wrapping_add, is_some, Eq,
}
use iscp_rs.Base.BTree
use iscp_rs.Message.Types.{Uuid, qos_beq, reliable}
use iscp_rs.Iscp.Types.{DownstreamConfig, DownstreamChunk, off, strict, reordering_beq}

abbrev pub Store : Type 0
Store = Map ℕ DownstreamChunk

pub record Reorderer : Type 0 where
  pub enabled : Bool
  pub is_strict : Bool
  pub limit : ℕ
  pub next : Map Uuid ℕ
  pub store : Map Uuid Store

unfoldable pub new : DownstreamConfig → Reorderer
new config = record {
  enabled = qos_beq config.qos reliable && not (reordering_beq config.reordering off);
  is_strict = reordering_beq config.reordering strict;
  limit = config.reordering_chunks;
  next = [];
  store = [];
}

pub data Iter : Type 0 where
  not_reordered : DownstreamChunk → Iter
  reordered : Uuid → Iter

-- `iter` returns the iterator, or `Error::Reordering` with the stream.
pub data IterResult : Type 0 where
  ok : Iter → IterResult
  reordering_error : Uuid → IterResult

-- The `Vacant` entry: the first chunk of a stream says which number comes next.
unfoldable pub register : Reorderer → DownstreamChunk → Reorderer
register r chunk =
    let stream_uuid = chunk.upstream.stream_id in
    if is_some (get stream_uuid r.next) then r else record r {
      next = insert stream_uuid chunk.sequence_number r.next;
      store = insert stream_uuid [] r.store;
    }

-- The guard of a strict reorderer, then the insertion.
unfoldable pub accept : Reorderer → DownstreamChunk → Option (IterResult × Reorderer)
accept r chunk =
    let stream_uuid = chunk.upstream.stream_id in
    elim (get stream_uuid r.store) [
      | none ↦ none
      | some chunks ↦ elim (get stream_uuid r.next) [
        | none ↦ none
        | some next ↦
            if r.is_strict && leb r.limit (length chunks) && not (next == chunk.sequence_number)
            then some (reordering_error stream_uuid, r)
            else some (
              ok (reordered stream_uuid),
              record r {
                store =
                    insert stream_uuid (BTree.insert chunk.sequence_number chunk chunks) r.store;
              },
            )
      ]
    ]

unfoldable pub iter : Reorderer → DownstreamChunk → Option (IterResult × Reorderer)
iter r chunk =
    if r.enabled then accept (register r chunk) chunk else some (ok (not_reordered chunk), r)

-- The body of `pop` over the two entries of the stream: the chunk that is taken out, if any, and
-- the entries.
unfoldable pub take_next : Bool → ℕ → ℕ → Store → Option DownstreamChunk × ℕ × Store
take_next in_order limit next [] = (none, next, [])
take_next in_order limit next ((n, chunk) ∷ rest) =
    if not in_order && leb limit (length ((n, chunk) ∷ rest))
    then (some chunk, wrapping_add n 1, rest)
    else elim (get next ((n, chunk) ∷ rest)) [
      | some found ↦ (some found, wrapping_add next 1, remove next ((n, chunk) ∷ rest))
      | none ↦ (none, next, (n, chunk) ∷ rest)
    ]

unfoldable pub pop : Reorderer → Uuid → Option (Option DownstreamChunk × Reorderer)
pop r stream_uuid = elim (get stream_uuid r.store) [
  | none ↦ none
  | some store ↦ elim (get stream_uuid r.next) [
    | none ↦ none
    | some next ↦
        let (chunk, next', store') = take_next r.is_strict r.limit next store in
        some (
          chunk,
          record r {
            next = insert stream_uuid next' r.next;
            store = insert stream_uuid store' r.store;
          },
        )
  ]
]

-- `for chunk in reorderer.iter(..)`: `pop` until it returns `None`, with fuel. `none` also stands
-- for fuel that ran out.
unfoldable pub drain : ℕ → Reorderer → Uuid → Option (List DownstreamChunk × Reorderer)
drain zero r stream_uuid = none
drain (suc fuel) r stream_uuid = elim (pop r stream_uuid) [
  | none ↦ none
  | some (none, r') ↦ some ([], r')
  | some (some chunk, r') ↦ elim (drain fuel r' stream_uuid) [
    | none ↦ none
    | some (chunks, r'') ↦ some (chunk ∷ chunks, r'')
  ]
]

pub data Delivery : Type 0 where
  delivered : List DownstreamChunk → Delivery
  failed : Uuid → Delivery

-- The loop of `downstream_loop` over one arriving chunk: what is handed to the reader.
unfoldable pub deliver : ℕ → Reorderer → DownstreamChunk → Option (Delivery × Reorderer)
deliver fuel r chunk = elim (iter r chunk) [
  | none ↦ none
  | some (reordering_error u, r') ↦ some (failed u, r')
  | some (ok (not_reordered c), r') ↦ some (delivered (c ∷ []), r')
  | some (ok (reordered u), r') ↦ elim (drain fuel r' u) [
    | none ↦ none
    | some (chunks, r'') ↦ some (delivered chunks, r'')
  ]
]

-- The arrivals of a downstream in turn: the chunks handed to the reader, the stream whose
-- `Error::Reordering` ended the loop, if one did, and the last state.
unfoldable pub run :
    ℕ → Reorderer → List DownstreamChunk → Option (List DownstreamChunk × Option Uuid × Reorderer)
run fuel r [] = some ([], none, r)
run fuel r (c ∷ cs) = elim (deliver fuel r c) [
  | none ↦ none
  | some (failed u, r') ↦ some ([], some u, r')
  | some (delivered out, r') ↦ elim (run fuel r' cs) [
    | none ↦ none
    | some (rest, e, r'') ↦ some (out ++ rest, e, r'')
  ]
]
