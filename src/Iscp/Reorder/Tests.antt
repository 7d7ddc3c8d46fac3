-- ===== src/Iscp/Reorder/Tests.antt =====
-- Runs of the reorderer at concrete chunks, and the laws at them.
use mathlib.Core.List.{Perm}
use iscp_rs.Base.{
  ℕ, ◌≡◌, ◌≢◌, ◌↔◌, refl, true, Option, none, some, List, [], ◌∷◌, arith, get, insert, nat_eq,
  length, map, remove,
}
use iscp_rs.Base.BTree
use iscp_rs.Base.BTree.{values}
use iscp_rs.Message.Types.{Uuid, reliable}
use iscp_rs.Iscp.Types.{
  DownstreamChunk, DownstreamConfig, default_downstream_config, strict, best_effort,
}
use iscp_rs.Iscp.Reorder.{
  Store, Reorderer, Delivery, new, register, accept, iter, take_next, pop, drain, deliver, failed,
  run,
}
use iscp_rs.Iscp.Reorder.Order.{Consecutive, Ascending}
use iscp_rs.Iscp.Reorder.Streams.{SameElse, with_entries, with_entries-Holds, with_entries-SameElse}
use iscp_rs.Iscp.Reorder.Deliver.{IsValid, Settled}
use iscp_rs.Iscp.Reorder.Laws.{
  new-IsValid, keep-IsValid, deliver-IsValid, deliver_fails_iff, deliver-perm, deliver-Ascending,
}
use iscp_rs.Iscp.Reorder.Runs.{first_number, of_stream, run-Consecutive}

-- Chunk `n` of stream `u`.
abbrev chunk : Uuid → ℕ → DownstreamChunk
chunk u n = record {
  sequence_number = n;
  data_point_groups = [];
  upstream = record { session_id = "s"; stream_id = u; source_node_id = "n" };
}

abbrev config : DownstreamConfig
config = record default_downstream_config {
  qos = reliable;
  reordering = strict;
  reordering_chunks = 2;
}

abbrev lax : DownstreamConfig
lax = record config { reordering = best_effort }

abbrev arrivals : List DownstreamChunk
arrivals = chunk 7 5 ∷ chunk 7 7 ∷ chunk 9 1 ∷ chunk 7 6 ∷ chunk 9 2 ∷ []

numbers : Option (List DownstreamChunk × Option Uuid × Reorderer) → List ℕ
numbers none = []
numbers (some (out, e, r)) = map (λ c. c.sequence_number) out

-- Chunk 7 of stream 7 waits for chunk 6.
run_reorders : numbers (run 4 (new config) arrivals) ≡ 5 ∷ 1 ∷ 6 ∷ 7 ∷ 2 ∷ []
unfolding numbers run deliver iter register accept drain pop take_next new get insert remove
    BTree.insert
run_reorders = refl

-- A best-effort reorderer gives up on a gap once its limit is reached.
run_gives_up : numbers (run 4 (new lax) (chunk 7 5 ∷ chunk 7 8 ∷ chunk 7 9 ∷ [])) ≡ 5 ∷ 8 ∷ 9 ∷ []
unfolding numbers run deliver iter register accept drain pop take_next new get insert remove
    BTree.insert
run_gives_up = refl

run-Consecutive_example :
    (out : List DownstreamChunk) × (error : Option Uuid) × (last : Reorderer) × (run 4
        (new config)
        arrivals
      ≡ some (out, error, last))
    × Consecutive (first_number 7 arrivals) (of_stream 7 out)
run-Consecutive_example = run-Consecutive 4 config arrivals 7 refl refl (omega arith)

deliver-IsValid_example :
    (d : Delivery) × (r' : Reorderer) × (deliver 4 (new config) (chunk 7 5) ≡ some (d, r'))
    × IsValid r'
    × SameElse (new config) r' 7
unfolding new
deliver-IsValid_example =
    deliver-IsValid 4 (new config) (chunk 7 5) (new-IsValid config) refl (omega arith)

-- Stream 7 waits for number 6, with 7 and 8 stored: a strict store at its limit.
abbrev stored : Store
stored = (7, chunk 7 7) ∷ (8, chunk 7 8) ∷ []

abbrev waiting : Reorderer
waiting = with_entries (new config) 7 6 stored

waiting-Settled : Settled 7 waiting.limit 6 stored
unfolding new get
waiting-Settled = record {
  stored = ((((omega arith), tt), (tt, tt)), (refl, (refl, tt)));
  missing = refl;
  room = omega arith;
  own = (refl, (refl, tt));
}

waiting-IsValid : IsValid waiting
waiting-IsValid =
    keep-IsValid (new config) waiting 7 6 stored (new-IsValid config)
      (with_entries-SameElse (new config) 7 6 stored) (with_entries-Holds (new config) 7 6 stored)
      waiting-Settled

deliver_fails_iff_example :
    ((r' : Reorderer) × (deliver 4 waiting (chunk 7 9) ≡ some (failed 7, r'))) ↔ (
      (waiting.is_strict ≡ true)
      × (length stored ≡ waiting.limit)
      × (6 ≢ (chunk 7 9).sequence_number))
unfolding new
deliver_fails_iff_example =
    deliver_fails_iff 4 waiting (chunk 7 9) 6 stored waiting-IsValid refl (omega arith)
      (with_entries-Holds (new config) 7 6 stored)

-- Chunk 6 arrives, and the three leave in order.
abbrev caught_up : Reorderer
caught_up = with_entries (new config) 7 9 []

deliver-perm_example : Perm (chunk 7 6 ∷ chunk 7 7 ∷ chunk 7 8 ∷ []) (chunk 7 6 ∷ values stored)
unfolding new deliver iter register accept drain pop take_next get insert remove BTree.insert values
deliver-perm_example =
    deliver-perm 4 waiting (chunk 7 6) 6 stored waiting-IsValid refl (omega arith)
      (with_entries-Holds (new config) 7 6 stored) (chunk 7 6 ∷ chunk 7 7 ∷ chunk 7 8 ∷ [])
      caught_up 9 [] refl refl (refl, refl)

deliver-Ascending_example : Ascending 0 (chunk 7 6 ∷ chunk 7 7 ∷ chunk 7 8 ∷ [])
unfolding new deliver iter register accept drain pop take_next get insert remove BTree.insert
deliver-Ascending_example =
    deliver-Ascending 4 waiting (chunk 7 6) 6 stored waiting-IsValid refl (omega arith)
      (with_entries-Holds (new config) 7 6 stored) (chunk 7 6 ∷ chunk 7 7 ∷ chunk 7 8 ∷ [])
      caught_up (omega arith, (omega arith, tt)) (omega arith) refl
