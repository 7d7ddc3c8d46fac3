-- ===== src/Iscp/DownClose/Tests.antt =====
-- Waits at concrete acknowledgements.
use iscp_rs.Base.{ℕ, ◌≡◌, ◌↔◌, refl, Option, none, some, [], ◌∷◌, ◌⊎◌, ◌≤◌}
use iscp_rs.Base.Int.{pos}
use iscp_rs.Message.Chunks.{DownstreamChunkAckComplete}
use iscp_rs.Iscp.DownState.{check_chunk_ack_complete}
use iscp_rs.Iscp.DownClose.{
  completed, another, senders_gone, all_complete, channel_closed, is_complete, wait_complete,
}
use iscp_rs.Iscp.DownClose.Complete.{highest, wait_complete_iff}

abbrev complete : ℕ → DownstreamChunkAckComplete
complete n = record {
  stream_id_alias = 1;
  ack_id = n;
  result_code = pos 0;
  result_string = "OK";
  extension_fields = none;
}

abbrev issued : Option ℕ
issued = some 3

wait_complete_iff_example :
    (wait_complete issued 1 (completed (complete 2) ∷ another ∷ completed (complete 3) ∷ [])
      ≡ all_complete)
    ↔ ((issued ≡ none)
        ⊎ ((n : ℕ) × (issued ≡ some n)
            × (n ≤ highest 1 (completed (complete 2) ∷ another ∷ completed (complete 3) ∷ []))))
wait_complete_iff_example =
    wait_complete_iff issued 1 (completed (complete 2) ∷ another ∷ completed (complete 3) ∷ [])

lost_test : wait_complete (some 3) 1 (completed (complete 2) ∷ senders_gone ∷ []) ≡ channel_closed
unfolding wait_complete is_complete check_chunk_ack_complete
lost_test = refl

-- The first acknowledgement has the id 0, which counts as complete from the start.
first_test : wait_complete (some 0) 0 [] ≡ all_complete
unfolding wait_complete is_complete
first_test = refl
