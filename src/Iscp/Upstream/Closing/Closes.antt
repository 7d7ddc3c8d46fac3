-- ===== src/Iscp/Upstream/Closing/Closes.antt =====
-- How an upstream closes: its wait for the last acknowledgement, and the close request.
use iscp_rs.Base.{none, some, ℕ, ◌%◌, ◌≡◌, ◌⊎◌, List, ◌++◌, nat_eq, u64_mod}
use iscp_rs.Message.Streams.{UpstreamCloseRequest}
use iscp_rs.Iscp.Upstream.{Upstream}
use iscp_rs.Iscp.Upstream.Closing.{waiting, closed, FlushLoop, Event}
use iscp_rs.Iscp.Upstream.Closing.Counted.{Counted}
use iscp_rs.Iscp.Storage as Storage
use iscp_rs.Iscp.Upstream.Closing.Heard.{numbers, highest, Heard}

-- The loop has closed the stream, with a request that counts `n` data points.
pub record ClosedWith (n : ℕ) (l : FlushLoop) : Type 0 where
  pub request : UpstreamCloseRequest
  pub is_closed : l.phase ≡ closed request
  pub total : request.total_data_points ≡ n % u64_mod
  pub final : request.final_sequence_number ≡ l.upstream.last_issued_sequence_number

-- The last chunk, if there is one, is the highest that was acknowledged.
abbrev pub IsAnswered : ℕ → List Event → Type 0
IsAnswered n es = (n ≡ 0) ⊎ (highest none (numbers es) ≡ some n)

-- Whether the wait of a loop is over, behind the events `es`.
abbrev pub Settled : List Event → FlushLoop → Type 0
Settled es l =
    ((req : UpstreamCloseRequest) × (l.phase ≡ closed req)
      × ((before : List Event) × (after : List Event) × (es ≡ before ++ after)
          × IsAnswered l.upstream.last_issued_sequence_number before))
    ⊎ ((k : ℕ) × (l.phase ≡ waiting k) × (IsAnswered l.upstream.last_issued_sequence_number es → ⊥))
