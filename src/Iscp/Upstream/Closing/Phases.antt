-- ===== src/Iscp/Upstream/Closing/Phases.antt =====
-- To show a property of what the loop does next, show it of each way the loop can take.
use iscp_rs.Base.{ℕ, Bool, true, false, if◌then◌else◌, nat_eq, ◌==◌}
use iscp_rs.Iscp.Upstream.Closing.{
  waiting, FlushLoop, send_close, wait_for_ack, begin_close, has_received,
}

choose : {A : Type 0} (b : Bool) (x y : A) (P : A → Type 0) → P x → P y → P (if b then x else y)
choose true x y P p q = p
choose false x y P p q = q

-- The loop waits on for the acknowledgement of a number, or closes.
pub waiting_cases :
    (l : FlushLoop) (n : ℕ) (P : FlushLoop → Type 0)
    → P (send_close l)
    → P (record l { phase = waiting n })
    → P (wait_for_ack l n)
unfolding wait_for_ack
waiting_cases l n P p q =
    choose (has_received l.upstream.storage.last_received_sequence_number n) (send_close l)
      (record l { phase = waiting n }) P p q

pub closing_cases :
    (l : FlushLoop) (P : FlushLoop → Type 0)
    → P (send_close l)
    → P (record l { phase = waiting l.upstream.last_issued_sequence_number })
    → P (begin_close l)
unfolding begin_close
closing_cases l P p q =
    let n = l.upstream.last_issued_sequence_number in
    choose (n == 0) (send_close l) (wait_for_ack l n) P p (waiting_cases l n P p q)
