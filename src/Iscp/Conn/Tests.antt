-- ===== src/Iscp/Conn/Tests.antt =====
-- The laws of a connection at a concrete run.
use iscp_rs.Base.{ℕ, ◌≡◌, refl, true, false, List, [], ◌∷◌, All, nat_eq}
use iscp_rs.Errors.{err, connection_closed}
use iscp_rs.Iscp.Conn.{
  closed, closing, gone, new, check_close, Event, moved, open_checked, open_waits, open_ended,
  close_dropped, close_called, streams_ended, wire_lost, connect_returned, cancel_seen, is_in,
  take_out, check_open, stream_wait_group, end_open, drop_close, begin_close, lose, reconnect,
  see_cancel, cancel_loop, end_close, move, step, run,
}
use iscp_rs.Iscp.Conn.Closing.{IsCoherent}
use iscp_rs.Iscp.Conn.Closed.{is_free}
use iscp_rs.Iscp.Conn.Events.{IsKept, run-IsCoherent}
use iscp_rs.Iscp.Conn.Final.{closed-run, closing_run, run-closing_run}

-- The wire connection is lost and found again, then the connection is closed with a stream open.
abbrev events : List Event
events =
    moved wire_lost
    ∷ moved (connect_returned false)
    ∷ moved (connect_returned true)
    ∷ open_checked 5
    ∷ open_waits 5
    ∷ open_ended 5 true
    ∷ moved close_called
    ∷ moved streams_ended
    ∷ moved cancel_seen
    ∷ []

all-IsKept : All IsKept events
all-IsKept = (tt, (tt, (tt, (tt, (tt, (tt, (tt, (tt, (tt, tt)))))))))

run-IsCoherent_example :
    IsCoherent (run new events).1
    × ((e : Event)
        → IsKept e
        → (step (run new events).1 e).0 ≡ true
        → ((ct : ℕ) × (e ≡ open_waits ct)) × (is_free (run new events).1.permit ≡ false))
run-IsCoherent_example = run-IsCoherent events all-IsKept

closed_test : (run new events).1.state ≡ closed
unfolding run step move check_close is_in take_out check_open stream_wait_group end_open begin_close
    lose reconnect see_cancel cancel_loop end_close
closed_test = refl

abbrev after : List Event
after = moved wire_lost ∷ open_checked 6 ∷ []

closed-run_example :
    ((run (run new events).1 after).1.state ≡ closed)
    × (check_close (run (run new events).1 after).1 ≡ err connection_closed)
closed-run_example = closed-run events after all-IsKept (tt, (tt, tt)) closed_test

-- A close begins between the check of a call that opens a stream and its wait.
race_test : (run new (open_checked 5 ∷ moved close_called ∷ open_waits 5 ∷ [])).0 ≡ true
unfolding run step move check_close is_in take_out check_open stream_wait_group begin_close
race_test = refl

-- A close is given up while it waits for the loop, and another one is called.
dropped_test :
    (run new (
      moved close_called
      ∷ moved streams_ended
      ∷ moved cancel_seen
      ∷ close_dropped
      ∷ moved close_called
      ∷ [])).1.state
    ≡ closing
unfolding run step move drop_close begin_close see_cancel cancel_loop
dropped_test = refl

abbrev lost : List Event
lost = moved wire_lost ∷ []

abbrev found : List Event
found = moved (connect_returned true) ∷ []

run-closing_run_example :
    ((run (run new lost).1 (closing_run found lost [])).1.state ≡ closed)
    × ((run (run new lost).1 (closing_run found lost [])).1.permit ≡ gone)
run-closing_run_example = run-closing_run lost found lost [] (tt, tt) (tt, tt) (tt, tt) tt
