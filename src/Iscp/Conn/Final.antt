-- ===== src/Iscp/Conn/Final.antt =====
-- The end of a connection (src/iscp/mod.rs).
use iscp_rs.Base.{◌≡◌, refl, ap, ◌∙◌, true, false, List, [], ◌∷◌, ◌++◌, All}
use iscp_rs.Errors.{err, connection_closed}
use iscp_rs.Iscp.Conn.{
  closed, Permit, free, held, gone, Conn, new, check_close, Move, Event, moved, close_called,
  streams_ended, loop_ended, cancel_seen, step, run,
}
use iscp_rs.Iscp.Conn.Closing.{IsCoherent}
use iscp_rs.Iscp.Conn.Events.{IsKept, run-append, run-Kept, step-Steps}
use iscp_rs.Iscp.Conn.Closed.{
  is_free, is_returned, called-permit, ended-cancelled, seen-returned, returned-gone,
  returned-closed, returned-cancelled, closed-returned,
}

coherent : (c : Conn) (es : List Event) → All IsKept es → IsCoherent c → IsCoherent (run c es).1
coherent c es k h = (run-Kept c es k h).0

moves-Kept : (c : Conn) (m : Move) → IsCoherent c → IsCoherent (step c (moved m)).1
moves-Kept c m h = (step-Steps c (moved m) tt h).coherent

cancelled_refuses :
    (p : Permit) (c : Conn)
    → c.is_cancelled ≡ true
    → check_close (record c { permit = p }) ≡ err connection_closed
unfolding check_close
cancelled_refuses free c e = rw (e, check_close) refl
cancelled_refuses held c e = refl
cancelled_refuses gone c e = rw (e, check_close) refl

-- As long as no call of `close` is given up before it returns, a connection that is closed stays closed
-- whatever else happens, and no call that opens a stream passes its check any more.
pub closed-run :
    (es fs : List Event)
    → All IsKept es
    → All IsKept fs
    → (run new es).1.state ≡ closed
    → ((run (run new es).1 fs).1.state ≡ closed)
      × (check_close (run (run new es).1 fs).1 ≡ err connection_closed)
closed-run es fs k k' h =
    let c = (run new es).1 in
    let now : IsCoherent c = coherent new es k tt in
    let d = (run c fs).1 in
    let later : IsCoherent d = coherent c fs k' now in
    let r : is_returned c.loop ≡ true =
      closed-returned c c.permit c.loop c.state c.is_cancelled c.has_waiter now h in
    let r' : is_returned d.loop ≡ true = (run-Kept c fs k' now).1.2 r in
    (
      returned-closed d d.permit d.loop d.state d.is_cancelled d.has_waiter later r',
      cancelled_refuses d.permit d
          (returned-cancelled d d.permit d.loop d.state d.is_cancelled d.has_waiter later r'),
    )

-- The run of a call of `close`, with whatever else happens between its waits.
abbrev pub closing_run : List Event → List Event → List Event → List Event
closing_run a b d =
    moved close_called
    ∷ (a ++ moved streams_ended ∷ (b ++ moved cancel_seen ∷ (d ++ moved loop_ended ∷ [])))

-- As long as no call of `close` is given up: behind any events, a call of `close`, whose streams end, whose cancellation the loop sees and whose wait
-- for the loop ends, in that order and with any other events between, leaves the connection closed
-- and the semaphore closed.
pub run-closing_run :
    (es a b d : List Event)
    → All IsKept es
    → All IsKept a
    → All IsKept b
    → All IsKept d
    → ((run (run new es).1 (closing_run a b d)).1.state ≡ closed)
      × ((run (run new es).1 (closing_run a b d)).1.permit ≡ gone)
unfolding run step
run-closing_run es a b d ke ka kb kd =
    let c0 = (run new es).1 in
    let h0 : IsCoherent c0 = coherent new es ke tt in
    let c1 = (step c0 (moved close_called)).1 in
    let h1 : IsCoherent c1 = moves-Kept c0 close_called h0 in
    let c2 = (run c1 a).1 in
    let h2 : IsCoherent c2 = coherent c1 a ka h1 in
    let c3 = (step c2 (moved streams_ended)).1 in
    let h3 : IsCoherent c3 = moves-Kept c2 streams_ended h2 in
    let c4 = (run c3 b).1 in
    let h4 : IsCoherent c4 = coherent c3 b kb h3 in
    let c5 = (step c4 (moved cancel_seen)).1 in
    let h5 : IsCoherent c5 = moves-Kept c4 cancel_seen h4 in
    let c6 = (run c5 d).1 in
    let h6 : IsCoherent c6 = coherent c5 d kd h5 in
    let c7 = (step c6 (moved loop_ended)).1 in
    let h7 : IsCoherent c7 = moves-Kept c6 loop_ended h6 in
    let called : is_free c2.permit ≡ false =
      (run-Kept c1 a ka h1).1.0
        (called-permit c0 c0.permit c0.loop c0.state c0.is_cancelled c0.has_waiter h0) in
    let cancelled : c4.is_cancelled ≡ true =
      (run-Kept c3 b kb h3).1.1
        (ended-cancelled c2 c2.permit c2.loop c2.state c2.is_cancelled c2.has_waiter h2 called) in
    let ended : is_returned c6.loop ≡ true =
      (run-Kept c5 d kd h5).1.2
        (seen-returned c4 c4.permit c4.loop c4.state c4.is_cancelled c4.has_waiter h4 cancelled) in
    let still : is_returned c7.loop ≡ true =
      (step-Steps c6 (moved loop_ended) tt h6).grows.2 ended in
    let last = moved loop_ended ∷ [] in
    let whole : (run c0 (closing_run a b d)).1 ≡ c7 =
      run-append c1 a (moved streams_ended ∷ (b ++ moved cancel_seen ∷ (d ++ last)))
      ∙ (run-append c3 b (moved cancel_seen ∷ (d ++ last)) ∙ run-append c5 d last) in
    (
      ap (λ c. c.state) whole
          ∙ returned-closed c7 c7.permit c7.loop c7.state c7.is_cancelled c7.has_waiter h7 still,
      ap (λ c. c.permit) whole
          ∙ returned-gone c6 c6.permit c6.loop c6.state c6.is_cancelled c6.has_waiter h6 ended,
    )
