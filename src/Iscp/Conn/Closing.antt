-- ===== src/Iscp/Conn/Closing.antt =====
-- How the state of a connection stands (src/iscp/mod.rs).
use iscp_rs.Base.{ℕ, ◌≡◌, refl, Bool, true, false, List}
use iscp_rs.Iscp.Conn.{
  ConnectionState, connected, reconnecting, closing, closed, Loop, watching, retrying, returned,
  Permit, free, held, gone, Conn, begin_close, lose, reconnect, see_cancel, cancel_loop, end_close,
  Move, connect_returned, move,
}

-- How the loop, the state and the cancellation may stand, by the permit.
abbrev pub Coherent : Permit → Loop → ConnectionState → Bool → Bool → Type 0
Coherent free watching connected false true = Unit {0}
Coherent free retrying reconnecting false true = Unit {0}
Coherent held watching connected cancelled false = Unit {0}
Coherent held watching closing cancelled false = Unit {0}
Coherent held retrying reconnecting cancelled false = Unit {0}
Coherent held retrying closing cancelled false = Unit {0}
Coherent held returned closed true false = Unit {0}
Coherent gone returned closed true false = Unit {0}
Coherent _ _ _ _ _ = ⊥

abbrev pub IsCoherent : Conn → Type 0
IsCoherent c = Coherent c.permit c.loop c.state c.is_cancelled c.has_waiter

pub stands-move :
    (c : Conn) (p : Permit) (l : Loop) (s : ConnectionState) (x w : Bool) (ts : List ℕ) (e : Move)
    → Coherent p l s x w
    → let r =
        move
          (record c {
            permit = p;
            loop = l;
            state = s;
            is_cancelled = x;
            has_waiter = w;
            stream_ct = ts;
          })
          e in
      (r.0 ≡ false) × IsCoherent r.1
unfolding move begin_close lose reconnect see_cancel cancel_loop end_close
stands-move c free watching connected false true ts (connect_returned true) h = (refl, tt)
stands-move c free watching connected false true ts _ h = (refl, tt)
stands-move c free retrying reconnecting false true ts (connect_returned true) h = (refl, tt)
stands-move c free retrying reconnecting false true ts _ h = (refl, tt)
stands-move c held watching connected true false ts (connect_returned true) h = (refl, tt)
stands-move c held watching connected true false ts _ h = (refl, tt)
stands-move c held watching connected false false ts (connect_returned true) h = (refl, tt)
stands-move c held watching connected false false ts _ h = (refl, tt)
stands-move c held watching closing true false ts (connect_returned true) h = (refl, tt)
stands-move c held watching closing true false ts _ h = (refl, tt)
stands-move c held watching closing false false ts (connect_returned true) h = (refl, tt)
stands-move c held watching closing false false ts _ h = (refl, tt)
stands-move c held retrying reconnecting true false ts (connect_returned true) h = (refl, tt)
stands-move c held retrying reconnecting true false ts _ h = (refl, tt)
stands-move c held retrying reconnecting false false ts (connect_returned true) h = (refl, tt)
stands-move c held retrying reconnecting false false ts _ h = (refl, tt)
stands-move c held retrying closing true false ts (connect_returned true) h = (refl, tt)
stands-move c held retrying closing true false ts _ h = (refl, tt)
stands-move c held retrying closing false false ts (connect_returned true) h = (refl, tt)
stands-move c held retrying closing false false ts _ h = (refl, tt)
stands-move c held returned closed true false ts (connect_returned true) h = (refl, tt)
stands-move c held returned closed true false ts _ h = (refl, tt)
stands-move c gone returned closed true false ts (connect_returned true) h = (refl, tt)
stands-move c gone returned closed true false ts _ h = (refl, tt)
stands-move c _ _ _ _ _ ts e h = absurd h
