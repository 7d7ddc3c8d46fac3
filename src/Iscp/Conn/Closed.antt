-- ===== src/Iscp/Conn/Closed.antt =====
-- What `close` comes to (src/iscp/mod.rs).
use iscp_rs.Base.{ℕ, ◌≡◌, Bool, true, false, List}
use iscp_rs.Iscp.Conn.{
  ConnectionState, connected, reconnecting, closing, closed, Loop, watching, retrying, returned,
  Permit, free, held, gone, Conn, begin_close, lose, reconnect, see_cancel, cancel_loop, end_close,
  Move, close_called, streams_ended, loop_ended, connect_returned, cancel_seen, move,
}
use iscp_rs.Iscp.Conn.Closing.{Coherent}

abbrev pub is_free : Permit → Bool
is_free free = true
is_free _ = false

abbrev pub is_returned : Loop → Bool
is_returned returned = true
is_returned _ = false

-- What no event takes back: a call of `close`, the cancellation and the end of the loop.
abbrev pub Grows : Conn → Conn → Type 0
Grows c c' =
    (is_free c.permit ≡ false → is_free c'.permit ≡ false)
    × (c.is_cancelled ≡ true → c'.is_cancelled ≡ true)
    × (is_returned c.loop ≡ true → is_returned c'.loop ≡ true)

pub stands-Grows :
    (c : Conn) (p : Permit) (l : Loop) (s : ConnectionState) (x w : Bool) (ts : List ℕ) (e : Move)
    → Coherent p l s x w
    → let d = record c {
      permit = p;
      loop = l;
      state = s;
      is_cancelled = x;
      has_waiter = w;
      stream_ct = ts;
    } in
      Grows d (move d e).1
unfolding move begin_close lose reconnect see_cancel cancel_loop end_close
stands-Grows c free watching connected false true ts (connect_returned true) h =
    (λ z. cc, λ z. cc, λ z. cc)
stands-Grows c free watching connected false true ts _ h = (λ z. cc, λ z. cc, λ z. cc)
stands-Grows c free retrying reconnecting false true ts (connect_returned true) h =
    (λ z. cc, λ z. cc, λ z. cc)
stands-Grows c free retrying reconnecting false true ts _ h = (λ z. cc, λ z. cc, λ z. cc)
stands-Grows c held watching connected true false ts (connect_returned true) h =
    (λ z. cc, λ z. cc, λ z. cc)
stands-Grows c held watching connected true false ts _ h = (λ z. cc, λ z. cc, λ z. cc)
stands-Grows c held watching connected false false ts (connect_returned true) h =
    (λ z. cc, λ z. cc, λ z. cc)
stands-Grows c held watching connected false false ts _ h = (λ z. cc, λ z. cc, λ z. cc)
stands-Grows c held watching closing true false ts (connect_returned true) h =
    (λ z. cc, λ z. cc, λ z. cc)
stands-Grows c held watching closing true false ts _ h = (λ z. cc, λ z. cc, λ z. cc)
stands-Grows c held watching closing false false ts (connect_returned true) h =
    (λ z. cc, λ z. cc, λ z. cc)
stands-Grows c held watching closing false false ts _ h = (λ z. cc, λ z. cc, λ z. cc)
stands-Grows c held retrying reconnecting true false ts (connect_returned true) h =
    (λ z. cc, λ z. cc, λ z. cc)
stands-Grows c held retrying reconnecting true false ts _ h = (λ z. cc, λ z. cc, λ z. cc)
stands-Grows c held retrying reconnecting false false ts (connect_returned true) h =
    (λ z. cc, λ z. cc, λ z. cc)
stands-Grows c held retrying reconnecting false false ts _ h = (λ z. cc, λ z. cc, λ z. cc)
stands-Grows c held retrying closing true false ts (connect_returned true) h =
    (λ z. cc, λ z. cc, λ z. cc)
stands-Grows c held retrying closing true false ts _ h = (λ z. cc, λ z. cc, λ z. cc)
stands-Grows c held retrying closing false false ts (connect_returned true) h =
    (λ z. cc, λ z. cc, λ z. cc)
stands-Grows c held retrying closing false false ts _ h = (λ z. cc, λ z. cc, λ z. cc)
stands-Grows c held returned closed true false ts (connect_returned true) h =
    (λ z. cc, λ z. cc, λ z. cc)
stands-Grows c held returned closed true false ts _ h = (λ z. cc, λ z. cc, λ z. cc)
stands-Grows c gone returned closed true false ts (connect_returned true) h =
    (λ z. cc, λ z. cc, λ z. cc)
stands-Grows c gone returned closed true false ts _ h = (λ z. cc, λ z. cc, λ z. cc)
stands-Grows c _ _ _ _ _ ts e h = absurd h

pub called-permit :
    (c : Conn) (p : Permit) (l : Loop) (s : ConnectionState) (x w : Bool)
    → Coherent p l s x w
    → is_free
        (move
          (record c { permit = p; loop = l; state = s; is_cancelled = x; has_waiter = w })
          close_called).1.permit
      ≡ false
unfolding move begin_close see_cancel cancel_loop end_close
called-permit c free watching connected false true h = cc
called-permit c free retrying reconnecting false true h = cc
called-permit c held watching connected true false h = cc
called-permit c held watching connected false false h = cc
called-permit c held watching closing true false h = cc
called-permit c held watching closing false false h = cc
called-permit c held retrying reconnecting true false h = cc
called-permit c held retrying reconnecting false false h = cc
called-permit c held retrying closing true false h = cc
called-permit c held retrying closing false false h = cc
called-permit c held returned closed true false h = cc
called-permit c gone returned closed true false h = cc
called-permit c _ _ _ _ _ h = absurd h

pub ended-cancelled :
    (c : Conn) (p : Permit) (l : Loop) (s : ConnectionState) (x w : Bool)
    → Coherent p l s x w
    → is_free p ≡ false
    → (move
        (record c { permit = p; loop = l; state = s; is_cancelled = x; has_waiter = w })
        streams_ended).1.is_cancelled
      ≡ true
unfolding move begin_close see_cancel cancel_loop end_close
ended-cancelled c free watching connected false true h z = cc
ended-cancelled c free retrying reconnecting false true h z = cc
ended-cancelled c held watching connected true false h z = cc
ended-cancelled c held watching connected false false h z = cc
ended-cancelled c held watching closing true false h z = cc
ended-cancelled c held watching closing false false h z = cc
ended-cancelled c held retrying reconnecting true false h z = cc
ended-cancelled c held retrying reconnecting false false h z = cc
ended-cancelled c held retrying closing true false h z = cc
ended-cancelled c held retrying closing false false h z = cc
ended-cancelled c held returned closed true false h z = cc
ended-cancelled c gone returned closed true false h z = cc
ended-cancelled c _ _ _ _ _ h z = absurd h

pub seen-returned :
    (c : Conn) (p : Permit) (l : Loop) (s : ConnectionState) (x w : Bool)
    → Coherent p l s x w
    → x ≡ true
    → is_returned
        (move
          (record c { permit = p; loop = l; state = s; is_cancelled = x; has_waiter = w })
          cancel_seen).1.loop
      ≡ true
unfolding move begin_close see_cancel cancel_loop end_close
seen-returned c free watching connected false true h z = cc
seen-returned c free retrying reconnecting false true h z = cc
seen-returned c held watching connected true false h z = cc
seen-returned c held watching connected false false h z = cc
seen-returned c held watching closing true false h z = cc
seen-returned c held watching closing false false h z = cc
seen-returned c held retrying reconnecting true false h z = cc
seen-returned c held retrying reconnecting false false h z = cc
seen-returned c held retrying closing true false h z = cc
seen-returned c held retrying closing false false h z = cc
seen-returned c held returned closed true false h z = cc
seen-returned c gone returned closed true false h z = cc
seen-returned c _ _ _ _ _ h z = absurd h

pub returned-gone :
    (c : Conn) (p : Permit) (l : Loop) (s : ConnectionState) (x w : Bool)
    → Coherent p l s x w
    → is_returned l ≡ true
    → (move
        (record c { permit = p; loop = l; state = s; is_cancelled = x; has_waiter = w })
        loop_ended).1.permit
      ≡ gone
unfolding move begin_close see_cancel cancel_loop end_close
returned-gone c free watching connected false true h z = cc
returned-gone c free retrying reconnecting false true h z = cc
returned-gone c held watching connected true false h z = cc
returned-gone c held watching connected false false h z = cc
returned-gone c held watching closing true false h z = cc
returned-gone c held watching closing false false h z = cc
returned-gone c held retrying reconnecting true false h z = cc
returned-gone c held retrying reconnecting false false h z = cc
returned-gone c held retrying closing true false h z = cc
returned-gone c held retrying closing false false h z = cc
returned-gone c held returned closed true false h z = cc
returned-gone c gone returned closed true false h z = cc
returned-gone c _ _ _ _ _ h z = absurd h

pub returned-closed :
    (c : Conn) (p : Permit) (l : Loop) (s : ConnectionState) (x w : Bool)
    → Coherent p l s x w
    → is_returned l ≡ true
    → s ≡ closed
returned-closed c free watching connected false true h z = cc
returned-closed c free retrying reconnecting false true h z = cc
returned-closed c held watching connected true false h z = cc
returned-closed c held watching connected false false h z = cc
returned-closed c held watching closing true false h z = cc
returned-closed c held watching closing false false h z = cc
returned-closed c held retrying reconnecting true false h z = cc
returned-closed c held retrying reconnecting false false h z = cc
returned-closed c held retrying closing true false h z = cc
returned-closed c held retrying closing false false h z = cc
returned-closed c held returned closed true false h z = cc
returned-closed c gone returned closed true false h z = cc
returned-closed c _ _ _ _ _ h z = absurd h

pub returned-cancelled :
    (c : Conn) (p : Permit) (l : Loop) (s : ConnectionState) (x w : Bool)
    → Coherent p l s x w
    → is_returned l ≡ true
    → x ≡ true
returned-cancelled c free watching connected false true h z = cc
returned-cancelled c free retrying reconnecting false true h z = cc
returned-cancelled c held watching connected true false h z = cc
returned-cancelled c held watching connected false false h z = cc
returned-cancelled c held watching closing true false h z = cc
returned-cancelled c held watching closing false false h z = cc
returned-cancelled c held retrying reconnecting true false h z = cc
returned-cancelled c held retrying reconnecting false false h z = cc
returned-cancelled c held retrying closing true false h z = cc
returned-cancelled c held retrying closing false false h z = cc
returned-cancelled c held returned closed true false h z = cc
returned-cancelled c gone returned closed true false h z = cc
returned-cancelled c _ _ _ _ _ h z = absurd h

pub closed-returned :
    (c : Conn) (p : Permit) (l : Loop) (s : ConnectionState) (x w : Bool)
    → Coherent p l s x w
    → s ≡ closed
    → is_returned l ≡ true
closed-returned c free watching connected false true h z = cc
closed-returned c free retrying reconnecting false true h z = cc
closed-returned c held watching connected true false h z = cc
closed-returned c held watching connected false false h z = cc
closed-returned c held watching closing true false h z = cc
closed-returned c held watching closing false false h z = cc
closed-returned c held retrying reconnecting true false h z = cc
closed-returned c held retrying reconnecting false false h z = cc
closed-returned c held retrying closing true false h z = cc
closed-returned c held retrying closing false false h z = cc
closed-returned c held returned closed true false h z = cc
closed-returned c gone returned closed true false h z = cc
closed-returned c _ _ _ _ _ h z = absurd h
