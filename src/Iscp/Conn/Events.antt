-- ===== src/Iscp/Conn/Events.antt =====
-- The life of a connection (src/iscp/mod.rs).
use iscp_rs.Base.{
  ℕ, ◌≡◌, refl, sym, ◌∙◌, Bool, true, false, List, [], ◌∷◌, ◌++◌, All, if◌then◌else◌, false-true,
  not, ◌||◌, Bool-cases, inl, inr, subst,
}
use iscp_rs.Errors.{Outcome, ok, err, panic, connection_closed}
use iscp_rs.Iscp.Conn.{
  ConnectionState, connected, reconnecting, Loop, watching, retrying, Conn, new, check_close, is_in,
  take_out, check_open, stream_wait_group, end_open, Permit, free, held, gone, has_permit, Event,
  moved, open_checked, open_waits, open_ended, close_dropped, is_panic, step, run,
}
use iscp_rs.Iscp.Conn.Closing.{Coherent, IsCoherent, stands-move}
use iscp_rs.Iscp.Conn.Closed.{is_free, Grows, stands-Grows}

-- No call of `close` is given up before it returns.
abbrev pub IsKept : Event → Type 0
IsKept close_dropped = ⊥
IsKept _ = Unit {0}

choose : {A : Type 0} (b : Bool) (x y : A) (P : A → Type 0) → P x → P y → P (if b then x else y)
choose true x y P p q = p
choose false x y P p q = q

-- What holds behind an event that may panic.
abbrev Behind : Conn → (Outcome (Unit {0}) × Conn) → Type 0
Behind c r = IsCoherent r.1 × Grows c r.1 × (is_panic r.0 ≡ true → is_free c.permit ≡ false)

abbrev Calm : Conn → (Outcome (Unit {0}) × Conn) → Type 0
Calm c r = IsCoherent r.1 × Grows c r.1 × (is_panic r.0 ≡ false)

same-Grows : (c : Conn) → Grows c c
same-Grows c = (λ z. z, λ z. z, λ z. z)

waiter_gone :
    (p : Permit) (l : Loop) (s : ConnectionState) (x w : Bool)
    → Coherent p l s x w
    → w ≡ false
    → is_free p ≡ false
waiter_gone held l s x w h e = refl
waiter_gone gone l s x w h e = refl
waiter_gone free watching connected false true h e = absurd (false-true (sym e))
waiter_gone free retrying reconnecting false true h e = absurd (false-true (sym e))
waiter_gone free _ _ _ _ h e = absurd h

checked-Calm :
    (c : Conn) (ct : ℕ)
    → IsCoherent c
    → IsCoherent (check_open c ct).1
      × Grows c (check_open c ct).1
      × (is_panic (check_open c ct).0 ≡ false)
unfolding check_open check_close
checked-Calm c ct h =
    choose (not (has_permit c.permit) || c.is_cancelled) (err connection_closed) (ok tt)
      (λ o. Calm c (elim o [
        | err e ↦ (err e, c)
        | panic ↦ (panic, c)
        | ok u ↦ (ok tt, record c { checked = c.checked ++ ct ∷ [] })
      ]))
      (h, same-Grows c, refl) (h, same-Grows c, refl)

waited-Behind : (c : Conn) (ct : ℕ) → IsCoherent c → Behind c (stream_wait_group c ct)
unfolding stream_wait_group
waited-Behind c ct h =
    let c' = record c { checked = take_out ct c.checked } in
    let entered : Outcome (Unit {0}) × Conn =
      (ok tt, record c' { opening = c.opening ++ ct ∷ [] }) in
    let refused : Outcome (Unit {0}) × Conn = (panic, c') in
    choose (is_in ct c.checked) (if c.has_waiter then entered else refused) (ok tt, c) (Behind c)
      (elim (Bool-cases c.has_waiter) [
        | inl w ↦
            subst (λ b. Behind c (if b then entered else refused)) (sym w)
              (h, same-Grows c, λ z. absurd (false-true z))
        | inr w ↦
            subst (λ b. Behind c (if b then entered else refused)) (sym w)
              (
                h,
                same-Grows c,
                λ z. waiter_gone c.permit c.loop c.state c.is_cancelled c.has_waiter h w,
              )
      ])
      (h, same-Grows c, λ z. absurd (false-true z))

ended-Kept :
    (c : Conn) (ct : ℕ) (success : Bool)
    → IsCoherent c
    → IsCoherent (end_open c ct success) × Grows c (end_open c ct success)
unfolding end_open
ended-Kept c ct success h =
    let P : Conn → Type 0 = λ d. IsCoherent d × Grows c d in
    let c' = record c { opening = take_out ct c.opening } in
    choose (is_in ct c.opening)
      (if success then record c' { stream_ct = c.stream_ct ++ ct ∷ [] } else c') c P
      (choose success (record c' { stream_ct = c.stream_ct ++ ct ∷ [] }) c' P (h, same-Grows c)
        (h, same-Grows c))
      (h, same-Grows c)

-- What an event does to a coherent connection.
pub record Steps (c : Conn) (e : Event) : Type 0 where
  pub coherent : IsCoherent (step c e).1
  pub grows : Grows c (step c e).1
  pub panics : (step c e).0 ≡ true → ((ct : ℕ) × (e ≡ open_waits ct)) × (is_free c.permit ≡ false)

pub step-Steps : (c : Conn) (e : Event) → IsKept e → IsCoherent c → Steps c e
unfolding step
step-Steps c (moved m) k h =
    let (calm, h') =
      stands-move c c.permit c.loop c.state c.is_cancelled c.has_waiter c.stream_ct m h in
    record {
      coherent = h';
      grows = stands-Grows c c.permit c.loop c.state c.is_cancelled c.has_waiter c.stream_ct m h;
      panics = λ z. absurd (false-true (sym calm ∙ z));
    }
step-Steps c (open_checked ct) k h =
    let (h', g, p) = checked-Calm c ct h in
    record { coherent = h'; grows = g; panics = λ z. absurd (false-true (sym p ∙ z)) }
step-Steps c (open_waits ct) k h =
    let (h', g, p) = waited-Behind c ct h in
    record { coherent = h'; grows = g; panics = λ z. ((ct, refl), p z) }
step-Steps c (open_ended ct success) k h =
    let (h', g) = ended-Kept c ct success h in
    record { coherent = h'; grows = g; panics = λ z. absurd (false-true z) }
step-Steps c close_dropped k h = absurd k

pub run-append : (c : Conn) (es fs : List Event) → (run c (es ++ fs)).1 ≡ (run (run c es).1 fs).1
unfolding run
run-append c [] fs = refl
run-append c (e ∷ es) fs = run-append (step c e).1 es fs

pub run-Kept :
    (c : Conn) (es : List Event)
    → All IsKept es
    → IsCoherent c
    → IsCoherent (run c es).1 × Grows c (run c es).1
unfolding run
run-Kept c [] k h = (h, same-Grows c)
run-Kept c (e ∷ es) k h =
    let s = step-Steps c e k.0 h in
    let (f, x, r) = s.grows in
    let (h', g) = run-Kept (step c e).1 es k.1 s.coherent in
    (h', (λ z. g.0 (f z), λ z. g.1 (x z), λ z. g.2 (r z)))

-- Whatever happens on a connection, in whatever order, as long as no call of `close` is given up before
-- it returns: the loop, the state and the cancellation stand together as the table says; so the
-- state is closed exactly when the loop has returned, the connection is cancelled by a call of
-- `close` only, and without one the state says whether the loop has a wire connection. And whatever
-- comes next panics only if it is a call that opens a stream, between its check and its wait,
-- behind the beginning of a close.
pub run-IsCoherent :
    (es : List Event)
    → All IsKept es
    → IsCoherent (run new es).1
      × ((e : Event)
          → IsKept e
          → (step (run new es).1 e).0 ≡ true
          → ((ct : ℕ) × (e ≡ open_waits ct)) × (is_free (run new es).1.permit ≡ false))
run-IsCoherent es k =
    let h = (run-Kept new es k tt).0 in (h, λ e k' z. (step-Steps (run new es).1 e k' h).panics z)
