-- ===== src/Wire/Conn/Matched.antt =====
-- Which request a response reaches (src/wire/mod.rs and src/wire/read_loop.rs).
use iscp_rs.Base.{
  ℕ, suc, ◌+◌, ◌*◌, ◌%◌, ◌≤◌, ◌<◌, ◌≡◌, ◌≢◌, refl, sym, ap, ◌∙◌, subst, none, some, List, [], ◌∷◌,
  nat_eq, get, get-insert, arith, All, All-map, u32_mod, some_inj,
}
use iscp_rs.Message.Messages.{Message}
use iscp_rs.Message.RequestId.{request_id}
use iscp_rs.Wire.Requests.{next_request_id}
use iscp_rs.Wire.ReadLoop.{Tx, ReadLoop, to_response, Next, stop, go_on, handle_message}
use iscp_rs.Wire.ReadLoop.Routes.{Addressed, Spent, Handled, handle_message-Handled}
use iscp_rs.Wire.Conn.{
  World, fresh, register, responses, after, Event, asked, got, step, run, count_asked,
}
use iscp_rs.Wire.Conn.Kept.{Keeps, handle_message-Keeps}

-- No two deliveries are on one channel.
abbrev pub IsOnce : List (Tx × Message) → Type 0
IsOnce [] = Unit {0}
IsOnce (d ∷ ds) = All (λ e. e.0 ≢ d.0) ds × IsOnce ds

-- After `k` requests: the channel of a request is half its number.
record Inv (k : ℕ) (w : World) : Type 0 where
  counted : w.conn.request_id_counter ≡ (2 * k) % u32_mod
  channels : w.conn.next_channel ≡ k
  known : (i : ℕ) → i < k → get (2 * i) w.requests ≡ some i
  pending :
      (id : ℕ) (tx : Tx) → get id w.conn.loop.response_senders ≡ some tx → (id ≡ 2 * tx) × (tx < k)
  answered :
      All
        (λ d.
          (request_id d.1 ≡ some (2 * d.0))
          × (d.0 < k)
          × (get (2 * d.0) w.conn.loop.response_senders ≡ none))
        w.delivered
  once : IsOnce w.delivered

step-asked : (k : ℕ) (w : World) → k < 2147483648 → Inv k w → Inv (suc k) (step w asked)
unfolding step register next_request_id
step-asked k w h i =
    let id : w.conn.request_id_counter ≡ 2 * k = omega (arith, i.counted, h) in
    record {
      counted = omega (arith, i.counted, h);
      channels = ap suc i.channels;
      known = λ j lt. ground (
        arith,
        id,
        i.channels,
        i.known j,
        get-insert w.conn.request_id_counter (2 * j) w.conn.next_channel w.requests,
      );
      pending = λ j tx e. ground (
        arith,
        id,
        i.channels,
        i.pending j tx,
        get-insert w.conn.request_id_counter j w.conn.next_channel w.conn.loop.response_senders,
      );
      answered =
          All-map
            (λ d p. (
              p.0,
              omega (arith, p.1),
              ground (
                arith,
                id,
                p.2,
                p.1,
                get-insert w.conn.request_id_counter (2 * d.0) w.conn.next_channel
                    w.conn.loop.response_senders,
              ),
            ))
            w.delivered i.answered;
      once = i.once;
    }

-- What one message may add: nothing, or one delivery on a channel that was registered for it.
kept :
    (k : ℕ) (w : World) (l : ReadLoop)
    → Inv k w
    → Keeps w.conn.loop (go_on [] l)
    → Inv k (record w { conn = record w.conn { loop = l } })
kept k w l i keeps = record {
  counted = i.counted;
  channels = i.channels;
  known = i.known;
  pending = λ j tx e. ground (arith, keeps j, i.pending j tx, e);
  answered =
      All-map (λ d p. (p.0, p.1, ground (arith, keeps (2 * d.0), p.2))) w.delivered i.answered;
  once = i.once;
}

not_both : (tx : Tx) → none ≡ some tx → ⊥
not_both tx h = cc

delivers :
    (k : ℕ) (w : World) (l : ReadLoop) (m : Message) (tx : Tx) (answer : Message)
    → Inv k w
    → Keeps w.conn.loop (go_on [] l)
    → Addressed w.conn.loop m (to_response tx answer) × Spent l (to_response tx answer)
    → Inv k (record w { conn = record w.conn { loop = l }; delivered = (tx, answer) ∷ w.delivered })
delivers k w l m tx answer i keeps (a, s) =
    let before = kept k w l i keeps in
    let (same, apart, (id, e, even, registered)) = a in
    let (id', e', gone) = s in
    let number = i.pending id tx registered in
    let carried : request_id answer ≡ some id = ap request_id same ∙ e in
    let spent : id' ≡ 2 * tx = some_inj (sym e' ∙ carried) ∙ number.0 in
    let there : get (2 * tx) w.conn.loop.response_senders ≡ some tx =
      subst (λ j. get j w.conn.loop.response_senders ≡ some tx) number.0 registered in
    record {
      counted = i.counted;
      channels = i.channels;
      known = i.known;
      pending = before.pending;
      answered = (
        (
          carried ∙ ap some number.0,
          number.1,
          subst (λ j. get j l.response_senders ≡ none) spent gone,
        ),
        before.answered,
      );
      once = (
        All-map
            (λ d p twice. not_both tx (
              sym (subst (λ t. get (2 * t) w.conn.loop.response_senders ≡ none) twice p.2) ∙ there))
            w.delivered i.answered,
        i.once,
      );
    }

step-got : (k : ℕ) (w : World) (m : Message) → Inv k w → Inv k (step w (got m))
unfolding step responses
step-got k w m i =
    go (handle_message w.conn.loop m) (handle_message-Handled w.conn.loop m).0
      (handle_message-Keeps w.conn.loop m)
  where
    go : (n : Next) → Handled w.conn.loop m n → Keeps w.conn.loop n → Inv k (after w n)
    go stop h keeps = i
    go (go_on [] l) h keeps = kept k w l i keeps
    go (go_on (o ∷ p ∷ outs) l) h keeps = absurd (omega (arith, h.1))
    go (go_on (to_response tx answer ∷ []) l) h keeps = delivers k w l m tx answer i keeps h.0.0
    go (go_on (_ ∷ []) l) h keeps = kept k w l i keeps

run-Inv :
    (k : ℕ) (w : World) (es : List Event)
    → k + count_asked es ≤ 2147483648
    → Inv k w
    → Inv (k + count_asked es) (run w es)
unfolding run count_asked
run-Inv k w [] h i = subst (λ n. Inv n w) (omega arith) i
run-Inv k w (asked ∷ es) h i =
    subst (λ n. Inv n (run (step w asked) es)) (omega arith)
      (run-Inv (suc k) (step w asked) es (omega (arith, h)) (step-asked k w (omega (arith, h)) i))
run-Inv k w (got m ∷ es) h i = run-Inv k (step w (got m)) es h (step-got k w m i)

first : Inv 0 fresh
unfolding get
first = record {
  counted = refl;
  channels = refl;
  known = λ j lt. absurd (omega (arith, lt));
  pending = λ j tx e. absurd (not_both tx e);
  answered = tt;
  once = tt;
}

-- What a run keeps true of the deliveries.
pub record IsMatched (w : World) : Type 0 where
  pub own :
      All (λ d. (id : ℕ) × (request_id d.1 ≡ some id) × (get id w.requests ≡ some d.0)) w.delivered
  pub once : IsOnce w.delivered

-- As long as a connection has made at most 2^31 requests, whatever messages come in, and in whatever
-- order with the requests, every message that was delivered to the channel of a request bears the
-- number of that very request, and no channel was sent two messages.
pub run-IsMatched : (es : List Event) → count_asked es ≤ 2147483648 → IsMatched (run fresh es)
run-IsMatched es h =
    let i = run-Inv 0 fresh es (omega (arith, h)) first in
    record {
      own = All-map (λ d p. (2 * d.0, p.0, i.known d.0 p.1)) (run fresh es).delivered i.answered;
      once = i.once;
    }
