-- ===== src/Iscp/Calls/Replies.antt =====
-- The first call that a task waits for (src/iscp/e2e.rs).
use iscp_rs.Base.{
  ◌≡◌, refl, sym, ap, ◌∙◌, subst, String, Bool, true, false, not, Option, none, some, List, [], ◌∷◌,
  ◌++◌, ◌↔◌, All, if◌then◌else◌, inl, inr, Bool-cases, ◌==◌, string_eq,
}
use iscp_rs.Errors.{Error, Outcome, ok, err, panic, connection_closed, cancelled_by_close, timeout}
use iscp_rs.Message.Connections as Msg
use iscp_rs.Iscp.Calls.{
  DownstreamCall, Arrival, arrived, lagged, closed, expired, cancelled, then_wait,
  wait_matching_reply,
}

-- Nothing that a task stops at, while it waits for a call that passes `test`.
abbrev pub Skipped : Bool → (Msg.DownstreamCall → Bool) → Arrival → Type 0
Skipped timed test (arrived c) = test c ≡ false
Skipped timed test (lagged n) = Unit {0}
Skipped timed test expired = timed ≡ false
Skipped timed test _ = ⊥

-- `c` is the first call among the arrivals that passes `test`, and nothing ends the wait before it.
pub record First (timed : Bool) (test : Msg.DownstreamCall → Bool) (arrivals : List Arrival)
    (c : Msg.DownstreamCall) : Type 0 where
  pub before : List Arrival
  pub after : List Arrival
  pub whole : arrivals ≡ before ++ arrived c ∷ after
  pub skipped : All (Skipped timed test) before
  pub passes : test c ≡ true

-- The wait of `wait_matching_reply`, `try_recv_call` and `try_recv_reply_call`.
unfoldable pub scan :
    Bool → (Msg.DownstreamCall → Bool) → List Arrival → Option (Outcome Msg.DownstreamCall)
scan timed test [] = none
scan timed test (arrived c ∷ rest) = if test c then some (ok c) else scan timed test rest
scan timed test (lagged n ∷ rest) = scan timed test rest
scan timed test (closed ∷ rest) = some (err connection_closed)
scan timed test (expired ∷ rest) =
    if timed then some (err (timeout "wait reply call")) else scan timed test rest
scan timed test (cancelled ∷ rest) = some (err cancelled_by_close)

some_ok_inj : {c d : Msg.DownstreamCall} → some (ok c) ≡ some (ok d) → c ≡ d
some_ok_inj h = cc

error_ok : {e : Error} (c : Msg.DownstreamCall) → some (err e) ≡ some (ok c) → ⊥
error_ok c h = cc

module _ (timed : Bool) (test : Msg.DownstreamCall → Bool) where
  skip_one :
      (a : Arrival) (rest : List Arrival) (c : Msg.DownstreamCall)
      → Skipped timed test a
      → First timed test rest c
      → First timed test (a ∷ rest) c
  skip_one a rest c s f = record {
    before = a ∷ f.before;
    after = f.after;
    whole = ap (◌∷◌ a) f.whole;
    skipped = (s, f.skipped);
    passes = f.passes;
  }

  scan-First :
      (arrivals : List Arrival) (c : Msg.DownstreamCall)
      → scan timed test arrivals ≡ some (ok c)
      → First timed test arrivals c
  unfolding scan
  scan-First [] c h = cc
  scan-First (closed ∷ rest) c h = cc
  scan-First (cancelled ∷ rest) c h = cc
  scan-First (lagged n ∷ rest) c h = skip_one (lagged n) rest c tt (scan-First rest c h)
  scan-First (expired ∷ rest) c h = elim (Bool-cases timed) [
    | inl e ↦ absurd (error_ok c (rw e at h))
    | inr e ↦ skip_one expired rest c e (scan-First rest c (rw e at h))
  ]
  scan-First (arrived d ∷ rest) c h = elim (Bool-cases (test d)) [
    | inl e ↦
        let same : d ≡ c = some_ok_inj (rw e at h) in
        record {
          before = [];
          after = rest;
          whole = ap (λ x. arrived x ∷ rest) same;
          skipped = tt;
          passes = subst (λ x. test x ≡ true) same e;
        }
    | inr e ↦ skip_one (arrived d) rest c e (scan-First rest c (rw e at h))
  ]

  Skipped-scan :
      (before : List Arrival) (rest : List Arrival)
      → All (Skipped timed test) before
      → scan timed test (before ++ rest) ≡ scan timed test rest
  unfolding scan
  Skipped-scan [] rest s = refl
  Skipped-scan (arrived d ∷ before) rest s = rw s.0 (Skipped-scan before rest s.1)
  Skipped-scan (lagged n ∷ before) rest s = Skipped-scan before rest s.1
  Skipped-scan (expired ∷ before) rest s =
      ap
        (λ b.
          if b then some (err (timeout "wait reply call")) else scan timed test (before ++ rest))
        s.0
      ∙ Skipped-scan before rest s.1
  Skipped-scan (closed ∷ before) rest s = absurd s.0
  Skipped-scan (cancelled ∷ before) rest s = absurd s.0

  First-scan :
      (arrivals : List Arrival) (c : Msg.DownstreamCall)
      → First timed test arrivals c
      → scan timed test arrivals ≡ some (ok c)
  unfolding scan
  First-scan arrivals c f =
      ap (scan timed test) f.whole
      ∙ (Skipped-scan f.before (arrived c ∷ f.after) f.skipped
          ∙ ap (λ b. if b then some (ok c) else scan timed test f.after) f.passes)

abbrev pub answers : String → Msg.DownstreamCall → Bool
answers call_id c = c.request_call_id == call_id

pub wait_matching_reply-scan :
    (call_id : String) (arrivals : List Arrival)
    → wait_matching_reply call_id arrivals ≡ scan true (answers call_id) arrivals
unfolding wait_matching_reply scan
wait_matching_reply-scan call_id [] = refl
wait_matching_reply-scan call_id (arrived d ∷ rest) =
    ap (λ r. if answers call_id d then some (ok d) else r) (wait_matching_reply-scan call_id rest)
wait_matching_reply-scan call_id (lagged n ∷ rest) = wait_matching_reply-scan call_id rest
wait_matching_reply-scan call_id (expired ∷ rest) = refl
wait_matching_reply-scan call_id (closed ∷ rest) = refl
wait_matching_reply-scan call_id (cancelled ∷ rest) = refl

-- What ends a round of a task that receives calls: the first call, or the end of the channel.
unfoldable pub head_of : List Arrival → Option Arrival
head_of [] = none
head_of (arrived c ∷ rest) = some (arrived c)
head_of (lagged n ∷ rest) = head_of rest
head_of (expired ∷ rest) = head_of rest
head_of (closed ∷ rest) = some closed
head_of (cancelled ∷ rest) = some cancelled

-- What ends each round, up to a round that nothing ends.
unfoldable pub heads : List (List Arrival) → List Arrival
heads [] = []
heads (round ∷ rounds) = elim (head_of round) [ none ↦ [] | some a ↦ a ∷ heads rounds ]

abbrev pub is_reply : Msg.DownstreamCall → Bool
is_reply c = not (c.request_call_id == "")

wait-found :
    {A B : Type 0} (f : A → B) (o : Option (Outcome A)) (b : B)
    → then_wait o (λ a. some (ok (f a))) ≡ some (ok b)
    → (a : A) × (o ≡ some (ok a)) × (f a ≡ b)
unfolding then_wait
wait-found f none b h = cc
wait-found f (some (ok a)) b h = (a, refl, cc)
wait-found f (some (err e)) b h = cc
wait-found f (some panic) b h = cc

found-wait :
    {A B : Type 0} (f : A → B) (o : Option (Outcome A)) (b : B)
    → (a : A) × (o ≡ some (ok a)) × (f a ≡ b)
    → then_wait o (λ a. some (ok (f a))) ≡ some (ok b)
unfolding then_wait
found-wait f o b (a, e, k) =
    ap (λ x. then_wait x (λ y. some (ok (f y)))) e ∙ ap (λ x. some (ok x)) k

-- A loop that makes `f c` of the call that the wait finds.
pub found_iff :
    {B : Type 0} (timed : Bool) (test : Msg.DownstreamCall → Bool) (f : Msg.DownstreamCall → B)
    (arrivals : List Arrival) (o : Option (Outcome B))
    → o ≡ then_wait (scan timed test arrivals) (λ c. some (ok (f c)))
    → (b : B)
    → (o ≡ some (ok b)) ↔ ((c : Msg.DownstreamCall) × First timed test arrivals c × (f c ≡ b))
found_iff timed test f arrivals o e b = (
  λ h.
      let (c, found, made) = wait-found f (scan timed test arrivals) b (sym e ∙ h) in
      (c, scan-First timed test arrivals c found, made),
  λ (c, first, made).
      e
      ∙ found-wait f (scan timed test arrivals) b (c, First-scan timed test arrivals c first, made),
)
