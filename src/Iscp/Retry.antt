-- ===== src/Iscp/Retry.antt =====
-- src/iscp/e2e.rs: the loops that try again. A loop is run on the list of its attempts, and `none` says
-- that it has not ended with the last of them.
use iscp_rs.Base.{
  ◌≡◌, refl, ap, subst, ◌∙◌, true, false, Option, none, some, List, [], ◌∷◌, ◌++◌, ◌↔◌, All,
  if◌then◌else◌, inl, inr, Bool-cases, ◌⊎◌, some_inj,
}
use iscp_rs.Errors.{Error, Outcome, ok, err, panic, can_retry}

module _ {A : Type 0} where
  -- The result of one attempt, and what the next attempts come to.
  unfoldable pub settle : Option (Outcome A) → Option (Outcome A) → Option (Outcome A)
  settle none rest = none
  settle (some (ok r)) rest = some (ok r)
  settle (some (err e)) rest = if can_retry e then rest else some (err e)
  settle (some panic) rest = some panic

  -- An attempt begins when `wait_for_state` has returned, here `ready`.
  unfoldable pub begin : Outcome (Unit {0}) → Option (Outcome A) → Option (Outcome A)
  begin (ok u) result = result
  begin (err e) result = some (err e)
  begin panic result = some panic

  abbrev pub IsFinal : Outcome A → Type 0
  IsFinal (ok r) = Unit {0}
  IsFinal (err e) = can_retry e ≡ false
  IsFinal panic = Unit {0}

  abbrev pub StopsWith : Outcome (Unit {0}) → Outcome A → Type 0
  StopsWith (err e) (err e') = e ≡ e'
  StopsWith panic panic = Unit {0}
  StopsWith _ _ = ⊥

  pub never_stops_ok : (r : Outcome (Unit {0})) (a : A) → StopsWith r (ok a) → ⊥
  never_stops_ok (ok u) a h = h
  never_stops_ok (err e) a h = h
  never_stops_ok panic a h = h

  stops-begin :
      (r : Outcome (Unit {0})) (o : Outcome A) (rest : Option (Outcome A))
      → StopsWith r o
      → begin r rest ≡ some o
  unfolding begin
  stops-begin (ok u) o rest h = absurd h
  stops-begin (err e) (ok a) rest h = absurd h
  stops-begin (err e) (err f) rest h = ap (λ x. some (err x)) h
  stops-begin (err e) panic rest h = absurd h
  stops-begin panic (ok a) rest h = absurd h
  stops-begin panic (err e) rest h = absurd h
  stops-begin panic panic rest h = refl

  IsFinal-settle :
      (o : Outcome A) (rest : Option (Outcome A))
      → IsFinal o
      → begin (ok tt) (settle (some o) rest) ≡ some o
  unfolding begin settle
  IsFinal-settle (ok r) rest h = refl
  IsFinal-settle (err e) rest h = rw (h, settle) refl
  IsFinal-settle panic rest h = refl

module _ {T A : Type 0} where
  unfoldable pub retry :
      (T → Outcome (Unit {0})) → (T → Option (Outcome A)) → List T → Option (Outcome A)
  retry ready try [] = none
  retry ready try (t ∷ ts) = begin (ready t) (settle (try t) (retry ready try ts))

  -- The attempt fails with an error that a retry may mend.
  abbrev pub Retried : (T → Outcome (Unit {0})) → (T → Option (Outcome A)) → T → Type 0
  Retried ready try t =
      (ready t ≡ ok tt) × ((e : Error) × (try t ≡ some (err e)) × (can_retry e ≡ true))

  pub record Settled (ready : T → Outcome (Unit {0})) (try : T → Option (Outcome A)) (ts : List T)
      (o : Outcome A) : Type 0 where
    pub before : List T
    pub last : T
    pub after : List T
    pub attempts : ts ≡ before ++ last ∷ after
    pub retried : All (Retried ready try) before
    pub ends : StopsWith (ready last) o ⊎ ((ready last ≡ ok tt) × (try last ≡ some o) × IsFinal o)

  again :
      (ready : T → Outcome (Unit {0})) (try : T → Option (Outcome A)) (t : T) (ts : List T)
      (o : Outcome A)
      → Retried ready try t
      → Settled ready try ts o
      → Settled ready try (t ∷ ts) o
  again ready try t ts o r s = record {
    before = t ∷ s.before;
    last = s.last;
    after = s.after;
    attempts = ap (◌∷◌ t) s.attempts;
    retried = (r, s.retried);
    ends = s.ends;
  }

  at_once :
      (ready : T → Outcome (Unit {0})) (try : T → Option (Outcome A)) (t : T) (ts : List T)
      (o : Outcome A)
      → StopsWith (ready t) o ⊎ ((ready t ≡ ok tt) × (try t ≡ some o) × IsFinal o)
      → Settled ready try (t ∷ ts) o
  at_once ready try t ts o h = record {
    before = [];
    last = t;
    after = ts;
    attempts = refl;
    retried = tt;
    ends = h;
  }

  settled_by :
      (ready : T → Outcome (Unit {0})) (try : T → Option (Outcome A)) (t : T) (ts : List T)
      (o : Outcome A)
      → (retry ready try ts ≡ some o → Settled ready try ts o)
      → (r : Outcome (Unit {0})) → ready t ≡ r
      → (a : Option (Outcome A)) → try t ≡ a
      → begin r (settle a (retry ready try ts)) ≡ some o
      → Settled ready try (t ∷ ts) o
  unfolding begin settle
  settled_by ready try t ts o ih (err e) er a ea h =
      at_once ready try t ts o (inl (subst (StopsWith (ready t)) (some_inj h) (rw er refl)))
  settled_by ready try t ts o ih panic er a ea h =
      at_once ready try t ts o (inl (subst (StopsWith (ready t)) (some_inj h) (rw er tt)))
  settled_by ready try t ts o ih (ok u) er none ea h = cc
  settled_by ready try t ts o ih (ok u) er (some (ok r)) ea h =
      at_once ready try t ts o (inr (er, ea ∙ h, subst IsFinal (some_inj h) tt))
  settled_by ready try t ts o ih (ok u) er (some panic) ea h =
      at_once ready try t ts o (inr (er, ea ∙ h, subst IsFinal (some_inj h) tt))
  settled_by ready try t ts o ih (ok u) er (some (err e)) ea h = elim (Bool-cases (can_retry e)) [
    | inl more ↦ again ready try t ts o (er, (e, ea, more)) (ih (rw more at h))
    | inr final ↦
        let done : some (err e) ≡ some o = rw final at h in
        at_once ready try t ts o (inr (er, ea ∙ done, subst IsFinal (some_inj done) final))
  ]

  retry-Settled :
      (ready : T → Outcome (Unit {0})) (try : T → Option (Outcome A)) (ts : List T) (o : Outcome A)
      → retry ready try ts ≡ some o
      → Settled ready try ts o
  unfolding retry
  retry-Settled ready try [] o h = cc
  retry-Settled ready try (t ∷ ts) o h =
      settled_by ready try t ts o (retry-Settled ready try ts o) (ready t) refl (try t) refl h

  Retried-retry :
      (ready : T → Outcome (Unit {0})) (try : T → Option (Outcome A)) (t : T) (ts : List T)
      → Retried ready try t
      → retry ready try (t ∷ ts) ≡ retry ready try ts
  unfolding retry begin settle
  Retried-retry ready try t ts (r, (e, f, m)) = rw (r, f, m) refl

  last-retry :
      (ready : T → Outcome (Unit {0})) (try : T → Option (Outcome A)) (t : T) (ts : List T)
      (o : Outcome A)
      → StopsWith (ready t) o ⊎ ((ready t ≡ ok tt) × (try t ≡ some o) × IsFinal o)
      → retry ready try (t ∷ ts) ≡ some o
  unfolding retry
  last-retry ready try t ts o (inl h) =
      stops-begin (ready t) o (settle (try t) (retry ready try ts)) h
  last-retry ready try t ts o (inr (r, f, final)) =
      rw (r, f) (IsFinal-settle o (retry ready try ts) final)

  Settled-retry :
      (ready : T → Outcome (Unit {0})) (try : T → Option (Outcome A)) (ts : List T) (o : Outcome A)
      → Settled ready try ts o
      → retry ready try ts ≡ some o
  Settled-retry ready try ts o s = ap (retry ready try) s.attempts ∙ skip s.before s.retried
    where
      skip :
          (before : List T)
          → All (Retried ready try) before
          → retry ready try (before ++ s.last ∷ s.after) ≡ some o
      skip [] a = last-retry ready try s.last s.after o s.ends
      skip (t ∷ before) a =
          Retried-retry ready try t (before ++ s.last ∷ s.after) a.0 ∙ skip before a.1

  -- The loop ends with `o` exactly when some attempt decides it: every attempt before it began and
  -- failed with an error that may be tried again, and it either could not begin for `o`, or ended with
  -- `o`, which is no such error. So the loop never ends with an error that may be tried again after
  -- it began, and it does not go on after any other.
  pub retry_iff :
      (ready : T → Outcome (Unit {0})) (try : T → Option (Outcome A)) (ts : List T) (o : Outcome A)
      → (retry ready try ts ≡ some o) ↔ Settled ready try ts o
  retry_iff ready try ts o = (retry-Settled ready try ts o, Settled-retry ready try ts o)
