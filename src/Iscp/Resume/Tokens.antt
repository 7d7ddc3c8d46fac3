-- ===== src/Iscp/Resume/Tokens.antt =====
-- The tokens of the resume requests (src/iscp/upstream.rs and src/iscp/downstream.rs).
use iscp_rs.Base.{
  ℕ, ◌≡◌, refl, sym, subst, String, Bool, true, false, List, [], ◌∷◌, ◌++◌, if◌then◌else◌, ◌==◌,
  string_eq, is_some, All, ◌⊎◌, inl, inr, Bool-cases,
}
use iscp_rs.Errors.{Outcome, ok, err, panic, can_retry_resume, error_result_code}
use iscp_rs.Iscp.Resume.{
  Turn, renewed, no_connection, up, Resume, Result, again, attached, given_up, take_token,
  failed_resume, answered, send_resume, upstream_turn, downstream_turn, turns, start,
}

-- The loop has not taken the token `k` of the stream, or has it.
abbrev pub Holds : String → Resume → Type 0
Holds k r = (((r.token ≡ "") × (r.stored_token ≡ k)) ⊎ (r.token ≡ k)) × All (λ t. t ≡ k) r.sent

-- What a result keeps, and that a stream goes on a connection only when nothing is left to resume.
abbrev pub Kept : String → Result → Type 0
Kept k (again r) = Holds k r
Kept k (attached r) = Holds k r × (r.need_resume ≡ false)
Kept k (given_up r) = All (λ t. t ≡ k) r.sent

All-snoc :
    (k : String) (ts : List String)
    → All (λ t. t ≡ k) ts
    → (x : String) → x ≡ k
    → All (λ t. t ≡ k) (ts ++ x ∷ [])
All-snoc k [] a x e = (e, tt)
All-snoc k (t ∷ ts) a x e = (a.0, All-snoc k ts a.1 x e)

module _ (k : String) (named : (k == "") ≡ false) where
  taken_token :
      (r : Resume) → Holds k r → ((take_token r).token ≡ k) × ((take_token r).sent ≡ r.sent)
  unfolding take_token
  taken_token r (inl (e, s), a) = rw (e, take_token) (s, refl)
  taken_token r (inr e, a) = rw (e, take_token) (rw (named, take_token) (refl, refl))

  answered-Kept :
      (r : Resume) (answer : Outcome (ℕ × String))
      → r.token ≡ k
      → All (λ t. t ≡ k) r.sent
      → Kept k (send_resume r answer)
  unfolding answered failed_resume
  answered-Kept r (ok (alias, t)) e a = (inr e, All-snoc k r.sent a r.token e)
  answered-Kept r (err x) e a =
      let all = All-snoc k r.sent a r.token e in
      elim (Bool-cases (is_some (error_result_code x))) [
        | inl f ↦ rw (f, failed_resume) all
        | inr f ↦ elim (Bool-cases (can_retry_resume x)) [
          | inl g ↦ rw (f, g, failed_resume) (inr e, all)
          | inr g ↦ rw (f, g, failed_resume) all
        ]
      ]
  answered-Kept r panic e a = All-snoc k r.sent a r.token e

  requested :
      (r : Resume) (answer : Outcome (ℕ × String))
      → Holds k r
      → Kept k (send_resume (take_token r) answer)
  requested r answer h =
      let (e, same) = taken_token r h in
      answered-Kept (take_token r) answer e (subst (λ ts. All (λ t. t ≡ k) ts) (sym same) h.1)

  unresumed :
      (r : Resume) (taken : Bool)
      → Holds k r
      → r.need_resume ≡ false
      → Kept k (if taken then attached r else again r)
  unresumed r true h e = (h, e)
  unresumed r false h e = h

  upstream_turn-Kept :
      (no_expiry : Bool) (r : Resume) (t : Turn) → Holds k r → Kept k (upstream_turn no_expiry r t)
  unfolding upstream_turn
  upstream_turn-Kept no_expiry r renewed h = h
  upstream_turn-Kept no_expiry r no_connection h = h.1
  upstream_turn-Kept no_expiry r (up answer taken) h = elim (Bool-cases r.need_resume) [
    | inl e ↦ simp (e, upstream_turn) (go no_expiry)
    | inr e ↦ simp (e, upstream_turn) (unresumed r taken h e)
  ]
    where
      go :
          (b : Bool)
          → Kept k (if b then given_up (take_token r) else send_resume (take_token r) answer)
      go true = subst (λ ts. All (λ t. t ≡ k) ts) (sym (taken_token r h).1) h.1
      go false = requested r answer h

  downstream_turn-Kept :
      (no_expiry : Bool) (r : Resume) (t : Turn)
      → Holds k r
      → Kept k (downstream_turn no_expiry r t)
  unfolding downstream_turn
  downstream_turn-Kept no_expiry r renewed h = h
  downstream_turn-Kept no_expiry r no_connection h = h.1
  downstream_turn-Kept no_expiry r (up answer taken) h = elim (Bool-cases r.need_resume) [
    | inl e ↦ simp (e, downstream_turn) (go no_expiry)
    | inr e ↦ simp (e, downstream_turn) (unresumed r taken h e)
  ]
    where
      go : (b : Bool) → Kept k (if b then given_up r else send_resume (take_token r) answer)
      go true = h.1
      go false = requested r answer h

  turns-Kept :
      (turn : Resume → Turn → Result)
      → ((r : Resume) (t : Turn) → Holds k r → Kept k (turn r t))
      → (r : Resume) (ts : List Turn) → Holds k r
      → Kept k (turns turn r ts)
  unfolding turns
  turns-Kept turn step r [] h = h
  turns-Kept turn step r (t ∷ ts) h =
      go (turn r t) (step r t h) (λ r' h'. turns-Kept turn step r' ts h')
    where
      go :
          (o : Result)
          → Kept k o
          → ((r' : Resume) → Holds k r' → Kept k (turns turn r' ts))
          → Kept k (elim o [
            | again r' ↦ turns turn r' ts
            | attached r' ↦ attached r'
            | given_up r' ↦ given_up r'
          ])
      go (again r') h' rest = rest r' h'
      go (attached r') h' rest = h'
      go (given_up r') h' rest = h'

-- All resume requests of one run of either loop carry the token that the stream had when the loop began,
-- if that is not empty, however often the connection is renewed, and also behind a request that was
-- accepted with another token; a loop that ends with the stream on the connection has
-- nothing left to resume.
pub turns-start :
    (k : String) (alias : ℕ) (need_resume no_expiry : Bool) (ts : List Turn)
    → (k == "") ≡ false
    → Kept k (turns (upstream_turn no_expiry) (start need_resume k alias) ts)
      × Kept k (turns (downstream_turn no_expiry) (start need_resume k alias) ts)
turns-start k alias need_resume no_expiry ts named =
    let begun : Holds k (start need_resume k alias) = (inl (refl, refl), tt) in
    (
      turns-Kept k named (upstream_turn no_expiry) (upstream_turn-Kept k named no_expiry)
          (start need_resume k alias) ts begun,
      turns-Kept k named (downstream_turn no_expiry) (downstream_turn-Kept k named no_expiry)
          (start need_resume k alias) ts begun,
    )
