-- ===== src/Transport/Compression/Loops.antt =====
-- The loop over a message comes to all the output of its stream (src/transport/compression.rs).
use iscp_rs.Base.{
  ℕ, zero, suc, ◌+◌, ◌-◌, ◌≡◌, ◌≤◌, ◌<◌, ◌⊎◌, refl, ap, not, Option, none, some, [], ◌∷◌, ◌++◌,
  if◌then◌else◌, ltb, nat_eq, length, drop, is_empty, arith, inl, inr,
}
use iscp_rs.Errors.{Outcome, ok}
use iscp_rs.Message.Types.{Bytes}
use iscp_rs.Transport.Compression.{DictionaryBuffer}
use iscp_rs.Transport.Compression.Codec.{
  Status, progressed, buf_error, stream_end, Stream, run_loop, with_dictionary, Primed, Called,
  Runs, IsBlank,
}

-- The bytes of a dictionary.
abbrev pub content : Option DictionaryBuffer → Bytes
content none = []
content (some d) = d.buf

-- The loop came to `out`, or its fuel was no more than what was left.
abbrev pub Came : Option (Outcome Bytes) → Bytes → ℕ → ℕ → Type 0
Came r out fuel left = (r ≡ some (ok out)) ⊎ ((r ≡ none) × (fuel ≤ left))

module _ {S : Type 0} (z : Stream S) (reserve : ℕ → ℕ → ℕ → ℕ)
    (reserves : (capacity len additional : ℕ) → len + additional ≤ reserve capacity len additional)
    (increment : ℕ) (room : 0 < increment) where
  pub run_loop-Came :
      (s0 : S) (input output : Bytes) (r : Runs z s0 input output) (fuel : ℕ) (s : S) (out : Bytes)
      (capacity : ℕ)
      → r.At s out
      → length out < capacity
      → Came (run_loop z reserve fuel s input out capacity increment).0 output fuel (r.left s)
  unfolding run_loop
  run_loop-Came s0 input output r zero s out capacity a h = inr (refl, omega arith)
  run_loop-Came s0 input output r (suc fuel) s out capacity a h =
      let (status, piece, s', e, c) = r.call s out (capacity - length out) a (omega (arith, h)) in
      go status piece s' e c
        (λ s'' out' capacity' a' h'. run_loop-Came s0 input output r fuel s'' out' capacity' a' h')
    where
      go :
          (status : Status) (piece : Bytes) (s' : S)
          → z.process s
              (drop (z.total_in s) input)
              (capacity - length out)
              (not (ltb (z.total_in s) (length input)))
            ≡ ok (status, piece, s')
          → Called z r.At r.left output s out status piece s'
          → ((s'' : S) (out' : Bytes) (capacity' : ℕ)
              → r.At s'' out'
              → length out' < capacity'
              → Came
                  (run_loop z reserve fuel s'' input out' capacity' increment).0
                  output
                  fuel
                  (r.left s''))
          → Came
              (run_loop z reserve (suc fuel) s input out capacity increment).0
              output
              (suc fuel)
              (r.left s)
      go stream_end piece s' e c ih = inl (rw (e, run_loop) (ap (λ o. some (ok o)) c))
      go buf_error piece s' e c ih = absurd c
      go progressed piece s' e c ih =
          let out' = out ++ piece in
          let capacity' = reserve capacity (length out') increment in
          let later =
            ih s' out' capacity' c.0
              (omega (arith, room, reserves capacity (length out') increment)) in
          rw (e, run_loop) (grow later)
        where
          grow :
              {o : Option (Outcome Bytes)}
              → Came o output fuel (r.left s')
              → Came o output (suc fuel) (r.left s)
          grow (inl q) = inl q
          grow (inr (q, l)) = inr (q, omega (arith, l, c.1))

  -- With nothing to take in, and nowhere to put anything or nothing to come, the loop gives nothing.
  pub run_loop-blank :
      (fuel : ℕ) (s : S) (capacity : ℕ)
      → IsBlank z s (capacity - 0)
      → (run_loop z reserve (suc fuel) s [] [] capacity increment).0 ≡ some (ok [])
  unfolding run_loop
  run_loop-blank fuel s capacity (t, (s', e, t')) = rw (t, e, t', run_loop) refl

-- What setting a dictionary comes to.
module _ {S : Type 0} (z : Stream S) where
  pub with-Primed :
      (s s' : S) (d : Option DictionaryBuffer)
      → with_dictionary z s d ≡ ok s'
      → Primed z s (content d) s'
  unfolding with_dictionary
  with-Primed s s' none h = ok_inj h
    where
      ok_inj : {a b : S} → ok a ≡ ok b → a ≡ b
      ok_inj e = cc
  with-Primed s s' (some d) h = go d.buf h
    where
      ok_inj : {a b : S} → ok a ≡ ok b → a ≡ b
      ok_inj e = cc

      go :
          (bytes : Bytes)
          → (if is_empty bytes then ok s else z.set_dictionary s bytes) ≡ ok s'
          → Primed z s bytes s'
      go [] h = ok_inj h
      go (b ∷ bs) h = h

  pub Primed-with :
      (s s' : S) (d : Option DictionaryBuffer)
      → Primed z s (content d) s'
      → with_dictionary z s d ≡ ok s'
  unfolding with_dictionary
  Primed-with s s' none h = ap ok h
  Primed-with s s' (some d) h = go d.buf h
    where
      go :
          (bytes : Bytes)
          → Primed z s bytes s'
          → (if is_empty bytes then ok s else z.set_dictionary s bytes) ≡ ok s'
      go [] h = ap ok h
      go (b ∷ bs) h = h
