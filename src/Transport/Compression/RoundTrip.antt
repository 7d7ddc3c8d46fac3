-- ===== src/Transport/Compression/RoundTrip.antt =====
-- A compressor and an extractor of the same settings over a run of messages
-- (src/transport/compression.rs).
use iscp_rs.Base.{
  ◌-◌, ◌<◌, ◌≤◌, ◌+◌, ◌*◌, zero, suc, arith, ◌⊎◌, ◌∙◌, subst, ℕ, ◌≡◌, refl, sym, ap, subst₂, Option,
  none, some, List, [], ◌∷◌, inl, inr, length, Option-cases, some_inj,
}
use iscp_rs.Base.Int.{ℤ}
use iscp_rs.Errors.{Error, Outcome, ok, err, panic}
use iscp_rs.Message.Types.{Bytes}
use iscp_rs.Transport.Compression.{Compression, DictionaryBuffer}
use iscp_rs.Transport.Compression.Codec.{
  Stream, Primed, run_loop, Flate2, Compressor, Extractor, run_stream, with_dictionary, pushed,
  dictionary_for, as_u32, new_compressor, new_extractor, converters, compress, extract,
}
use iscp_rs.Transport.Compression.Loops.{
  content, Came, run_loop-Came, run_loop-blank, with-Primed, Primed-with,
}

-- The streams have the same settings and stand behind the same dictionary.
pub data InStep : Compressor → Extractor → Type 0 where
  plain :
      (i j k l : ℕ) (d : Option DictionaryBuffer)
      → InStep
          (record { stream = none; capacity = k; buffer_increment_size = i; dictionary = d })
          (record { stream = none; capacity = l; buffer_increment_size = j; dictionary = d })
  packed :
      (level : ℕ) (bits : Option ℕ) (i j k l : ℕ) (d : Option DictionaryBuffer)
      → 0 < i
      → 0 < j
      → InStep
          (record {
            stream = some (level, bits);
            capacity = k;
            buffer_increment_size = i;
            dictionary = d;
          })
          (record { stream = some bits; capacity = l; buffer_increment_size = j; dictionary = d })

failed : (e : Error) (out : Bytes) → some (err e) ≡ some (ok out) → ⊥
failed e out h = cc

panicked : (out : Bytes) → some panic ≡ some (ok out) → ⊥
panicked out h = cc

none-some : {p : Compressor × Extractor} → none ≡ some p → ⊥
none-some h = cc

pub converters-InStep :
    (s : Compression) (c : Compressor) (x : Extractor) → converters s ≡ some (c, x) → InStep c x
unfolding converters new_compressor new_extractor
converters-InStep s c x h = go s.level s.window_bits h
  where
    go :
        (level : Option ℤ) (bits : Option ℕ)
        → converters (record s { level = level; window_bits = bits }) ≡ some (c, x)
        → InStep c x
    go none bits h =
        let e = some_inj h in
        subst₂ InStep (ap (λ p. p.0) e) (ap (λ p. p.1) e) (plain 128 128 0 0 none)
    go (some level) bits h = elim (Option-cases (dictionary_for bits)) [
      | inl e ↦ absurd (none-some (rw (e, converters, new_compressor) at h))
      | inr (d, e) ↦
          let first = rw (e, converters, new_compressor) at h in
          let pair = some_inj (rw (e, new_extractor) at first) in
          subst₂ InStep (ap (λ p. p.0) pair) (ap (λ p. p.1) pair)
            (packed (as_u32 level) bits 128 128 0 0 d (omega arith) (omega arith))
    ]

dictionary_set :
    {S : Type 0} (z : Stream S) (reserve : ℕ → ℕ → ℕ → ℕ) (fuel : ℕ) (s : S)
    (d : Option DictionaryBuffer) (msg : Bytes) (capacity reserved increment : ℕ) (out : Bytes)
    → (run_stream z reserve fuel s d msg capacity reserved increment).0 ≡ some (ok out)
    → (s' : S) × (with_dictionary z s d ≡ ok s')
      × ((run_loop z reserve fuel s' msg [] (reserve capacity 0 reserved) increment).0
          ≡ some (ok out))
unfolding run_stream
dictionary_set {S = S} z reserve fuel s d msg capacity reserved increment out h =
    go (with_dictionary z s d) refl
  where
    go :
        (o : Outcome S)
        → with_dictionary z s d ≡ o
        → (s' : S) × (with_dictionary z s d ≡ ok s')
          × ((run_loop z reserve fuel s' msg [] (reserve capacity 0 reserved) increment).0
              ≡ some (ok out))
    go (ok s') e = (s', e, rw (e, run_stream) at h)
    go (err x) e = absurd (failed x out (rw (e, run_stream) at h))
    go panic e = absurd (panicked out (rw (e, run_stream) at h))

pub stream_from :
    {S : Type 0} (z : Stream S) (reserve : ℕ → ℕ → ℕ → ℕ) (fuel : ℕ) (s s' : S)
    (d : Option DictionaryBuffer) (msg : Bytes) (capacity reserved increment : ℕ)
    → with_dictionary z s d ≡ ok s'
    → run_stream z reserve fuel s d msg capacity reserved increment
      ≡ run_loop z reserve fuel s' msg [] (reserve capacity 0 reserved) increment
unfolding run_stream
stream_from z reserve fuel s s' d msg capacity reserved increment e = rw (e, run_stream) refl

Came-out :
    {r : Option (Outcome Bytes)} {out out' : Bytes} {fuel left : ℕ}
    → Came r out fuel left
    → r ≡ some (ok out')
    → out ≡ out'
Came-out (inl q) h = cc
Came-out (inr (q, l)) h = cc

out_inj : {a b : Bytes} → some (ok a) ≡ some (ok b) → a ≡ b
out_inj h = cc

pub Came-all :
    {r : Option (Outcome Bytes)} {out : Bytes} {left : ℕ}
    → Came r out (left + 1) left
    → r ≡ some (ok out)
Came-all (inl q) = q
Came-all (inr (q, l)) = absurd (omega (arith, l))

module _ {C D : Type 0} (f : Flate2 C D) where
  -- What a message is compressed to: all that flate2 makes of it, or nothing of nothing.
  packs :
      (level : ℕ) (bits : Option ℕ) (d : Option DictionaryBuffer) (msg out : Bytes)
      (fuel capacity i : ℕ) (s : C)
      → 0 < i
      → with_dictionary f.deflate (f.new_compress level bits) d ≡ ok s
      → (run_loop f.deflate f.reserve fuel s msg [] (f.reserve capacity 0 (length msg)) i).0
        ≡ some (ok out)
      → (out ≡ f.deflated level bits (content d) msg) ⊎ ((msg ≡ []) × (out ≡ []))
  unfolding run_loop
  packs level bits d msg out fuel capacity i s pos w h =
      let room = f.reserves capacity 0 (length msg) in
      go msg (f.reserve capacity 0 (length msg)) fuel room h
    where
      roomy :
          (msg : Bytes) (capacity fuel : ℕ)
          → 0 < capacity
          → (run_loop f.deflate f.reserve fuel s msg [] capacity i).0 ≡ some (ok out)
          → out ≡ f.deflated level bits (content d) msg
      roomy msg capacity fuel room h =
          let runs =
            f.deflates level bits (content d) msg s
              (with-Primed f.deflate (f.new_compress level bits) s d w) in
          sym (
            Came-out
              (run_loop-Came f.deflate f.reserve f.reserves i pos s msg
                (f.deflated level bits (content d) msg) runs fuel s [] capacity runs.begins room)
              h)

      go :
          (msg : Bytes) (capacity fuel : ℕ)
          → 0 + length msg ≤ capacity
          → (run_loop f.deflate f.reserve fuel s msg [] capacity i).0 ≡ some (ok out)
          → (out ≡ f.deflated level bits (content d) msg) ⊎ ((msg ≡ []) × (out ≡ []))
      go [] zero zero room h = cc
      go [] zero (suc fuel) room h =
          let blank = run_loop-blank f.deflate f.reserve f.reserves i pos fuel s 0 (
            f.no_room level bits (content d) s
              (with-Primed f.deflate (f.new_compress level bits) s d w)) in
          inr (refl, out_inj (sym h ∙ blank))
      go [] (suc n) fuel room h = inl (roomy [] (suc n) fuel (omega arith) h)
      go (b ∷ bs) capacity fuel room h = inl (roomy (b ∷ bs) capacity fuel (omega (arith, room)) h)

  -- Such output is turned back into its message.
  unpacks :
      (level : ℕ) (bits : Option ℕ) (d : Option DictionaryBuffer) (msg out : Bytes) (capacity j : ℕ)
      (x : D)
      → 0 < j
      → Primed f.inflate (f.new_decompress bits) (content d) x
      → (out ≡ f.deflated level bits (content d) msg) ⊎ ((msg ≡ []) × (out ≡ []))
      → (fuel : ℕ) × ((run_loop f.inflate f.reserve fuel x out []
            (f.reserve capacity 0 (length out * 2))
            j).0
          ≡ some (ok msg))
  unpacks level bits d msg out capacity j x pos primed (inl e) =
      let all = f.deflated level bits (content d) msg in
      let runs = f.inflates level bits (content d) msg x primed in
      let room : 0 < f.reserve capacity 0 (length all * 2) =
        omega
          (arith, f.has_bytes level bits (content d) msg, f.reserves capacity 0 (length all * 2)) in
      (
        runs.left x + 1,
        subst
            (λ o.
              (run_loop f.inflate f.reserve (runs.left x + 1) x o []
                (f.reserve capacity 0 (length o * 2)) j).0
              ≡ some (ok msg))
            (sym e)
            (Came-all (
              run_loop-Came f.inflate f.reserve f.reserves j pos x all msg runs (runs.left x + 1) x
                [] (f.reserve capacity 0 (length all * 2)) runs.begins room)),
      )
  unpacks level bits d msg out capacity j x pos primed (inr (m, o)) =
      let nothing : Bytes = [] in
      (
        1,
        subst₂
            (λ a b.
              (run_loop f.inflate f.reserve 1 x a [] (f.reserve capacity 0 (length a * 2)) j).0
              ≡ some (ok b))
            (sym o) (sym m)
            (run_loop-blank f.inflate f.reserve f.reserves j pos 0 x
              (f.reserve capacity 0 (length nothing * 2))
              (f.no_data bits (content d) x (f.reserve capacity 0 (length nothing * 2) - 0)
                primed)),
      )

  -- Every message is compressed, one after the other.
  abbrev pub Compressed : ℕ → Compressor → List Bytes → List Bytes → Type 0
  Compressed fuel c [] [] = Unit {0}
  Compressed fuel c (msg ∷ msgs) (out ∷ outs) =
      ((compress f fuel c msg).0 ≡ some (ok out))
      × Compressed fuel (compress f fuel c msg).1 msgs outs
  Compressed fuel c _ _ = ⊥

  -- Every message is extracted, one after the other, with enough fuel.
  abbrev pub Extracted : Extractor → List Bytes → List Bytes → Type 0
  Extracted x [] [] = Unit {0}
  Extracted x (out ∷ outs) (msg ∷ msgs) =
      (fuel : ℕ) × ((extract f fuel x out).0 ≡ some (ok msg))
      × Extracted (extract f fuel x out).1 outs msgs
  Extracted x _ _ = ⊥

  pub step-InStep :
      (fuel : ℕ) (c : Compressor) (x : Extractor) (msg out : Bytes)
      → InStep c x
      → (compress f fuel c msg).0 ≡ some (ok out)
      → (fuel' : ℕ) × ((extract f fuel' x out).0 ≡ some (ok msg))
        × InStep (compress f fuel c msg).1 (extract f fuel' x out).1
  unfolding compress extract
  step-InStep fuel _ _ msg out (plain i j k l d) h = (fuel, sym h, plain i j k l d)
  step-InStep fuel _ _ msg out (packed level bits i j k l d pi pj) h =
      let start = f.new_compress level bits in
      let (s, w, loop) =
        dictionary_set f.deflate f.reserve fuel start d msg k (length msg) i out h in
      let (x, primed) = f.primes level bits (content d) s (with-Primed f.deflate start s d w) in
      let xw = Primed-with f.inflate (f.new_decompress bits) x d primed in
      let (fuel', back) =
        unpacks level bits d msg out l j x pj primed
          (packs level bits d msg out fuel k i s pi w loop) in
      let e =
        ap (λ r. r.0)
          (stream_from f.inflate f.reserve fuel' (f.new_decompress bits) x d out l (length out * 2)
            j xw)
        ∙ back in
      (
        fuel',
        e,
        rw (w, compress) (rw (e, extract) (packed level bits i j _ _ (pushed d msg) pi pj)),
      )
