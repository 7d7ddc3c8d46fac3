-- ===== src/Transport/Compression/Stored.antt =====
-- Streams that store their data behind a byte 0: a `Flate2` that computes.
use iscp_rs.Base.{
  ℕ, zero, suc, ◌+◌, ◌≡◌, ◌<◌, max, refl, sym, subst₂, Bool, not, [], ◌∷◌, length, drop, ltb, arith,
}
use iscp_rs.Errors.{Outcome, ok}
use iscp_rs.Message.Types.{Bytes}
use iscp_rs.Transport.Compression.Codec.{
  Status, buf_error, stream_end, Stream, Primed, Called, Runs, IsBlank, Flate2,
}

unfoldable pub store : ℕ → Bytes → ℕ → Bool → Outcome (Status × Bytes × ℕ)
store s [] zero finish = ok (buf_error, [], s)
store s msg room finish = ok (stream_end, 0 ∷ msg, s + length msg)

unfoldable pub restore : ℕ → Bytes → ℕ → Bool → Outcome (Status × Bytes × ℕ)
restore s [] room finish = ok (buf_error, [], s)
restore s (b ∷ bs) room finish = ok (stream_end, bs, s + length (b ∷ bs))

abbrev pub stored : Stream ℕ
stored = record { total_in = λ s. s; set_dictionary = λ s d. ok s; process = store }

abbrev pub restored : Stream ℕ
restored = record { total_in = λ s. s; set_dictionary = λ s d. ok s; process = restore }

same_state : {a b : ℕ} → ok a ≡ ok b → a ≡ b
same_state h = cc

pub Primed-stored : (d : Bytes) (s : ℕ) → Primed stored 0 d s → s ≡ 0
Primed-stored [] s h = sym h
Primed-stored (b ∷ bs) s h = sym (same_state h)

pub Primed-restored : (d : Bytes) (s : ℕ) → Primed restored 0 d s → s ≡ 0
Primed-restored [] s h = sym h
Primed-restored (b ∷ bs) s h = sym (same_state h)

pub prime_restored : (d : Bytes) → Primed restored 0 d 0
prime_restored [] = refl
prime_restored (b ∷ bs) = refl

-- A stream that has not been called.
abbrev Fresh : ℕ → Bytes → Type 0
Fresh s out = (s ≡ 0) × (out ≡ [])

-- The one call that a fresh stream has.
abbrev Once : Stream ℕ → Bytes → Bytes → ℕ → ℕ → Bytes → Type 0
Once z input output room t out =
    (status : Status) × (piece : Bytes) × (s' : ℕ) × (z.process t (drop (z.total_in t) input) room
        (not (ltb (z.total_in t) (length input)))
      ≡ ok (status, piece, s'))
    × Called z Fresh (λ _. 0) output t out status piece s'

stored-Once : (msg : Bytes) (room : ℕ) → 0 < room → Once stored msg (0 ∷ msg) room 0 []
unfolding store
stored-Once [] zero h = absurd (omega (arith, h))
stored-Once [] (suc room) h = (stream_end, 0 ∷ [], 0 + 0, refl, refl)
stored-Once (b ∷ bs) room h = (stream_end, 0 ∷ b ∷ bs, 0 + length (b ∷ bs), refl, refl)

restored-Once : (msg : Bytes) (room : ℕ) → Once restored (0 ∷ msg) msg room 0 []
unfolding restore
restored-Once msg room = (stream_end, msg, 0 + length (0 ∷ msg), refl, refl)

pub stored-Runs : (s : ℕ) (msg : Bytes) → s ≡ 0 → Runs stored s msg (0 ∷ msg)
stored-Runs s msg e = record {
  At = Fresh;
  left = λ _. 0;
  begins = (e, refl);
  call = λ t out room a pos.
      subst₂ (Once stored msg (0 ∷ msg) room) (sym a.0) (sym a.1) (stored-Once msg room pos);
}

pub restored-Runs : (s : ℕ) (msg : Bytes) → s ≡ 0 → Runs restored s (0 ∷ msg) msg
restored-Runs s msg e = record {
  At = Fresh;
  left = λ _. 0;
  begins = (e, refl);
  call = λ t out room a pos.
      subst₂ (Once restored (0 ∷ msg) msg room) (sym a.0) (sym a.1) (restored-Once msg room);
}

pub stored-IsBlank : (s : ℕ) → s ≡ 0 → IsBlank stored s 0
unfolding store
stored-IsBlank s e = (e, (s, refl, e))

pub restored-IsBlank : (s room : ℕ) → s ≡ 0 → IsBlank restored s room
unfolding restore
restored-IsBlank s room e = (e, (s, refl, e))

abbrev pub no_compression : Flate2 ℕ ℕ
no_compression = record {
  new_compress = λ level bits. 0;
  new_decompress = λ bits. 0;
  deflate = stored;
  inflate = restored;
  reserve = λ capacity len additional. max capacity (len + additional);
  reserves = λ capacity len additional. omega arith;
  deflated = λ level bits d msg. 0 ∷ msg;
  has_bytes = λ level bits d msg. omega arith;
  deflates = λ level bits d msg s h. stored-Runs s msg (Primed-stored d s h);
  no_room = λ level bits d s h. stored-IsBlank s (Primed-stored d s h);
  primes = λ level bits d s h. (0, prime_restored d);
  inflates = λ level bits d msg x h. restored-Runs x msg (Primed-restored d x h);
  no_data = λ bits d x room h. restored-IsBlank x room (Primed-restored d x h);
}
