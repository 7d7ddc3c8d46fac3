-- ===== src/Transport/Compression/Dictionary.antt =====
-- `DictionaryBuffer` over a run of messages (src/transport/compression.rs).
use iscp_rs.Base.{
  ℕ, zero, suc, ◌+◌, ◌-◌, ◌*◌, ◌^◌, ◌≤◌, ◌<◌, ◌≡◌, refl, ap, sym, ◌∙◌, ◌&&◌, none, some, List, [],
  ◌∷◌, ◌++◌, arith, append_assoc, append-nil, leb, length, drop, length-append, length-drop,
  drop-add, inl, inr, Bool-cases, subst, some_inj,
}
use iscp_rs.Message.Types.{Bytes}
use iscp_rs.Transport.Compression.{DictionaryBuffer, new_dictionary, push_msg}

-- The last `n` bytes.
abbrev pub last_bytes : ℕ → Bytes → Bytes
last_bytes n bytes = drop (length bytes - n) bytes

unfoldable pub push_all : DictionaryBuffer → List Bytes → DictionaryBuffer
push_all d [] = d
push_all d (msg ∷ msgs) = push_all (push_msg d msg) msgs

unfoldable pub concat : List Bytes → Bytes
concat [] = []
concat (msg ∷ msgs) = msg ++ concat msgs

drop-append_lt : (n : ℕ) (xs ys : Bytes) → n ≤ length xs → drop n (xs ++ ys) ≡ drop n xs ++ ys
drop-append_lt zero xs ys h = refl
drop-append_lt (suc n) [] ys h = absurd (omega arith)
drop-append_lt (suc n) (x ∷ xs) ys h = drop-append_lt n xs ys (omega arith)

drop-append_ge :
    (n : ℕ) (xs ys : Bytes) → length xs ≤ n → drop n (xs ++ ys) ≡ drop (n - length xs) ys
drop-append_ge n [] ys h = ap (λ k. drop k ys) (omega arith)
drop-append_ge zero (x ∷ xs) ys h = absurd (omega arith)
drop-append_ge (suc n) (x ∷ xs) ys h =
    drop-append_ge n xs ys (omega arith) ∙ ap (λ k. drop k ys) (omega arith)

-- A message joins the history behind a dictionary.
push_msg-history :
    (d : DictionaryBuffer) (history msg : Bytes)
    → d.buf ≡ last_bytes d.size history
    → push_msg d msg ≡ record d { buf = last_bytes d.size (history ++ msg) }
unfolding push_msg
push_msg-history d history msg h =
    let len_buf : length d.buf ≡ length history - (length history - d.size) =
      ap length h ∙ length-drop (length history - d.size) history in
    let whole = length-append history msg in
    let keeps = (λ (b : Bytes). record d { buf = b }) in
    elim (Bool-cases (leb d.size (length msg))) [
      | inl long ↦
          let le : d.size ≤ length msg = ground arith in
          rw long (
            ap keeps (
              sym (
                drop-append_ge (length (history ++ msg) - d.size) history msg
                  (omega (arith, whole, le))
                ∙ ap (λ k. drop k msg) (omega (arith, whole, le)))))
      | inr short ↦
          let lt : length msg < d.size = ground arith in
          let split : (k : ℕ)
              → k ≡ length (history ++ msg) - d.size
              → drop k history ++ msg ≡ last_bytes d.size (history ++ msg) =
            λ k e.
              ap (λ i. drop i history ++ msg) e
              ∙ sym (
                  drop-append_lt (length (history ++ msg) - d.size) history msg
                    (omega (arith, whole, lt))) in
          elim (Bool-cases (leb (length msg) (d.size - length d.buf))) [
            | inl fits ↦
                let le : length msg ≤ d.size - length d.buf = ground arith in
                rw (short, fits)
                  (ap keeps (
                    ap (λ b. b ++ msg) h
                    ∙ split (length history - d.size) (omega (arith, whole, len_buf, le, lt))))
            | inr over ↦
                let gt : d.size - length d.buf < length msg = ground arith in
                let joined = length-append d.buf msg in
                let k = length (d.buf ++ msg) - d.size in
                rw (short, over)
                  (ap keeps (
                    drop-append_lt k d.buf msg (omega (arith, joined, lt))
                    ∙ (ap (λ b. drop k b ++ msg) h
                        ∙ (ap (λ b. b ++ msg) (sym (drop-add (length history - d.size) k history))
                            ∙ split (length history - d.size + k)
                                (omega (arith, whole, len_buf, joined, gt, lt))))))
          ]
    ]

push_all-from :
    (d : DictionaryBuffer) (history : Bytes) (msgs : List Bytes)
    → d.buf ≡ last_bytes d.size history
    → push_all d msgs ≡ record d { buf = last_bytes d.size (history ++ concat msgs) }
unfolding push_all concat
push_all-from d history [] h =
    ap (λ b. record d { buf = b }) (h ∙ ap (last_bytes d.size) (sym (append-nil history)))
push_all-from d history (msg ∷ msgs) h =
    let step = push_msg-history d history msg h in
    ap (λ e. push_all e msgs) step
    ∙ (push_all-from (record d { buf = last_bytes d.size (history ++ msg) }) (history ++ msg) msgs
          refl
        ∙ ap (λ b. record d { buf = last_bytes d.size b }) (append_assoc history msg (concat msgs)))

none-some : {d : DictionaryBuffer} → ¬ (none ≡ some d)
none-some h = cc

drop_nil : (n : ℕ) → drop {A = ℕ} n [] ≡ []
drop_nil zero = refl
drop_nil (suc n) = refl

empty_last : (n : ℕ) → [] ≡ last_bytes n []
empty_last n = sym (drop_nil (0 - n))

new_dictionary-empty :
    (window_bits : ℕ) (d : DictionaryBuffer)
    → new_dictionary window_bits ≡ some d
    → d ≡ record { size = 2 * 2 ^ (window_bits - 1); buf = [] }
unfolding new_dictionary
new_dictionary-empty window_bits d h = elim (Bool-cases (leb 9 window_bits && leb window_bits 15)) [
  | inl good ↦ sym (some_inj (rw good at h))
  | inr bad ↦ absurd (none-some (rw bad at h))
]

-- A dictionary that was made for some window bits, after any messages in turn, holds exactly the last
-- `2^window_bits` bytes of all of them joined, or all bytes when there are fewer; so it never holds
-- more.
pub push_all_lem :
    (window_bits : ℕ) (d : DictionaryBuffer) (msgs : List Bytes)
    → new_dictionary window_bits ≡ some d
    → ((push_all d msgs).buf ≡ last_bytes (2 * 2 ^ (window_bits - 1)) (concat msgs))
      × (length (push_all d msgs).buf ≤ 2 * 2 ^ (window_bits - 1))
push_all_lem window_bits d msgs h =
    let size = 2 * 2 ^ (window_bits - 1) in
    let buffer : (push_all d msgs).buf ≡ last_bytes size (concat msgs) =
      ap (λ e. (push_all e msgs).buf) (new_dictionary-empty window_bits d h)
      ∙ ap (λ e. e.buf)
          (push_all-from (record { size = size; buf = [] }) [] msgs (empty_last size)) in
    (
      buffer,
      subst (λ b. length b ≤ size) (sym buffer)
          (omega (arith, length-drop (length (concat msgs) - size) (concat msgs))),
    )
