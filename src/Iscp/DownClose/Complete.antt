-- ===== src/Iscp/DownClose/Complete.antt =====
-- When the wait of a downstream that closes ends well.
use iscp_rs.Base.{
  leb, ◌⊎◌, ◌≤◌, some_inj, ℕ, ◌≡◌, ◌↔◌, refl, ap, sym, ◌∙◌, Bool, true, false, Option, none, some,
  List, [], ◌∷◌, arith, max, inl, inr, Bool-cases,
}
use iscp_rs.Message.Chunks.{DownstreamChunkAckComplete}
use iscp_rs.Iscp.DownState.{check_chunk_ack_complete}
use iscp_rs.Iscp.DownClose.{
  Received, completed, another, senders_gone, WaitEnd, all_complete, channel_closed, timed_out,
  is_complete, wait_complete,
}

-- The highest id, among `c` and those that are completed before the channel ends.
unfoldable pub highest : ℕ → List Received → ℕ
highest c [] = c
highest c (completed m ∷ ms) = highest (max c m.ack_id) ms
highest c (another ∷ ms) = highest c ms
highest c (senders_gone ∷ ms) = c

checked_max :
    (m : DownstreamChunkAckComplete) (c : ℕ) → check_chunk_ack_complete m c ≡ max c m.ack_id
unfolding check_chunk_ack_complete
checked_max m c = ground arith

later_complete :
    (last : Option ℕ) (c d : ℕ) → is_complete last c ≡ true → is_complete last (max c d) ≡ true
unfolding is_complete
later_complete none c d h = refl
later_complete (some n) c d h = ground (arith, h)

highest_complete :
    (last : Option ℕ) (c : ℕ) (ms : List Received)
    → is_complete last c ≡ true
    → is_complete last (highest c ms) ≡ true
unfolding highest
highest_complete last c [] h = h
highest_complete last c (completed m ∷ ms) h =
    highest_complete last (max c m.ack_id) ms (later_complete last c m.ack_id h)
highest_complete last c (another ∷ ms) h = highest_complete last c ms h
highest_complete last c (senders_gone ∷ ms) h = h

is_done : WaitEnd → Bool
is_done all_complete = true
is_done channel_closed = false
is_done timed_out = false

is_done-wait :
    (last : Option ℕ) (c : ℕ) (ms : List Received)
    → is_done (wait_complete last c ms) ≡ is_complete last (highest c ms)
unfolding highest wait_complete is_done
is_done-wait last c [] = elim (Bool-cases (is_complete last c)) [
  | inl h ↦ rw h refl
  | inr h ↦ rw h refl
]
is_done-wait last c (completed m ∷ ms) = elim (Bool-cases (is_complete last c)) [
  | inl h ↦ rw h (sym (highest_complete last c (completed m ∷ ms) h))
  | inr h ↦ rw h (
      is_done-wait last (check_chunk_ack_complete m c) ms
      ∙ ap (λ k. is_complete last (highest k ms)) (checked_max m c))
]
is_done-wait last c (another ∷ ms) = elim (Bool-cases (is_complete last c)) [
  | inl h ↦ rw h (sym (highest_complete last c (another ∷ ms) h))
  | inr h ↦ rw h (is_done-wait last c ms)
]
is_done-wait last c (senders_gone ∷ ms) = elim (Bool-cases (is_complete last c)) [
  | inl h ↦ rw h refl
  | inr h ↦ rw h refl
]

done-all_complete : (w : WaitEnd) → (is_done w ≡ true) ↔ (w ≡ all_complete)
unfolding is_done
done-all_complete all_complete = (λ _. refl, λ _. refl)
done-all_complete channel_closed = (λ h. cc, λ h. cc)
done-all_complete timed_out = (λ h. cc, λ h. cc)

complete_iff :
    (last : Option ℕ) (c : ℕ)
    → (is_complete last c ≡ true) ↔ ((last ≡ none) ⊎ ((n : ℕ) × (last ≡ some n) × (n ≤ c)))
unfolding is_complete
complete_iff none c = (λ _. inl refl, λ _. refl)
complete_iff (some n) c = (λ h. inr (n, refl, ground (arith, h)), met)
  where
    met : (some n ≡ none) ⊎ ((k : ℕ) × (some n ≡ some k) × (k ≤ c)) → leb n c ≡ true
    met (inl h) = cc
    met (inr (k, e, l)) = let same : n ≡ k = some_inj e in ground (arith, same, l)

-- The wait ends with all acknowledgements complete exactly if none was issued, or the id of the last
-- one issued is at most the highest that counts as complete: of the one that did when the wait began,
-- and of those that messages name before the channel ends or the time is over. In every other case
-- it ends without.
pub wait_complete_iff :
    (last : Option ℕ) (c : ℕ) (ms : List Received)
    → (wait_complete last c ms ≡ all_complete)
      ↔ ((last ≡ none) ⊎ ((n : ℕ) × (last ≡ some n) × (n ≤ highest c ms)))
wait_complete_iff last c ms =
    let same = is_done-wait last c ms in
    let (there, back) = done-all_complete (wait_complete last c ms) in
    let (met, given) = complete_iff last (highest c ms) in
    (λ h. met (sym same ∙ back h), λ h. there (same ∙ given h))
