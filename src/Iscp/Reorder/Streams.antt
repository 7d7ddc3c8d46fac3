-- ===== src/Iscp/Reorder/Streams.antt =====
-- One drain of a reorderer, in terms of the drain of its stream's entries.
use iscp_rs.Base.{
  ℕ, zero, suc, ◌<◌, ◌≡◌, ◌≢◌, refl, ap, ◌∙◌, none, some, List, [], ◌∷◌, arith, get, insert, remove,
  length, wrapping_add, nat_eq, inl, inr, get-insert_self, get-insert_ne,
}
use iscp_rs.Base.BTree
use iscp_rs.Message.Types.{Uuid}
use iscp_rs.Iscp.Types.{DownstreamChunk}
use iscp_rs.Iscp.Reorder.{Store, Reorderer, take_next, pop, drain}
use iscp_rs.Iscp.Reorder.Slot.{drain_slot, take_next_cases}

-- The entries of stream `u`.
abbrev pub Holds : Reorderer → Uuid → ℕ → Store → Type 0
Holds r u n s = (get u r.next ≡ some n) × (get u r.store ≡ some s)

-- `r'` differs from `r` at most in the entries of stream `u`.
pub record SameElse (r r' : Reorderer) (u : Uuid) : Type 0 where
  pub enabled : r'.enabled ≡ r.enabled
  pub strict : r'.is_strict ≡ r.is_strict
  pub limit : r'.limit ≡ r.limit
  pub next : (v : Uuid) → u ≢ v → get v r'.next ≡ get v r.next
  pub store : (v : Uuid) → u ≢ v → get v r'.store ≡ get v r.store

pub SameElse-refl : (r : Reorderer) (u : Uuid) → SameElse r r u
SameElse-refl r u = record {
  enabled = refl;
  strict = refl;
  limit = refl;
  next = λ v h. refl;
  store = λ v h. refl;
}

pub SameElse-trans :
    {r r' r'' : Reorderer} (u : Uuid) → SameElse r r' u → SameElse r' r'' u → SameElse r r'' u
SameElse-trans u a b = record {
  enabled = b.enabled ∙ a.enabled;
  strict = b.strict ∙ a.strict;
  limit = b.limit ∙ a.limit;
  next = λ v h. b.next v h ∙ a.next v h;
  store = λ v h. b.store v h ∙ a.store v h;
}

-- The reorderer with new entries for a stream.
abbrev pub with_entries : Reorderer → Uuid → ℕ → Store → Reorderer
with_entries r u n s = record r { next = insert u n r.next; store = insert u s r.store }

pub with_entries-Holds :
    (r : Reorderer) (u : Uuid) (n : ℕ) (s : Store) → Holds (with_entries r u n s) u n s
with_entries-Holds r u n s = (get-insert_self u n r.next, get-insert_self u s r.store)

pub with_entries-SameElse :
    (r : Reorderer) (u : Uuid) (n : ℕ) (s : Store) → SameElse r (with_entries r u n s) u
with_entries-SameElse r u n s = record {
  enabled = refl;
  strict = refl;
  limit = refl;
  next = λ v h. get-insert_ne u v n r.next h;
  store = λ v h. get-insert_ne u v s r.store h;
}

pop_lem :
    (r : Reorderer) (u : Uuid) (n : ℕ) (s : Store)
    → Holds r u n s
    → let (c, n', s') = take_next r.is_strict r.limit n s in
      pop r u ≡ some (c, with_entries r u n' s')
unfolding pop
pop_lem r u n s h = simp (h.0, h.1, pop)

-- What a drain of stream `u` returns, and the state that it leaves.
pub record Drained (r : Reorderer) (u : Uuid) (out : List DownstreamChunk) (n : ℕ) (s : Store)
    (fuel : ℕ) : Type 0 where
  pub state : Reorderer
  pub runs : drain fuel r u ≡ some (out, state)
  pub holds : Holds state u n s
  pub same : SameElse r state u

drain_stops :
    (fuel : ℕ) (r r' : Reorderer) (u : Uuid)
    → pop r u ≡ some (none, r')
    → drain (suc fuel) r u ≡ some ([], r')
unfolding drain
drain_stops fuel r r' u e = simp (e, drain)

drain_goes_on :
    (fuel : ℕ) (r r' r'' : Reorderer) (u : Uuid) (c : DownstreamChunk) (cs : List DownstreamChunk)
    → pop r u ≡ some (some c, r')
    → drain fuel r' u ≡ some (cs, r'')
    → drain (suc fuel) r u ≡ some (c ∷ cs, r'')
unfolding drain
drain_goes_on fuel r r' r'' u c cs e h = simp (e, h, drain)

-- One more chunk in front of a drain of the state that `pop` leaves.
Drained-cons :
    (fuel : ℕ) (r : Reorderer) (u : Uuid) (c : DownstreamChunk) (m n : ℕ) (t s : Store)
    (cs : List DownstreamChunk)
    → pop r u ≡ some (some c, with_entries r u m t)
    → Drained (with_entries r u m t) u cs n s fuel
    → Drained r u (c ∷ cs) n s (suc fuel)
Drained-cons fuel r u c m n t s cs e d = record {
  state = d.state;
  runs = drain_goes_on fuel r (with_entries r u m t) d.state u c cs e d.runs;
  holds = d.holds;
  same = SameElse-trans u (with_entries-SameElse r u m t) d.same;
}

-- With more fuel than stored chunks, `drain` returns what `drain_slot` returns.
pub drain_lem :
    (fuel : ℕ) (r : Reorderer) (u : Uuid) (n : ℕ) (s : Store)
    → Holds r u n s
    → length s < fuel
    → let (cs, n', s') = drain_slot fuel r.is_strict r.limit n s in Drained r u cs n' s' fuel
unfolding drain_slot
drain_lem zero r u n s h enough = absurd (omega arith)
drain_lem (suc fuel) r u n s h enough = elim (take_next_cases r.is_strict r.limit n s) [
  | inl (e, missing, room) ↦
      simp (e, drain_slot)
        (record {
          state = with_entries r u n s;
          runs = drain_stops fuel r (with_entries r u n s) u (simp e at (pop_lem r u n s h));
          holds = with_entries-Holds r u n s;
          same = with_entries-SameElse r u n s;
        })
  | inr (inl (k, c, rest, lax, full, here, e)) ↦
      simp (e, drain_slot)
        (Drained-cons fuel r u c (wrapping_add k 1) _ rest _ _ (simp e at (pop_lem r u n s h)) (
          drain_lem fuel (with_entries r u (wrapping_add k 1) rest) u (wrapping_add k 1) rest
            (with_entries-Holds r u (wrapping_add k 1) rest) (omega (arith, ap length here))))
  | inr (inr (c, here, room, e)) ↦
      simp (e, drain_slot)
        (Drained-cons fuel r u c (wrapping_add n 1) _ (remove n s) _ _
          (simp e at (pop_lem r u n s h))
          (drain_lem fuel (with_entries r u (wrapping_add n 1) (remove n s)) u (wrapping_add n 1)
            (remove n s) (with_entries-Holds r u (wrapping_add n 1) (remove n s))
            (omega (arith, BTree.length-remove_lt n s c here))))
]
