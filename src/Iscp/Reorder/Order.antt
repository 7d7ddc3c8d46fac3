-- ===== src/Iscp/Reorder/Order.antt =====
-- In what order one drain takes out the chunks of a stream (src/iscp/down_order.rs).
use mathlib.Core.List.{Perm}
use mathlib.Core.List.Perm
use iscp_rs.Base.{
  ℕ, ◌+◌, ◌≤◌, ◌<◌, ◌≡◌, refl, Bool, true, false, none, some, List, [], ◌∷◌, ◌++◌, arith, get,
  remove, length, wrapping_add, u32_mod, All, nat_eq, ◌==◌, ◌⊎◌, inl, inr, subst, Bool-cases,
}
use iscp_rs.Base.BTree
use iscp_rs.Base.BTree.{values, IsSorted}
use iscp_rs.Iscp.Types.{DownstreamChunk}
use iscp_rs.Iscp.Reorder.{Store}
use iscp_rs.Iscp.Reorder.Slot.{
  drain_slot, drain_slot_rule, Waits, IsKeyed, remove-IsKeyed, get-IsKeyed,
}

-- The numbers are `n`, `n + 1`, and so on, round at 2^32.
abbrev pub Consecutive : ℕ → List DownstreamChunk → Type 0
Consecutive n [] = Unit {0}
Consecutive n (c ∷ cs) = (c.sequence_number ≡ n) × Consecutive (wrapping_add n 1) cs

-- The number after `n` and those of the chunks.
abbrev pub advance : ℕ → List DownstreamChunk → ℕ
advance n [] = n
advance n (c ∷ cs) = advance (wrapping_add n 1) cs

-- The numbers rise from `n` on.
abbrev pub Ascending : ℕ → List DownstreamChunk → Type 0
Ascending n [] = Unit {0}
Ascending n (c ∷ cs) = (n ≤ c.sequence_number) × Ascending (c.sequence_number + 1) cs

abbrev pub IsStored : Store → Type 0
IsStored s = IsSorted s × IsKeyed s

-- Every stored chunk satisfies `P`.
abbrev pub Stored : (DownstreamChunk → Type 0) → Store → Type 0
Stored P = All (λ (e : ℕ × DownstreamChunk). P e.1)

remove-Stored :
    (P : DownstreamChunk → Type 0) (k : ℕ) (s : Store) → Stored P s → Stored P (remove k s)
unfolding remove
remove-Stored P k [] h = tt
remove-Stored P k ((j, c) ∷ s) h = ground (arith, remove-Stored P k s h.1)

get-Stored :
    (P : DownstreamChunk → Type 0) (k : ℕ) (s : Store) (c : DownstreamChunk)
    → Stored P s
    → get k s ≡ some c
    → P c
unfolding get
get-Stored P k [] c h e = cc
get-Stored P k ((j, d) ∷ s) c h e = elim (Bool-cases (j == k)) [
  | inl hit ↦ let same : d ≡ c = ground arith in subst P same h.0
  | inr miss ↦ get-Stored P k s c h.1 (ground arith)
]

pub insert-Stored :
    (P : DownstreamChunk → Type 0) (k : ℕ) (c : DownstreamChunk) (s : Store)
    → P c
    → Stored P s
    → Stored P (BTree.insert k c s)
unfolding BTree.insert
insert-Stored P k c [] p h = (p, tt)
insert-Stored P k c ((j, d) ∷ s) p h = ground (arith, insert-Stored P k c s p h.1)

module _ (in_order : Bool) (limit : ℕ) (fuel n : ℕ) (s : Store) (enough : length s < fuel) where
  -- A drain ends where the next number is missing, with a lax store below its limit.
  pub drain_slot_done :
      let (cs, n', s') = drain_slot fuel in_order limit n s in
      (get n' s' ≡ none) × (Waits in_order limit s' ⊎ (s' ≡ []))
  drain_slot_done =
      drain_slot_rule in_order limit
        (λ n s cs n' s'. (get n' s' ≡ none) × (Waits in_order limit s' ⊎ (s' ≡ [])))
        (λ n s e w. (e, w)) (λ n k c rest cs n' s' lax full h. h) (λ n c s cs n' s' e w h. h) fuel n
        s enough

  -- What is taken out and what is left are what was stored.
  pub drain_slot_perm :
      IsSorted s
      → let (cs, n', s') = drain_slot fuel in_order limit n s in
        Perm (cs ++ values s') (values s) × IsSorted s'
  unfolding values
  drain_slot_perm =
      drain_slot_rule in_order limit
        (λ n s cs n' s'. IsSorted s → Perm (cs ++ values s') (values s) × IsSorted s')
        (λ n s e w sorted. (Perm.refl (values s), sorted))
        (λ n k c rest cs n' s' lax full h sorted. (Perm.cons c (h sorted.1).0, (h sorted.1).1))
        (λ n c s cs n' s' e w h sorted.
          let after = h (BTree.remove-IsSorted n s sorted) in
          (Perm.trans (Perm.cons c after.0) (BTree.values-remove n s c sorted e), after.1))
        fuel n s enough

  pub drain_slot-IsKeyed : IsKeyed s → IsKeyed (drain_slot fuel in_order limit n s).2
  drain_slot-IsKeyed =
      drain_slot_rule in_order limit (λ n s cs n' s'. IsKeyed s → IsKeyed s') (λ n s e w k. k)
        (λ n k c rest cs n' s' lax full h keyed. h keyed.1)
        (λ n c s cs n' s' e w h keyed. h (remove-IsKeyed n s keyed)) fuel n s enough

  pub drain_slot_le : length (drain_slot fuel in_order limit n s).2 ≤ length s
  drain_slot_le =
      drain_slot_rule in_order limit (λ n s cs n' s'. length s' ≤ length s) (λ n s e w. omega arith)
        (λ n k c rest cs n' s' lax full h. omega arith)
        (λ n c s cs n' s' e w h. omega (arith, BTree.length-remove_le n s)) fuel n s enough

  -- A drain that finds the next number takes out at least that chunk.
  pub drain_slot_lt :
      (c : DownstreamChunk)
      → get n s ≡ some c
      → length (drain_slot fuel in_order limit n s).2 < length s
  drain_slot_lt c e =
      (drain_slot_rule in_order limit
          (λ n s cs n' s'. (length s' ≤ length s) × (get n s ≡ some c → length s' < length s))
          (λ n s e w. (omega arith, λ e'. cc))
          (λ n k c rest cs n' s' lax full h. (omega arith, λ e. omega arith))
          (λ n d s cs n' s' e w h.
            let l = BTree.length-remove_lt n s d e in (omega arith, λ e'. omega arith))
          fuel n s enough).1
        e

  -- What holds of every stored chunk holds of those taken out and of those left.
  pub drain_slot-All :
      (P : DownstreamChunk → Type 0)
      → Stored P s
      → let (cs, n', s') = drain_slot fuel in_order limit n s in All P cs × Stored P s'
  drain_slot-All P =
      drain_slot_rule in_order limit (λ n s cs n' s'. Stored P s → All P cs × Stored P s')
        (λ n s e w h. (tt, h))
        (λ n k c rest cs n' s' lax full h all. ((all.0, (h all.1).0), (h all.1).1))
        (λ n c s cs n' s' e w h all.
          let after = h (remove-Stored P n s all) in ((get-Stored P n s c all e, after.0), after.1))
        fuel n s enough

-- A strict drain takes out consecutive numbers from `n` on.
pub drain_slot-Consecutive :
    (in_order : Bool) (limit fuel n : ℕ) (s : Store)
    → in_order ≡ true
    → length s < fuel
    → IsKeyed s
    → let (cs, n', s') = drain_slot fuel in_order limit n s in
      Consecutive n cs × (n' ≡ advance n cs)
drain_slot-Consecutive in_order limit fuel n s strict enough =
    drain_slot_rule in_order limit
      (λ n s cs n' s'. IsKeyed s → Consecutive n cs × (n' ≡ advance n cs)) (λ n s e w k. (tt, refl))
      (λ n k c rest cs n' s' lax full h keyed. cc)
      (λ n c s cs n' s' e w h keyed.
        let after = h (remove-IsKeyed n s keyed) in ((get-IsKeyed n s c keyed e, after.0), after.1))
      fuel n s enough

-- Every key is at least `b`.
abbrev From : ℕ → Store → Type 0
From b = All (λ (e : ℕ × DownstreamChunk). b ≤ e.0)

Above-From : (n : ℕ) (s : Store) → BTree.Above n s → From (n + 1) s
Above-From n [] h = tt
Above-From n ((j, c) ∷ s) h = (omega arith, Above-From n s h.1)

From-zero : (s : Store) → From 0 s
From-zero [] = tt
From-zero ((j, c) ∷ s) = (omega arith, From-zero s)

-- No key is the last number before the wrap.
abbrev pub NoWrap : Store → Type 0
NoWrap = All (λ (e : ℕ × DownstreamChunk). e.0 + 1 < u32_mod)

get-NoWrap :
    (k : ℕ) (s : Store) (c : DownstreamChunk) → NoWrap s → get k s ≡ some c → k + 1 < u32_mod
unfolding get
get-NoWrap k [] c h e = ground arith
get-NoWrap k ((j, d) ∷ s) c h e = ground (arith, get-NoWrap k s c h.1)

remove-NoWrap : (k : ℕ) (s : Store) → NoWrap s → NoWrap (remove k s)
unfolding remove
remove-NoWrap k [] h = tt
remove-NoWrap k ((j, c) ∷ s) h = ground (arith, remove-NoWrap k s h.1)

pub insert-NoWrap :
    (k : ℕ) (c : DownstreamChunk) (s : Store)
    → k + 1 < u32_mod
    → NoWrap s
    → NoWrap (BTree.insert k c s)
unfolding BTree.insert
insert-NoWrap k c [] e h = (e, tt)
insert-NoWrap k c ((j, d) ∷ s) e h = ground (arith, insert-NoWrap k c s e h.1)

-- What a drain from `b` on needs: `n` and, in a full lax store, every key are at least `b`.
abbrev Rises : Bool → ℕ → ℕ → Store → List DownstreamChunk → ℕ → Store → Type 0
Rises in_order limit n s cs n' s' =
    (b : ℕ) → b ≤ n → From b s ⊎ Waits in_order limit s → IsStored s → NoWrap s → Ascending b cs

ascend :
    (b k : ℕ) (c : DownstreamChunk) (cs : List DownstreamChunk)
    → c.sequence_number ≡ k
    → b ≤ k
    → Ascending (k + 1) cs
    → Ascending b (c ∷ cs)
ascend b k c cs e h rest = (rw e h, rw e rest)

Rises-first :
    (in_order : Bool) (limit n k : ℕ) (c : DownstreamChunk) (rest : Store)
    (cs : List DownstreamChunk) (n' : ℕ) (s' : Store)
    → in_order ≡ false
    → limit ≤ length ((k, c) ∷ rest)
    → Rises in_order limit (wrapping_add k 1) rest cs n' s'
    → Rises in_order limit n ((k, c) ∷ rest) (c ∷ cs) n' s'
Rises-first in_order limit n k c rest cs n' s' lax full h b hb (inl low) stored no_wrap =
    ascend b k c cs stored.1.0 low.0 (
      h (k + 1) (omega arith) (inl (Above-From k rest stored.0.0)) (stored.0.1, stored.1.1)
        no_wrap.1)
Rises-first in_order limit n k c rest cs n' s' lax full h b hb (inr (inl e)) stored no_wrap = cc
Rises-first in_order limit n k c rest cs n' s' lax full h b hb (inr (inr e)) stored no_wrap =
    absurd (omega arith)

Rises-found :
    (in_order : Bool) (limit n : ℕ) (c : DownstreamChunk) (s : Store) (cs : List DownstreamChunk)
    (n' : ℕ) (s' : Store)
    → get n s ≡ some c
    → Waits in_order limit s
    → Rises in_order limit (wrapping_add n 1) (remove n s) cs n' s'
    → Rises in_order limit n s (c ∷ cs) n' s'
Rises-found in_order limit n c s cs n' s' e w h b hb low stored no_wrap =
    let inside : n + 1 < u32_mod = get-NoWrap n s c no_wrap e in
    ascend b n c cs (get-IsKeyed n s c stored.1 e) hb (
      h (n + 1) (omega arith) (inr (waits w))
        (BTree.remove-IsSorted n s stored.0, remove-IsKeyed n s stored.1)
        (remove-NoWrap n s no_wrap))
  where
    waits : Waits in_order limit s → Waits in_order limit (remove n s)
    waits (inl e) = inl e
    waits (inr e) = inr (omega (arith, BTree.length-remove_le n s))

-- Below the wrap any drain takes out rising numbers.
pub drain_slot-Ascending :
    (in_order : Bool) (limit fuel n : ℕ) (s : Store)
    → length s < fuel
    → IsStored s
    → NoWrap s
    → Ascending 0 (drain_slot fuel in_order limit n s).0
drain_slot-Ascending in_order limit fuel n s enough stored no_wrap =
    drain_slot_rule in_order limit (Rises in_order limit) (λ n s e w b hb low stored no_wrap. tt)
      (Rises-first in_order limit) (Rises-found in_order limit) fuel n s enough 0 (omega arith)
      (inl (From-zero s)) stored no_wrap
