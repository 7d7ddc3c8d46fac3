-- ===== src/Iscp/Reorder/Slot.antt =====
-- The entries of one stream: what one drain of them takes out, and what it leaves.
use iscp_rs.Base.{
  ℕ, zero, suc, ◌≤◌, ◌<◌, ◌≡◌, refl, ap, Bool, true, false, none, some, List, [], ◌∷◌, arith, get,
  remove, length, wrapping_add, All, nat_eq, Option-cases, ◌⊎◌, inl, inr, leb, leb→le, Bool-cases,
}
use iscp_rs.Base.BTree
use iscp_rs.Iscp.Types.{DownstreamChunk}
use iscp_rs.Iscp.Reorder.{Store, take_next}

-- `drain` over the two entries of a stream.
unfoldable pub drain_slot : ℕ → Bool → ℕ → ℕ → Store → List DownstreamChunk × ℕ × Store
drain_slot zero in_order limit next store = ([], next, store)
drain_slot (suc fuel) in_order limit next store =
    let (taken, next', store') = take_next in_order limit next store in
    elim taken [
      | none ↦ ([], next', store')
      | some chunk ↦
          let (chunks, next'', store'') = drain_slot fuel in_order limit next' store' in
          (chunk ∷ chunks, next'', store'')
    ]

-- Each chunk is stored under its own number.
abbrev pub IsKeyed : Store → Type 0
IsKeyed = All (λ (e : ℕ × DownstreamChunk). e.1.sequence_number ≡ e.0)

pub remove-IsKeyed : (k : ℕ) (s : Store) → IsKeyed s → IsKeyed (remove k s)
unfolding remove
remove-IsKeyed k [] h = tt
remove-IsKeyed k ((j, c) ∷ s) h = ground (arith, remove-IsKeyed k s h.1)

pub get-IsKeyed :
    (k : ℕ) (s : Store) (c : DownstreamChunk) → IsKeyed s → get k s ≡ some c → c.sequence_number ≡ k
unfolding get
get-IsKeyed k [] c h e = ground arith
get-IsKeyed k ((j, d) ∷ s) c h e = ground (arith, get-IsKeyed k s c h.1)

pub insert-IsKeyed :
    (k : ℕ) (c : DownstreamChunk) (s : Store)
    → c.sequence_number ≡ k
    → IsKeyed s
    → IsKeyed (BTree.insert k c s)
unfolding BTree.insert
insert-IsKeyed k c [] e h = (e, tt)
insert-IsKeyed k c ((j, d) ∷ s) e h = ground (arith, insert-IsKeyed k c s e h.1)

-- A lax store below its limit, or any strict one: `take_next` looks for the next number.
abbrev pub Waits : Bool → ℕ → Store → Type 0
Waits in_order limit s = (in_order ≡ true) ⊎ (length s < limit)

-- What one `take_next` may do: nothing, take the least entry of a full lax store, or take the entry
-- that is next.
abbrev pub Nothing : Bool → ℕ → ℕ → Store → Type 0
Nothing in_order limit next s =
    (take_next in_order limit next s ≡ (none, next, s))
    × (get next s ≡ none)
    × (Waits in_order limit s ⊎ (s ≡ []))

abbrev pub First : Bool → ℕ → ℕ → Store → Type 0
First in_order limit next s =
    (n : ℕ) × (c : DownstreamChunk) × (rest : Store) × (in_order ≡ false)
    × (limit ≤ length s)
    × (s ≡ (n, c) ∷ rest)
    × (take_next in_order limit next s ≡ (some c, wrapping_add n 1, rest))

abbrev pub Found : Bool → ℕ → ℕ → Store → Type 0
Found in_order limit next s =
    (c : DownstreamChunk) × (get next s ≡ some c)
    × Waits in_order limit s
    × (take_next in_order limit next s ≡ (some c, wrapping_add next 1, remove next s))

pub take_next_cases :
    (in_order : Bool) (limit next : ℕ) (s : Store)
    → Nothing in_order limit next s ⊎ First in_order limit next s ⊎ Found in_order limit next s
unfolding take_next get
take_next_cases in_order limit next [] = inl (refl, refl, inr refl)
take_next_cases true limit next ((n, c) ∷ rest) = elim (Option-cases (get next ((n, c) ∷ rest))) [
  | inl e ↦ inl (rw (e, take_next), e, inl (inl refl))
  | inr (d, e) ↦ inr (inr (d, e, inl refl, rw (e, take_next)))
]
take_next_cases false limit next ((n, c) ∷ rest) =
    elim (Bool-cases (leb limit (length ((n, c) ∷ rest)))) [
      | inl full ↦ inr (inl (n, c, rest, refl, leb→le _ _ full, refl, rw (full, take_next)))
      | inr free ↦
          let room : suc (length rest) < limit = ground arith in
          elim (Option-cases (get next ((n, c) ∷ rest))) [
            | inl e ↦ inl (rw (free, take_next) (rw (e, take_next)), e, inl (inr room))
            | inr (d, e) ↦ inr (inr (d, e, inr room, rw (free, take_next) (rw (e, take_next))))
          ]
    ]

-- What holds of the result of a drain is proved by what the three steps do.
pub drain_slot_rule {ℓ} :
    (in_order : Bool) (limit : ℕ) (P : ℕ → Store → List DownstreamChunk → ℕ → Store → Type ℓ)
    → ((n : ℕ) (s : Store) → get n s ≡ none → Waits in_order limit s ⊎ (s ≡ []) → P n s [] n s)
    → ((n k : ℕ) (c : DownstreamChunk) (rest : Store) (cs : List DownstreamChunk) (n' : ℕ)
          (s' : Store)
        → in_order ≡ false
        → limit ≤ length ((k, c) ∷ rest)
        → P (wrapping_add k 1) rest cs n' s'
        → P n ((k, c) ∷ rest) (c ∷ cs) n' s')
    → ((n : ℕ) (c : DownstreamChunk) (s : Store) (cs : List DownstreamChunk) (n' : ℕ) (s' : Store)
        → get n s ≡ some c
        → Waits in_order limit s
        → P (wrapping_add n 1) (remove n s) cs n' s'
        → P n s (c ∷ cs) n' s')
    → (fuel n : ℕ) (s : Store) → length s < fuel
    → let (cs, n', s') = drain_slot fuel in_order limit n s in P n s cs n' s'
unfolding drain_slot
drain_slot_rule in_order limit P stop first found zero n s h = absurd (omega arith)
drain_slot_rule in_order limit P stop first found (suc fuel) n s h =
    elim (take_next_cases in_order limit n s) [
      | inl (e, missing, room) ↦ simp (e, drain_slot) (stop n s missing room)
      | inr (inl (k, c, rest, lax, full, here, e)) ↦
          simp (e, drain_slot)
            (rw here (
              first n k c rest _ _ _ lax (rw here at full) (
                drain_slot_rule in_order limit P stop first found fuel (wrapping_add k 1) rest
                  (omega (arith, ap length here)))))
      | inr (inr (c, here, room, e)) ↦
          simp (e, drain_slot)
            (found n c s _ _ _ here room (
              drain_slot_rule in_order limit P stop first found fuel (wrapping_add n 1) (remove n s)
                (omega (arith, BTree.length-remove_lt n s c here))))
    ]
