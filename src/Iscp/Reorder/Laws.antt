-- ===== src/Iscp/Reorder/Laws.antt =====
-- One arrival at a valid reorderer (src/iscp/down_order.rs).
use mathlib.Core.List.{Perm}
use mathlib.Core.List.Perm
use iscp_rs.Base.{
  ℕ, ◌+◌, ◌<◌, ◌≡◌, ◌≢◌, ◌↔◌, refl, sym, ◌∙◌, true, none, some, List, ◌∷◌, ◌++◌, arith, get, length,
  nat_eq, ◌==◌, ◌⊎◌, inl, inr, Bool-cases, subst, subst₂, some_inj, nat_equal_iff, u32_mod,
}
use iscp_rs.Base.BTree
use iscp_rs.Base.BTree.{values}
use iscp_rs.Message.Types.{Uuid}
use iscp_rs.Iscp.Types.{DownstreamChunk, DownstreamConfig}
use iscp_rs.Iscp.Reorder.{Store, Reorderer, new, register, Delivery, delivered, failed, deliver}
use iscp_rs.Iscp.Reorder.Slot.{drain_slot}
use iscp_rs.Iscp.Reorder.Order.{
  drain_slot_perm, Ascending, NoWrap, insert-NoWrap, drain_slot-Ascending,
}
use iscp_rs.Iscp.Reorder.Streams.{Holds, SameElse}
use iscp_rs.Iscp.Reorder.Deliver.{
  IsValid, Present, Absent, Settled, Entered, register_lem, Delivered, refused, drained,
  deliver_lem, known_entry, inserted_lt, inserted-IsStored,
}

pub new-IsValid : (config : DownstreamConfig) → IsValid (new config)
unfolding new get
new-IsValid config u = inl (refl, refl)

-- A change to one stream that leaves it settled keeps the reorderer valid.
pub keep-IsValid :
    (r r' : Reorderer) (u : Uuid) (n : ℕ) (s : Store)
    → IsValid r
    → SameElse r r' u
    → Holds r' u n s
    → Settled u r.limit n s
    → IsValid r'
keep-IsValid r r' u n s v same h settled w = elim (Bool-cases (u == w)) [
  | inl e ↦
      let here : u ≡ w = (nat_equal_iff u w).0 e in
      subst (λ x. Absent r' x ⊎ Present r' x) here
        (inr (n, s, h, subst (λ l. Settled u l n s) (sym same.limit) settled))
  | inr e ↦
      let other : u ≢ w = (λ p. cc ((nat_equal_iff u w).1 p)) in
      elim (v w) [
        | inl (a, b) ↦ inl (same.next w other ∙ a, same.store w other ∙ b)
        | inr (m, t, (a, b), settled') ↦ inr (
          m,
          t,
          (same.next w other ∙ a, same.store w other ∙ b),
          subst (λ l. Settled w l m t) (sym same.limit) settled',
        )
      ]
]

pub Entered-IsValid :
    (r : Reorderer) (c : DownstreamChunk) → IsValid r → Entered r c → IsValid (register r c)
Entered-IsValid r c v e =
    keep-IsValid r (register r c) c.upstream.stream_id e.n e.s v e.same e.holds e.settled

-- An arriving chunk never makes a valid, enabled reorderer panic or run out of fuel (more than the
-- limit and one): `deliver` returns, the new state is valid, so no store outgrows the limit, and
-- neither the flags nor the entries of other streams change.
pub deliver-IsValid :
    (fuel : ℕ) (r : Reorderer) (c : DownstreamChunk)
    → IsValid r
    → r.enabled ≡ true
    → r.limit + 1 < fuel
    → (d : Delivery) × (r' : Reorderer) × (deliver fuel r c ≡ some (d, r'))
      × IsValid r'
      × SameElse r r' c.upstream.stream_id
deliver-IsValid fuel r c v enabled enough =
    go (deliver_lem fuel r c (register_lem r c v) enough enabled)
  where
    go :
        Delivered fuel r c (register_lem r c v)
        → (d : Delivery) × (r' : Reorderer) × (deliver fuel r c ≡ some (d, r'))
          × IsValid r'
          × SameElse r r' c.upstream.stream_id
    go (refused full h) =
        let e = register_lem r c v in
        (failed c.upstream.stream_id, register r c, h, Entered-IsValid r c v e, e.same)
    go (drained r' room h same) =
        (_, r', h.0, keep-IsValid r r' c.upstream.stream_id _ _ v same h.1 h.2, same)

-- The entries that a valid reorderer holds are settled.
held-Settled :
    (r : Reorderer) (u : Uuid) (n : ℕ) (s : Store)
    → IsValid r
    → Holds r u n s
    → Settled u r.limit n s
held-Settled r u n s v h = elim (v u) [
  | inl (a, b) ↦ cc
  | inr (m, t, (a, b), settled) ↦
      subst₂ (Settled u r.limit) (some_inj (sym a ∙ h.0)) (some_inj (sym b ∙ h.1)) settled
]

module _ (fuel : ℕ) (r : Reorderer) (c : DownstreamChunk) (n : ℕ) (s : Store) (v : IsValid r)
    (enabled : r.enabled ≡ true) (enough : r.limit + 1 < fuel)
    (known : Holds r c.upstream.stream_id n s) where
  outcome :
      Delivered fuel r c
        (known_entry r c n s known (held-Settled r c.upstream.stream_id n s v known))
  outcome = deliver_lem fuel r c _ enough enabled

  -- At a known stream `deliver` answers `Error::Reordering` exactly when the reorderer is strict, the
  -- stream's store is at the limit and the chunk is not the one that comes next.
  pub deliver_fails_iff :
      ((r' : Reorderer) × (deliver fuel r c ≡ some (failed c.upstream.stream_id, r')))
      ↔ ((r.is_strict ≡ true) × (length s ≡ r.limit) × (n ≢ c.sequence_number))
  deliver_fails_iff = elim outcome [
    | refused full h ↦
        let settled = held-Settled r c.upstream.stream_id n s v known in
        (λ f. ground (arith, settled.room), λ why. (_, h))
    | drained r' room h same ↦
        (λ f. let (r'', e) = f in let done = h.0 in cc, λ why. absurd (ground arith))
  ]

  -- An accepted chunk whose number is not stored joins the store, and what is then taken out and
  -- what is left are together what was stored.
  pub deliver-perm :
      (cs : List DownstreamChunk) (r' : Reorderer) (n' : ℕ) (s' : Store)
      → get c.sequence_number s ≡ none
      → deliver fuel r c ≡ some (delivered cs, r')
      → Holds r' c.upstream.stream_id n' s'
      → Perm (cs ++ values s') (c ∷ values s)
  deliver-perm cs r' n' s' fresh e h = elim outcome [
    | refused full done ↦ cc
    | drained r'' room facts same ↦
        let inserted = BTree.insert c.sequence_number c s in
        let settled = held-Settled r c.upstream.stream_id n s v known in
        let done = facts.0 in
        let held = facts.1.1 in
        let out : (drain_slot fuel r.is_strict r.limit n inserted).0 ≡ cs = cc in
        let left : (drain_slot fuel r.is_strict r.limit n inserted).2 ≡ s' = cc in
        Perm.trans
          (subst₂ (λ x y. Perm (x ++ values y) (values inserted)) out left
            (drain_slot_perm r.is_strict r.limit fuel n inserted
              (inserted_lt r c fuel n s settled room enough)
              (inserted-IsStored r c fuel n s settled room enough).0).0)
          (BTree.values-insert c.sequence_number c s fresh)
  ]

  -- Below the wrap of the numbers, an accepted chunk makes `deliver` hand over chunks whose numbers
  -- rise.
  pub deliver-Ascending :
      (cs : List DownstreamChunk) (r' : Reorderer)
      → NoWrap s
      → c.sequence_number + 1 < u32_mod
      → deliver fuel r c ≡ some (delivered cs, r')
      → Ascending 0 cs
  deliver-Ascending cs r' below inside e = elim outcome [
    | refused full done ↦ cc
    | drained r'' room facts same ↦
        let inserted = BTree.insert c.sequence_number c s in
        let settled = held-Settled r c.upstream.stream_id n s v known in
        let done = facts.0 in
        let out : (drain_slot fuel r.is_strict r.limit n inserted).0 ≡ cs = cc in
        subst (Ascending 0) out (
          drain_slot-Ascending r.is_strict r.limit fuel n inserted
            (inserted_lt r c fuel n s settled room enough)
            (inserted-IsStored r c fuel n s settled room enough)
            (insert-NoWrap c.sequence_number c s inside below))
  ]
