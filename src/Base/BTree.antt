-- ===== src/Base/BTree.antt =====
-- `BTreeMap<u32, V>`: an association list in the order of its keys. `get` and `remove` are those
-- of `Maps`.
use Prim.Native.Nat.{ℕ, suc, ◌≤◌, ◌<◌}
use mathlib.Core.Path.{◌≡◌, refl}
use mathlib.Core.List.{List, [], ◌∷◌}
use mathlib.Core.Option.{none, some}
use native.Mathlib.Omega.{arith}
use mathlib.Core.Bool.{false}
use mathlib.Core.Logic.{inl, inr}
use mathlib.Core.List.{Perm}
use mathlib.Core.List.Perm
use mathlib.Core.Path.{subst}
use iscp_rs.Base.Tests.{Bool-cases, ◌==◌, if◌then◌else◌, ltb, nat_eq}
use iscp_rs.Base.Lists.{length}
use iscp_rs.Base.Maps.{Map, get, remove}

module _ {ℓ} {V : Type ℓ} where
  unfoldable pub insert : ℕ → V → Map ℕ V → Map ℕ V
  insert k v [] = (k, v) ∷ []
  insert k v ((j, w) ∷ m) =
      if ltb k j then (k, v) ∷ (j, w) ∷ m else if j == k then (k, v) ∷ m else (j, w) ∷ insert k v m

  -- Every key of the map is greater than `k`.
  abbrev pub Above : ℕ → Map ℕ V → Type 0
  Above k [] = Unit {0}
  Above k ((j, w) ∷ m) = (k < j) × Above k m

  abbrev pub IsSorted : Map ℕ V → Type 0
  IsSorted [] = Unit {0}
  IsSorted ((j, w) ∷ m) = Above j m × IsSorted m

  Above-mono : (i k : ℕ) (m : Map ℕ V) → i ≤ k → Above k m → Above i m
  Above-mono i k [] h a = tt
  Above-mono i k ((j, w) ∷ m) h a = (omega arith, Above-mono i k m h a.1)

  Above-insert : (i k : ℕ) (v : V) (m : Map ℕ V) → i < k → Above i m → Above i (insert k v m)
  unfolding insert
  Above-insert i k v [] h a = (h, tt)
  Above-insert i k v ((j, w) ∷ m) h a = ground (arith, Above-insert i k v m h a.1)

  pub insert-IsSorted : (k : ℕ) (v : V) (m : Map ℕ V) → IsSorted m → IsSorted (insert k v m)
  unfolding insert
  insert-IsSorted k v [] s = (tt, tt)
  insert-IsSorted k v ((j, w) ∷ m) s =
      ground (arith, insert-IsSorted k v m s.1, Above-insert j k v m, Above-mono k j m, s.0)

  Above-remove : (i k : ℕ) (m : Map ℕ V) → Above i m → Above i (remove k m)
  unfolding remove
  Above-remove i k [] a = tt
  Above-remove i k ((j, w) ∷ m) a = ground (arith, Above-remove i k m a.1)

  pub remove-IsSorted : (k : ℕ) (m : Map ℕ V) → IsSorted m → IsSorted (remove k m)
  unfolding remove
  remove-IsSorted k [] s = tt
  remove-IsSorted k ((j, w) ∷ m) s = ground (arith, remove-IsSorted k m s.1, Above-remove j k m s.0)

  pub get-insert :
      (k j : ℕ) (v : V) (m : Map ℕ V) → get j (insert k v m) ≡ (if k == j then some v else get j m)
  unfolding get insert
  get-insert k j v [] = refl
  get-insert k j v ((i, w) ∷ m) = ground (arith, get-insert k j v m)

  pub length-insert_le :
      (k : ℕ) (v : V) (m : Map ℕ V)
      → (length m ≤ length (insert k v m)) × (length (insert k v m) ≤ suc (length m))
  unfolding insert
  length-insert_le k v [] = omega arith
  length-insert_le k v ((j, w) ∷ m) = ground (arith, length-insert_le k v m)

  pub get_of_Above : (k : ℕ) (m : Map ℕ V) → Above k m → get k m ≡ none
  unfolding get
  get_of_Above k [] a = refl
  get_of_Above k ((j, w) ∷ m) a = ground (arith, get_of_Above k m a.1)

  pub length-remove_le : (k : ℕ) (m : Map ℕ V) → length (remove k m) ≤ length m
  unfolding remove
  length-remove_le k [] = omega arith
  length-remove_le k ((j, w) ∷ m) = ground (arith, length-remove_le k m)

  pub length-remove_lt :
      (k : ℕ) (m : Map ℕ V) (v : V) → get k m ≡ some v → length (remove k m) < length m
  unfolding get remove
  length-remove_lt k [] v h = ground arith
  length-remove_lt k ((j, w) ∷ m) v h = ground (arith, length-remove_le k m, length-remove_lt k m v)

  pub remove_of_Above : (k : ℕ) (m : Map ℕ V) → Above k m → remove k m ≡ m
  unfolding remove
  remove_of_Above k [] a = refl
  remove_of_Above k ((j, w) ∷ m) a = ground (arith, remove_of_Above k m a.1)

  unfoldable pub values : Map ℕ V → List V
  values [] = []
  values ((j, w) ∷ m) = w ∷ values m

  -- Taking out a key takes out its one value.
  pub values-remove :
      (k : ℕ) (m : Map ℕ V) (v : V)
      → IsSorted m
      → get k m ≡ some v
      → Perm (v ∷ values (remove k m)) (values m)
  unfolding get remove values
  values-remove k [] v s h = cc
  values-remove k ((j, w) ∷ m) v s h = elim (Bool-cases (j == k)) [
    | inl e ↦
        let same : j ≡ k = ground arith in
        let at_head : v ≡ w = ground arith in
        let gone : remove k m ≡ m = remove_of_Above k m (subst (λ x. Above x m) same s.0) in
        rw (e, at_head, remove) (rw gone (Perm.refl (w ∷ values m)))
    | inr e ↦
        let deeper : get k m ≡ some v = ground arith in
        rw (e, remove)
          (Perm.trans (Perm.swap w v (values (remove k m)))
            (Perm.cons w (values-remove k m v s.1 deeper)))
  ]

  pub values-insert :
      (k : ℕ) (v : V) (m : Map ℕ V) → get k m ≡ none → Perm (values (insert k v m)) (v ∷ values m)
  unfolding get insert values
  values-insert k v [] h = Perm.refl (v ∷ [])
  values-insert k v ((j, w) ∷ m) h = elim (Bool-cases (ltb k j)) [
    | inl e ↦ rw (e, insert) (Perm.refl (v ∷ w ∷ values m))
    | inr e ↦
        let other : (j == k) ≡ false = ground arith in
        let deeper : get k m ≡ none = ground arith in
        rw (e, insert)
          (rw (other, insert)
            (Perm.trans (Perm.cons w (values-insert k v m deeper)) (Perm.swap v w (values m))))
  ]
