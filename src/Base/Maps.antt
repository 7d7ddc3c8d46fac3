-- ===== src/Base/Maps.antt =====
-- `HashMap` as an association list (an insertion keeps the place of a key that is there and
-- puts a new key last), and `BTreeMap` as an association list in the order of its keys.
use mathlib.Core.Path.{◌≡◌, refl}
use mathlib.Core.Logic.{◌≢◌}
use mathlib.Core.List.{List, [], ◌∷◌, ◌++◌}
use mathlib.Core.Option.{Option, none, some}
use native.Mathlib.Omega.{arith}
use iscp_rs.Base.Tests.{Eq, ◌==◌, if◌then◌else◌, nat_eq}

abbrev pub Map {ℓ κ} : Type ℓ → Type κ → Type (ℓ ⊔ κ)
Map K V = List (K × V)

module _ {ℓ κ} {K : Type ℓ} {V : Type κ} ⦃e : Eq K⦄ where
  unfoldable pub get : K → Map K V → Option V
  get k [] = none
  get k ((j, v) ∷ m) = if j == k then some v else get k m

  unfoldable pub insert : K → V → Map K V → Map K V
  insert key new [] = (key, new) ∷ []
  insert key new ((i, old) ∷ rest) =
      if i == key then (key, new) ∷ rest else (i, old) ∷ insert key new rest

  unfoldable pub remove : K → Map K V → Map K V
  remove k [] = []
  remove k ((j, v) ∷ m) = if j == k then remove k m else (j, v) ∷ remove k m

  pub get-insert :
      (k j : K) (v : V) (m : Map K V) → get j (insert k v m) ≡ (if k == j then some v else get j m)
  unfolding get insert
  get-insert k j v [] = refl
  get-insert k j v ((i, w) ∷ m) =
      ground (arith, e.equal_iff k j, e.equal_iff i k, e.equal_iff i j, get-insert k j v m)

  pub get-insert_self : (k : K) (v : V) (m : Map K V) → get k (insert k v m) ≡ some v
  get-insert_self k v m = ground (arith, get-insert k k v m, e.equal_iff k k)

  pub get-insert_ne : (k j : K) (v : V) (m : Map K V) → k ≢ j → get j (insert k v m) ≡ get j m
  get-insert_ne k j v m h = ground (arith, get-insert k j v m, e.equal_iff k j)

  pub get-remove : (k j : K) (m : Map K V) → get j (remove k m) ≡ (if k == j then none else get j m)
  unfolding get remove
  get-remove k j [] = ground arith
  get-remove k j ((i, w) ∷ m) =
      ground (arith, e.equal_iff k j, e.equal_iff i k, e.equal_iff i j, get-remove k j m)

  -- A key that is not there goes last.
  pub insert-append :
      (k : K) (v : V) (m : Map K V) → get k m ≡ none → insert k v m ≡ m ++ (k, v) ∷ []
  unfolding get insert
  insert-append k v [] h = refl
  insert-append k v ((i, w) ∷ m) h = ground (arith, insert-append k v m)
