-- ===== src/Base/Perms.antt =====
-- What a permutation keeps: a property of all elements, and the native length.
use Prim.Native.Nat.{suc}
use mathlib.Core.Path.{◌≡◌, refl, sym, ap, ap₂, ◌∙◌, subst}
use mathlib.Core.List.{List, [], ◌∷◌, Perm, Permᴰ}
use mathlib.Core.Logic.{∥∥₁_elim}
use native.Mathlib.Nat.{ℕ_set}
use iscp_rs.Base.Lists.{length, All}

module _ {ℓ} {A : Type ℓ} where
  All-IsProp {κ} : (P : A → Type κ) → ((x : A) → IsProp (P x)) → (xs : List A) → IsProp (All P xs)
  All-IsProp P h [] = λ p q. refl
  All-IsProp P h (x ∷ xs) = λ p q. ap₂ (λ a b. (a, b)) (h x p.0 q.0) (All-IsProp P h xs p.1 q.1)

  All-permᴰ {κ} : (P : A → Type κ) {xs ys : List A} → Permᴰ xs ys → All P ys → All P xs
  All-permᴰ P Permᴰ.nil a = tt
  All-permᴰ P (Permᴰ.cons e p) a = (subst P (sym e) a.0, All-permᴰ P p a.1)
  All-permᴰ P (Permᴰ.swap e e') a = (subst P (sym e) a.1.0, (subst P (sym e') a.0, a.1.1))
  All-permᴰ P (Permᴰ.trans p q) a = All-permᴰ P p (All-permᴰ P q a)

  pub All-perm {κ} :
      (P : A → Type κ)
      → ((x : A) → IsProp (P x))
      → {xs ys : List A} → Perm xs ys
      → All P ys
      → All P xs
  All-perm P h {xs} p a = ∥∥₁_elim p (All-IsProp P h xs) (λ d. All-permᴰ P d a)

  length-permᴰ : {xs ys : List A} → Permᴰ xs ys → length xs ≡ length ys
  length-permᴰ Permᴰ.nil = refl
  length-permᴰ (Permᴰ.cons e p) = ap suc (length-permᴰ p)
  length-permᴰ (Permᴰ.swap e e') = refl
  length-permᴰ (Permᴰ.trans p q) = length-permᴰ p ∙ length-permᴰ q

  pub length-perm : {xs ys : List A} → Perm xs ys → length xs ≡ length ys
  length-perm {xs} {ys} p = ∥∥₁_elim p (ℕ_set (length xs) (length ys)) length-permᴰ
