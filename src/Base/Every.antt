-- ===== src/Base/Every.antt =====
-- A property of all elements of a list.
use Prim.Native.Nat.{ℕ, zero, suc}
use mathlib.Core.Path.{◌≡◌, subst}
use mathlib.Core.Option.{some}
use mathlib.Core.List.{List, [], ◌∷◌, ◌++◌}
use native.Mathlib.Omega.{arith}
use snipersimcommon.Base.Lists.{get_elem?, set, replicate}

pub data Every {ℓ} {A : Type ℓ} (P : A → Type 0) : List A → Type ℓ where
  nothing : Every P []
  both : {x : A} {xs : List A} → P x → Every P xs → Every P (x ∷ xs)

module _ {ℓ} {A : Type ℓ} {P : A → Type 0} where
  pub Every-get_elem? : {xs : List A} → Every P xs → (i : ℕ) (x : A) → get_elem? xs i ≡ some x → P x
  Every-get_elem? nothing i x e = absurd (ground arith)
  Every-get_elem? (both {x} p all) zero y e = let same : x ≡ y = cc in subst P same p
  Every-get_elem? (both p all) (suc i) x e = Every-get_elem? all i x e

  pub Every-set : {xs : List A} → Every P xs → (i : ℕ) (x : A) → P x → Every P (set xs i x)
  Every-set nothing i x p = nothing
  Every-set (both q all) zero x p = both p all
  Every-set (both q all) (suc i) x p = both q (Every-set all i x p)

  pub Every-append : {xs ys : List A} → Every P xs → Every P ys → Every P (xs ++ ys)
  Every-append nothing others = others
  Every-append (both p all) others = both p (Every-append all others)

  pub Every-replicate : (n : ℕ) (x : A) → P x → Every P (replicate n x)
  Every-replicate zero x p = nothing
  Every-replicate (suc n) x p = both p (Every-replicate n x p)

pub Every-map {ℓ} :
    {A : Type ℓ} {P Q : A → Type 0} {xs : List A} → ((x : A) → P x → Q x) → Every P xs → Every Q xs
Every-map f nothing = nothing
Every-map f (both {x} p all) = both (f x p) (Every-map f all)
