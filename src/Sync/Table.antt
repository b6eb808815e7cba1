-- ===== src/Sync/Table.antt =====
-- The maps of the server, from the address of an object to the object.
use snipersimcommon.Base.{
  ℕ, ◌+◌, ◌≡◌, ◌≢◌, Option, none, some, List, [], ◌∷◌, ◌==◌, if◌then◌else◌, arith, ℕ_discrete, sym,
  ap, ◌∙◌, subst, of_some,
}

module _ {ℓ} {A : Type ℓ} where
  unfoldable pub find : ℕ → List (ℕ × A) → Option A
  find k [] = none
  find k ((key, a) ∷ rest) = if key == k then some a else find k rest

  -- The entry is replaced, or a new one is made.
  unfoldable pub put : ℕ → A → List (ℕ × A) → List (ℕ × A)
  put k a [] = (k, a) ∷ []
  put k a ((key, b) ∷ rest) = if key == k then (key, a) ∷ rest else (key, b) ∷ put k a rest

  pub find-put_self : (k : ℕ) (a : A) (t : List (ℕ × A)) → find k (put k a t) ≡ some a
  unfolding find put
  find-put_self k a [] = ground arith
  find-put_self k a ((key, b) ∷ rest) = ground (arith, find-put_self k a rest)

  pub find-put_ne : (k j : ℕ) (a : A) (t : List (ℕ × A)) → j ≢ k → find j (put k a t) ≡ find j t
  unfolding find put
  find-put_ne k j a [] ne = ground arith
  find-put_ne k j a ((key, b) ∷ rest) ne = ground (arith, find-put_ne k j a rest ne)

  -- A measure of the objects, summed over a map.
  unfoldable pub total : (A → ℕ) → List (ℕ × A) → ℕ
  total f [] = 0
  total f ((key, a) ∷ rest) = f a + total f rest

  unfoldable pub measured : (A → ℕ) → Option A → ℕ
  measured f none = 0
  measured f (some a) = f a

  pub total-put :
      (f : A → ℕ) (k : ℕ) (a : A) (t : List (ℕ × A))
      → total f (put k a t) + measured f (find k t) ≡ total f t + f a
  unfolding find put total measured
  total-put f k a [] = omega arith
  total-put f k a ((key, b) ∷ rest) = ground (arith, total-put f k a rest)

  -- The map has an entry for the key; all its entries are such.
  abbrev pub Has : ℕ → List (ℕ × A) → Type ℓ
  Has k t = (a : A) × (find k t ≡ some a)

  abbrev pub Each : (A → Type 0) → List (ℕ × A) → Type ℓ
  Each P t = (k : ℕ) (a : A) → find k t ≡ some a → P a

  pub Has-put : (k j : ℕ) (a : A) (t : List (ℕ × A)) → Has j t → Has j (put k a t)
  Has-put k j a t (b, there) = elim (ℕ_discrete j k) [
    | yes same ↦ (a, ap (λ i. find i (put k a t)) same ∙ find-put_self k a t)
    | no ne ↦ (b, find-put_ne k j a t ne ∙ there)
  ]

  pub Has-put_self : (k : ℕ) (a : A) (t : List (ℕ × A)) → Has k (put k a t)
  Has-put_self k a t = (a, find-put_self k a t)

  pub Each-put :
      (P : A → Type 0) (k : ℕ) (a : A) (t : List (ℕ × A)) → Each P t → P a → Each P (put k a t)
  Each-put P k a t all p j b there = elim (ℕ_discrete j k) [
    | yes same ↦
        subst P
          (of_some (sym (find-put_self k a t) ∙ ap (λ i. find i (put k a t)) (sym same) ∙ there)) p
    | no ne ↦ all j b (sym (find-put_ne k j a t ne) ∙ there)
  ]
