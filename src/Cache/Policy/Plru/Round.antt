-- ===== src/Cache/Policy/Plru/Round.antt =====
-- The tree of cache_set_plru.cc points away from the last access, and a full set in which only
-- misses happen evicts every way once before any way twice.
use snipersimcommon.Base.{
  ℕ, zero, suc, ◌<◌, ◌≡◌, ◌≢◌, ◌⊎◌, inl, inr, refl, ap, Bool, true, false, ◌&&◌, ◌||◌, Option, none,
  some, List, [], ◌∷◌, arith, ◌==◌, ◌>>=◌, first_from, length, ℕ_discrete,
}
use snipersimcommon.Cache.Block.{Ways, is_invalid_way, is_valid_replacement}
use snipersimcommon.Cache.Policy.Plru.{
  Tree, cleared, victim, victim_of_4, victim_of_8, touch_of_4, touch_of_8, update_replacement_index,
  get_replacement_index,
}

-- The way that was accessed last is not the victim.
pub victim_spares_last :
    (assoc i v : ℕ) (t u : Tree)
    → i < assoc
    → update_replacement_index assoc t i ≡ some u
    → victim assoc u ≡ some v
    → v ≢ i
unfolding victim update_replacement_index
victim_spares_last assoc i v t u h e f = ground arith

-- The choices of `n` misses in a row, when every line is valid and may be replaced.
unfoldable pub victims : ℕ → ℕ → Tree → Option (List ℕ)
victims assoc zero t = some []
victims assoc (suc n) t = do
  i ← victim assoc t
  u ← update_replacement_index assoc t i
  rest ← victims assoc n u
  some (i ∷ rest)

-- Every way below `n` is in the list.
abbrev pub contains : ℕ → List ℕ → Bool
contains i [] = false
contains i (x ∷ xs) = (x == i) || contains i xs

unfoldable pub covers : ℕ → List ℕ → Bool
covers zero ways = true
covers (suc n) ways = contains n ways && covers n ways

abbrev pub all_bools : (Bool → Bool) → Bool
all_bools p = p true && p false

all_bools_sound : (p : Bool → Bool) (b : Bool) → all_bools p ≡ true → p b ≡ true
all_bools_sound p true h = ground arith
all_bools_sound p false h = ground arith

abbrev covering : ℕ → Option (List ℕ) → Bool
covering assoc none = false
covering assoc (some ways) = (length ways == assoc) && covers assoc ways

-- A test on every tree, one bit at a time.
module _ (p : Tree → Bool) where
  abbrev all_b6 : Tree → Bool
  all_b6 t = all_bools λ b. p (record t { b6 = b })

  abbrev all_b5 : Tree → Bool
  all_b5 t = all_bools λ b. all_b6 (record t { b5 = b })

  abbrev all_b4 : Tree → Bool
  all_b4 t = all_bools λ b. all_b5 (record t { b4 = b })

  abbrev all_b3 : Tree → Bool
  all_b3 t = all_bools λ b. all_b4 (record t { b3 = b })

  abbrev all_b2 : Tree → Bool
  all_b2 t = all_bools λ b. all_b3 (record t { b2 = b })

  abbrev all_b1 : Tree → Bool
  all_b1 t = all_bools λ b. all_b2 (record t { b1 = b })

  abbrev all_b0 : Tree → Bool
  all_b0 t = all_bools λ b. all_b1 (record t { b0 = b })

  abbrev all_trees : Bool
  all_trees = all_b0 cleared

  all_trees_sound : (t : Tree) → all_trees ≡ true → p t ≡ true
  all_trees_sound t h =
      let h1 = all_bools_sound (λ b. all_b1 (record t { b0 = b })) t.b0 h in
      let h2 = all_bools_sound (λ b. all_b2 (record t { b1 = b })) t.b1 h1 in
      let h3 = all_bools_sound (λ b. all_b3 (record t { b2 = b })) t.b2 h2 in
      let h4 = all_bools_sound (λ b. all_b4 (record t { b3 = b })) t.b3 h3 in
      let h5 = all_bools_sound (λ b. all_b5 (record t { b4 = b })) t.b4 h4 in
      let h6 = all_bools_sound (λ b. all_b6 (record t { b5 = b })) t.b5 h5 in
      all_bools_sound (λ b. p (record t { b6 = b })) t.b6 h6

covering_4 : all_trees (λ t. covering 4 (victims 4 4 t)) ≡ true
unfolding victims victim update_replacement_index covers
covering_4 = refl

covering_8 : all_trees (λ t. covering 8 (victims 8 8 t)) ≡ true
unfolding victims victim update_replacement_index covers
covering_8 = refl

contains-covers : (n i : ℕ) (ways : List ℕ) → covers n ways ≡ true → i < n → contains i ways ≡ true
unfolding covers
contains-covers zero i ways h lt = absurd (omega arith)
contains-covers (suc n) i ways h lt = elim (ℕ_discrete i n) [
  | yes e ↦ ground (arith, ap (λ k. contains k ways) e)
  | no ne ↦ contains-covers n i ways (ground arith) (omega arith)
]

covering_lem :
    (assoc : ℕ) (r : Option (List ℕ))
    → covering assoc r ≡ true
    → (ways : List ℕ) × (r ≡ some ways)
      × (length ways ≡ assoc)
      × ((i : ℕ) → i < assoc → contains i ways ≡ true)
covering_lem assoc none h = cc
covering_lem assoc (some ways) h =
    (ways, refl, ground arith, λ i lt. contains-covers assoc i ways (ground arith) lt)

abbrev pub IsSupported : ℕ → Type 0
IsSupported assoc = (assoc ≡ 4) ⊎ (assoc ≡ 8)

victims_cover :
    (assoc : ℕ) (t : Tree)
    → IsSupported assoc
    → (ways : List ℕ) × (victims assoc assoc t ≡ some ways)
      × (length ways ≡ assoc)
      × ((i : ℕ) → i < assoc → contains i ways ≡ true)
victims_cover assoc t (inl e) = rw e (
    covering_lem 4 (victims 4 4 t) (all_trees_sound (λ u. covering 4 (victims 4 4 u)) t covering_4))
victims_cover assoc t (inr e) = rw e (
    covering_lem 8 (victims 8 8 t) (all_trees_sound (λ u. covering 8 (victims 8 8 u)) t covering_8))

-- The ways that `n` calls of `getReplacementIndex` in a row return.
unfoldable pub misses : Ways → ℕ → Tree → Option (List ℕ)
misses w zero t = some []
misses w (suc n) t = do (i, u) ← get_replacement_index w t; rest ← misses w n u; some (i ∷ rest)

module _ (w : Ways) (supported : IsSupported w.assoc)
    (full : first_from w.assoc 0 (is_invalid_way w) ≡ none)
    (replaceable : (i : ℕ) → i < w.assoc → is_valid_replacement w i ≡ true) where
  victim_lem :
      (t : Tree)
      → (i : ℕ) × (u : Tree) × (victim w.assoc t ≡ some i)
        × (i < w.assoc)
        × (update_replacement_index w.assoc t i ≡ some u)
  unfolding victim update_replacement_index
  victim_lem t = elim supported [
    | inl e ↦
        (victim_of_4 t, touch_of_4 t (victim_of_4 t), ground arith, ground arith, ground arith)
    | inr e ↦
        (victim_of_8 t, touch_of_8 t (victim_of_8 t), ground arith, ground arith, ground arith)
  ]

  misses-victims : (n : ℕ) (t : Tree) → misses w n t ≡ victims w.assoc n t
  unfolding misses victims get_replacement_index
  misses-victims zero t = refl
  misses-victims (suc n) t =
      let (i, u, e, lt, f) = victim_lem t in rw (full, e, replaceable i lt, f, misses-victims n u)

-- A full set whose lines may all be replaced: as many misses in a row as there are ways evict each
-- way exactly once, from any state of the tree.
pub misses_cover :
    (w : Ways) (t : Tree)
    → IsSupported w.assoc
    → first_from w.assoc 0 (is_invalid_way w) ≡ none
    → ((i : ℕ) → i < w.assoc → is_valid_replacement w i ≡ true)
    → (ways : List ℕ) × (misses w w.assoc t ≡ some ways)
      × (length ways ≡ w.assoc)
      × ((i : ℕ) → i < w.assoc → contains i ways ≡ true)
misses_cover w t supported full replaceable =
    rw (misses-victims w supported full replaceable w.assoc t) (victims_cover w.assoc t supported)
