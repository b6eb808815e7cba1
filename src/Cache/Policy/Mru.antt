-- ===== src/Cache/Policy/Mru.antt =====
-- core/memory_subsystem/cache/cache_set_mru.cc: the most recently used line is the victim.
use snipersimcommon.Base.{
  ℕ, zero, suc, ◌+◌, ◌≤◌, ◌<◌, ◌≡◌, inl, inr, Bool, true, ◌&&◌, Option, none, some, List, arith,
  ◌==◌, get_or, first_from, first_from-IsFirst, first_from-none, Option-cases,
}
use snipersimcommon.Cache.Block.{Ways, is_invalid_way, is_valid_replacement}
use snipersimcommon.Cache.Policy.Recency.{
  Ranks, initial_bits, move_to_mru, move_to_mru-Ranks, index_of, use_way,
}

-- `m_lru_bits`, and `updateReplacementIndex`.
unfoldable pub create : ℕ → List ℕ
unfolding initial_bits
create assoc = initial_bits assoc

unfoldable pub update_replacement_index : List ℕ → ℕ → List ℕ
update_replacement_index bits accessed = move_to_mru bits accessed

abbrev pub has_age : Ways → List ℕ → ℕ → ℕ → Bool
has_age w bits target i = (get_or bits i 0 == target) && is_valid_replacement w i

-- The ages from `target` on, `n` of them.
unfoldable pub youngest : Ways → List ℕ → ℕ → ℕ → Option ℕ
youngest w bits zero target = none
youngest w bits (suc n) target = elim (first_from w.assoc 0 (has_age w bits target)) [
  | some i ↦ some i
  | none ↦ youngest w bits n (target + 1)
]

abbrev taking : List ℕ → Option ℕ → Option (ℕ × List ℕ)
taking bits none = none
taking bits (some i) = some (i, update_replacement_index bits i)

abbrev choose : Ways → List ℕ → Option ℕ → Option (ℕ × List ℕ)
choose w bits (some i) = some (i, update_replacement_index bits i)
choose w bits none = taking bits (youngest w bits w.assoc 0)

unfoldable pub get_replacement_index : Ways → List ℕ → Option (ℕ × List ℕ)
get_replacement_index w bits = choose w bits (first_from w.assoc 0 (is_invalid_way w))

record Youngest (w : Ways) (bits : List ℕ) (target i : ℕ) : Type 0 where
  below : i < w.assoc
  candidate : is_valid_replacement w i ≡ true
  best :
      (j : ℕ)
      → j < w.assoc
      → is_valid_replacement w j ≡ true
      → target ≤ get_or bits j 0
      → get_or bits i 0 ≤ get_or bits j 0

-- A candidate whose age lies among the ages looked through is found, or a younger one.
youngest_lem :
    (w : Ways) (bits : List ℕ) (n target c : ℕ)
    → c < w.assoc
    → is_valid_replacement w c ≡ true
    → target ≤ get_or bits c 0
    → get_or bits c 0 < target + n
    → (i : ℕ) × (youngest w bits n target ≡ some i) × Youngest w bits target i
unfolding youngest
youngest_lem w bits zero target c hc cand lo hi = absurd (omega arith)
youngest_lem w bits (suc n) target c hc cand lo hi =
    elim (Option-cases (first_from w.assoc 0 (has_age w bits target))) [
      | inl missed ↦
          let later = first_from-none w.assoc 0 (has_age w bits target) missed in
          let (i, e, y) =
            youngest_lem w bits n (target + 1) c hc cand (ground (arith, later c)) (omega arith) in
          (
            i,
            rw (missed, youngest) e,
            record {
              below = y.below;
              candidate = y.candidate;
              best = λ j hj cj lj. ground (arith, y.best j, later j);
            },
          )
      | inr (i, e) ↦
          let f = first_from-IsFirst w.assoc 0 (has_age w bits target) e in
          (
            i,
            rw (e, youngest),
            record {
              below = omega (arith, f.below);
              candidate = ground (arith, f.hit);
              best = λ j hj cj lj. ground (arith, f.hit);
            },
          )
    ]

-- A full set evicts the most recently used of the replaceable lines, if there is one.
pub evicts_most_recent :
    (w : Ways) (bits order : List ℕ) (c : ℕ)
    → Ranks w.assoc bits order
    → first_from w.assoc 0 (is_invalid_way w) ≡ none
    → c < w.assoc
    → is_valid_replacement w c ≡ true
    → (i : ℕ) × (after : List ℕ) × (get_replacement_index w bits ≡ some (i, after))
      × (is_valid_replacement w i ≡ true)
      × ((j : ℕ)
          → j < w.assoc
          → is_valid_replacement w j ≡ true
          → index_of i order ≤ index_of j order)
      × Ranks w.assoc after (use_way order i)
unfolding get_replacement_index update_replacement_index
evicts_most_recent w bits order c r full hc cand =
    let (i, e, y) =
      youngest_lem w bits w.assoc 0 c hc cand (omega arith)
        (omega (arith, r.rank c hc, r.member c hc)) in
    (
      i,
      move_to_mru bits i,
      rw full (rw e),
      y.candidate,
      (λ j hj cj. omega (arith, r.rank i y.below, r.rank j hj, y.best j hj cj)),
      move_to_mru-Ranks i y.below r,
    )
