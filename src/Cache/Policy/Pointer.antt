-- ===== src/Cache/Policy/Pointer.antt =====
-- The replacement pointer of the NMRU, NRU and SRRIP policies: a search over the ways that goes round.
use snipersimcommon.Base.{
  ℕ, zero, suc, ◌+◌, ◌%◌, ◌≤◌, ◌<◌, ◌≡◌, ◌⊎◌, inl, inr, Bool, true, Option, none, some, arith,
  if◌then◌else◌, u8, Bool-cases, ap, dec_lt,
}
use native.Mathlib.Nat.{mod-eq_of_lt, mod_self}

-- `m_replacement_pointer = (m_replacement_pointer + 1) % m_associativity;` over a byte.
unfoldable pub advance : ℕ → ℕ → ℕ
advance assoc p = (p + 1) % assoc % u8

-- At most `n` ways from the pointer on: the first that passes, and the pointer behind it.
unfoldable pub seek : ℕ → (ℕ → Bool) → ℕ → ℕ → Option (ℕ × ℕ)
seek assoc test zero p = none
seek assoc test (suc n) p =
    let rest = seek assoc test n (advance assoc p) in
    if test p then some (p, advance assoc p) else rest

module _ (assoc : ℕ) (small : assoc ≤ u8) where
  pub advance-lt : (p : ℕ) → p < assoc → advance assoc p < assoc
  unfolding advance
  advance-lt p h = ground arith

  pub advance_lem :
      (p : ℕ)
      → p < assoc
      → ((p + 1 < assoc) × (advance assoc p ≡ p + 1)) ⊎ ((p + 1 ≡ assoc) × (advance assoc p ≡ 0))
  unfolding advance
  advance_lem p h = elim (dec_lt (p + 1) assoc) [
    | yes more ↦ inl (more, omega (arith, mod-eq_of_lt more))
    | no end ↦
        let e : p + 1 ≡ assoc = omega arith in
        inr (e, omega (arith, ap (λ n. n % assoc) e, mod_self assoc))
  ]

  -- A way that passes is found, if the search gets as far.
  pub seek_hit :
      (test : ℕ → Bool) (n p c : ℕ)
      → p < assoc
      → c < assoc
      → test c ≡ true
      → ((p ≤ c) × (c < p + n)) ⊎ ((c < p) × (c + assoc < p + n))
      → (i : ℕ) × (seek assoc test n p ≡ some (i, advance assoc i)) × (i < assoc) × (test i ≡ true)
  unfolding seek
  seek_hit test zero p c hp hc hit reach = absurd (omega arith)
  seek_hit test (suc n) p c hp hc hit reach = elim (Bool-cases (test p)) [
    | inl here ↦ (p, rw here, hp, here)
    | inr miss ↦ rw miss (
        seek_hit test n (advance assoc p) c (advance-lt p hp) hc hit
          (ground (arith, advance_lem p hp)))
  ]

-- A whole round finds a way, if any passes.
pub seek_round :
    (assoc : ℕ) (test : ℕ → Bool) (p c : ℕ)
    → assoc ≤ u8
    → p < assoc
    → c < assoc
    → test c ≡ true
    → (i : ℕ) × (seek assoc test assoc p ≡ some (i, advance assoc i))
      × (i < assoc)
      × (test i ≡ true)
seek_round assoc test p c small hp hc hit =
    seek_hit assoc small test assoc p c hp hc hit (omega arith)
