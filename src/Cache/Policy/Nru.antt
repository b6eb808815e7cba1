-- ===== src/Cache/Policy/Nru.antt =====
-- core/memory_subsystem/cache/cache_set_nru.cc: one bit for each way, set by an access.
pub mod Trace
use snipersimcommon.Base.{
  ℕ, zero, suc, ◌+◌, ◌%◌, ◌≤◌, ◌<◌, ◌≡◌, ◌≢◌, refl, Bool, true, false, not, ◌&&◌, ◌||◌, Option,
  none, some, List, [], ◌∷◌, arith, ◌==◌, if◌then◌else◌, get_or, set, length, replicate, u8,
  first_from, first_from-none, first_from-IsFirst, ap, inl, inr, Option-cases, length-set,
  length-replicate, get_or-set_ne, get_or-replicate,
}
use snipersimcommon.Cache.Block.{Ways, is_invalid_way, is_valid_replacement}
use snipersimcommon.Cache.Policy.Pointer.{advance, seek, seek_round}

pub record Nru : Type 0 where
  pub lru_bits : List ℕ
  pub num_bits_set : ℕ
  pub pointer : ℕ

unfoldable pub create : ℕ → Nru
create assoc = record { lru_bits = replicate assoc 0; num_bits_set = 0; pointer = 0 }

-- The number of bits set grows by one, also where the bit was set before.
unfoldable pub update_replacement_index : ℕ → Nru → ℕ → Nru
update_replacement_index assoc s accessed =
    let count = (s.num_bits_set + 1) % u8 in
    if count == assoc
    then record s { lru_bits = replicate assoc 0; num_bits_set = 0 }
    else record s { lru_bits = set s.lru_bits accessed 1; num_bits_set = count }

abbrev pub is_untouched : Ways → List ℕ → ℕ → Bool
is_untouched w bits i = (get_or bits i 0 == 0) && is_valid_replacement w i

abbrev is_some : Option ℕ → Bool
is_some none = false
is_some (some i) = true

-- `have_zero_bit`, once every way is valid.
abbrev pub have_zero_bit : Ways → List ℕ → Bool
have_zero_bit w bits = is_some (first_from w.assoc 0 (is_untouched w bits))

abbrev pub may_evict : Ways → List ℕ → ℕ → Bool
may_evict w bits i =
    ((get_or bits i 0 == 0) || not (have_zero_bit w bits)) && is_valid_replacement w i

abbrev taking : ℕ → Nru → Option (ℕ × ℕ) → Option (ℕ × Nru)
taking assoc s none = none
taking assoc s (some (i, p)) = some (i, update_replacement_index assoc (record s { pointer = p }) i)

abbrev choose : Ways → Nru → Option ℕ → Option (ℕ × Nru)
choose w s (some i) = some (i, update_replacement_index w.assoc s i)
choose w s none = taking w.assoc s (seek w.assoc (may_evict w s.lru_bits) w.assoc s.pointer)

unfoldable pub get_replacement_index : Ways → Nru → Option (ℕ × Nru)
get_replacement_index w s = choose w s (first_from w.assoc 0 (is_invalid_way w))

-- How many bits are set.
abbrev pub bits_set : List ℕ → ℕ
bits_set [] = 0
bits_set (b ∷ bits) = (if b == 0 then 0 else 1) + bits_set bits

pub record IsNru (assoc : ℕ) (s : Nru) : Type 0 where
  pub small : assoc < u8
  pub long : length s.lru_bits ≡ assoc
  pub room : s.num_bits_set < assoc
  pub at_most : bits_set s.lru_bits ≤ s.num_bits_set
  pub pointed : s.pointer < assoc

bits_set-set : (bits : List ℕ) (i : ℕ) → bits_set (set bits i 1) ≤ bits_set bits + 1
bits_set-set [] i = omega arith
bits_set-set (b ∷ bits) zero = ground arith
bits_set-set (b ∷ bits) (suc i) = ground (arith, bits_set-set bits i)

bits_set-replicate : (n : ℕ) → bits_set (replicate n 0) ≡ 0
bits_set-replicate zero = refl
bits_set-replicate (suc n) = omega (arith, bits_set-replicate n)

-- An access keeps the invariant: fewer accesses than ways are counted since the bits were cleared,
-- and at least as many as there are bits set, so that a bit that is not set is always left.
pub update-IsNru :
    (assoc : ℕ) (s : Nru) (i : ℕ) → IsNru assoc s → IsNru assoc (update_replacement_index assoc s i)
unfolding update_replacement_index
update-IsNru assoc s i v = ground (
  arith,
  bits_set-set s.lru_bits i,
  bits_set-replicate assoc,
  length-set s.lru_bits i 1,
  length-replicate {A = ℕ} assoc 0,
)

-- A way that may be evicted, and whether a clear bit was seen.
target :
    (w : Ways) (bits : List ℕ) (c : ℕ)
    → c < w.assoc
    → is_valid_replacement w c ≡ true
    → (k : ℕ) × (k < w.assoc)
      × (may_evict w bits k ≡ true)
      × (get_or bits c 0 ≡ 0 → have_zero_bit w bits ≡ true)
target w bits c hc cand = elim (Option-cases (first_from w.assoc 0 (is_untouched w bits))) [
  | inl none_clear ↦ (
    c,
    hc,
    ground arith,
    λ z. ground (arith, first_from-none w.assoc 0 (is_untouched w bits) none_clear c),
  )
  | inr (k, e) ↦
      let f = first_from-IsFirst w.assoc 0 (is_untouched w bits) e in
      (k, omega (arith, f.below), ground (arith, f.hit), λ z. ground arith)
]

-- A full set: with a replaceable line, one is evicted, and one whose bit is clear if there is such.
pub evicts_untouched :
    (w : Ways) (s : Nru) (c : ℕ)
    → IsNru w.assoc s
    → first_from w.assoc 0 (is_invalid_way w) ≡ none
    → c < w.assoc
    → is_valid_replacement w c ≡ true
    → (i : ℕ) × (get_replacement_index w s
        ≡ some (i, update_replacement_index w.assoc (record s { pointer = advance w.assoc i }) i))
      × (is_valid_replacement w i ≡ true)
      × (get_or s.lru_bits c 0 ≡ 0 → get_or s.lru_bits i 0 ≡ 0)
unfolding get_replacement_index
evicts_untouched w s c v full hc cand =
    let (k, hk, ok, clear) = target w s.lru_bits c hc cand in
    let (i, e, hi, passes) =
      seek_round w.assoc (may_evict w s.lru_bits) s.pointer k (omega (arith, v.small)) v.pointed hk
        ok in
    (i, rw full (rw e), ground (arith, passes), λ z. clear_way i passes (clear z))
  where
    clear_way :
        (i : ℕ)
        → may_evict w s.lru_bits i ≡ true
        → have_zero_bit w s.lru_bits ≡ true
        → get_or s.lru_bits i 0 ≡ 0
    clear_way i passes have = ground arith
