-- ===== src/Cache/Policy/RoundRobin.antt =====
-- core/memory_subsystem/cache/cache_set_round_robin.cc: the victims go down the ways in turn.
use snipersimcommon.Base.{
  ℕ, zero, suc, ◌+◌, ◌-◌, ◌%◌, ◌≤◌, ◌<◌, ◌≡◌, true, Option, none, some, arith, ◌==◌, if◌then◌else◌,
  u32, Bool-cases, inl, inr, ◌⊎◌,
}
use snipersimcommon.Cache.Block.{Ways, is_valid_replacement}

-- `m_replacement_index`
unfoldable pub create : ℕ → ℕ
create assoc = (assoc + u32 - 1) % u32

unfoldable pub step_down : ℕ → ℕ → ℕ
step_down assoc i = if i == 0 then (assoc + u32 - 1) % u32 else i - 1

-- The way returned and the new index. The recursive call starts from the new index; `none` is the
-- fuel spent, in the source a recursion without end.
unfoldable pub get_replacement_index : Ways → ℕ → ℕ → Option (ℕ × ℕ)
get_replacement_index w zero index = none
get_replacement_index w (suc fuel) index =
    let next = step_down w.assoc index in
    let again = get_replacement_index w fuel next in
    if is_valid_replacement w next then some (index, next) else again

step_down-lt : (assoc i : ℕ) → i < assoc → assoc < u32 → step_down assoc i < assoc
unfolding step_down
step_down-lt assoc i h k = ground arith

-- What is returned is checked one way too low: it is the way above the one that was tested.
pub returned_above_tested :
    (w : Ways) (fuel index i next : ℕ)
    → get_replacement_index w fuel index ≡ some (i, next)
    → (next ≡ step_down w.assoc i) × (is_valid_replacement w next ≡ true)
unfolding get_replacement_index
returned_above_tested w zero index i next e = cc
returned_above_tested w (suc fuel) index i next e =
    elim (Bool-cases (is_valid_replacement w (step_down w.assoc index))) [
      | inl ok ↦ ground arith
      | inr no_replacement ↦
          returned_above_tested w fuel (step_down w.assoc index) i next (ground arith)
    ]

-- With a replaceable line in the set the recursion ends, after as many calls as there are ways.
pub round_ends :
    (w : Ways) (fuel index c : ℕ)
    → index < w.assoc
    → w.assoc < u32
    → c < w.assoc
    → is_valid_replacement w c ≡ true
    → ((c < index) × (index ≤ c + fuel)) ⊎ ((index ≤ c) × (index + w.assoc ≤ c + fuel))
    → (i : ℕ) × (next : ℕ) × (get_replacement_index w fuel index ≡ some (i, next)) × (i < w.assoc)
unfolding get_replacement_index step_down
round_ends w zero index c hi hw hc ok reach = absurd (omega arith)
round_ends w (suc fuel) index c hi hw hc ok reach =
    elim (Bool-cases (is_valid_replacement w (step_down w.assoc index))) [
      | inl valid ↦ (index, step_down w.assoc index, rw valid, hi)
      | inr invalid_here ↦ rw invalid_here (
          round_ends w fuel (step_down w.assoc index) c (step_down-lt w.assoc index hi hw) hw hc ok
            (ground (arith, step_down-lt w.assoc index hi hw)))
    ]
