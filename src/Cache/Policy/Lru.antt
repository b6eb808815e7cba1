-- ===== src/Cache/Policy/Lru.antt =====
-- core/memory_subsystem/cache/cache_set_lru.{h,cc}: LRU replacement with query-based selection.
pub mod Victim
pub mod Recent
use snipersimcommon.Base.{
  ℕ, zero, suc, ◌+◌, ◌-◌, ◌%◌, ◌≡◌, Bool, true, false, ◌&&◌, Option, none, some, List, arith, ltb,
  if◌then◌else◌, get_or, u8, u64, ◌>>=◌, ◌>>◌, assert, first_from,
}
use snipersimcommon.Cache.Block.{Ways, block_at, is_invalid_way, is_valid_replacement}
use snipersimcommon.Cache.Policy.Recency.{initial_bits, move_to_mru}
use snipersimcommon.Cache.Policy.SetInfo.{
  SetInfo, Cntlr, increment, increment_attempt, in_lower_level_cache,
}

-- `m_set_info` is shared by the sets of a cache: it is here between a call and its return.
-- `lookups` counts the calls of `cntlr->incrementQBSLookupCost()`.
pub record Lru : Type 0 where
  pub num_attempts : ℕ
  pub lru_bits : List ℕ
  pub info : SetInfo
  pub lookups : ℕ

unfoldable pub create : ℕ → SetInfo → ℕ → Lru
unfolding initial_bits
create assoc info num_attempts = record {
  num_attempts = num_attempts;
  lru_bits = initial_bits assoc;
  info = info;
  lookups = 0;
}

abbrev pub touch : Lru → ℕ → Lru
touch s i = record s { lru_bits = move_to_mru s.lru_bits i }

unfoldable pub update_replacement_index : Lru → ℕ → Option Lru
unfolding increment
update_replacement_index s accessed = do
  info ← increment s.info (get_or s.lru_bits accessed 0)
  some (touch (record s { info = info }) accessed)

-- The loop over the ways that looks for the oldest candidate, from way `i` with `n` ways to go.
unfoldable pub scan : Ways → List ℕ → ℕ → ℕ → ℕ → ℕ → ℕ
scan w bits zero i index max_bits = index
scan w bits (suc n) i index max_bits =
    let better = ltb max_bits (get_or bits i 0) && is_valid_replacement w i in
    scan w bits n (i + 1) (if better then i else index)
      (if better then get_or bits i 0 else max_bits)

unfoldable pub oldest : Ways → List ℕ → ℕ
oldest w bits = scan w bits w.assoc 0 0 0

-- Whether the line at the victim's place is also below, asked on all attempts but the last.
abbrev pub qbs_reject : Cntlr → Ways → ℕ → ℕ → ℕ → Option Bool
qbs_reject cntlr w num_attempts attempt index =
    if ltb attempt (num_attempts - 1)
    then in_lower_level_cache cntlr (block_at w index)
    else some false

-- The attempts from number `attempt` on, with `n` to go.
unfoldable pub attempts : Cntlr → Ways → ℕ → ℕ → Lru → Option (ℕ × Lru)
unfolding increment_attempt in_lower_level_cache
attempts cntlr w zero attempt s = none
attempts cntlr w (suc n) attempt s = do
  let index = oldest w s.lru_bits
  assert (ltb index w.assoc)
  rejected ← qbs_reject cntlr w s.num_attempts attempt index
  let retry =
      attempts cntlr w n (attempt + 1) (record (touch s index) { lookups = (s.lookups + 1) % u64 })
  let taken = do
    info ← increment_attempt s.info attempt
    some (index, record (touch s index) { info = info })
  if rejected then retry else taken

abbrev pub first_invalid : Ways → Option ℕ
first_invalid w = first_from w.assoc 0 (is_invalid_way w)

abbrev take_way : Cntlr → Ways → Lru → Option ℕ → Option (ℕ × Lru)
take_way cntlr w s (some i) = some (i, touch s i)
take_way cntlr w s none = attempts cntlr w s.num_attempts 0 s

unfoldable pub get_replacement_index : Cntlr → Ways → Lru → Option (ℕ × Lru)
get_replacement_index cntlr w s = take_way cntlr w s (first_invalid w)
