-- ===== src/Cache/Policy/Srrip.antt =====
-- core/memory_subsystem/cache/cache_set_srrip.{h,cc}: static re-reference interval prediction, with
-- query-based selection.
pub mod Victim
use snipersimcommon.Base.{
  ℕ, zero, suc, ◌+◌, ◌-◌, ◌%◌, ◌^◌, Bool, true, false, Option, none, some, List, map, arith, ltb,
  leb, if◌then◌else◌, get_or, set, replicate, u8, u64, ◌>>=◌, ◌>>◌, assert, first_from,
}
use snipersimcommon.Cache.Block.{Ways, block_at, is_invalid_way, is_valid_replacement}
use snipersimcommon.Cache.Policy.Pointer.{advance}
use snipersimcommon.Cache.Policy.SetInfo.{
  SetInfo, Cntlr, increment, increment_attempt, in_lower_level_cache,
}

-- `info` is the shared `m_set_info`, `lookups` counts `cntlr->incrementQBSLookupCost()`.
pub record Srrip : Type 0 where
  pub rrip_max : ℕ
  pub rrip_insert : ℕ
  pub num_attempts : ℕ
  pub rrip_bits : List ℕ
  pub pointer : ℕ
  pub info : SetInfo
  pub lookups : ℕ

unfoldable pub create : ℕ → ℕ → SetInfo → ℕ → Srrip
create numbits assoc info num_attempts =
    let top = (2 ^ numbits - 1) % u8 in
    let insert = (top + u8 - 1) % u8 in
    record {
      rrip_max = top;
      rrip_insert = insert;
      num_attempts = num_attempts;
      rrip_bits = replicate assoc insert;
      pointer = 0;
      info = info;
      lookups = 0;
    }

-- How one pass over the ways ends: with a victim, with the number of attempts made, or in an abort.
pub data Outcome : Type 0 where
  found : ℕ → Srrip → Outcome
  onward : ℕ → Srrip → Outcome
  aborts : Outcome

abbrev pub insert_at : Srrip → ℕ → Srrip
insert_at s i = record s { rrip_bits = set s.rrip_bits i s.rrip_insert }

abbrev or_abort : Option (ℕ × Srrip) → Outcome
or_abort none = aborts
or_abort (some (i, s)) = found i s

-- The way at the pointer is taken.
unfoldable pub take_victim : Ways → ℕ → Srrip → Option (ℕ × Srrip)
unfolding increment_attempt
take_victim w attempt s = do
  info ← increment_attempt s.info attempt
  assert (is_valid_replacement w s.pointer)
  some (
    s.pointer,
    record s {
      pointer = advance w.assoc s.pointer;
      rrip_bits = set s.rrip_bits s.pointer s.rrip_insert;
      info = info;
    },
  )

abbrev pub qbs_reject : Cntlr → Ways → ℕ → Srrip → Option Bool
qbs_reject cntlr w attempt s =
    if ltb attempt (s.num_attempts - 1)
    then in_lower_level_cache cntlr (block_at w s.pointer)
    else some false

abbrev pub rejected : Srrip → Srrip
rejected s = record s { rrip_bits = set s.rrip_bits s.pointer 0; lookups = (s.lookups + 1) % u64 }

-- One pass, of `n` rounds; a rejected way is met again in the next round.
unfoldable pub pass : Cntlr → Ways → ℕ → ℕ → Srrip → Outcome
unfolding take_victim in_lower_level_cache
pass cntlr w zero attempt s = onward attempt s
pass cntlr w (suc n) attempt s =
    let skip = pass cntlr w n attempt (record s { pointer = advance w.assoc s.pointer }) in
    let retry = pass cntlr w n ((attempt + 1) % u8) (rejected s) in
    if leb s.rrip_max (get_or s.rrip_bits s.pointer 0)
    then elim (qbs_reject cntlr w attempt s) [
      | none ↦ aborts
      | some reject ↦ if reject then retry else or_abort (take_victim w attempt s)
    ]
    else skip

-- One step of one counter between the passes.
unfoldable pub bump : ℕ → ℕ → ℕ
bump top b = if ltb b top then (b + 1) % u8 else b

abbrev pub bump_all : Srrip → Srrip
bump_all s = record s { rrip_bits = map (bump s.rrip_max) s.rrip_bits }

-- The passes, `m` of them.
unfoldable pub passes : Cntlr → Ways → ℕ → ℕ → Srrip → Option (ℕ × Srrip)
passes cntlr w zero attempt s = none
passes cntlr w (suc m) attempt s = elim (pass cntlr w w.assoc attempt s) [
  | found i t ↦ some (i, t)
  | onward attempt' t ↦ passes cntlr w m attempt' (bump_all t)
  | aborts ↦ none
]

abbrev choose : Cntlr → Ways → Srrip → Option ℕ → Option (ℕ × Srrip)
choose cntlr w s (some i) = some (i, insert_at s i)
choose cntlr w s none = passes cntlr w (s.rrip_max + 1) 0 s

unfoldable pub get_replacement_index : Cntlr → Ways → Srrip → Option (ℕ × Srrip)
get_replacement_index cntlr w s = choose cntlr w s (first_from w.assoc 0 (is_invalid_way w))

unfoldable pub update_replacement_index : Srrip → ℕ → Option Srrip
unfolding increment
update_replacement_index s accessed = do
  let b = get_or s.rrip_bits accessed 0
  info ← increment s.info b
  some (record s {
    rrip_bits = if ltb 0 b then set s.rrip_bits accessed (b - 1) else s.rrip_bits;
    info = info;
  })
