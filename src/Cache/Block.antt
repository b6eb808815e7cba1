-- ===== src/Cache/Block.antt =====
-- core/memory_subsystem/cache/cache_block_info.{h,cc} and cache_state.h: the state of one line, and
-- the part of `CacheSet` that the replacement policies read: the lines of a set, way by way.
use snipersimcommon.Base.{ℕ, Bool, true, false, not, List, ◌==◌, if◌then◌else◌, get_or}

-- `CacheState::cstate_t`, less the states that are only reported.
pub data CState : Type 0 where
  invalid shared shared_upgrading exclusive owned modified : CState

pub readable : CState → Bool
readable modified = true
readable owned = true
readable shared = true
readable exclusive = true
readable _ = false

pub writable : CState → Bool
writable modified = true
writable _ = false

pub record Block : Type 0 where
  pub tag : ℕ
  pub cstate : CState
  pub owner : ℕ
  pub used : ℕ
  pub options : ℕ

-- `~0` as an `IntPtr`.
abbrev pub invalid_tag : ℕ
invalid_tag = 0xffff_ffff_ffff_ffff

-- The line that `CacheBlockInfo::create` makes.
abbrev pub fresh_block : Block
fresh_block = record { tag = invalid_tag; cstate = invalid; owner = 0; used = 0; options = 0 }

unfoldable pub is_valid : Block → Bool
is_valid b = not (b.tag == invalid_tag)

unfoldable pub invalidate_block : Block → Block
invalidate_block b = record b { tag = invalid_tag; cstate = invalid }

-- `dst->clone(src)`: every field is copied.
unfoldable pub clone : Block → Block → Block
clone dst src = record dst {
  tag = src.tag;
  cstate = src.cstate;
  owner = src.owner;
  used = src.used;
  options = src.options;
}

-- What a `CacheSet` hands to its policy: `m_associativity` and `m_cache_block_info_array`.
pub record Ways : Type 0 where
  pub assoc : ℕ
  pub blocks : List Block

abbrev pub block_at : Ways → ℕ → Block
block_at w i = get_or w.blocks i fresh_block

unfoldable pub is_invalid_way : Ways → ℕ → Bool
unfolding is_valid
is_invalid_way w i = not (is_valid (block_at w i))

-- `CacheSet::isValidReplacement`
abbrev pub is_upgrading : CState → Bool
is_upgrading shared_upgrading = true
is_upgrading _ = false

unfoldable pub is_valid_replacement : Ways → ℕ → Bool
is_valid_replacement w i = if is_upgrading (block_at w i).cstate then false else true
