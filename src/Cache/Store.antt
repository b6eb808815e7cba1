-- ===== src/Cache/Store.antt =====
-- core/memory_subsystem/cache/cache.{h,cc}: a whole cache, with no fault injector attached.
pub mod Lookup
pub mod Others
use snipersimcommon.Base.{
  ℕ, ◌+◌, ◌*◌, ◌%◌, Bool, true, false, Option, none, some, List, ltb, if◌then◌else◌, length,
  get_elem?, set, replicate, u64, ◌>>=◌, ◌>>◌, assert,
}
use mathlib.Core.Option
use snipersimcommon.Cache.Block.{Block, block_at, fresh_block}
use snipersimcommon.Cache.Address.{CacheBase, Split, split_address, block_offset, tag_to_address}
use snipersimcommon.Cache.Policy.SetInfo.{SetInfo, Cntlr}
use snipersimcommon.Cache.Policy.Lru.{Lru}
use snipersimcommon.Cache.Policy.Srrip.{Srrip}
use snipersimcommon.Cache.Set.{CacheSet, find, invalidate, insert, Insertion, read_line, write_line}
use snipersimcommon.Cache.Set
use snipersimcommon.Cache.Set.Policies.{
  Policy, round_robin, lru, nru, mru, nmru, plru, srrip, random, Kind, create_policy,
}

-- `info` is the `m_set_info` that the sets share.
pub record Cache : Type 0 where
  pub base : CacheBase
  pub sets : List CacheSet
  pub info : SetInfo
  pub enabled : Bool
  pub num_accesses : ℕ
  pub num_hits : ℕ

unfoldable pub create : CacheBase → Kind → ℕ → ℕ → ℕ → Bool → SetInfo → Option Cache
unfolding Set.create create_policy
create base kind configured numbits seed faults info = do
  policy ← create_policy kind base.assoc configured numbits seed info
  some (record {
    base = base;
    sets = replicate base.num_sets (Set.create base.assoc base.blocksize faults policy);
    info = info;
    enabled = false;
    num_accesses = 0;
    num_hits = 0;
  })

-- A set sees the shared record for the length of a call.
abbrev pub lend : SetInfo → Policy → Policy
lend info (lru s) = lru (record s { info = info })
lend info (srrip s) = srrip (record s { info = info })
lend info p = p

abbrev pub reclaim : SetInfo → Policy → SetInfo
reclaim info (lru s) = s.info
reclaim info (srrip s) = s.info
reclaim info p = info

abbrev pub borrowed : Cache → CacheSet → CacheSet
borrowed c s = record s { policy = lend c.info s.policy }

abbrev pub put_set : Cache → ℕ → CacheSet → Cache
put_set c i s = record c { sets = set c.sets i s; info = reclaim c.info s.policy }

-- The set that an address falls in; out of range where the source asserts or reads wild memory.
unfoldable pub set_of : Cache → ℕ → Option (ℕ × ℕ × CacheSet)
unfolding split_address
set_of c addr = do
  p ← split_address c.base addr
  s ← get_elem? c.sets p.set_index
  some (p.tag, p.set_index, borrowed c s)

unfoldable pub invalidate_single_line : Cache → ℕ → Option (Cache × Bool)
unfolding set_of invalidate
invalidate_single_line c addr = do
  (tag, i, s) ← set_of c addr
  let done = invalidate s tag
  some (put_set c i done.0, done.1)

-- The line found, or none; nothing changes.
unfoldable pub peek_single_line : Cache → ℕ → Option (Option Block)
unfolding set_of find
peek_single_line c addr = do
  (tag, i, s) ← set_of c addr
  some (Option.map (block_at s.ways) (find s tag))

pub data Access : Type 0 where
  load : ℕ → Access
  store : List ℕ → Access

abbrev access_line : CacheSet → ℕ → ℕ → Access → Bool → Option (CacheSet × List ℕ)
access_line s line offset (load n) update = read_line s line offset n update
access_line s line offset (store src) update = do
  t ← write_line s line offset src update
  some (t, src)

-- What an access to the line at `found` returns: the line, and what the buffer holds.
abbrev access_at :
    Cache → ℕ → CacheSet → ℕ → Access → Bool → Option ℕ → Option (Cache × Option (Block × List ℕ))
access_at c i s offset access update none = some (c, none)
access_at c i s offset access update (some line) = do
  (t, buffer) ← access_line s line offset access update
  some (put_set c i t, some (block_at t.ways line, buffer))

unfoldable pub access_single_line :
    Cache → ℕ → Access → Bool → Option (Cache × Option (Block × List ℕ))
unfolding set_of find read_line write_line block_offset
access_single_line c addr access update = do
  (tag, i, s) ← set_of c addr
  access_at c i s (block_offset c.base addr) access update (find s tag)

-- The cache, whether a line was evicted, its address, its state and its bytes.
pub record Eviction : Type 0 where
  pub after : Cache
  pub eviction : Bool
  pub evict_addr : ℕ
  pub evicted : Block
  pub evict_data : List ℕ

unfoldable pub insert_single_line :
    ℕ → Cntlr → Cache → ℕ → Option (List ℕ) → Block → Option Eviction
unfolding set_of insert tag_to_address
insert_single_line fuel cntlr c addr fill old = do
  (tag, i, s) ← set_of c addr
  r ← insert fuel cntlr s (record fresh_block { tag = tag }) fill old
  some (record {
    after = put_set c i r.after;
    eviction = r.eviction;
    evict_addr = tag_to_address c.base r.evicted.tag;
    evicted = r.evicted;
    evict_data = r.evict_data;
  })

unfoldable pub update_counters : Cache → Bool → Cache
update_counters c hit =
    if c.enabled
    then record c {
      num_accesses = (c.num_accesses + 1) % u64;
      num_hits = if hit then (c.num_hits + 1) % u64 else c.num_hits;
    }
    else c

unfoldable pub update_hits : Cache → ℕ → Cache
update_hits c hits =
    if c.enabled
    then record c {
      num_accesses = (c.num_accesses + hits) % u64;
      num_hits = (c.num_hits + hits) % u64;
    }
    else c
