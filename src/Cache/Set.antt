-- ===== src/Cache/Set.antt =====
-- core/memory_subsystem/cache/cache_set.{h,cc}: one set, its lines, its data and its policy.
pub mod Policies
pub mod Lines
pub mod Placing
pub mod Clearing
pub mod Data
use snipersimcommon.Base.{
  ℕ, zero, suc, ◌+◌, ◌*◌, ◌%◌, u32, ◌≡◌, Bool, true, false, not, ◌&&◌, ◌||◌, Option, none, some,
  List, [], ◌++◌, arith, ltb, leb, ◌==◌, if◌then◌else◌, length, get_or, set, take, drop, replicate,
  ◌>>=◌, ◌>>◌, assert,
}
use snipersimcommon.Cache.Block.{
  Block, Ways, block_at, fresh_block, is_valid, invalidate_block, clone,
}
use snipersimcommon.Cache.Policy.SetInfo.{Cntlr}
use Policies.{Policy, update_replacement_index, get_replacement_index}

-- `bytes` is `m_blocks`: absent unless faults are injected.
pub record CacheSet : Type 0 where
  pub ways : Ways
  pub open ways use *
  pub blocksize : ℕ
  pub bytes : Option (List ℕ)
  pub policy : Policy

unfoldable pub create : ℕ → ℕ → Bool → Policy → CacheSet
create assoc blocksize faults policy = record {
  ways = record { assoc = assoc; blocks = replicate assoc fresh_block };
  blocksize = blocksize;
  bytes = if faults then some (replicate ((assoc * blocksize) % u32) 0) else none;
  policy = policy;
}

-- `&m_blocks[line_index * m_blocksize + offset]`, an index on 32 bits.
unfoldable pub position : CacheSet → ℕ → ℕ → ℕ
position s line offset = (line * s.blocksize + offset) % u32

-- Whether the array, if there is one, has bytes up to `end`; beyond it a `memcpy` is out of bounds.
abbrev pub has_bytes : ℕ → Option (List ℕ) → Bool
has_bytes end none = true
has_bytes end (some bytes) = leb end (length bytes)

-- `memcpy` out of and into the array of all lines.
unfoldable pub copy_out : List ℕ → ℕ → ℕ → List ℕ
copy_out bytes from n = take n (drop from bytes)

unfoldable pub copy_in : List ℕ → ℕ → List ℕ → List ℕ
copy_in bytes from src = take from bytes ++ (src ++ drop (from + length src) bytes)

abbrev updated : CacheSet → ℕ → Bool → Option CacheSet
updated s line false = some s
updated s line true = do
  p ← update_replacement_index s.ways s.policy line
  some (record s { policy = p })

abbrev read_bytes : CacheSet → ℕ → ℕ → Option (List ℕ) → List ℕ
read_bytes s from n none = []
read_bytes s from n (some bytes) = copy_out bytes from n

-- The bytes are those that the caller's buffer receives, for which a null pointer is a length of 0; without data
-- it is left as it is.
unfoldable pub read_line : CacheSet → ℕ → ℕ → ℕ → Bool → Option (CacheSet × List ℕ)
unfolding copy_out position
read_line s line offset n update = do
  assert (leb ((offset + n) % u32) s.blocksize)
  assert (has_bytes (position s line offset + n) s.bytes)
  t ← updated s line update
  some (t, read_bytes s (position s line offset) n s.bytes)

abbrev pub write_bytes : ℕ → List ℕ → Option (List ℕ) → Option (List ℕ)
write_bytes from src none = none
write_bytes from src (some bytes) = some (copy_in bytes from src)

unfoldable pub write_line : CacheSet → ℕ → ℕ → List ℕ → Bool → Option CacheSet
unfolding copy_in position
write_line s line offset src update = do
  assert (leb ((offset + length src) % u32) s.blocksize)
  assert (has_bytes (position s line offset + length src) s.bytes)
  updated (record s { bytes = write_bytes (position s line offset) src s.bytes }) line update

-- The lines from the last one down; the highest with the tag is the one found.
unfoldable pub find_below : ℕ → List Block → ℕ → Option ℕ
find_below zero blocks tag = none
find_below (suc n) blocks tag =
    let rest = find_below n blocks tag in
    if (get_or blocks n fresh_block).tag == tag then some n else rest

unfoldable pub find : CacheSet → ℕ → Option ℕ
find s tag = find_below s.assoc s.blocks tag

abbrev put_block : CacheSet → ℕ → Block → CacheSet
put_block s i b = record s { ways = record { assoc = s.assoc; blocks = set s.blocks i b } }

abbrev invalidated : CacheSet → Option ℕ → CacheSet × Bool
invalidated s none = (s, false)
invalidated s (some i) = (put_block s i (invalidate_block (block_at s.ways i)), true)

unfoldable pub invalidate : CacheSet → ℕ → CacheSet × Bool
unfolding find
invalidate s tag = invalidated s (find s tag)

-- What `insert` leaves in the caller's variables: whether a line was evicted, and which, with its data.
pub record Insertion : Type 0 where
  pub after : CacheSet
  pub index : ℕ
  pub eviction : Bool
  pub evicted : Block
  pub evict_data : List ℕ

abbrev fill_bytes : CacheSet → ℕ → Option (List ℕ) → Option (List ℕ)
fill_bytes s i none = s.bytes
fill_bytes s i (some src) = write_bytes (position s i 0) (take s.blocksize src) s.bytes

-- The array has room for the line, and the fill buffer is long enough.
abbrev can_fill : ℕ → ℕ → Option (List ℕ) → Option (List ℕ) → Bool
can_fill from n none fill = true
can_fill from n (some bytes) none = true
can_fill from n (some bytes) (some src) = leb (from + n) (length bytes) && leb n (length src)

-- Whether the copies of an insertion into line `i` are within their arrays.
unfoldable pub can_copy : CacheSet → ℕ → Option (List ℕ) → Bool
unfolding is_valid position
can_copy s i fill =
    (not (is_valid (block_at s.ways i)) || has_bytes (position s i 0 + s.blocksize) s.bytes)
    && can_fill (position s i 0) s.blocksize s.bytes fill

-- Line `i` was chosen, and `p` is what the choice left of the policy.
unfoldable pub inserted : CacheSet → Block → Option (List ℕ) → Block → ℕ → Policy → Insertion
unfolding is_valid clone copy_in copy_out position
inserted s b fill old i p =
    let victim = block_at s.ways i in
    let eviction = is_valid victim in
    record {
      after = record s {
        ways = record { assoc = s.assoc; blocks = set s.blocks i (clone victim b) };
        bytes = fill_bytes s i fill;
        policy = p;
      };
      index = i;
      eviction = eviction;
      evicted = if eviction then clone old victim else old;
      evict_data = if eviction then read_bytes s (position s i 0) s.blocksize s.bytes else [];
    }

-- `fuel` bounds the recursion of the round-robin and random policies; `old` is what the caller's
-- `evict_block_info` holds before the call.
unfoldable pub insert : ℕ → Cntlr → CacheSet → Block → Option (List ℕ) → Block → Option Insertion
unfolding get_replacement_index inserted can_copy
insert fuel cntlr s b fill old = do
  (i, p) ← get_replacement_index fuel cntlr s.ways s.policy
  assert (ltb i s.assoc)
  assert (can_copy s i fill)
  some (inserted s b fill old i p)
