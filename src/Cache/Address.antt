-- ===== src/Cache/Address.antt =====
-- core/memory_subsystem/cache/cache_base.{h,cc}: the geometry of a cache and how an address is split;
-- core/memory_subsystem/address_home_lookup.cc; `floorLog2` of misc/utils.cc; misc/rng.h.
pub mod Parts
use snipersimcommon.Base.{
  ℕ, ◌+◌, ◌-◌, ◌*◌, ◌/◌, ◌%◌, ◌^◌, Bool, true, false, Option, none, some, List, ◌==◌, ltb, leb,
  ◌||◌, not, if◌then◌else◌, u32, u64, bit_and, bit_or, bit_xor, ◌>>=◌, ◌>>◌, assert, length, get_or,
}

-- Below 2 ^ 32, a mask of the bits from `k` up is not zero exactly when the number is at least
-- 2 ^ k. The source returns -1 for 0, which becomes 2 ^ 32 - 1 in the fields that take it.
unfoldable pub floor_log2 : ℕ → ℕ
floor_log2 n =
    if n == 0
    then u32 - 1
    else let p16 = if leb (2 ^ 16) n then 16 else 0 in
      let n16 = n / 2 ^ p16 in
      let p8 = if leb (2 ^ 8) n16 then 8 else 0 in
      let n8 = n16 / 2 ^ p8 in
      let p4 = if leb (2 ^ 4) n8 then 4 else 0 in
      let n4 = n8 / 2 ^ p4 in
      let p2 = if leb (2 ^ 2) n4 then 2 else 0 in
      let n2 = n4 / 2 ^ p2 in let p1 = if leb 2 n2 then 1 else 0 in p16 + p8 + p4 + p2 + p1

-- `AddressHomeLookup`
pub record Homes : Type 0 where
  pub ahl_param : ℕ
  pub core_list : List ℕ

abbrev pub total_modules : Homes → ℕ
total_modules h = length h.core_list

unfoldable pub get_home : Homes → ℕ → ℕ
get_home h address = get_or h.core_list (address / 2 ^ h.ahl_param % total_modules h) 0

unfoldable pub get_linear_block : Homes → ℕ → ℕ
get_linear_block h address = address / 2 ^ h.ahl_param / total_modules h

unfoldable pub get_linear_address : Homes → ℕ → ℕ
unfolding get_linear_block
get_linear_address h address =
    bit_or (get_linear_block h address * 2 ^ h.ahl_param % u64)
      (bit_and address (2 ^ h.ahl_param - 1))

-- `rng_next`: the new state, and the number drawn from it.
unfoldable pub rng_state : ℕ → ℕ
rng_state state = bit_and ((0x5DEECE66D * state + 0xB) % u64) (2 ^ 48 - 1)

unfoldable pub rng_seed : ℕ → ℕ
rng_seed seed = (seed * 2 ^ 16 + 0x330E) % u64

pub data Hash : Type 0 where
  hash_mask hash_mod hash_rng1_mod hash_rng2_mod hash_prime_dis hash_xor_mod hash_mer_mod : Hash

pub record CacheBase : Type 0 where
  pub assoc : ℕ
  pub blocksize : ℕ
  pub hash : Hash
  pub num_sets : ℕ
  pub ahl : Option Homes
  pub log_blocksize : ℕ
  pub log_num_sets : ℕ

abbrev is_mask : Hash → Bool
is_mask hash_mask = true
is_mask _ = false

-- The constructor: the mask needs a power of two of sets.
unfoldable pub create : ℕ → ℕ → ℕ → Hash → Option Homes → Option CacheBase
unfolding floor_log2
create num_sets assoc blocksize hash ahl = do
  assert (num_sets == 2 ^ floor_log2 num_sets || not (is_mask hash))
  some (record {
    assoc = assoc;
    blocksize = blocksize;
    hash = hash;
    num_sets = num_sets;
    ahl = ahl;
    log_blocksize = floor_log2 blocksize;
    log_num_sets = floor_log2 num_sets;
  })

abbrev pub linear : Option Homes → ℕ → ℕ
linear none addr = addr
linear (some h) addr = get_linear_address h addr

-- The set of a block number. `none` is a division by zero.
unfoldable pub set_index_of : CacheBase → Hash → ℕ → Option ℕ
set_index_of c hash_mask block = some (bit_and block ((c.num_sets + u32 - 1) % u32))
set_index_of c hash_mod block = some (block % c.num_sets)
set_index_of c hash_rng1_mod block = some (rng_state (rng_seed block) / 2 ^ 16 % c.num_sets)
set_index_of c hash_rng2_mod block =
    some (rng_state (rng_state (rng_seed block)) / 2 ^ 16 % c.num_sets)
set_index_of c hash_prime_dis block =
    some ((3 * (block / 2 ^ c.log_num_sets) + block % c.num_sets) % u64 % c.num_sets)
set_index_of c hash_xor_mod block =
    some (bit_xor (block % c.num_sets) (block / 2 ^ c.log_num_sets % c.num_sets))
set_index_of c hash_mer_mod block =
    if c.num_sets == 1 then none else some (block % (c.num_sets - 1))

pub record Split : Type 0 where
  pub tag : ℕ
  pub set_index : ℕ

unfoldable pub split_address : CacheBase → ℕ → Option Split
unfolding set_index_of get_linear_address
split_address c addr = do
  set ← set_index_of c c.hash (linear c.ahl addr / 2 ^ c.log_blocksize)
  some (record { tag = addr / 2 ^ c.log_blocksize; set_index = set })

unfoldable pub block_offset : CacheBase → ℕ → ℕ
block_offset c addr = bit_and addr ((c.blocksize + u32 - 1) % u32)

unfoldable pub tag_to_address : CacheBase → ℕ → ℕ
tag_to_address c tag = tag * 2 ^ c.log_blocksize % u64
