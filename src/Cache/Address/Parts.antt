-- ===== src/Cache/Address/Parts.antt =====
-- The parts of an address, as cache_base.cc takes them apart.
use snipersimcommon.Base.{
  ℕ, suc, ◌+◌, ◌-◌, ◌*◌, ◌/◌, ◌%◌, ◌^◌, ◌≤◌, ◌<◌, ◌≡◌, refl, some, arith, u32, u64, bit_xor,
}
use native.Mathlib.Nat.{one-le-pow, div-add-mod', mod-lt, mod-eq_of_lt}
use snipersimcommon.Base.Bits.{bit_and_mask, bit_xor-lt}
use snipersimcommon.Cache.Address.{
  floor_log2, CacheBase, Hash, hash_mask, hash_mod, hash_rng1_mod, hash_rng2_mod, hash_prime_dis,
  hash_xor_mod, hash_mer_mod, set_index_of, split_address, block_offset, linear, tag_to_address,
  Split,
}

-- `floorLog2` is the position of the most significant bit of a positive 32-bit number.
pub floor_log2_bounds :
    (n : ℕ) → 0 < n → n < u32 → (2 ^ floor_log2 n ≤ n) × (n < 2 ^ (floor_log2 n + 1))
unfolding floor_log2
floor_log2_bounds n pos small = ground arith

-- A geometry that the simulator is run with: sizes are powers of two.
pub record IsGeometry (c : CacheBase) (b s : ℕ) : Type 0 where
  pub blocks : c.blocksize ≡ 2 ^ b
  pub sets : c.num_sets ≡ 2 ^ s
  pub log_blocks : c.log_blocksize ≡ b
  pub log_sets : c.log_num_sets ≡ s
  pub block_fits : c.blocksize < u32
  pub sets_fit : c.num_sets < u32

xor-lt : (n k a b : ℕ) → n ≡ 2 ^ k → a < n → b < n → bit_xor a b < n
xor-lt n k a b e ha hb = rw e (bit_xor-lt k a b (omega arith) (omega arith))

module _ {c : CacheBase} {b s : ℕ} (g : IsGeometry c b s) where
  mask_lem : (n k : ℕ) → n ≡ 2 ^ k → n < u32 → suc ((n + u32 - 1) % u32) ≡ 2 ^ k
  mask_lem n k e h = omega (arith, one-le-pow k 2 (omega arith))

  block_offset_lem : (addr : ℕ) → block_offset c addr ≡ addr % 2 ^ b
  unfolding block_offset
  block_offset_lem addr = bit_and_mask b addr _ (mask_lem c.blocksize b g.blocks g.block_fits)

  -- In a cache whose block size and number of sets are powers of two below 2 ^ 32, the tag and the
  -- block offset of an address on 64 bits give the address back.
  pub join_lem :
      (addr : ℕ) (p : Split)
      → addr < u64
      → split_address c addr ≡ some p
      → tag_to_address c p.tag + block_offset c addr ≡ addr
  unfolding split_address tag_to_address block_offset
  join_lem addr p h e =
      let tagged : p.tag ≡ addr / 2 ^ c.log_blocksize = ground arith in
      rw (tagged, g.log_blocks, block_offset_lem addr)
        (omega (
          arith,
          div-add-mod' addr (2 ^ b),
          mod-eq_of_lt {n = addr / 2 ^ b * 2 ^ b} {m = u64}
              (omega (arith, div-add-mod' addr (2 ^ b))),
        ))

  set_index_of-lt :
      (h : Hash) (block : ℕ)
      → 1 < c.num_sets
      → (i : ℕ) × (set_index_of c h block ≡ some i) × (i < c.num_sets)
  unfolding set_index_of
  set_index_of-lt hash_mask block h = (
    _,
    refl,
    rw (bit_and_mask s block _ (mask_lem c.num_sets s g.sets g.sets_fit))
        (rw g.sets (mod-lt block (one-le-pow s 2 (omega arith)))),
  )
  set_index_of-lt hash_mod block h = (_, refl, mod-lt block (omega arith))
  set_index_of-lt hash_rng1_mod block h = (_, refl, mod-lt _ (omega arith))
  set_index_of-lt hash_rng2_mod block h = (_, refl, mod-lt _ (omega arith))
  set_index_of-lt hash_prime_dis block h = (_, refl, mod-lt _ (omega arith))
  set_index_of-lt hash_xor_mod block h = (
    _,
    refl,
    xor-lt c.num_sets s _ _ g.sets (mod-lt block (omega arith))
        (mod-lt (block / 2 ^ c.log_num_sets) (omega arith)),
  )
  set_index_of-lt hash_mer_mod block h = (
    block % (c.num_sets - 1),
    ground arith,
    omega (arith, mod-lt block {m = c.num_sets - 1} (omega arith)),
  )

  -- In a cache whose block size and number of sets are powers of two below 2 ^ 32, with at least
  -- two sets, every hash gives every address a set of the cache.
  pub set_index-lt :
      (addr : ℕ)
      → 1 < c.num_sets
      → (p : Split) × (split_address c addr ≡ some p) × (p.set_index < c.num_sets)
  unfolding split_address
  set_index-lt addr h =
      let (i, e, lt) = set_index_of-lt c.hash (linear c.ahl addr / 2 ^ c.log_blocksize) h in
      (record { tag = addr / 2 ^ c.log_blocksize; set_index = i }, rw e, lt)
