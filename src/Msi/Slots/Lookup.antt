-- ===== src/Msi/Slots/Lookup.antt =====
-- How the directory cache finds an entry, in
-- core/memory_subsystem/pr_l1_pr_l2_dram_directory_msi/dram_directory_cache.cc.
use snipersimcommon.Base.{
  ℕ, zero, suc, ◌+◌, ◌-◌, ◌*◌, ◌/◌, ◌%◌, ◌^◌, Option, none, some, List, [], ◌∷◌, get_elem?, set,
  replicate, ◌==◌, leb, if◌then◌else◌, u32, bit_and,
}
use snipersimcommon.Directory.Entry.{invalid_address, set_address}
use snipersimcommon.Cache.Address.{floor_log2}
use snipersimcommon.Run.{Run, done, check, from, ◌>>=◌, ◌>>◌}
use snipersimcommon.Msi.Slots.Scheme.{DirectoryType, Config, Slot, create_directory_entry}

-- The directory, the entries that were replaced in it and still wait to be nullified, and a pointer for each set.
pub record DirectoryCache : Type 0 where
  pub slots : List Slot
  pub replaced : List Slot
  pub replacement_ptrs : List ℕ

-- The constructor of `DramDirectoryCache`: a division by zero aborts.
unfoldable pub configure : DirectoryType → ℕ → ℕ → ℕ → ℕ → ℕ → ℕ → ℕ → Run Config
configure directory_type total_entries associativity cache_block_size max_hw_sharers max_num_sharers
      software_trap_penalty first_forwarder =
    do
      check (leb 1 associativity)
      done (record {
        directory_type = directory_type;
        max_hw_sharers = max_hw_sharers;
        max_num_sharers = max_num_sharers;
        software_trap_penalty = software_trap_penalty;
        first_forwarder = first_forwarder;
        associativity = associativity;
        log_num_sets = floor_log2 (total_entries / associativity);
        log_cache_block_size = floor_log2 cache_block_size;
        num_sets = total_entries / associativity;
      })

-- The pointers are not set by the constructor: `ptrs` is what their memory held.
unfoldable pub create : Config → ℕ → List ℕ → DirectoryCache
create c total_entries ptrs = record {
  slots = replicate total_entries (create_directory_entry c);
  replaced = [];
  replacement_ptrs = ptrs;
}

-- Where an entry is that the source has a pointer to.
pub data Place : Type 0 where
  way : ℕ → Place
  replaced_at : ℕ → Place

unfoldable pub set_index : Config → ℕ → ℕ
set_index c address =
    bit_and (address / 2 ^ c.log_cache_block_size % u32) ((c.num_sets + u32 - 1) % u32)

-- The first of `left` ways from `i` on whose entry has the address.
unfoldable pub find_way : ℕ → List Slot → ℕ → ℕ → Run (Option ℕ)
find_way zero slots i address = done none
find_way (suc left) slots i address = do
  s ← from (get_elem? slots i)
  if s.entry.address == address then done (some i) else find_way left slots (i + 1) address

unfoldable pub find_replaced : ℕ → List Slot → ℕ → Option ℕ
find_replaced i [] address = none
find_replaced i (s ∷ rest) address =
    if s.entry.address == address then some i else find_replaced (i + 1) rest address

unfoldable pub read : DirectoryCache → Place → Run Slot
read d (way i) = from (get_elem? d.slots i)
read d (replaced_at i) = from (get_elem? d.replaced i)

unfoldable pub write : DirectoryCache → Place → Slot → DirectoryCache
write d (way i) s = record d { slots = set d.slots i s }
write d (replaced_at i) s = record d { replaced = set d.replaced i s }

abbrev pub first_way : Config → ℕ → ℕ
first_way c address = set_index c address * c.associativity

-- A free entry is claimed for the address.
unfoldable pub claim : DirectoryCache → ℕ → ℕ → Run (DirectoryCache × Option Place)
claim d i address = do
  s ← from (get_elem? d.slots i)
  done (
    record d { slots = set d.slots i (record s { entry = set_address s.entry address }) },
    some (way i),
  )

unfoldable pub in_replaced : DirectoryCache → Option ℕ → DirectoryCache × Option Place
in_replaced d none = (d, none)
in_replaced d (some i) = (d, some (replaced_at i))

unfoldable pub when_free : DirectoryCache → ℕ → Option ℕ → Run (DirectoryCache × Option Place)
unfolding claim in_replaced find_replaced
when_free d address (some i) = claim d i address
when_free d address none = done (in_replaced d (find_replaced 0 d.replaced address))

unfoldable pub when_found :
    Config → DirectoryCache → ℕ → Option ℕ → Run (DirectoryCache × Option Place)
unfolding when_free set_index find_way
when_found c d address (some i) = done (d, some (way i))
when_found c d address none = do
  free ← find_way c.associativity d.slots (first_way c address) invalid_address
  when_free d address free

-- The entry of an address: that of a way of its set, else a free way, else a replaced entry.
unfoldable pub get_directory_entry :
    Config → DirectoryCache → ℕ → Run (DirectoryCache × Option Place)
unfolding when_found set_index find_way
get_directory_entry c d address = do
  found ← find_way c.associativity d.slots (first_way c address) address
  when_found c d address found
