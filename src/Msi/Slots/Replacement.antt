-- ===== src/Msi/Slots/Replacement.antt =====
-- How the directory cache replaces an entry, in
-- core/memory_subsystem/pr_l1_pr_l2_dram_directory_msi/dram_directory_cache.cc.
use snipersimcommon.Base.{
  ℕ, zero, suc, ◌+◌, ◌%◌, Bool, true, false, Option, none, some, List, [], ◌∷◌, ◌++◌, get_elem?,
  set, ◌==◌, if◌then◌else◌, u32,
}
use snipersimcommon.Directory.Entry.{set_address}
use snipersimcommon.Run.{Run, done, abort, check, from, ◌>>=◌, ◌>>◌}
use snipersimcommon.Msi.Slots.Scheme.{Config, Slot, create_directory_entry}
use snipersimcommon.Msi.Slots.Lookup.{
  DirectoryCache, Place, set_index, find_way, first_way, get_directory_entry, way,
}

-- The entries of the ways of a set, from the one that the pointer of the set names on.
unfoldable pub candidates : ℕ → ℕ → ℕ → ℕ → List Slot → Run (List Slot)
candidates zero i ptr base slots = done []
candidates (suc left) i ptr base slots = do
  s ← from (get_elem? slots (base + (i + ptr) % u32 % (i + suc left)))
  rest ← candidates left (i + 1) ptr base slots
  done (s ∷ rest)

abbrev pub is_absent : Option Place → Bool
is_absent none = true
is_absent (some _) = false

unfoldable pub get_replacement_candidates :
    Config → DirectoryCache → ℕ → Run (DirectoryCache × List Slot)
unfolding candidates
get_replacement_candidates c d address = do
  found ← get_directory_entry c d address
  check (is_absent found.1)
  let d' = found.0
  ptr ← from (get_elem? d'.replacement_ptrs (set_index c address))
  list ← candidates c.associativity 0 ptr (first_way c address) d'.slots
  done (
    record d' {
      replacement_ptrs = set d'.replacement_ptrs (set_index c address) ((ptr + 1) % u32);
    },
    list,
  )

unfoldable pub move_out : Config → DirectoryCache → ℕ → Option ℕ → Run (DirectoryCache × Place)
move_out c d address none = abort
move_out c d address (some i) = do
  s ← from (get_elem? d.slots i)
  let new = create_directory_entry c
  done (
    record d {
      slots = set d.slots i (record new { entry = set_address new.entry address });
      replaced = d.replaced ++ (s ∷ []);
    },
    way i,
  )

-- The entry of the replaced address is kept aside, and a new one takes its way.
unfoldable pub replace_directory_entry :
    Config → DirectoryCache → ℕ → ℕ → Run (DirectoryCache × Place)
unfolding move_out
replace_directory_entry c d replaced_address address = do
  found ← find_way c.associativity d.slots (first_way c replaced_address) replaced_address
  move_out c d address found

unfoldable pub erase : ℕ → List Slot → Run (List Slot)
erase address [] = abort
erase address (s ∷ rest) =
    if s.entry.address == address
    then done rest
    else (do kept ← erase address rest; done (s ∷ kept))

unfoldable pub invalidate_directory_entry : DirectoryCache → ℕ → Run DirectoryCache
unfolding erase
invalidate_directory_entry d address = do
  kept ← erase address d.replaced
  done (record d { replaced = kept })
