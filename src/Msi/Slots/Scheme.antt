-- ===== src/Msi/Slots/Scheme.antt =====
-- The entries of a directory, by its scheme: core/memory_subsystem/directory_schemes/directory.cc.
use Prim.Native.String.{String}
use text.Mathlib.Text.{◌==◌ as str_eq}
use snipersimcommon.Base.{ℕ, Bool, false, leb, if◌then◌else◌}
use snipersimcommon.Directory.Entry.{Entry, invalid_address, set_address}
use snipersimcommon.Directory.Entry
use snipersimcommon.Directory.Limited
use snipersimcommon.Directory.Limitless
use snipersimcommon.Directory.Limitless.{Limitless}
use snipersimcommon.Run.{Run, done, abort, from, ◌>>=◌}

pub data DirectoryType : Type 0 where
  full_map limited_no_broadcast limitless : DirectoryType

unfoldable pub parse_directory_type : String → Run DirectoryType
parse_directory_type s =
    if str_eq s "full_map"
    then done full_map
    else if str_eq s "limited_no_broadcast"
    then done limited_no_broadcast
    else if str_eq s "limitless"
    then done limitless
    else abort

-- What the directory is made with. The forwarder of a new entry is what its memory held.
pub record Config : Type 0 where
  pub directory_type : DirectoryType
  pub max_hw_sharers : ℕ
  pub max_num_sharers : ℕ
  pub software_trap_penalty : ℕ
  pub first_forwarder : ℕ
  pub associativity : ℕ
  pub log_num_sets : ℕ
  pub log_cache_block_size : ℕ
  pub num_sets : ℕ

-- A directory entry of any scheme: the generator is used by the limited one, the trap by the other.
pub record Slot : Type 0 where
  pub entry : Entry
  pub software_trap_enabled : Bool
  pub seed : ℕ

-- The bits that a new entry has room for.
unfoldable pub sharers_size : ℕ → ℕ
sharers_size max_num_sharers =
    if leb max_num_sharers 64
    then 64
    else if leb max_num_sharers 128
    then 128
    else if leb max_num_sharers 256
    then 256
    else if leb max_num_sharers 1024
    then 1024
    else max_num_sharers

unfoldable pub create_directory_entry : Config → Slot
unfolding sharers_size
create_directory_entry c = record {
  entry = Entry.create (sharers_size c.max_num_sharers) c.first_forwarder;
  software_trap_enabled = false;
  seed = 1;
}

-- `m_use_max_hw_sharers` once an entry was made.
unfoldable pub get_max_hw_sharers : Config → ℕ
get_max_hw_sharers c = elim c.directory_type [
  | full_map ↦ c.max_num_sharers
  | limited_no_broadcast ↦ c.max_hw_sharers
  | limitless ↦ c.max_hw_sharers
]

abbrev pub with_trap : Config → Slot → Limitless
with_trap c s = record {
  entry = s.entry;
  software_trap_enabled = s.software_trap_enabled;
  software_trap_penalty = c.software_trap_penalty;
}

-- `DirectoryEntry::addSharer`, by the scheme of the entry.
unfoldable pub limited_add : Config → Slot → ℕ → Run (Slot × Bool)
unfolding get_max_hw_sharers
limited_add c s id = do
  r ← from (Limited.add_sharer s.entry id (get_max_hw_sharers c))
  done (record s { entry = r.0 }, r.1)

unfoldable pub limitless_add : Config → Slot → ℕ → Run (Slot × Bool)
unfolding get_max_hw_sharers
limitless_add c s id = do
  r ← from (Limitless.add_sharer (with_trap c s) id (get_max_hw_sharers c))
  done (record s { entry = r.0.entry; software_trap_enabled = r.0.software_trap_enabled }, r.1)

unfoldable pub add_by : DirectoryType → Config → Slot → ℕ → Run (Slot × Bool)
unfolding limited_add limitless_add
add_by full_map c s id = limited_add c s id
add_by limited_no_broadcast c s id = limited_add c s id
add_by limitless c s id = limitless_add c s id

unfoldable pub add_sharer : Config → Slot → ℕ → Run (Slot × Bool)
unfolding add_by
add_sharer c s id = add_by c.directory_type c s id

unfoldable pub limited_one : Slot → Run (Slot × ℕ)
limited_one s = do
  r ← from (Limited.get_one_sharer s.entry s.seed)
  done (record s { seed = r.1 }, r.0)

-- `DirectoryEntry::getOneSharer`, by the scheme of the entry.
unfoldable pub one_by : DirectoryType → Config → Slot → Run (Slot × ℕ)
unfolding limited_one
one_by full_map c s = limited_one s
one_by limited_no_broadcast c s = limited_one s
one_by limitless c s = do id ← from (Limitless.get_one_sharer (with_trap c s)); done (s, id)

unfoldable pub get_one_sharer : Config → Slot → Run (Slot × ℕ)
unfolding one_by
get_one_sharer c s = one_by c.directory_type c s
