-- ===== src/Directory/Entry.antt =====
-- `DirectoryEntry` and `DirectoryEntrySized` of core/memory_subsystem/directory_schemes/directory_entry.h, what
-- all schemes share. An index into the sharers that is out of range is undefined in the source, here `none`.
use snipersimcommon.Base.{
  ℕ, ◌+◌, Bool, false, not, Option, some, List, [], ◌∷◌, get_elem?, set, replicate, ◌==◌,
  if◌then◌else◌, ◌>>=◌, ◌>>◌, assert,
}

-- `INVALID_CORE_ID` and `INVALID_ADDRESS`.
abbrev pub invalid_core_id : ℕ
invalid_core_id = 4294967295

abbrev pub invalid_address : ℕ
invalid_address = 18446744073709551615

-- `DirectoryState::dstate_t`
pub data DState : Type 0 where
  uncached shared owned modified exclusive : DState

pub record Entry : Type 0 where
  pub address : ℕ
  pub dstate : DState
  pub owner : ℕ
  pub forwarder : ℕ
  pub sharers : List Bool

-- The forwarder is not set by the constructor: its first value is arbitrary. `size` is that of the
-- vector or of the bit set.
unfoldable pub create : ℕ → ℕ → Entry
create size forwarder = record {
  address = invalid_address;
  dstate = uncached;
  owner = invalid_core_id;
  forwarder = forwarder;
  sharers = replicate size false;
}

unfoldable pub has_sharer : Entry → ℕ → Option Bool
has_sharer e id = get_elem? e.sharers id

-- `m_sharers.count()`.
unfoldable pub count : List Bool → ℕ
count [] = 0
count (b ∷ bs) = (if b then 1 else 0) + count bs

unfoldable pub get_num_sharers : Entry → ℕ
unfolding count
get_num_sharers e = count e.sharers

-- The loop of `getSharersList` from index `j` on.
unfoldable pub list_from : ℕ → List Bool → List ℕ
list_from j [] = []
list_from j (b ∷ bs) = if b then j ∷ list_from (j + 1) bs else list_from (j + 1) bs

unfoldable pub get_sharers_list : Entry → List ℕ
unfolding list_from
get_sharers_list e = list_from 0 e.sharers

-- `removeSharer`, the same in both schemes.
unfoldable pub remove_sharer : Entry → ℕ → Bool → Option Entry
remove_sharer e id reply_expected = do
  assert (not reply_expected)
  there ← get_elem? e.sharers id
  assert there
  some (record e { sharers = set e.sharers id false })

-- `setOwner`, the same in both schemes.
unfoldable pub set_owner : Entry → ℕ → Option Entry
set_owner e owner_id =
    let owned = record e { owner = owner_id } in
    let checked = do there ← get_elem? e.sharers owner_id; assert there; some owned
    in if owner_id == invalid_core_id then some owned else checked

unfoldable pub set_d_state : Entry → DState → Entry
set_d_state e dstate = record e { dstate = dstate }

unfoldable pub set_address : Entry → ℕ → Entry
set_address e address = record e { address = address }

unfoldable pub set_forwarder : Entry → ℕ → Entry
set_forwarder e forwarder_id = record e { forwarder = forwarder_id }
