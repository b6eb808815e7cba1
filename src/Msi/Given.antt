-- ===== src/Msi/Given.antt =====
-- How an entry without sharers is given to a core, by
-- core/memory_subsystem/pr_l1_pr_l2_dram_directory_msi/dram_directory_cntlr.cc: it is, if the core is in range and
-- the limit is above the sharers.
use snipersimcommon.Base.{
  ℕ, ◌<◌, ◌≡◌, refl, Bool, true, false, some, get_elem?, set, length, leb, ◌==◌, if◌then◌else◌,
  arith, Bool-cases, inl, inr,
}
use snipersimcommon.Directory.Entry.{
  Entry, DState, has_sharer, get_num_sharers, set_owner, set_d_state, invalid_core_id,
}
use snipersimcommon.Directory.Limited
use snipersimcommon.Directory.Limitless
use snipersimcommon.Directory.Sharers.{set-Added}
use snipersimcommon.Run.{done, check, from, ◌>>=◌, ◌>>◌}
use snipersimcommon.Msi.Slots.{
  Config, Slot, DirectoryType, full_map, limited_no_broadcast, limitless, way, write, add_sharer,
  add_by, limited_add, limitless_add, get_max_hw_sharers, with_trap,
}
use snipersimcommon.Msi.State.{Setup, State, update_entry}
use snipersimcommon.Msi.Requests.{give}

-- An entry that a core was added to.
abbrev pub grown : Entry → ℕ → Entry
grown e core = record e { sharers = set e.sharers core true }

limited_grown :
    (e : Entry) (core m : ℕ)
    → has_sharer e core ≡ some false
    → get_num_sharers e < m
    → Limited.add_sharer e core m ≡ some (grown e core, true)
unfolding Limited.add_sharer has_sharer
limited_grown e core m free room =
    let test : leb m (get_num_sharers e) ≡ false = ground arith in rw (free, test) refl

limitless_grown :
    (c : Config) (s : Slot) (core m : ℕ)
    → has_sharer s.entry core ≡ some false
    → (trap : Bool) × (Limitless.add_sharer (with_trap c s) core m
        ≡ some (
          record {
            entry = grown s.entry core;
            software_trap_enabled = trap;
            software_trap_penalty = c.software_trap_penalty;
          },
          true,
        ))
unfolding Limitless.add_sharer has_sharer
limitless_grown c s core m free =
    (if length s.entry.sharers == m then true else s.software_trap_enabled, rw free refl)

-- The slot after a core was added, which is there for a limit above the sharers.
add_by-grown :
    (t : DirectoryType) (c : Config) (s : Slot) (core : ℕ)
    → has_sharer s.entry core ≡ some false
    → get_num_sharers s.entry < get_max_hw_sharers c
    → (trap : Bool) × (add_by t c s core
        ≡ done (record s { entry = grown s.entry core; software_trap_enabled = trap }, true))
unfolding add_by limited_add limitless_add from ◌>>=◌
add_by-grown full_map c s core free room =
    (s.software_trap_enabled, rw (limited_grown s.entry core _ free room) refl)
add_by-grown limited_no_broadcast c s core free room =
    (s.software_trap_enabled, rw (limited_grown s.entry core _ free room) refl)
add_by-grown limitless c s core free room =
    let (trap, e) = limitless_grown c s core (get_max_hw_sharers c) free in (trap, rw e refl)

set_owner-grown :
    (e : Entry) (core : ℕ)
    → has_sharer e core ≡ some false
    → set_owner (grown e core) core ≡ some (record (grown e core) { owner = core })
unfolding set_owner has_sharer
set_owner-grown e core free =
    let written : get_elem? (set e.sharers core true) core ≡ some true =
      (set-Added e core free).there in
    elim (Bool-cases (core == invalid_core_id)) [
      | inl invalid ↦ rw invalid refl
      | inr valid ↦ rw (valid, written) refl
    ]

-- The slot that a core was given.
abbrev pub given_slot : Slot → Bool → ℕ → DState → Slot
given_slot slot trap core d = record slot {
  entry = set_d_state (record (grown slot.entry core) { owner = core }) d;
  software_trap_enabled = trap;
}

pub give_lem :
    (p : Setup) (s : State) (i : ℕ) (slot : Slot) (core : ℕ) (d : DState)
    → has_sharer slot.entry core ≡ some false
    → get_num_sharers slot.entry < get_max_hw_sharers p.directory
    → (trap : Bool) × (give p s (way i) slot core d
        ≡ done (record s { cache = write s.cache (way i) (given_slot slot trap core d) }))
unfolding give add_sharer from check update_entry ◌>>=◌ ◌>>◌
give_lem p s i slot core d free room =
    let (trap, e) = add_by-grown p.directory.directory_type p.directory slot core free room in
    (trap, rw (e, set_owner-grown slot.entry core free) refl)
