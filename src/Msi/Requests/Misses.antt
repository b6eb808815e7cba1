-- ===== src/Msi/Requests/Misses.antt =====
-- `processExReqFromL2Cache` and `processShReqFromL2Cache` of
-- core/memory_subsystem/pr_l1_pr_l2_dram_directory_msi/dram_directory_cntlr.cc.
use snipersimcommon.Base.{ℕ, ◌+◌, Bool, true, false, not, Option, none, ◌==◌, if◌then◌else◌}
use snipersimcommon.Directory.Entry.{
  DState, uncached, shared, owned, modified, exclusive, has_sharer, get_sharers_list,
}
use snipersimcommon.Run.{Run, done, abort, check, from, ◌>>=◌, ◌>>◌}
use snipersimcommon.Msi.Message.{
  ShmemReq, inv_req, flush_req, wb_req, ex_rep, sh_rep, l2_cache, msi, mesi, mesif, Protocol,
  is_null,
}
use snipersimcommon.Msi.Slots.{Slot, Place, write, add_sharer, get_one_sharer}
use snipersimcommon.Msi.State.{Setup, State, send_msg}
use snipersimcommon.Msi.Requests.Entries.{Next, requester, address, send_inv, entry_for}
use snipersimcommon.Msi.Requests.Retrieval.{retrieve, give}

unfoldable pub ex_in :
    Setup → Next → ShmemReq → Option ℕ → State → Place → Slot → DState → Run State
ex_in p next req cached s place slot exclusive = do
  check (is_null cached)
  done (send_msg flush_req l2_cache (requester req) slot.entry.owner (address req) none s)
ex_in p next req cached s place slot modified = do
  check (is_null cached)
  done (send_msg flush_req l2_cache (requester req) slot.entry.owner (address req) none s)
ex_in p next req cached s place slot shared = do
  check (is_null cached)
  done (send_inv (requester req) (address req) (get_sharers_list slot.entry) s)
ex_in p next req cached s place slot uncached = do
  given ← give p s place slot (requester req) modified
  retrieve p next ex_rep (requester req) (address req) cached given
ex_in p next req cached s place slot owned = abort

-- `processExReqFromL2Cache`
unfoldable pub process_ex : Setup → Next → State → ShmemReq → Option ℕ → Run State
unfolding ex_in
process_ex p next s req cached_data_buf = do
  found ← entry_for p next s req
  ex_in p next req cached_data_buf found.0 found.1 found.2 found.2.entry.dstate

-- The entry has the requester as a sharer: it was added when the data was first asked for.
abbrev pub count_forward : Option ℕ → State → State
count_forward cached s = record s {
  forward = s.forward + 1;
  forward_failed = if is_null cached then s.forward_failed + 1 else s.forward_failed;
}

-- The requester is no sharer yet: it is added, or another sharer is invalidated first.
unfoldable pub sh_added :
    Setup → Next → ShmemReq → Option ℕ → State → Place → Slot × Bool → Run State
sh_added p next req cached s place (slot, true) =
    retrieve p next sh_rep (requester req) (address req) cached
      (record s { cache = write s.cache place slot })
sh_added p next req cached s place (slot, false) = do
  chosen ← get_one_sharer p.directory slot
  done (
      send_msg inv_req l2_cache (requester req) chosen.1 (address req) none
        (record s { cache = write s.cache place chosen.0 }))

unfoldable pub sh_shared :
    Setup → Next → ShmemReq → Option ℕ → State → Place → Slot → Bool → Run State
unfolding sh_added
sh_shared p next req cached s place slot true =
    retrieve p next sh_rep (requester req) (address req) cached (count_forward cached s)
sh_shared p next req cached s place slot false = do
  added ← add_sharer p.directory slot (requester req)
  sh_added p next req cached s place added

unfoldable pub sh_uncached :
    Setup → Next → ShmemReq → Option ℕ → State → Place → Slot → Protocol → Run State
sh_uncached p next req cached s place slot msi = do
  given ← give p s place slot (requester req) shared
  retrieve p next sh_rep (requester req) (address req) cached given
sh_uncached p next req cached s place slot mesi = do
  given ← give p s place slot (requester req) exclusive
  retrieve p next ex_rep (requester req) (address req) cached given
sh_uncached p next req cached s place slot mesif = do
  given ← give p s place slot (requester req) exclusive
  retrieve p next ex_rep (requester req) (address req) cached given

unfoldable pub sh_in :
    Setup → Next → ShmemReq → Option ℕ → State → Place → Slot → DState → Run State
unfolding sh_shared sh_uncached
sh_in p next req cached s place slot exclusive = do
  check (not (requester req == slot.entry.owner))
  check (is_null cached)
  done (send_msg wb_req l2_cache (requester req) slot.entry.owner (address req) none s)
sh_in p next req cached s place slot modified = do
  check (is_null cached)
  done (send_msg wb_req l2_cache (requester req) slot.entry.owner (address req) none s)
sh_in p next req cached s place slot shared = do
  there ← from (has_sharer slot.entry (requester req))
  sh_shared p next req cached s place slot there
sh_in p next req cached s place slot uncached =
    sh_uncached p next req cached s place slot p.protocol
sh_in p next req cached s place slot owned = abort

-- `processShReqFromL2Cache`
unfoldable pub process_sh : Setup → Next → State → ShmemReq → Option ℕ → Run State
unfolding sh_in
process_sh p next s req cached_data_buf = do
  found ← entry_for p next s req
  sh_in p next req cached_data_buf found.0 found.1 found.2 found.2.entry.dstate
