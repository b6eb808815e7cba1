-- ===== src/Msi/Requests/Upgrade.antt =====
-- `processUpgradeReqFromL2Cache` of
-- core/memory_subsystem/pr_l1_pr_l2_dram_directory_msi/dram_directory_cntlr.cc.
use snipersimcommon.Base.{
  ℕ, ◌+◌, Bool, not, ◌&&◌, Option, none, some, List, [], ◌∷◌, length, get_elem?, get_or, ◌==◌,
  if◌then◌else◌,
}
use snipersimcommon.Directory.Entry.{
  Entry, DState, uncached, shared, owned, modified, exclusive, has_sharer, get_sharers_list,
  set_owner, set_d_state,
}
use snipersimcommon.Run.{Run, done, abort, check, from, ◌>>=◌, ◌>>◌}
use snipersimcommon.Msi.Message.{ShmemReq, inv_req, flush_req, ex_rep, upgrade_rep, l2_cache}
use snipersimcommon.Msi.Slots.{Slot, Place}
use snipersimcommon.Msi.State.{Setup, State, send_msg, reply, update_entry}
use snipersimcommon.Msi.Requests.Entries.{Next, requester, address, entry_for}
use snipersimcommon.Msi.Requests.Retrieval.{retrieve, give}

-- The requester may write, and the next request is processed.
unfoldable pub grant : Next → ShmemReq → State → Place → Slot → Entry → Run State
grant next req s place slot entry =
    next
      (reply upgrade_rep (requester req) (address req) none
        (update_entry s place slot (set_d_state entry modified)))
      (address req)

-- The sharers other than the requester are invalidated; the one of index 0 is flushed, if the
-- requester has no copy, which saves an access to memory.
unfoldable pub send_others : ShmemReq → Bool → ℕ → List ℕ → State → State
send_others req has_copy i [] s = s
send_others req has_copy i (id ∷ ids) s = send_others req has_copy (i + 1) ids (
    if id == requester req
    then s
    else send_msg (if not has_copy && i == 0 then flush_req else inv_req) l2_cache (requester req)
        id (address req) none s)

unfoldable pub upgrade_owned : Next → ShmemReq → State → Place → Slot → Run State
upgrade_owned next req s place slot = do
  holder ← from (get_elem? (get_sharers_list slot.entry) 0)
  if holder == requester req
      then (do check (slot.entry.owner == requester req); grant next req s place slot slot.entry)
      else done (send_msg flush_req l2_cache (requester req) slot.entry.owner (address req) none s)

unfoldable pub upgrade_shared : Next → ShmemReq → State → Place → Slot → List ℕ → Run State
upgrade_shared next req s place slot sharers =
    if length sharers == 1 && get_or sharers 0 0 == requester req
    then (do
      owned_entry ← from (set_owner slot.entry (requester req))
      grant next req s place slot owned_entry)
    else (do
      has_copy ← from (has_sharer slot.entry (requester req))
      done (send_others req has_copy 0 sharers s))

-- The data that a flush brought, else what an earlier one left with the request.
abbrev pub first_data : Option ℕ → Option ℕ → Option ℕ
first_data none stored = stored
first_data (some data_buf) stored = some data_buf

unfoldable pub upgrade_in :
    Setup → Next → ShmemReq → Option ℕ → State → Place → Slot → DState → Run State
unfolding upgrade_owned upgrade_shared
upgrade_in p next req cached s place slot exclusive = upgrade_owned next req s place slot
upgrade_in p next req cached s place slot modified = upgrade_owned next req s place slot
upgrade_in p next req cached s place slot shared =
    upgrade_shared next req s place slot (get_sharers_list slot.entry)
upgrade_in p next req cached s place slot uncached = do
  check (length (get_sharers_list slot.entry) == 0)
  given ← give p s place slot (requester req) modified
  retrieve p next ex_rep (requester req) (address req) (first_data cached req.shmem_msg.data_buf)
      given
upgrade_in p next req cached s place slot owned = abort

-- `processUpgradeReqFromL2Cache`
unfoldable pub process_upgrade : Setup → Next → State → ShmemReq → Option ℕ → Run State
unfolding upgrade_in
process_upgrade p next s req cached_data_buf = do
  found ← entry_for p next s req
  upgrade_in p next req cached_data_buf found.0 found.1 found.2 found.2.entry.dstate
