-- ===== src/Msi/Replies/Invalidations.antt =====
-- The replies of DRAM and the invalidations of the caches, in
-- core/memory_subsystem/pr_l1_pr_l2_dram_directory_msi/dram_directory_cntlr.cc.
use snipersimcommon.Base.{
  ℕ, Bool, true, false, not, ◌&&◌, Option, none, List, [], ◌∷◌, ◌==◌, leb, if◌then◌else◌,
}
use snipersimcommon.Directory.Entry.{
  Entry, DState, uncached, shared, modified, exclusive, invalid_core_id, has_sharer,
  get_num_sharers, remove_sharer, set_d_state, set_forwarder,
}
use snipersimcommon.Cache.Address.{get_home}
use snipersimcommon.Run.{Run, done, abort, check, from, ◌>>=◌, ◌>>◌}
use snipersimcommon.Msi.Message.{
  MsgType, ShmemMsg, ShmemReq, ex_req, sh_req, upgrade_req, ex_rep, sh_rep, dram_write_req, dram,
  is_forwarding, is_null,
}
use snipersimcommon.Msi.Slots.{Slot, Place}
use snipersimcommon.Msi.State.{Setup, State, front, size, send_msg, reply, update_entry, existing}
use snipersimcommon.Msi.Requests.{
  Next, requester, process_nullify, process_ex, process_sh, process_upgrade,
}

-- A message with the length of a block has to have data: `MemoryManager::sendMsg` asserts it.
abbrev pub with_data : Option ℕ → Run (Unit {0})
with_data data_buf = check (not (is_null data_buf))

-- `sendDataToDram`, without a NUCA cache.
unfoldable pub send_data_to_dram : Setup → ℕ → ℕ → Option ℕ → State → Run State
send_data_to_dram p address requester data_buf s = do
  with_data data_buf
  done (send_msg dram_write_req dram requester (get_home p.homes address) address data_buf s)

abbrev pub is_uncached : DState → Bool
is_uncached uncached = true
is_uncached _ = false

abbrev pub is_shared : DState → Bool
is_shared shared = true
is_shared _ = false

abbrev pub is_modified : DState → Bool
is_modified modified = true
is_modified _ = false

-- The type of the reply to a request of the type, once its data is there.
unfoldable pub dram_reply_type : MsgType → DState → Run MsgType
dram_reply_type sh_req shared = done sh_rep
dram_reply_type sh_req exclusive = done ex_rep
dram_reply_type sh_req _ = abort
dram_reply_type ex_req dstate = do check (is_modified dstate); done ex_rep
dram_reply_type upgrade_req dstate = done ex_rep
dram_reply_type _ dstate = abort

-- `processDRAMReply`
unfoldable pub process_dram_reply : Setup → Next → State → ShmemMsg → Run State
unfolding dram_reply_type
process_dram_reply p next s msg = do
  check (leb 1 (size s msg.address))
  req ← front s msg.address
  found ← existing p s msg.address
  msg_type ← dram_reply_type req.shmem_msg.msg_type found.2.entry.dstate
  with_data msg.data_buf
  next (reply msg_type (requester req) msg.address msg.data_buf found.0) msg.address

abbrev pub when : Bool → Run State → State → Run State
when true m s = m
when false m s = done s

-- What an invalidation means for the request at the front.
unfoldable pub upgrade_inv : Setup → Next → ShmemReq → State → Entry → Place → Slot → Run State
upgrade_inv p next req s e place slot =
    if get_num_sharers e == 1
    then (do
      there ← from (has_sharer e (requester req))
      when there (process_upgrade p next s req none) s)
    else if get_num_sharers e == 0
    then process_upgrade p next (update_entry s place slot (set_d_state e uncached)) req none
    else done s

unfoldable pub sh_inv : Setup → Next → ℕ → ShmemReq → State → Run State
sh_inv p next sender req s =
    if req.wait_for_data
    then done s
    else if is_forwarding req && not (sender == req.forwarding_from)
    then done s
    else process_sh p next s req none

unfoldable pub inv_wakes :
    Setup → Next → ℕ → ShmemReq → State → Entry → Place → Slot → MsgType → Run State
unfolding upgrade_inv sh_inv
inv_wakes p next sender req s e place slot ex_req =
    when (is_uncached e.dstate) (process_ex p next s req none) s
inv_wakes p next sender req s e place slot upgrade_req = upgrade_inv p next req s e place slot
inv_wakes p next sender req s e place slot sh_req = sh_inv p next sender req s
inv_wakes p next sender req s e place slot _ =
    when (is_uncached e.dstate) (process_nullify p next s req) s

-- Without sharers the line is uncached.
unfoldable pub settle : Entry → Entry
settle e = if get_num_sharers e == 0 then set_d_state e uncached else e

-- The entry after an invalidation.
unfoldable pub invalidated : ℕ → Entry → Entry
unfolding settle
invalidated sender e = settle (if e.forwarder == sender then set_forwarder e invalid_core_id else e)

-- `SHARED` or `EXCLUSIVE`
abbrev pub is_clean : DState → Bool
is_clean shared = true
is_clean exclusive = true
is_clean _ = false

unfoldable pub inv_queue :
    Setup → Next → ℕ → State → Entry → Place → Slot → List ShmemReq → Run State
unfolding inv_wakes
inv_queue p next sender s e place slot [] = done s
inv_queue p next sender s e place slot (req ∷ reqs) =
    inv_wakes p next sender req s e place slot req.shmem_msg.msg_type

-- `processInvRepFromL2Cache`
unfoldable pub process_inv_rep : Setup → Next → State → ℕ → ShmemMsg → Run State
unfolding inv_queue
process_inv_rep p next s sender msg = do
  found ← existing p s msg.address
  check (is_clean found.2.entry.dstate)
  removed ← from (remove_sharer found.2.entry sender false)
  let e = invalidated sender removed
  let updated = update_entry found.0 found.1 found.2 e
  inv_queue p next sender updated e found.1 found.2 (updated.queues msg.address)
