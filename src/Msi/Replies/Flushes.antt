-- ===== src/Msi/Replies/Flushes.antt =====
-- Flushes and write-backs, in
-- core/memory_subsystem/pr_l1_pr_l2_dram_directory_msi/dram_directory_cntlr.cc.
use snipersimcommon.Base.{ℕ, Bool, true, false, ◌||◌, List, [], ◌∷◌, ◌==◌, if◌then◌else◌}
use snipersimcommon.Directory.Entry.{
  Entry, uncached, shared, invalid_core_id, has_sharer, get_num_sharers, remove_sharer, set_owner,
  set_d_state, set_forwarder,
}
use snipersimcommon.Run.{Run, done, abort, check, from, ◌>>=◌, ◌>>◌}
use snipersimcommon.Msi.Message.{MsgType, ShmemMsg, ShmemReq, ex_req, sh_req, upgrade_req}
use snipersimcommon.Msi.Slots.{Slot, Place}
use snipersimcommon.Msi.State.{Setup, State, change_front, update_entry, existing}
use snipersimcommon.Msi.Requests.{Next, process_nullify, process_ex, process_sh, process_upgrade}
use snipersimcommon.Msi.Replies.Invalidations.{send_data_to_dram, is_shared, settle}

-- What a flush means for the request at the front.
unfoldable pub flush_wakes :
    Setup → Next → ShmemMsg → ShmemReq → State → Entry → Place → Slot → MsgType → Run State
flush_wakes p next msg req s e place slot ex_req = process_ex p next s req msg.data_buf
flush_wakes p next msg req s e place slot sh_req = do
  written ← send_data_to_dram p msg.address msg.requester msg.data_buf s
  process_sh p next written req msg.data_buf
flush_wakes p next msg req s e place slot upgrade_req =
    if get_num_sharers e == 0
    then process_upgrade p next (update_entry s place slot (set_d_state e uncached)) req
        msg.data_buf
    else done (
        change_front s msg.address
          (λ r. record r { shmem_msg = record r.shmem_msg { data_buf = msg.data_buf } }))
flush_wakes p next msg req s e place slot _ = do
  written ← send_data_to_dram p msg.address msg.requester msg.data_buf s
  process_nullify p next written req

unfoldable pub flush_queue :
    Setup → Next → ShmemMsg → State → Entry → Place → Slot → List ShmemReq → Run State
unfolding flush_wakes
flush_queue p next msg s e place slot [] =
    send_data_to_dram p msg.address msg.requester msg.data_buf s
flush_queue p next msg s e place slot (req ∷ reqs) =
    flush_wakes p next msg req s e place slot req.shmem_msg.msg_type

-- The entry after a flush: with sharers left it has to be shared.
unfoldable pub flushed : Entry → Run Entry
unfolding settle
flushed removed = do
  e ← from (set_owner (set_forwarder removed invalid_core_id) invalid_core_id)
  check (get_num_sharers e == 0 || is_shared e.dstate)
  done (settle e)

-- `processFlushRepFromL2Cache`
unfoldable pub process_flush_rep : Setup → Next → State → ℕ → ShmemMsg → Run State
unfolding flush_queue
process_flush_rep p next s sender msg = do
  found ← existing p s msg.address
  there ← from (has_sharer found.2.entry sender)
  check there
  removed ← from (remove_sharer found.2.entry sender false)
  e ← flushed removed
  let updated = update_entry found.0 found.1 found.2 e
  flush_queue p next msg updated e found.1 found.2 (updated.queues msg.address)

abbrev pub is_sh_req : MsgType → Bool
is_sh_req sh_req = true
is_sh_req _ = false

unfoldable pub wb_queue : Setup → Next → ShmemMsg → State → List ShmemReq → Run State
wb_queue p next msg s [] = abort
wb_queue p next msg s (req ∷ reqs) = do
  check (is_sh_req req.shmem_msg.msg_type)
  process_sh p next s req msg.data_buf

-- `processWbRepFromL2Cache`
unfoldable pub process_wb_rep : Setup → Next → State → ℕ → ShmemMsg → Run State
unfolding wb_queue
process_wb_rep p next s sender msg = do
  found ← existing p s msg.address
  there ← from (has_sharer found.2.entry sender)
  check there
  e ← from (set_owner found.2.entry invalid_core_id)
  let updated = update_entry found.0 found.1 found.2 (set_d_state e shared)
  wb_queue p next msg updated (updated.queues msg.address)
