-- ===== src/Msi/Requests/Retrieval.antt =====
-- Data for a request, from a cache or from DRAM, in
-- core/memory_subsystem/pr_l1_pr_l2_dram_directory_msi/dram_directory_cntlr.cc.
use snipersimcommon.Base.{
  ℕ, Bool, true, false, not, ◌&&◌, Option, none, some, ◌==◌, leb, if◌then◌else◌,
}
use snipersimcommon.Directory.Entry.{
  Entry, DState, shared, invalid_core_id, set_owner, set_d_state, set_forwarder,
}
use snipersimcommon.Cache.Address.{get_home}
use snipersimcommon.Run.{Run, done, check, from, ◌>>=◌, ◌>>◌}
use snipersimcommon.Msi.Message.{MsgType, ShmemReq, wb_req, dram_read_req, l2_cache, dram, is_mesif}
use snipersimcommon.Msi.Slots.{Slot, Place, add_sharer}
use snipersimcommon.Msi.State.{
  Setup, State, front, size, change_front, send_msg, reply, update_entry, existing,
}
use snipersimcommon.Msi.Requests.Entries.{Next, address}

-- MESIF: whether a sharing cache is asked for the data.
abbrev pub forwards : Setup → ShmemReq → Entry → Bool
forwards p req e =
    is_mesif p.protocol
    && req.forwarding_from == invalid_core_id
    && is_shared e.dstate
    && not (e.forwarder == invalid_core_id)
  where
    is_shared : DState → Bool
    is_shared shared = true
    is_shared _ = false

abbrev pub from_cache : Setup → ℕ → ℕ → Entry → State → State
from_cache p receiver address e s =
    send_msg wb_req l2_cache receiver e.forwarder address none
      (change_front s address (λ req. record req { forwarding_from = e.forwarder }))

abbrev pub from_dram : Setup → ℕ → ℕ → State → State
from_dram p receiver address s =
    send_msg dram_read_req dram receiver (get_home p.homes address) address none
      (change_front s address (λ req. record req { wait_for_data = true }))

unfoldable pub retrieve_in :
    Setup → Next → MsgType → ℕ → ℕ → Place → Slot → State → Option ℕ → Run State
retrieve_in p next msg_type receiver address place slot s (some data_buf) =
    next
      (reply msg_type receiver address (some data_buf)
        (update_entry s place slot (set_forwarder slot.entry receiver)))
      address
retrieve_in p next msg_type receiver address place slot s none = do
  check (leb 1 (size s address))
  req ← front s address
  done (
      if forwards p req slot.entry
      then from_cache p receiver address slot.entry s
      else from_dram p receiver address s)

-- `retrieveDataAndSendToL2Cache`
unfoldable pub retrieve : Setup → Next → MsgType → ℕ → ℕ → Option ℕ → State → Run State
unfolding retrieve_in
retrieve p next msg_type receiver address cached_data_buf s = do
  found ← existing p s address
  retrieve_in p next msg_type receiver address found.1 found.2 found.0 cached_data_buf

-- An entry without sharers is given to a core.
unfoldable pub give : Setup → State → Place → Slot → ℕ → DState → Run State
give p s place slot core dstate = do
  added ← add_sharer p.directory slot core
  check added.1
  given ← from (set_owner added.0.entry core)
  done (update_entry s place added.0 (set_d_state given dstate))
