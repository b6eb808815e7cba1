-- ===== src/Msi/Replies/Handlers.antt =====
-- The handlers of messages, in
-- core/memory_subsystem/pr_l1_pr_l2_dram_directory_msi/dram_directory_cntlr.cc, and the messages that reach them.
use snipersimcommon.Base.{ℕ, ◌+◌, none, List, [], ◌∷◌, ◌==◌, if◌then◌else◌}
use snipersimcommon.Run.{Run, done, abort, ◌>>=◌}
use snipersimcommon.Msi.Message.{
  MsgType, ShmemMsg, ShmemReq, ex_req, sh_req, upgrade_req, inv_rep, flush_rep, wb_rep,
  dram_read_rep, create_req,
}
use snipersimcommon.Msi.Slots.{get_directory_entry}
use snipersimcommon.Msi.State.{Setup, State, enqueue, size}
use snipersimcommon.Msi.Requests.{Next, process_ex, process_sh, process_upgrade, process_next}
use snipersimcommon.Msi.Replies.Invalidations.{process_dram_reply, process_inv_rep}
use snipersimcommon.Msi.Replies.Flushes.{process_flush_rep, process_wb_rep}

-- A request is put in the queue of its address, and processed if it is alone there.
unfoldable pub start : (ShmemReq → State → Run State) → State → ShmemMsg → Run State
start process s msg = do
  req ← create_req msg
  let queued = enqueue s msg.address req
  if size queued msg.address == 1 then process req queued else done queued

unfoldable pub handle : Setup → Next → State → ℕ → ShmemMsg → MsgType → Run State
unfolding start
handle p next s sender msg ex_req = start (λ req t. process_ex p next t req none) s msg
handle p next s sender msg sh_req = start (λ req t. process_sh p next t req none) s msg
handle p next s sender msg upgrade_req = start (λ req t. process_upgrade p next t req none) s msg
handle p next s sender msg inv_rep = process_inv_rep p next s sender msg
handle p next s sender msg flush_rep = process_flush_rep p next s sender msg
handle p next s sender msg wb_rep = process_wb_rep p next s sender msg
handle p next s sender msg _ = abort

-- `handleMsgFromL2Cache`. The directory is looked up first, which may claim a free entry.
unfoldable pub handle_msg_from_l2_cache : Setup → ℕ → State → ℕ → ShmemMsg → Run State
unfolding handle
handle_msg_from_l2_cache p fuel s sender msg = do
  found ← get_directory_entry p.directory s.cache msg.address
  handle p (process_next p fuel) (record s { cache = found.0 }) sender msg msg.msg_type

unfoldable pub handle_dram : Setup → Next → State → ShmemMsg → MsgType → Run State
handle_dram p next s msg dram_read_rep = process_dram_reply p next s msg
handle_dram p next s msg _ = abort

-- `handleMsgFromDRAM`
unfoldable pub handle_msg_from_dram : Setup → ℕ → State → ShmemMsg → Run State
unfolding handle_dram
handle_msg_from_dram p fuel s msg = handle_dram p (process_next p fuel) s msg msg.msg_type

-- The messages that reach the controller, in their order. Each is given as much fuel as its queue asks for.
pub data Event : Type 0 where
  from_l2_cache : ℕ → ShmemMsg → Event
  from_dram : ShmemMsg → Event

unfoldable pub deliver : Setup → State → Event → Run State
deliver p s (from_l2_cache sender msg) =
    handle_msg_from_l2_cache p (size s msg.address + 1) s sender msg
deliver p s (from_dram msg) = handle_msg_from_dram p (size s msg.address) s msg

unfoldable pub run : Setup → State → List Event → Run State
unfolding deliver
run p s [] = done s
run p s (event ∷ events) = do t ← deliver p s event; run p t events
