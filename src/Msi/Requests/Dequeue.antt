-- ===== src/Msi/Requests/Dequeue.antt =====
-- `processNextReqFromL2Cache` of
-- core/memory_subsystem/pr_l1_pr_l2_dram_directory_msi/dram_directory_cntlr.cc.
use snipersimcommon.Base.{ℕ, zero, suc, none, List, [], ◌∷◌, leb}
use snipersimcommon.Run.{Run, done, abort, spent, check, ◌>>=◌, ◌>>◌}
use snipersimcommon.Msi.Message.{MsgType, ShmemReq, ex_req, sh_req, upgrade_req}
use snipersimcommon.Msi.State.{Setup, State, dequeue, size}
use snipersimcommon.Msi.Requests.Entries.{Next, address}
use snipersimcommon.Msi.Requests.Misses.{process_ex, process_sh}
use snipersimcommon.Msi.Requests.Upgrade.{process_upgrade}

unfoldable pub process_front : Setup → Next → State → ShmemReq → MsgType → Run State
process_front p next s req ex_req = process_ex p next s req none
process_front p next s req sh_req = process_sh p next s req none
process_front p next s req upgrade_req = process_upgrade p next s req none
process_front p next s req _ = abort

unfoldable pub process_rest : Setup → Next → State → List ShmemReq → Run State
unfolding process_front
process_rest p next s [] = done s
process_rest p next s (req ∷ reqs) = process_front p next s req req.shmem_msg.msg_type

-- `processNextReqFromL2Cache`: the request at the front is done, and the one behind it is processed.
unfoldable pub process_next : Setup → ℕ → State → ℕ → Run State
unfolding process_rest
process_next p zero s address = spent
process_next p (suc fuel) s address = do
  check (leb 1 (size s address))
  dequeued ← dequeue s address
  process_rest p (process_next p fuel) dequeued (dequeued.queues address)
