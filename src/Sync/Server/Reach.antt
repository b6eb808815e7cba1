-- ===== src/Sync/Server/Reach.antt =====
-- The states that the calls of `SyncServer` lead to.
use snipersimcommon.Base.{ℕ, ◌≤◌, ◌≡◌, ◌≢◌, some, [], arith, ℕ_discrete}
use snipersimcommon.Sync.Mutex.{no_owner}
use snipersimcommon.Sync.Table.{total}
use snipersimcommon.Sync.Server.Waits.{waits, in_barriers}
use snipersimcommon.Sync.Server.Conserve.{perform-Conserves}
use snipersimcommon.Sync.Server.{SyncServer, Step, Call, perform}

abbrev pub empty_server : ℕ → SyncServer
empty_server cost = record { mutexes = []; conds = []; barriers = []; reschedule_cost = cost }

-- Calls one after the other, each by a thread that does not wait in a queue, for such a thread is stalled.
pub data Reach : SyncServer → Type 0 where
  start : (cost : ℕ) → Reach (empty_server cost)
  call :
      {s : SyncServer}
      → Reach s
      → (thread : ℕ) → waits thread s ≡ 0
      → thread ≢ no_owner
      → (c : Call) (time : ℕ) (r : Step) → perform s thread c time ≡ some r
      → Reach r.after

-- From a server without objects, after any calls that completed, each by a thread that waited in
-- no queue then and whose number is not the sentinel: a thread waits in one queue of one object at
-- most, and only once.
pub Reach-waits_once : (x : ℕ) (s : SyncServer) → Reach s → waits x s ≤ 1
unfolding waits total in_barriers
Reach-waits_once x s (start cost) = omega arith
Reach-waits_once x s (call {s = before} way thread idle named c time r e) =
    let held = perform-Conserves x before thread c time r e in
    elim (ℕ_discrete x thread) [
      | yes same ↦ ground (arith, same, held.kept, held.only, idle)
      | no other ↦ ground (arith, held.kept, held.only, Reach-waits_once x before way)
    ]
