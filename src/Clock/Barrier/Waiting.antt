-- ===== src/Clock/Barrier/Waiting.antt =====
-- `isCoreRunning` and `isBarrierReached` of system/barrier_sync_server.cc.
use snipersimcommon.Base.{
  ℕ, ◌+◌, Bool, false, not, ◌&&◌, ◌||◌, List, [], ◌∷◌, ◌==◌, ltb, if◌then◌else◌,
}
use snipersimcommon.Directory.Entry.{invalid_core_id}
use snipersimcommon.Clock.Barrier.State.{CoreClock, Server, World}

-- Whether a core whose master is `core` runs a thread.
unfoldable pub sibling_running : World → ℕ → ℕ → List CoreClock → Bool
sibling_running w core id [] = false
sibling_running w core id (c ∷ cs) =
    (c.group == core && w.core_running id) || sibling_running w core (id + 1) cs

-- `isCoreRunning`, of a core and its siblings.
unfoldable pub is_core_running : World → Server → ℕ → Bool
unfolding sibling_running
is_core_running w s core =
    w.core_running core || (not s.fastforward && sibling_running w core 0 s.cores)

-- The loops of `isBarrierReached` from the core `id` on; `reached` says whether one core has reached it.
unfoldable pub reached_fast : World → Server → ℕ → List CoreClock → Bool → Bool
reached_fast w s id [] reached = reached
reached_fast w s id (c ∷ cs) reached =
    let rest = reached_fast w s (id + 1) cs (c.acquired || reached) in
    if c.acquired then rest else if is_core_running w s id then false else rest

unfoldable pub reached_detailed : World → Server → ℕ → List CoreClock → Bool → Bool
reached_detailed w s id [] reached = reached
reached_detailed w s id (c ∷ cs) reached =
    let master = c.group == invalid_core_id && is_core_running w s id in
    let rest = reached_detailed w s (id + 1) cs (master || reached) in
    if master && ltb c.local_clock s.next_barrier_time then false else rest

-- `isBarrierReached`
unfoldable pub is_barrier_reached : World → Server → Bool
unfolding reached_fast reached_detailed
is_barrier_reached w s =
    if s.fastforward then reached_fast w s 0 s.cores false else reached_detailed w s 0 s.cores false
