-- ===== src/Clock/Barrier/Rounds.antt =====
-- `barrierRelease` of system/barrier_sync_server.cc.
use snipersimcommon.Base.{
  ℕ, zero, suc, ◌+◌, ◌%◌, Bool, true, false, not, ◌&&◌, ◌||◌, none, some, List, [], ◌∷◌, ◌++◌, ◌==◌,
  ltb, if◌then◌else◌, u64,
}
use snipersimcommon.Run.{Run, done, spent, check, ◌>>◌}
use snipersimcommon.Clock.Barrier.State.{CoreClock, Sent, Server, World, do_release, barrier_exit}

-- What a pass over the cores leaves: the cores, those to release, whether one was resumed and whether the
-- caller was.
pub record Pass : Type 0 where
  pub cores : List CoreClock
  pub released : List ℕ
  pub core_resumed : Bool
  pub caller_resumed : Bool

unfoldable pub resume_cores : ℕ → ℕ → ℕ → List CoreClock → Pass
resume_cores next caller id [] = record {
  cores = [];
  released = [];
  core_resumed = false;
  caller_resumed = false;
}
resume_cores next caller id (c ∷ cs) =
    let rest = resume_cores next caller (id + 1) cs in
    let resumed = ltb c.local_clock next && c.acquired in
    record {
      cores = (if resumed then record c { acquired = false } else c) ∷ rest.cores;
      released = if resumed && not (c.thread == caller) then id ∷ rest.released else rest.released;
      core_resumed = resumed || rest.core_resumed;
      caller_resumed = (resumed && c.thread == caller) || rest.caller_resumed;
    }

-- The cores that are released leave the barrier in their order.
abbrev pub exits : List ℕ → List Sent → List Sent
exits [] events = events
exits (core ∷ released) events = exits released (barrier_exit core ∷ events)

-- In fast-forward mode, time slots are skipped.
unfoldable pub skip : List CoreClock → ℕ → ℕ
skip [] next = next
skip (c ∷ cs) next = skip cs (if ltb next c.local_clock then c.local_clock else next)

unfoldable pub advanced : World → ℕ → Server → Pass → Server
advanced w next s r = do_release (if s.fastforward then none else some w.num_host_cores) (record s {
  next_barrier_time = next;
  cores = r.cores;
  to_release = w.shuffle (s.to_release ++ r.released);
  events = exits r.released s.events;
})

-- The loop of `barrierRelease`, on fuel: the server, and whether the caller has to wait.
unfoldable pub release_loop : World → ℕ → Server → ℕ → Bool → Run (Server × Bool)
unfolding advanced
release_loop w zero s caller continue_until_release = spent
release_loop w (suc fuel) s caller continue_until_release =
    let t = w.periodic (record s { global_time = s.next_barrier_time }) in
    let next = (t.next_barrier_time + t.barrier_interval) % u64 in
    let r = resume_cores next caller 0 t.cores in
    let again =
      release_loop w fuel (record t { next_barrier_time = next; cores = r.cores }) caller
        continue_until_release in
    if continue_until_release && w.any_thread_running t
    then done (t, false)
    else check (not continue_until_release || w.has_timeout t.global_time)
      >> (if t.disable
          then done (t, false)
          else if r.core_resumed
          then done (advanced w next t r, not r.caller_resumed)
          else again)

abbrev pub is_nil : List ℕ → Bool
is_nil [] = true
is_nil (_ ∷ _) = false

-- `barrierRelease`
unfoldable pub barrier_release : World → ℕ → Server → ℕ → Bool → Run (Server × Bool)
unfolding skip
barrier_release w fuel s caller continue_until_release = do
  check (is_nil s.to_release)
  let next = if s.fastforward then skip s.cores s.next_barrier_time else s.next_barrier_time
  release_loop w fuel (record s { next_barrier_time = next }) caller continue_until_release
