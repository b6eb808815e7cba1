-- ===== src/Clock/Barrier/State.antt =====
-- The state of the barrier server, what it asks of the simulator, and `doRelease` (system/barrier_sync_server.{h,cc}).
use snipersimcommon.Base.{ℕ, zero, suc, Bool, Option, none, some, List, [], ◌∷◌, length}

abbrev pub invalid_thread_id : ℕ
invalid_thread_id = 4294967295

-- What the server keeps for a core: an element of each of its vectors.
pub record CoreClock : Type 0 where
  pub local_clock : ℕ
  pub acquired : Bool
  pub group : ℕ
  pub thread : ℕ

-- What the server sends: the signal of a core's condition variable, `barrierEnter` and `barrierExit` of a core.
pub data Sent : Type 0 where
  signalled barrier_enter barrier_exit : ℕ → Sent

-- `events` has what was sent, the last one first.
pub record Server : Type 0 where
  pub barrier_interval : ℕ
  pub next_barrier_time : ℕ
  pub cores : List CoreClock
  pub to_release : List ℕ
  pub global_time : ℕ
  pub fastforward : Bool
  pub disable : Bool
  pub events : List Sent

-- The other managers: whether a core runs a thread that runs, whether it runs or initializes, its thread; what
-- HOOK_PERIODIC does to the server, whether a thread runs then, and whether a system call has a timeout; the host's
-- cores, and what `random_shuffle` makes of a list.
pub record World : Type 0 where
  pub core_running : ℕ → Bool
  pub core_ready : ℕ → Bool
  pub core_thread : ℕ → ℕ
  pub periodic : Server → Server
  pub any_thread_running : Server → Bool
  pub has_timeout : ℕ → Bool
  pub num_host_cores : ℕ
  pub shuffle : List ℕ → List ℕ

-- `doRelease`; the list has the core that is released first at its front, `none` is the count -1.
release_up_to : ℕ → List ℕ → List Sent → List ℕ × List Sent
release_up_to zero waiting events = (waiting, events)
release_up_to (suc n) [] events = ([], events)
release_up_to (suc n) (core ∷ waiting) events = release_up_to n waiting (signalled core ∷ events)

unfoldable pub do_release : Option ℕ → Server → Server
unfolding release_up_to
do_release none s =
    let r = release_up_to (length s.to_release) s.to_release s.events in
    record s { to_release = r.0; events = r.1 }
do_release (some n) s =
    let r = release_up_to n s.to_release s.events in record s { to_release = r.0; events = r.1 }
