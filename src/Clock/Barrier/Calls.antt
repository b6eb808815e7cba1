-- ===== src/Clock/Barrier/Calls.antt =====
-- The calls of the barrier server and its hooks (system/barrier_sync_server.{h,cc}).
use snipersimcommon.Base.{
  ℕ, ◌+◌, Bool, true, false, not, ◌&&◌, ◌||◌, Option, none, some, List, [], ◌∷◌, map, get_elem?,
  set, replicate, ◌==◌, ltb, if◌then◌else◌,
}
use snipersimcommon.Directory.Entry.{invalid_core_id}
use snipersimcommon.Run.{Run, done, check, from, ◌>>=◌, ◌>>◌}
use snipersimcommon.Clock.Barrier.State.{
  invalid_thread_id, CoreClock, Sent, Server, World, do_release, signalled, barrier_enter,
  barrier_exit,
}
use snipersimcommon.Clock.Barrier.Waiting.{is_barrier_reached}
use snipersimcommon.Clock.Barrier.Rounds.{barrier_release}

-- `signal` and `advance`
unfoldable pub signal : World → ℕ → Server → Run Server
signal w fuel s =
    if s.disable
    then done s
    else if is_barrier_reached w s
    then (do r ← barrier_release w fuel s invalid_thread_id false; done r.0)
    else done s

unfoldable pub advance : World → ℕ → Server → Run Server
advance w fuel s = do r ← barrier_release w fuel s invalid_thread_id true; done r.0

abbrev pub forget : ℕ → CoreClock → CoreClock
forget thread c = if c.acquired && c.thread == thread then record c { local_clock = 0 } else c

-- `releaseThread`
unfoldable pub release_thread : ℕ → Server → Server
release_thread thread s = do_release (some 1) (record s { cores = map (forget thread) s.cores })

unfoldable pub thread_exit : World → ℕ → Server → ℕ → Run Server
thread_exit w fuel s thread = signal w fuel (release_thread thread s)

unfoldable pub thread_stall : World → ℕ → Server → ℕ → Run Server
thread_stall w fuel s thread = signal w fuel (release_thread thread s)

unfoldable pub thread_migrate : Server → ℕ → Server
thread_migrate s thread = release_thread thread s

unfoldable pub master_of : Server → ℕ → CoreClock → ℕ
master_of s core c =
    if s.fastforward then core else if c.group == invalid_core_id then core else c.group

-- A thread that goes on leaves the barrier.
abbrev pub leaving : ℕ → Server × Bool → Server × Bool
leaving core (s, true) = (s, true)
leaving core (s, false) = (record s { events = barrier_exit core ∷ s.events }, false)

-- `master_core` of the source is the core itself, not its master.
unfoldable pub enter : World → ℕ → Server → ℕ → ℕ → ℕ → CoreClock → Run (Server × Bool)
enter w fuel s core master time c =
    let t = do_release (some 1) s in
    let entered = record t {
      cores =
          set t.cores master
            (record c { local_clock = time; acquired = true; thread = w.core_thread core });
      events = barrier_enter core ∷ t.events;
    } in
    if is_barrier_reached w entered
    then (do r ← barrier_release w fuel entered (w.core_thread core) false; done (leaving core r))
    else done (entered, true)

-- `synchronize`: the server, and whether the thread waits on the condition variable of the master.
unfoldable pub synchronize : World → ℕ → Server → ℕ → ℕ → Run (Server × Bool)
unfolding enter master_of
synchronize w fuel s core time = if s.disable then done (s, false) else (do
  mine ← from (get_elem? s.cores core)
  let master = master_of s core mine
  c ← from (get_elem? s.cores master)
  check (w.core_ready core)
  check (not c.acquired)
  if ltb time s.next_barrier_time && not s.fastforward
      then done (s, false)
      else enter w fuel s core master time c)

-- The loop of `abortBarrier` from the core `id` on: the cores, and what was sent.
unfoldable pub abort_from : ℕ → List CoreClock → List Sent → List CoreClock × List Sent
abort_from id [] events = ([], events)
abort_from id (c ∷ cs) events =
    let sent = if c.acquired then signalled id ∷ barrier_exit id ∷ events else events in
    let rest = abort_from (id + 1) cs sent in
    ((if c.acquired then record c { acquired = false } else c) ∷ rest.0, rest.1)

unfoldable pub abort_barrier : Server → Server
unfolding abort_from
abort_barrier s = let r = abort_from 0 s.cores s.events in record s { cores = r.0; events = r.1 }

unfoldable pub set_disable : Bool → Server → Server
unfolding abort_barrier
set_disable disable s =
    if disable then abort_barrier (record s { disable = true }) else record s { disable = false }

unfoldable pub set_group : Server → ℕ → ℕ → Run Server
set_group s core master = do
  c ← from (get_elem? s.cores core)
  check (not c.acquired || master == invalid_core_id)
  done (record s { cores = set s.cores core (record c { group = master }) })

-- `setFastForward`; `none` is `SubsecondTime::MaxTime()`.
unfoldable pub set_fast_forward : Server → Bool → Option ℕ → Server
set_fast_forward s fastforward none = record s { fastforward = fastforward }
set_fast_forward s fastforward (some next) = record s {
  fastforward = fastforward;
  next_barrier_time = if ltb s.next_barrier_time next then next else s.next_barrier_time;
}

-- The constructor.
unfoldable pub create : ℕ → ℕ → Server
create application_cores barrier_interval = record {
  barrier_interval = barrier_interval;
  next_barrier_time = barrier_interval;
  cores = replicate application_cores (record {
    local_clock = 0;
    acquired = false;
    group = invalid_core_id;
    thread = invalid_thread_id;
  });
  to_release = [];
  global_time = 0;
  fastforward = false;
  disable = false;
  events = [];
}

-- `getGlobalTime` and `setBarrierInterval`
unfoldable pub get_global_time : Bool → Server → ℕ
get_global_time upper_bound s = if upper_bound then s.next_barrier_time else s.global_time

unfoldable pub set_barrier_interval : ℕ → Server → Server
set_barrier_interval interval s = record s { barrier_interval = interval }
