-- ===== src/Sync/Server.antt =====
-- `SimCond` and `SyncServer` of system/sync_server.{h,cc}. A waiter on a condition keeps the address
-- of its mutex, as `CondWaiter::m_mutex` does.
pub mod Waits
pub mod Wakes
pub mod Conserve
pub mod Waiters
pub mod Sound
pub mod Reach
use snipersimcommon.Base.{
  ℕ, ◌+◌, ◌-◌, ◌%◌, ◌≡◌, refl, Bool, true, false, ◌&&◌, not, Option, none, some, List, [], ◌∷◌,
  ◌++◌, ◌==◌, if◌then◌else◌, arith, ◌>>=◌, ◌>>◌, u64, get_elem?, set, length, assert,
}
use snipersimcommon.Sync.Event.{Event, stall, stall_cond, Outcome, at_time, after_resume}
use snipersimcommon.Sync.Mutex.{
  SimMutex, fresh_mutex, no_owner, is_locked, lock, lock_async, unlock,
}
use snipersimcommon.Sync.Table.{find, put}
use snipersimcommon.Sync.Barrier.{SimBarrier}
use snipersimcommon.Sync.Barrier

pub record CondWaiter : Type 0 where
  pub thread_id : ℕ
  pub mutex : ℕ

abbrev pub SimCond : Type 0
SimCond = List CondWaiter

pub record SyncServer : Type 0 where
  pub mutexes : List (ℕ × SimMutex)
  pub conds : List (ℕ × SimCond)
  pub barriers : List SimBarrier
  pub reschedule_cost : ℕ

pub record Step : Type 0 where
  pub after : SyncServer
  pub events : List Event
  pub outcome : Outcome

-- `getMutex`, with and without `canCreate`; `none` is the fatal log message.
unfoldable pub get_mutex : SyncServer → ℕ → Bool → Option SimMutex
unfolding find
get_mutex s mux true = elim (find mux s.mutexes) [ none ↦ some fresh_mutex | some m ↦ some m ]
get_mutex s mux false = find mux s.mutexes

unfoldable pub get_cond : SyncServer → ℕ → SimCond
unfolding find
get_cond s cond = elim (find cond s.conds) [ none ↦ [] | some c ↦ c ]

abbrev pub put_mutex : SyncServer → ℕ → SimMutex → SyncServer
unfolding put
put_mutex s mux m = record s { mutexes = put mux m s.mutexes }

abbrev pub put_cond : SyncServer → ℕ → SimCond → SyncServer
unfolding put
put_cond s cond c = record s { conds = put cond c s.conds }

unfoldable pub mutex_init : SyncServer → ℕ → Option SyncServer
unfolding get_mutex put
mutex_init s mux = do m ← get_mutex s mux true; some (put_mutex s mux m)

-- The time after the lock is taken.
abbrev pub delay : ℕ → Outcome → Outcome
delay cost (at_time time) = at_time ((time + cost) % u64)
delay cost (after_resume more) = after_resume (more + cost)

-- A try that finds the mutex taken by another thread fails at once.
unfoldable pub mutex_lock : SyncServer → ℕ → ℕ → Bool → ℕ → Option (Step × Bool)
unfolding get_mutex is_locked lock put
mutex_lock s thread mux try_lock time = do
  m ← get_mutex s mux true
  let (taken, events, outcome) = lock m thread time
  if try_lock && is_locked m thread
      then some (record { after = put_mutex s mux m; events = []; outcome = at_time time }, false)
      else some (
        record {
          after = put_mutex s mux taken;
          events = events;
          outcome = delay s.reschedule_cost outcome;
        },
        true,
      )

unfoldable pub mutex_unlock : SyncServer → ℕ → ℕ → ℕ → Option Step
unfolding get_mutex unlock put
mutex_unlock s thread mux time = do
  m ← get_mutex s mux false
  (freed, events, new_owner) ← unlock m thread ((time + s.reschedule_cost) % u64)
  some (record {
    after = put_mutex s mux freed;
    events = events;
    outcome = at_time ((time + (if new_owner == no_owner then 0 else s.reschedule_cost)) % u64);
  })

unfoldable pub cond_init : SyncServer → ℕ → SyncServer
unfolding get_cond put
cond_init s cond = put_cond s cond (get_cond s cond)

-- `SimCond::wait`: the mutex is given back, and the thread joins the queue of the condition.
unfoldable pub cond_wait : SyncServer → ℕ → ℕ → ℕ → ℕ → Option Step
unfolding get_mutex get_cond unlock put
cond_wait s thread cond mux time = do
  m ← get_mutex s mux true
  (freed, events, new_owner) ← unlock m thread time
  some (record {
    after =
        put_cond (put_mutex s mux freed) cond
          (get_cond s cond ++ record { thread_id = thread; mutex = mux } ∷ []);
    events = events ++ stall thread stall_cond time ∷ [];
    outcome = after_resume 0;
  })

-- The mutexes after a woken waiter asks for its own; a dangling `m_mutex` would be `none`.
unfoldable pub wake :
    List (ℕ × SimMutex) → CondWaiter → ℕ → ℕ → Option (List (ℕ × SimMutex) × List Event)
unfolding find lock_async put
wake mutexes woken by time = do
  m ← find woken.mutex mutexes
  let (next, events, taken) = lock_async m woken.thread_id by time
  some (put woken.mutex next mutexes, events)

unfoldable pub wake_all :
    List (ℕ × SimMutex) → SimCond → ℕ → ℕ → Option (List (ℕ × SimMutex) × List Event)
unfolding wake
wake_all mutexes [] by time = some (mutexes, [])
wake_all mutexes (woken ∷ rest) by time = do
  (once, events) ← wake mutexes woken by time
  (done, more) ← wake_all once rest by time
  some (done, events ++ more)

-- `SimCond::signal` wakes the first waiter, if there is one.
abbrev pub first_waiter : SimCond → SimCond × SimCond
first_waiter [] = ([], [])
first_waiter (woken ∷ rest) = (woken ∷ [], rest)

unfoldable pub cond_signal : SyncServer → ℕ → ℕ → ℕ → Option Step
unfolding get_cond wake_all put
cond_signal s thread cond time = do
  let (woken, rest) = first_waiter (get_cond s cond)
  (mutexes, events) ← wake_all s.mutexes woken thread time
  some (record {
    after = put_cond (record s { mutexes = mutexes }) cond rest;
    events = events;
    outcome = at_time time;
  })

unfoldable pub cond_broadcast : SyncServer → ℕ → ℕ → ℕ → Option Step
unfolding get_cond wake_all put
cond_broadcast s thread cond time = do
  (mutexes, events) ← wake_all s.mutexes (get_cond s cond) thread time
  some (record {
    after = put_cond (record s { mutexes = mutexes }) cond [];
    events = events;
    outcome = at_time time;
  })

-- The new barrier, and the handle that the caller is given.
unfoldable pub barrier_init : SyncServer → ℕ → SyncServer × ℕ
barrier_init s count =
    let barriers = s.barriers ++ record { waiting = []; count = count } ∷ [] in
    (record s { barriers = barriers }, length barriers - 1)

-- A handle out of range is undefined behaviour in the source.
unfoldable pub barrier_wait : SyncServer → ℕ → ℕ → ℕ → Option Step
unfolding Barrier.wait
barrier_wait s thread barrier time = do
  b ← get_elem? s.barriers barrier
  let (next, events, outcome) = Barrier.wait b thread time
  some (record {
    after = record s { barriers = set s.barriers barrier next };
    events = events;
    outcome = outcome;
  })

-- The calls that a thread may make.
pub data Call : Type 0 where
  init_mutex : ℕ → Call
  take_mutex : ℕ → Bool → Call
  give_mutex : ℕ → Call
  init_cond : ℕ → Call
  wait_cond : ℕ → ℕ → Call
  signal_cond : ℕ → Call
  broadcast_cond : ℕ → Call
  init_barrier : ℕ → Call
  wait_barrier : ℕ → Call

abbrev quiet : ℕ → SyncServer → Step
quiet time s = record { after = s; events = []; outcome = at_time time }

unfoldable pub perform : SyncServer → ℕ → Call → ℕ → Option Step
unfolding mutex_init mutex_lock mutex_unlock cond_init cond_wait cond_signal cond_broadcast
    barrier_init barrier_wait
perform s thread (init_mutex mux) time = mutex_init s mux >>= λ t. some (quiet time t)
perform s thread (take_mutex mux try_lock) time =
    mutex_lock s thread mux try_lock time >>= λ r. some r.0
perform s thread (give_mutex mux) time = mutex_unlock s thread mux time
perform s thread (init_cond cond) time = some (quiet time (cond_init s cond))
perform s thread (wait_cond cond mux) time = cond_wait s thread cond mux time
perform s thread (signal_cond cond) time = cond_signal s thread cond time
perform s thread (broadcast_cond cond) time = cond_broadcast s thread cond time
perform s thread (init_barrier count) time = some (quiet time (barrier_init s count).0)
perform s thread (wait_barrier barrier) time = barrier_wait s thread barrier time
