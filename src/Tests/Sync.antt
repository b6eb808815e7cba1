-- ===== src/Tests/Sync.antt =====
-- The synchronization server with two threads.
use snipersimcommon.Base.{◌≤◌, ◌≡◌, refl, false, some, [], ◌∷◌, ◌++◌, arith, map}
use snipersimcommon.Sync.Event.{stall, resume, stall_mutex, at_time, after_resume, occurrences}
use snipersimcommon.Sync.Mutex.{
  SimMutex, IsMutex, Queued, lock, unlock, holders, holders-lock, holders-unlock,
}
use snipersimcommon.Sync.Barrier.{arrive, stalling, resuming, round_releases_all}
use snipersimcommon.Sync.Table.{find, put, total, Each-put}
use snipersimcommon.Sync.Server.{
  SyncServer, Step, take_mutex, perform, mutex_lock, get_mutex, cond_signal, cond_broadcast,
  get_cond,
}
use snipersimcommon.Sync.Server.Waits.{waits, in_barriers}
use snipersimcommon.Sync.Server.Conserve.{Conserves, perform-Conserves}
use snipersimcommon.Sync.Server.Reach.{Reach, start, call, Reach-waits_once}
use snipersimcommon.Sync.Server.Waiters.{IsServer, AreWaiters, nobody, and}
use snipersimcommon.Sync.Server.Sound.{perform-IsServer, wakes_complete}

abbrev taken : SimMutex
taken = record { waiting = []; owner = 1 }

abbrev contended : SimMutex
contended = record { waiting = 2 ∷ []; owner = 1 }

-- Thread 1 has mutex 7.
abbrev held : SyncServer
held = record { mutexes = (7, taken) ∷ []; conds = []; barriers = []; reschedule_cost = 5 }

abbrev queued : Step
queued = record {
  after = record held { mutexes = (7, contended) ∷ [] };
  events = stall 2 stall_mutex 100 ∷ [];
  outcome = after_resume 5;
}

taken-IsMutex : IsMutex taken
unfolding occurrences
taken-IsMutex = record { idle = λ e. absurd (omega arith); real = refl }

contended-IsMutex : IsMutex contended
unfolding occurrences
contended-IsMutex = record { idle = λ e. absurd (omega arith); real = refl }

holders-lock_example : Queued taken (lock taken 2 100).0 2
holders-lock_example = holders-lock taken 2 100 taken-IsMutex (omega arith)

holders-unlock_example :
    (holders contended ≡ 1 ∷ holders (record { waiting = []; owner = 2 }))
    × IsMutex (record { waiting = []; owner = 2 })
unfolding unlock
holders-unlock_example =
    holders-unlock contended 1 100 (record { waiting = []; owner = 2 }, resume 2 1 100 ∷ [], 2)
      contended-IsMutex (omega arith) refl

round_releases_all_example :
    arrive (record { waiting = []; count = 2 }) ((1, 10) ∷ [] ++ (2, 20) ∷ []) ≡ (
      record { waiting = []; count = 2 },
      map stalling ((1, 10) ∷ []) ++ map (resuming 2 20) ((1, 10) ∷ []),
    )
round_releases_all_example =
    round_releases_all (record { waiting = []; count = 2 }) ((1, 10) ∷ []) 2 20 refl refl
      (omega arith)

perform-Conserves_example : Conserves 2 held 2 queued
unfolding perform mutex_lock get_mutex find lock put
perform-Conserves_example = perform-Conserves 2 held 2 (take_mutex 7 false) 100 queued refl

-- A server without threads, on which thread 1 takes a mutex.
abbrev alone : Step
alone = record { after = held; events = []; outcome = at_time 15 }

one_call : Reach held
unfolding perform mutex_lock get_mutex find lock put waits total in_barriers
one_call = call (start 5) 1 refl (omega arith) (take_mutex 7 false) 10 alone refl

Reach-waits_once_example : waits 1 held ≤ 1
Reach-waits_once_example = Reach-waits_once 1 held one_call

-- Thread 2 waits on condition 9, with mutex 7.
abbrev waiting : SyncServer
waiting = record held { conds = (9, record { thread_id = 2; mutex = 7 } ∷ []) ∷ [] }

held-IsServer : IsServer held
unfolding find put
held-IsServer = record {
  mutexes_ok = Each-put IsMutex 7 taken [] (λ k m e. absurd (ground arith)) taken-IsMutex;
  waiters_ok = λ k ws e. absurd (ground arith);
}

waiting-IsServer : IsServer waiting
unfolding find put
waiting-IsServer = record {
  mutexes_ok = held-IsServer.mutexes_ok;
  waiters_ok =
      Each-put (AreWaiters held.mutexes) 9 _ [] (λ k ws e. absurd (ground arith))
        (and (record { named = omega arith; known = (taken, refl) }) nobody);
}

perform-IsServer_example : IsServer queued.after
unfolding perform mutex_lock get_mutex find lock put
perform-IsServer_example =
    perform-IsServer held 2 (take_mutex 7 false) 100 queued held-IsServer (omega arith) refl

wakes_complete_example :
    ((r : Step) × (cond_signal waiting 1 9 100 ≡ some r))
    × ((r : Step) × (cond_broadcast waiting 1 9 100 ≡ some r) × (get_cond r.after 9 ≡ []))
wakes_complete_example = wakes_complete waiting 1 9 100 waiting-IsServer
