-- ===== src/Sync/Server/Waiters.antt =====
-- The waiters of the conditions of `SyncServer`, and that waking them up never fails.
use snipersimcommon.Base.{ℕ, ◌≡◌, ◌≢◌, refl, Option, some, List, [], ◌∷◌, ◌++◌}
use snipersimcommon.Sync.Event.{Event}
use snipersimcommon.Sync.Mutex.{SimMutex, IsMutex, no_owner, lock_async, holders-lock_async}
use snipersimcommon.Sync.Table.{put, Has, Each, Has-put, Each-put}
use snipersimcommon.Sync.Server.{CondWaiter, SimCond, SyncServer, wake, wake_all}

-- The objects of a server are sound: each mutex is, and a waiter on a condition is a real thread whose
-- mutex the server has.
pub record IsWaiter (mutexes : List (ℕ × SimMutex)) (w : CondWaiter) : Type 0 where
  pub named : w.thread_id ≢ no_owner
  pub known : Has w.mutex mutexes

pub data AreWaiters (mutexes : List (ℕ × SimMutex)) : SimCond → Type 0 where
  nobody : AreWaiters mutexes []
  and :
      {w : CondWaiter} {ws : SimCond}
      → IsWaiter mutexes w
      → AreWaiters mutexes ws
      → AreWaiters mutexes (w ∷ ws)

pub record IsServer (s : SyncServer) : Type 0 where
  pub mutexes_ok : Each IsMutex s.mutexes
  pub waiters_ok : Each (AreWaiters s.mutexes) s.conds

-- Every mutex of the one map is in the other.
abbrev pub Keeps : List (ℕ × SimMutex) → List (ℕ × SimMutex) → Type 0
Keeps old new = (k : ℕ) → Has k old → Has k new

pub keep_waiters :
    {old new : List (ℕ × SimMutex)} (ws : SimCond)
    → Keeps old new
    → AreWaiters old ws
    → AreWaiters new ws
keep_waiters [] keeps nobody = nobody
keep_waiters (w ∷ ws) keeps (and ok rest) =
    and (record { named = ok.named; known = keeps w.mutex ok.known }) (keep_waiters ws keeps rest)

pub append_waiters :
    {ms : List (ℕ × SimMutex)} (ws vs : SimCond)
    → AreWaiters ms ws
    → AreWaiters ms vs
    → AreWaiters ms (ws ++ vs)
append_waiters [] vs nobody more = more
append_waiters (w ∷ ws) vs (and ok rest) more = and ok (append_waiters ws vs rest more)

-- A wake-up completes, and the mutexes stay sound.
pub record Woken (mutexes : List (ℕ × SimMutex)) (found : Option (List (ℕ × SimMutex) × List Event))
    : Type 0 where
  pub now : List (ℕ × SimMutex)
  pub events : List Event
  pub completes : found ≡ some (now, events)
  pub sound : Each IsMutex now
  pub keeps : Keeps mutexes now

pub wake_lem :
    (mutexes : List (ℕ × SimMutex)) (w : CondWaiter) (by time : ℕ)
    → Each IsMutex mutexes
    → IsWaiter mutexes w
    → Woken mutexes (wake mutexes w by time)
unfolding wake
wake_lem mutexes w by time ok real =
    let (m, there) = real.known in
    let next = lock_async m w.thread_id by time in
    record {
      now = put w.mutex next.0 mutexes;
      events = next.1;
      completes = rw there;
      sound =
          Each-put IsMutex w.mutex next.0 mutexes ok
            (holders-lock_async m w.thread_id time (ok w.mutex m there) real.named by).ok;
      keeps = λ k. Has-put w.mutex k next.0 mutexes;
    }

pub wake_all_lem :
    (mutexes : List (ℕ × SimMutex)) (ws : SimCond) (by time : ℕ)
    → Each IsMutex mutexes
    → AreWaiters mutexes ws
    → Woken mutexes (wake_all mutexes ws by time)
unfolding wake_all
wake_all_lem mutexes [] by time ok nobody = record {
  now = mutexes;
  events = [];
  completes = refl;
  sound = ok;
  keeps = λ k h. h;
}
wake_all_lem mutexes (w ∷ ws) by time ok (and real rest) =
    let one = wake_lem mutexes w by time ok real in
    let others = wake_all_lem one.now ws by time one.sound (keep_waiters ws one.keeps rest) in
    record {
      now = others.now;
      events = one.events ++ others.events;
      completes = rw (one.completes, others.completes);
      sound = others.sound;
      keeps = λ k h. others.keeps k (one.keeps k h);
    }
