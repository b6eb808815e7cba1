-- ===== src/Sync/Server/Conserve.antt =====
-- Where the threads are that the calls of `SyncServer` stall and resume.
use snipersimcommon.Base.{
  ℕ, ◌+◌, ◌%◌, ◌≤◌, ◌≡◌, refl, sym, ap, Bool, true, false, ◌&&◌, some, List, [], ◌∷◌, ◌++◌,
  append-nil, arith, Bool-cases, Option-cases, inl, inr, of_some, u64, get_elem?,
}
use snipersimcommon.Sync.Event.{
  Event, stall, stall_cond, at_time, one_if, occurrences, stalls, resumes, stalls-append,
  resumes-append,
}
use snipersimcommon.Sync.Mutex.{
  SimMutex, is_locked, lock, unlock, lock-count, lock-stalls, unlock-count,
}
use snipersimcommon.Sync.Table.{total-put}
use snipersimcommon.Sync.Barrier.{SimBarrier, wait-count, wait-stalls}
use snipersimcommon.Sync.Barrier
use snipersimcommon.Sync.Server.{
  SimCond, SyncServer, Step, get_mutex, get_cond, put_mutex, put_cond, mutex_init, mutex_lock,
  mutex_unlock, cond_init, cond_wait, wake_all, first_waiter, cond_signal, cond_broadcast,
  barrier_init, barrier_wait, Call, init_mutex, take_mutex, give_mutex, init_cond, wait_cond,
  signal_cond, broadcast_cond, init_barrier, wait_barrier, perform,
}
use snipersimcommon.Sync.Server.Waits.{
  in_cond, in_barriers, waits, in_cond-append, in_barriers-append, in_barriers-set, put_mutex-waits,
  got_cond, put_cond-waits,
}
use snipersimcommon.Sync.Server.Wakes.{wake_all-count}

-- A call leaves every thread where it was, but for those that it stalls and resumes, and it stalls at most its caller.
pub record Conserves (x : ℕ) (s : SyncServer) (thread : ℕ) (r : Step) : Type 0 where
  pub kept : waits x r.after + resumes x r.events ≡ waits x s + stalls x r.events
  pub only : stalls x r.events ≤ one_if x thread

mutex_lock-Conserves :
    (x : ℕ) (s : SyncServer) (thread mux : ℕ) (try_lock : Bool) (time : ℕ) (r : Step × Bool)
    → mutex_lock s thread mux try_lock time ≡ some r
    → Conserves x s thread r.0
unfolding mutex_lock resumes stalls
mutex_lock-Conserves x s thread mux try_lock time r e = elim (Option-cases (get_mutex s mux true)) [
  | inl missing ↦ absurd (ground arith)
  | inr (m, got) ↦
      let taken = (lock m thread time).0 in
      elim (Bool-cases (try_lock && is_locked m thread)) [
        | inl fails ↦
            let same = of_some (rw (got, fails) at e) in
            rw (sym same) (record {
              kept = omega (arith, put_mutex-waits x s mux true m m got);
              only = omega (arith, lock-stalls x m thread time);
            })
        | inr takes ↦
            let same = of_some (rw (got, takes) at e) in
            rw (sym same) (record {
              kept =
                  omega
                    (arith, put_mutex-waits x s mux true m taken got, lock-count x m thread time);
              only = omega (arith, lock-stalls x m thread time);
            })
      ]
]

mutex_unlock-Conserves :
    (x : ℕ) (s : SyncServer) (thread mux time : ℕ) (r : Step)
    → mutex_unlock s thread mux time ≡ some r
    → Conserves x s thread r
unfolding mutex_unlock
mutex_unlock-Conserves x s thread mux time r e =
    let then_ = (time + s.reschedule_cost) % u64 in
    elim (Option-cases (get_mutex s mux false)) [
      | inl missing ↦ absurd (ground arith)
      | inr (m, got) ↦ elim (Option-cases (unlock m thread then_)) [
        | inl other ↦ absurd (ground arith)
        | inr (u, done) ↦
            let same = of_some (rw (got, done) at e) in
            rw (sym same) (record {
              kept = omega (
                arith,
                put_mutex-waits x s mux false m u.0 got,
                unlock-count x m thread then_ u done,
              );
              only = omega (arith, unlock-count x m thread then_ u done);
            })
      ]
    ]

cond_wait-Conserves :
    (x : ℕ) (s : SyncServer) (thread cond mux time : ℕ) (r : Step)
    → cond_wait s thread cond mux time ≡ some r
    → Conserves x s thread r
unfolding cond_wait in_cond stalls resumes
cond_wait-Conserves x s thread cond mux time r e = elim (Option-cases (get_mutex s mux true)) [
  | inl missing ↦ absurd (ground arith)
  | inr (m, got) ↦ elim (Option-cases (unlock m thread time)) [
    | inl other ↦ absurd (ground arith)
    | inr (u, done) ↦
        let same = of_some (rw (got, done) at e) in
        let given = put_mutex s mux u.0 in
        rw (sym same) (record {
          kept = omega (
            arith,
            put_mutex-waits x s mux true m u.0 got,
            unlock-count x m thread time u done,
            put_cond-waits x given cond
                (get_cond s cond ++ record { thread_id = thread; mutex = mux } ∷ []),
            in_cond-append x (get_cond s cond) (record { thread_id = thread; mutex = mux } ∷ []),
            stalls-append x u.1 (stall thread stall_cond time ∷ []),
            resumes-append x u.1 (stall thread stall_cond time ∷ []),
          );
          only = omega (
            arith,
            unlock-count x m thread time u done,
            stalls-append x u.1 (stall thread stall_cond time ∷ []),
          );
        })
  ]
]

-- The queue of a condition parts into those that are woken and those that stay.
waking :
    (x : ℕ) (s : SyncServer) (cond : ℕ) (woken rest : SimCond) (by time : ℕ)
    (m : List (ℕ × SimMutex) × List Event)
    → get_cond s cond ≡ woken ++ rest
    → wake_all s.mutexes woken by time ≡ some m
    → Conserves x s by (record {
      after = put_cond (record s { mutexes = m.0 }) cond rest;
      events = m.1;
      outcome = at_time time;
    })
unfolding waits put_cond
waking x s cond woken rest by time m parts done = record {
  kept = omega (
    arith,
    wake_all-count x s.mutexes woken by time m done,
    total-put (in_cond x) cond rest s.conds,
    got_cond x s cond,
    ap (in_cond x) parts,
    in_cond-append x woken rest,
  );
  only = omega (arith, wake_all-count x s.mutexes woken by time m done);
}

first_waiter-append : (c : SimCond) → c ≡ (first_waiter c).0 ++ (first_waiter c).1
first_waiter-append [] = refl
first_waiter-append (w ∷ ws) = refl

cond_signal-Conserves :
    (x : ℕ) (s : SyncServer) (thread cond time : ℕ) (r : Step)
    → cond_signal s thread cond time ≡ some r
    → Conserves x s thread r
unfolding cond_signal
cond_signal-Conserves x s thread cond time r e =
    let queue = first_waiter (get_cond s cond) in
    elim (Option-cases (wake_all s.mutexes queue.0 thread time)) [
      | inl stuck ↦ absurd (ground arith)
      | inr (m, done) ↦
          let same = of_some (rw done at e) in
          rw (sym same) (
            waking x s cond queue.0 queue.1 thread time m (first_waiter-append (get_cond s cond))
              done)
    ]

cond_broadcast-Conserves :
    (x : ℕ) (s : SyncServer) (thread cond time : ℕ) (r : Step)
    → cond_broadcast s thread cond time ≡ some r
    → Conserves x s thread r
unfolding cond_broadcast
cond_broadcast-Conserves x s thread cond time r e =
    elim (Option-cases (wake_all s.mutexes (get_cond s cond) thread time)) [
      | inl stuck ↦ absurd (ground arith)
      | inr (m, done) ↦
          let same = of_some (rw done at e) in
          rw (sym same) (
            waking x s cond (get_cond s cond) [] thread time m (sym (append-nil (get_cond s cond)))
              done)
    ]

barrier_wait-Conserves :
    (x : ℕ) (s : SyncServer) (thread barrier time : ℕ) (r : Step)
    → barrier_wait s thread barrier time ≡ some r
    → Conserves x s thread r
unfolding barrier_wait waits
barrier_wait-Conserves x s thread barrier time r e =
    elim (Option-cases (get_elem? s.barriers barrier)) [
      | inl missing ↦ absurd (ground arith)
      | inr (b, got) ↦
          let same = of_some (rw got at e) in
          let next = (Barrier.wait b thread time).0 in
          rw (sym same) (record {
            kept = omega (
              arith,
              in_barriers-set x s.barriers barrier b next got,
              wait-count x b thread time,
            );
            only = omega (arith, wait-stalls x b thread time);
          })
    ]

-- A call that completes: how often any thread is in the queues of the server afterwards, and how often
-- the call resumed it, add up to how often it was in them before, and how often the call stalled it.
-- Only the caller is stalled, and once at most.
pub perform-Conserves :
    (x : ℕ) (s : SyncServer) (thread : ℕ) (c : Call) (time : ℕ) (r : Step)
    → perform s thread c time ≡ some r
    → Conserves x s thread r
unfolding perform mutex_init cond_init barrier_init waits in_barriers occurrences resumes stalls
    put_cond put_mutex
perform-Conserves x s thread (init_mutex mux) time r e =
    elim (Option-cases (get_mutex s mux true)) [
      | inl missing ↦ absurd (ground arith)
      | inr (m, got) ↦
          let same = of_some (rw got at e) in
          rw (sym same) (record {
            kept = omega (arith, put_mutex-waits x s mux true m m got);
            only = omega arith;
          })
    ]
perform-Conserves x s thread (take_mutex mux try_lock) time r e =
    elim (Option-cases (mutex_lock s thread mux try_lock time)) [
      | inl stuck ↦ absurd (ground arith)
      | inr (q, done) ↦
          let same = of_some (rw done at e) in
          rw (sym same) (mutex_lock-Conserves x s thread mux try_lock time q done)
    ]
perform-Conserves x s thread (give_mutex mux) time r e =
    mutex_unlock-Conserves x s thread mux time r e
perform-Conserves x s thread (init_cond cond) time r e =
    let same = of_some e in
    rw (sym same) (record {
      kept = omega (arith, put_cond-waits x s cond (get_cond s cond));
      only = omega arith;
    })
perform-Conserves x s thread (wait_cond cond mux) time r e =
    cond_wait-Conserves x s thread cond mux time r e
perform-Conserves x s thread (signal_cond cond) time r e =
    cond_signal-Conserves x s thread cond time r e
perform-Conserves x s thread (broadcast_cond cond) time r e =
    cond_broadcast-Conserves x s thread cond time r e
perform-Conserves x s thread (init_barrier count) time r e =
    let same = of_some e in
    rw (sym same) (record {
      kept =
          omega
            (arith, in_barriers-append x s.barriers (record { waiting = []; count = count } ∷ []));
      only = omega arith;
    })
perform-Conserves x s thread (wait_barrier barrier) time r e =
    barrier_wait-Conserves x s thread barrier time r e
