-- ===== src/Sync/Server/Sound.antt =====
-- What every call of `SyncServer` keeps, and what never fails because of it.
use snipersimcommon.Base.{
  ℕ, ◌+◌, ◌%◌, ◌≡◌, ◌≢◌, refl, sym, subst, ◌∙◌, Bool, true, false, ◌&&◌, some, List, [], ◌∷◌, arith,
  Bool-cases, Option-cases, inl, inr, of_some, u64, get_elem?,
}
use snipersimcommon.Sync.Event.{at_time, Event, occurrences}
use snipersimcommon.Sync.Mutex.{
  SimMutex, IsMutex, no_owner, is_locked, lock, unlock, holders-lock, holders-unlock,
}
use snipersimcommon.Sync.Table.{find, find-put_self, Each, Has-put, Has-put_self, Each-put}
use snipersimcommon.Sync.Server.{
  SimCond, SyncServer, Step, get_mutex, get_cond, put_mutex, put_cond, mutex_init, mutex_lock,
  mutex_unlock, cond_init, cond_wait, wake_all, first_waiter, cond_signal, cond_broadcast,
  barrier_init, barrier_wait, Call, init_mutex, take_mutex, give_mutex, init_cond, wait_cond,
  signal_cond, broadcast_cond, init_barrier, wait_barrier, perform,
}
use snipersimcommon.Sync.Server.Waiters.{
  AreWaiters, nobody, and, IsServer, Keeps, keep_waiters, append_waiters, wake_all_lem,
}

-- A fresh mutex, or one of the map.
got_ok :
    (s : SyncServer) (mux : ℕ) (create : Bool) (m : SimMutex)
    → IsServer s
    → get_mutex s mux create ≡ some m
    → IsMutex m
unfolding get_mutex occurrences
got_ok s mux true m ok e = elim (Option-cases (find mux s.mutexes)) [
  | inl missing ↦
      let same = of_some (rw (missing, get_mutex) at e) in
      subst IsMutex same (record { idle = λ _. refl; real = refl })
  | inr (d, there) ↦
      let same = of_some (rw (there, get_mutex) at e) in
      subst IsMutex same (ok.mutexes_ok mux d there)
]
got_ok s mux false m ok e = ok.mutexes_ok mux m e

put_mutex-IsServer :
    (s : SyncServer) (mux : ℕ) (m : SimMutex)
    → IsServer s
    → IsMutex m
    → IsServer (put_mutex s mux m)
unfolding put_mutex
put_mutex-IsServer s mux m ok fine = record {
  mutexes_ok = Each-put IsMutex mux m s.mutexes ok.mutexes_ok fine;
  waiters_ok =
      λ k ws there. keep_waiters ws (λ j. Has-put mux j m s.mutexes) (ok.waiters_ok k ws there);
}

put_cond-IsServer :
    (s : SyncServer) (cond : ℕ) (ws : SimCond)
    → IsServer s
    → AreWaiters s.mutexes ws
    → IsServer (put_cond s cond ws)
unfolding put_cond
put_cond-IsServer s cond ws ok fine = record {
  mutexes_ok = ok.mutexes_ok;
  waiters_ok = Each-put (AreWaiters s.mutexes) cond ws s.conds ok.waiters_ok fine;
}

got_waiters : (s : SyncServer) (cond : ℕ) → IsServer s → AreWaiters s.mutexes (get_cond s cond)
unfolding get_cond
got_waiters s cond ok = elim (Option-cases (find cond s.conds)) [
  | inl missing ↦ rw (missing, get_cond) nobody
  | inr (d, there) ↦ rw (there, get_cond) (ok.waiters_ok cond d there)
]

-- Waiters are woken: the mutexes move on, and the server stays sound.
woken-IsServer :
    (s : SyncServer) (cond : ℕ) (rest woken : SimCond) (by time : ℕ)
    (m : List (ℕ × SimMutex) × List Event)
    → IsServer s
    → AreWaiters s.mutexes woken
    → AreWaiters s.mutexes rest
    → wake_all s.mutexes woken by time ≡ some m
    → IsServer (put_cond (record s { mutexes = m.0 }) cond rest)
woken-IsServer s cond rest woken by time m ok ready stay done =
    let w = wake_all_lem s.mutexes woken by time ok.mutexes_ok ready in
    let same = of_some (sym w.completes ∙ done) in
    let keeps = subst (λ q. Keeps s.mutexes q.0) same w.keeps in
    put_cond-IsServer (record s { mutexes = m.0 }) cond rest
      (record {
        mutexes_ok = subst (λ q. Each IsMutex q.0) same w.sound;
        waiters_ok = λ k ws there. keep_waiters ws keeps (ok.waiters_ok k ws there);
      })
      (keep_waiters rest keeps stay)

parted :
    {ms : List (ℕ × SimMutex)} (ws : SimCond)
    → AreWaiters ms ws
    → AreWaiters ms (first_waiter ws).0 × AreWaiters ms (first_waiter ws).1
parted [] nobody = (nobody, nobody)
parted (w ∷ ws) (and ok rest) = (and ok nobody, rest)

-- A call that completes, by a thread whose number is not the sentinel, keeps a sound server sound: a mutex
-- without an owner has no waiters, and every waiter on a condition is such a thread whose mutex exists.
pub perform-IsServer :
    (s : SyncServer) (thread : ℕ) (c : Call) (time : ℕ) (r : Step)
    → IsServer s
    → thread ≢ no_owner
    → perform s thread c time ≡ some r
    → IsServer r.after
unfolding perform mutex_init mutex_lock mutex_unlock cond_init cond_wait cond_signal cond_broadcast
    barrier_init barrier_wait
perform-IsServer s thread (init_mutex mux) time r ok named e =
    elim (Option-cases (get_mutex s mux true)) [
      | inl missing ↦ absurd (ground arith)
      | inr (m, got) ↦
          let same = of_some (rw got at e) in
          rw (sym same) (put_mutex-IsServer s mux m ok (got_ok s mux true m ok got))
    ]
perform-IsServer s thread (take_mutex mux try_lock) time r ok named e =
    elim (Option-cases (get_mutex s mux true)) [
      | inl missing ↦ absurd (ground arith)
      | inr (m, got) ↦
          let fine = got_ok s mux true m ok got in
          elim (Bool-cases (try_lock && is_locked m thread)) [
            | inl fails ↦
                let same = of_some (rw (got, fails) at e) in
                rw (sym same) (put_mutex-IsServer s mux m ok fine)
            | inr takes ↦
                let same = of_some (rw (got, takes) at e) in
                rw (sym same) (
                  put_mutex-IsServer s mux (lock m thread time).0 ok
                    (holders-lock m thread time fine named).ok)
          ]
    ]
perform-IsServer s thread (give_mutex mux) time r ok named e =
    let then_ = (time + s.reschedule_cost) % u64 in
    elim (Option-cases (get_mutex s mux false)) [
      | inl missing ↦ absurd (ground arith)
      | inr (m, got) ↦ elim (Option-cases (unlock m thread then_)) [
        | inl other ↦ absurd (ground arith)
        | inr (u, done) ↦
            let same = of_some (rw (got, done) at e) in
            let freed = holders-unlock m thread then_ u (got_ok s mux false m ok got) named done in
            rw (sym same) (put_mutex-IsServer s mux u.0 ok freed.1)
      ]
    ]
perform-IsServer s thread (init_cond cond) time r ok named e =
    let same = of_some e in
    rw (sym same) (put_cond-IsServer s cond (get_cond s cond) ok (got_waiters s cond ok))
perform-IsServer s thread (wait_cond cond mux) time r ok named e =
    elim (Option-cases (get_mutex s mux true)) [
      | inl missing ↦ absurd (ground arith)
      | inr (m, got) ↦ elim (Option-cases (unlock m thread time)) [
        | inl other ↦ absurd (ground arith)
        | inr (u, done) ↦
            let same = of_some (rw (got, done) at e) in
            let freed = holders-unlock m thread time u (got_ok s mux true m ok got) named done in
            let given = put_mutex-IsServer s mux u.0 ok freed.1 in
            let here = Has-put_self mux u.0 s.mutexes in
            rw (sym same) (
              put_cond-IsServer (put_mutex s mux u.0) cond _ given (
                append_waiters (get_cond s cond) _ (got_waiters (put_mutex s mux u.0) cond given)
                  (and (record { named = named; known = here }) nobody)))
      ]
    ]
perform-IsServer s thread (signal_cond cond) time r ok named e =
    let queue = get_cond s cond in
    let fine = parted queue (got_waiters s cond ok) in
    elim (Option-cases (wake_all s.mutexes (first_waiter queue).0 thread time)) [
      | inl stuck ↦ absurd (ground arith)
      | inr (m, done) ↦
          let same = of_some (rw done at e) in
          rw (sym same) (
            woken-IsServer s cond (first_waiter queue).1 (first_waiter queue).0 thread time m ok
              fine.0 fine.1 done)
    ]
perform-IsServer s thread (broadcast_cond cond) time r ok named e =
    elim (Option-cases (wake_all s.mutexes (get_cond s cond) thread time)) [
      | inl stuck ↦ absurd (ground arith)
      | inr (m, done) ↦
          let same = of_some (rw done at e) in
          rw (sym same) (
            woken-IsServer s cond [] (get_cond s cond) thread time m ok (got_waiters s cond ok)
              nobody done)
    ]
perform-IsServer s thread (init_barrier count) time r ok named e =
    let same = of_some e in
    rw (sym same) (record { mutexes_ok = ok.mutexes_ok; waiters_ok = ok.waiters_ok })
perform-IsServer s thread (wait_barrier barrier) time r ok named e =
    elim (Option-cases (get_elem? s.barriers barrier)) [
      | inl missing ↦ absurd (ground arith)
      | inr (b, got) ↦
          let same = of_some (rw got at e) in
          rw (sym same) (record { mutexes_ok = ok.mutexes_ok; waiters_ok = ok.waiters_ok })
    ]

abbrev woken_step : SyncServer → ℕ → SimCond → List (ℕ × SimMutex) → List Event → ℕ → Step
woken_step s cond rest mutexes events time = record {
  after = put_cond (record s { mutexes = mutexes }) cond rest;
  events = events;
  outcome = at_time time;
}

-- In a sound server a signal and a broadcast always complete, whatever the condition: no waiter
-- has lost its mutex. After a broadcast nobody waits on the condition.
pub wakes_complete :
    (s : SyncServer) (thread cond time : ℕ)
    → IsServer s
    → ((r : Step) × (cond_signal s thread cond time ≡ some r))
      × ((r : Step) × (cond_broadcast s thread cond time ≡ some r) × (get_cond r.after cond ≡ []))
unfolding cond_signal cond_broadcast get_cond
wakes_complete s thread cond time ok =
    let ready = got_waiters s cond ok in
    let one =
      wake_all_lem s.mutexes _ thread time ok.mutexes_ok (parted (get_cond s cond) ready).0 in
    let all = wake_all_lem s.mutexes _ thread time ok.mutexes_ok ready in
    (
      (
        woken_step s cond (first_waiter (get_cond s cond)).1 one.now one.events time,
        rw one.completes,
      ),
      (
        woken_step s cond [] all.now all.events time,
        rw all.completes,
        rw (find-put_self cond [] s.conds, get_cond) refl,
      ),
    )
