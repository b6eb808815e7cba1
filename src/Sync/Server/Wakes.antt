-- ===== src/Sync/Server/Wakes.antt =====
-- What waking the waiters of a condition does to the queues of `SyncServer`.
use snipersimcommon.Base.{
  ℕ, ◌+◌, ◌≡◌, refl, sym, some, List, [], ◌∷◌, arith, Option-cases, inl, inr, of_some,
}
use snipersimcommon.Sync.Event.{
  Event, one_if, occurrences, stalls, resumes, stalls-append, resumes-append,
}
use snipersimcommon.Sync.Mutex.{SimMutex, lock_async, lock_async-count, lock_async-stalls}
use snipersimcommon.Sync.Table.{find, total, measured, total-put}
use snipersimcommon.Sync.Server.{CondWaiter, SimCond, wake, wake_all}
use snipersimcommon.Sync.Server.Waits.{in_cond, in_mutex}

-- A woken waiter moves to the queue of its mutex, or is resumed.
pub wake-count :
    (x : ℕ) (mutexes : List (ℕ × SimMutex)) (woken : CondWaiter) (by time : ℕ)
    (r : List (ℕ × SimMutex) × List Event)
    → wake mutexes woken by time ≡ some r
    → (total (in_mutex x) r.0 + resumes x r.1
        ≡ total (in_mutex x) mutexes + one_if x woken.thread_id)
      × (stalls x r.1 ≡ 0)
unfolding wake measured occurrences
wake-count x mutexes woken by time r e = elim (Option-cases (find woken.mutex mutexes)) [
  | inl missing ↦ absurd (ground arith)
  | inr (m, got) ↦
      let same = of_some (rw got at e) in
      let next = (lock_async m woken.thread_id by time).0 in
      let change = total-put (in_mutex x) woken.mutex next mutexes in
      rw (sym same) (
        omega (arith, rw got at change, lock_async-count x m woken.thread_id time by),
        lock_async-stalls x m woken.thread_id time by,
      )
]

pub wake_all-count :
    (x : ℕ) (mutexes : List (ℕ × SimMutex)) (c : SimCond) (by time : ℕ)
    (r : List (ℕ × SimMutex) × List Event)
    → wake_all mutexes c by time ≡ some r
    → (total (in_mutex x) r.0 + resumes x r.1 ≡ total (in_mutex x) mutexes + in_cond x c)
      × (stalls x r.1 ≡ 0)
unfolding wake_all in_cond resumes stalls
wake_all-count x mutexes [] by time r e = let same = of_some e in rw (sym same) (omega arith, refl)
wake_all-count x mutexes (woken ∷ rest) by time r e =
    elim (Option-cases (wake mutexes woken by time)) [
      | inl stuck ↦ absurd (ground arith)
      | inr (once, first) ↦ elim (Option-cases (wake_all once.0 rest by time)) [
        | inl stuck ↦ absurd (ground arith)
        | inr (done, more) ↦
            let same = of_some (rw (first, more) at e) in
            let one = wake-count x mutexes woken by time once first in
            let others = wake_all-count x once.0 rest by time done more in
            rw (sym same) (
              omega (arith, one, others, resumes-append x once.1 done.1),
              omega (arith, one, others, stalls-append x once.1 done.1),
            )
      ]
    ]
