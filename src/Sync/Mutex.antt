-- ===== src/Sync/Mutex.antt =====
-- `SimMutex` of system/sync_server.{h,cc}.
use snipersimcommon.Base.{
  ℕ, ◌+◌, ◌≤◌, ◌≡◌, ◌≢◌, refl, Bool, true, false, Option, some, List, [], ◌∷◌, ◌++◌, ◌==◌,
  if◌then◌else◌, arith, ◌>>◌, assert, ℕ_discrete,
}
use snipersimcommon.Sync.Event.{
  Event, stall, resume, stall_mutex, Outcome, at_time, after_resume, one_if, occurrences, stalls,
  resumes, occurrences-append,
}

-- `UINT_MAX`.
abbrev pub no_owner : ℕ
no_owner = 4294967295

pub record SimMutex : Type 0 where
  pub waiting : List ℕ
  pub owner : ℕ

abbrev pub fresh_mutex : SimMutex
fresh_mutex = record { waiting = []; owner = no_owner }

unfoldable pub is_locked : SimMutex → ℕ → Bool
is_locked m thread =
    if m.owner == no_owner then false else if m.owner == thread then false else true

unfoldable pub lock : SimMutex → ℕ → ℕ → SimMutex × List Event × Outcome
lock m thread time =
    if m.owner == no_owner then (record m { owner = thread }, [], at_time time) else (
      record m { waiting = m.waiting ++ thread ∷ [] },
      stall thread stall_mutex time ∷ [],
      after_resume 0,
    )

unfoldable pub lock_async : SimMutex → ℕ → ℕ → ℕ → SimMutex × List Event × Bool
lock_async m thread by time =
    if m.owner == no_owner
    then (record m { owner = thread }, resume thread by time ∷ [], true)
    else (record m { waiting = m.waiting ++ thread ∷ [] }, [], false)

abbrev pub hand_over : ℕ → ℕ → List ℕ → SimMutex × List Event × ℕ
hand_over thread time [] = (fresh_mutex, [], no_owner)
hand_over thread time (w ∷ ws) = (record { waiting = ws; owner = w }, resume w thread time ∷ [], w)

unfoldable pub unlock : SimMutex → ℕ → ℕ → Option (SimMutex × List Event × ℕ)
unlock m thread time = do assert (m.owner == thread); some (hand_over thread time m.waiting)

-- A mutex that nobody owns has nobody waiting, and the owner's sentinel never waits.
pub record IsMutex (m : SimMutex) : Type 0 where
  pub idle : m.owner ≡ no_owner → m.waiting ≡ []
  pub real : occurrences no_owner m.waiting ≡ 0

-- The threads that have asked for the mutex and not given it back, the owner first.
unfoldable pub holders : SimMutex → List ℕ
holders m = if m.owner == no_owner then [] else m.owner ∷ m.waiting

-- A thread that has asked for a mutex: it is last in line, and the mutex stays well formed.
pub record Queued (m n : SimMutex) (thread : ℕ) : Type 0 where
  pub line : holders n ≡ holders m ++ thread ∷ []
  pub ok : IsMutex n

module _ (m : SimMutex) (thread time : ℕ) (ok : IsMutex m) (named : thread ≢ no_owner) where
  still_real : occurrences no_owner (m.waiting ++ thread ∷ []) ≡ 0
  unfolding occurrences
  still_real = ground (arith, occurrences-append no_owner m.waiting (thread ∷ []), ok.real)

  -- For a sound mutex and a thread other than the sentinel: taking the mutex puts the thread last
  -- in the line of holders, and the mutex stays sound.
  pub holders-lock : Queued m (lock m thread time).0 thread
  unfolding holders lock
  holders-lock = elim (ℕ_discrete m.owner no_owner) [
    | yes free ↦ record {
      line = ground (arith, ok.idle free);
      ok = record { idle = ground arith; real = ground (arith, ok.real) };
    }
    | no taken ↦ record {
      line = ground arith;
      ok = record { idle = ground arith; real = ground (arith, still_real) };
    }
  ]

  -- The same for a thread that is woken and takes the mutex by the hand of another.
  pub holders-lock_async : (by : ℕ) → Queued m (lock_async m thread by time).0 thread
  unfolding holders lock_async
  holders-lock_async by = elim (ℕ_discrete m.owner no_owner) [
    | yes free ↦ record {
      line = ground (arith, ok.idle free);
      ok = record { idle = ground arith; real = ground (arith, ok.real) };
    }
    | no taken ↦ record {
      line = ground arith;
      ok = record { idle = ground arith; real = ground (arith, still_real) };
    }
  ]

hand_over-line :
    (thread time : ℕ) (ws : List ℕ)
    → occurrences no_owner ws ≡ 0
    → (holders (hand_over thread time ws).0 ≡ ws) × IsMutex (hand_over thread time ws).0
unfolding holders occurrences
hand_over-line thread time [] none_there = (ground arith, record { idle = λ _. refl; real = refl })
hand_over-line thread time (w ∷ ws) none_there =
    (ground arith, record { idle = ground arith; real = ground arith })

-- A completed unlock was by the owner, and is a hand-over.
pub unlock_lem :
    (m : SimMutex) (thread time : ℕ) (r : SimMutex × List Event × ℕ)
    → unlock m thread time ≡ some r
    → (m.owner ≡ thread) × (r ≡ hand_over thread time m.waiting)
unfolding unlock
unlock_lem m thread time r e = elim (ℕ_discrete m.owner thread) [
  | yes same ↦ (same, ground arith)
  | no other ↦ absurd (ground arith)
]

-- For a sound mutex and a thread other than the sentinel: an unlock that completes takes the
-- thread off the front of the line of holders, so that the next in line owns the mutex, and the
-- mutex stays sound.
pub holders-unlock :
    (m : SimMutex) (thread time : ℕ) (r : SimMutex × List Event × ℕ)
    → IsMutex m
    → thread ≢ no_owner
    → unlock m thread time ≡ some r
    → (holders m ≡ thread ∷ holders r.0) × IsMutex r.0
unfolding holders
holders-unlock m thread time r ok named e =
    let (same, over) = unlock_lem m thread time r e in
    let (line, fine) = hand_over-line thread time m.waiting ok.real in
    rw over (ground (arith, line), fine)

-- What waits, and what is woken, is what waited, and what is stalled.
module _ (x : ℕ) (m : SimMutex) (thread time : ℕ) where
  pub lock-count :
      occurrences x (lock m thread time).0.waiting + resumes x (lock m thread time).1
      ≡ occurrences x m.waiting + stalls x (lock m thread time).1
  unfolding lock occurrences stalls resumes
  lock-count = ground (arith, occurrences-append x m.waiting (thread ∷ []))

  pub lock-stalls : stalls x (lock m thread time).1 ≤ one_if x thread
  unfolding lock stalls
  lock-stalls = ground arith

  pub lock_async-count :
      (by : ℕ)
      → occurrences x (lock_async m thread by time).0.waiting
          + resumes x (lock_async m thread by time).1
        ≡ occurrences x m.waiting + occurrences x (thread ∷ [])
  unfolding lock_async occurrences resumes
  lock_async-count by = ground (arith, occurrences-append x m.waiting (thread ∷ []))

  pub lock_async-stalls : (by : ℕ) → stalls x (lock_async m thread by time).1 ≡ 0
  unfolding lock_async stalls
  lock_async-stalls by = ground arith

  hand_over-count :
      (ws : List ℕ)
      → (occurrences x (hand_over thread time ws).0.waiting + resumes x (hand_over thread time ws).1
          ≡ occurrences x ws)
        × (stalls x (hand_over thread time ws).1 ≡ 0)
  unfolding occurrences resumes stalls
  hand_over-count [] = (omega arith, refl)
  hand_over-count (w ∷ ws) = (omega arith, refl)

  pub unlock-count :
      (r : SimMutex × List Event × ℕ)
      → unlock m thread time ≡ some r
      → (occurrences x r.0.waiting + resumes x r.1 ≡ occurrences x m.waiting) × (stalls x r.1 ≡ 0)
  unlock-count r e = rw (unlock_lem m thread time r e).1 (hand_over-count m.waiting)
