-- ===== src/Sync/Event.antt =====
-- What a synchronization object asks of system/thread_manager.h, and what its caller gets.
use snipersimcommon.Base.{ℕ, ◌+◌, List, [], ◌∷◌, ◌++◌, ◌==◌, if◌then◌else◌, ◌≡◌, arith}

pub data Reason : Type 0 where
  stall_mutex : Reason
  stall_cond : Reason
  stall_barrier : Reason

-- `stallThread(thread, reason, time)` and `resumeThread(thread, thread_by, time)`.
pub data Event : Type 0 where
  stall : ℕ → Reason → ℕ → Event
  resume : ℕ → ℕ → ℕ → Event

-- The caller goes on at a time, or stalls and goes on that much after the time it is resumed at.
pub data Outcome : Type 0 where
  at_time : ℕ → Outcome
  after_resume : ℕ → Outcome

abbrev pub one_if : ℕ → ℕ → ℕ
one_if x y = if x == y then 1 else 0

-- How often a thread is in a queue.
unfoldable pub occurrences : ℕ → List ℕ → ℕ
occurrences x [] = 0
occurrences x (y ∷ ys) = one_if x y + occurrences x ys

-- How often a thread is stalled, and resumed, by some events.
unfoldable pub stalls : ℕ → List Event → ℕ
stalls x [] = 0
stalls x (stall y reason time ∷ es) = one_if x y + stalls x es
stalls x (resume y by time ∷ es) = stalls x es

unfoldable pub resumes : ℕ → List Event → ℕ
resumes x [] = 0
resumes x (stall y reason time ∷ es) = resumes x es
resumes x (resume y by time ∷ es) = one_if x y + resumes x es

pub occurrences-append :
    (x : ℕ) (ys zs : List ℕ) → occurrences x (ys ++ zs) ≡ occurrences x ys + occurrences x zs
unfolding occurrences
occurrences-append x [] zs = omega arith
occurrences-append x (y ∷ ys) zs = omega (arith, occurrences-append x ys zs)

pub stalls-append : (x : ℕ) (ds es : List Event) → stalls x (ds ++ es) ≡ stalls x ds + stalls x es
unfolding stalls
stalls-append x [] es = omega arith
stalls-append x (stall y reason time ∷ ds) es = omega (arith, stalls-append x ds es)
stalls-append x (resume y by time ∷ ds) es = stalls-append x ds es

pub resumes-append :
    (x : ℕ) (ds es : List Event) → resumes x (ds ++ es) ≡ resumes x ds + resumes x es
unfolding resumes
resumes-append x [] es = omega arith
resumes-append x (stall y reason time ∷ ds) es = resumes-append x ds es
resumes-append x (resume y by time ∷ ds) es = omega (arith, resumes-append x ds es)
