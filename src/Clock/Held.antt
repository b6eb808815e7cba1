-- ===== src/Clock/Held.antt =====
-- The cores that are held in the barrier, and what a round of `barrierRelease` of
-- system/barrier_sync_server.cc makes of them.
use snipersimcommon.Base.{
  ℕ, ◌+◌, ◌≡◌, refl, Bool, false, ◌&&◌, ◌||◌, List, [], ◌∷◌, map, ◌==◌, ltb, if◌then◌else◌,
  Bool-cases, inl, inr, arith,
}
use snipersimcommon.Clock.Barrier.{CoreClock, resume_cores}

-- The core waits in the barrier, and its clock is before the time.
abbrev pub held_before : ℕ → CoreClock → Bool
held_before time c = ltb c.local_clock time && c.acquired

-- Whether some core is held before the time, and whether one with this thread is.
abbrev pub some_held : ℕ → List CoreClock → Bool
some_held time [] = false
some_held time (c ∷ cs) = held_before time c || some_held time cs

abbrev pub thread_held : ℕ → ℕ → List CoreClock → Bool
thread_held time thread [] = false
thread_held time thread (c ∷ cs) =
    (held_before time c && c.thread == thread) || thread_held time thread cs

abbrev pub leave : ℕ → CoreClock → CoreClock
leave time c = if held_before time c then record c { acquired = false } else c

pub resume_cores-cores :
    (next caller id : ℕ) (cs : List CoreClock)
    → (resume_cores next caller id cs).cores ≡ map (leave next) cs
unfolding resume_cores
resume_cores-cores next caller id [] = refl
resume_cores-cores next caller id (c ∷ cs) = rw (resume_cores-cores next caller (id + 1) cs) refl

pub resume_cores-resumed :
    (next caller id : ℕ) (cs : List CoreClock)
    → (resume_cores next caller id cs).core_resumed ≡ some_held next cs
unfolding resume_cores
resume_cores-resumed next caller id [] = refl
resume_cores-resumed next caller id (c ∷ cs) =
    rw (resume_cores-resumed next caller (id + 1) cs) refl

pub resume_cores-caller :
    (next caller id : ℕ) (cs : List CoreClock)
    → (resume_cores next caller id cs).caller_resumed ≡ thread_held next caller cs
unfolding resume_cores
resume_cores-caller next caller id [] = refl
resume_cores-caller next caller id (c ∷ cs) = rw (resume_cores-caller next caller (id + 1) cs) refl

pub leave_none :
    (time : ℕ) (cs : List CoreClock) → some_held time cs ≡ false → map (leave time) cs ≡ cs
leave_none time [] h = refl
leave_none time (c ∷ cs) h = elim (Bool-cases (held_before time c)) [
  | inl held ↦ absurd (ground (arith, h, held))
  | inr free ↦ rw (free, leave_none time cs (ground (arith, h, free))) refl
]
