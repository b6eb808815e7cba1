-- ===== src/Clock/Departure.antt =====
-- A thread that exits, stalls or migrates while it waits in the barrier (`releaseThread` of
-- system/barrier_sync_server.cc).
use snipersimcommon.Base.{
  ℕ, ◌+◌, ◌*◌, ◌<◌, ◌≡◌, refl, ◌∙◌, ap, Bool, true, false, ◌&&◌, ◌||◌, List, [], ◌∷◌, map, ◌==◌,
  Bool-cases, inl, inr, arith, u64,
}
use snipersimcommon.Clock.Barrier.{
  CoreClock, Server, World, forget, release_thread, do_release, barrier_release,
}
use snipersimcommon.Clock.Release.{IsQuiet, starting, barrier_release_lem}
use snipersimcommon.Clock.Held.{some_held, leave}
use snipersimcommon.Run.{Returns, Returns-map}

-- A core is held with this thread.
abbrev pub holds : ℕ → List CoreClock → Bool
holds thread [] = false
holds thread (c ∷ cs) = (c.acquired && c.thread == thread) || holds thread cs

forget-held :
    (time thread : ℕ) (cs : List CoreClock)
    → 0 < time
    → holds thread cs ≡ true
    → some_held time (map (forget thread) cs) ≡ true
forget-held time thread [] later h = absurd (ground (arith, h))
forget-held time thread (c ∷ cs) later h = elim (Bool-cases (c.acquired && c.thread == thread)) [
  | inl mine ↦ ground (arith, mine, later)
  | inr other ↦ ground (arith, forget-held time thread cs later (ground (arith, h, other)))
]

forget-freed :
    (time thread : ℕ) (cs : List CoreClock)
    → 0 < time
    → holds thread (map (leave time) (map (forget thread) cs)) ≡ false
forget-freed time thread [] later = refl
forget-freed time thread (c ∷ cs) later =
    let rest = forget-freed time thread cs later in
    elim (Bool-cases (c.acquired && c.thread == thread)) [
      | inl mine ↦ ground (arith, mine, later, rest)
      | inr other ↦ ground (arith, other, rest)
    ]

-- Outside fast-forward mode, when the barrier is not disabled, nobody is to be released any more after the call, the
-- periodic hooks leave what the barrier reads, there is fuel, the next time of the barrier is not 0 and does not
-- overflow, and a thread that is held leaves (it exits, stalls or migrates): the next release
-- returns, advances the time of the barrier by one interval only, and holds no core with this thread any more.
pub release_thread-freed :
    (w : World) (fuel caller thread : ℕ) (s : Server)
    → IsQuiet w
    → s.disable ≡ false
    → s.fastforward ≡ false
    → (release_thread thread s).to_release ≡ []
    → 0 < fuel
    → 0 < s.next_barrier_time + s.barrier_interval
    → s.next_barrier_time + s.barrier_interval < u64
    → holds thread s.cores ≡ true
    → Returns
        (λ r.
          (r.0.next_barrier_time ≡ s.next_barrier_time + s.barrier_interval)
          × (holds thread r.0.cores ≡ false))
        (barrier_release w fuel (release_thread thread s) caller false)
unfolding release_thread do_release starting
release_thread-freed w fuel caller thread s quiet enabled detailed nobody enough later fits mine =
    let t = release_thread thread s in
    let next : (starting t).next_barrier_time ≡ s.next_barrier_time = rw detailed refl in
    let time = s.next_barrier_time + s.barrier_interval in
    let one : ((starting t).next_barrier_time + 1 * s.barrier_interval) ≡ time =
      omega (arith, next) in
    Returns-map
      (barrier_release_lem w 1 fuel caller t quiet enabled nobody (omega arith)
        (omega (arith, enough)) (rw one fits)
        (ap (λ x. some_held x t.cores) one ∙ forget-held time thread s.cores later mine))
      (λ r i.
        let once : i.steps ≡ 1 = omega (arith, i.positive, i.bounded) in
        let there : r.0.next_barrier_time ≡ time = i.next ∙ (rw once one) in
        (there, ap (holds thread) i.cores ∙ rw there (forget-freed time thread s.cores later)))
