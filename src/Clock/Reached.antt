-- ===== src/Clock/Reached.antt =====
-- When `isBarrierReached` of system/barrier_sync_server.cc holds.
use snipersimcommon.Base.{
  ℕ, ◌+◌, ◌≡◌, refl, Bool, true, false, not, ◌&&◌, ◌||◌, List, [], ◌∷◌, ◌==◌, leb, if◌then◌else◌,
  arith,
}
use snipersimcommon.Directory.Entry.{invalid_core_id}
use snipersimcommon.Clock.Barrier.{
  CoreClock, Server, World, is_core_running, reached_fast, reached_detailed, is_barrier_reached,
}

-- A test of all cores, and of some core, from the core `id` on.
unfoldable pub all_from : (ℕ → CoreClock → Bool) → ℕ → List CoreClock → Bool
all_from f id [] = true
all_from f id (c ∷ cs) = f id c && all_from f (id + 1) cs

unfoldable pub any_from : (ℕ → CoreClock → Bool) → ℕ → List CoreClock → Bool
any_from f id [] = false
any_from f id (c ∷ cs) = f id c || any_from f (id + 1) cs

-- A core that the barrier waits for in detailed mode: it has no master, and it or a sibling runs.
abbrev pub counts : World → Server → ℕ → CoreClock → Bool
counts w s id c = c.group == invalid_core_id && is_core_running w s id

abbrev pub in_time : World → Server → ℕ → CoreClock → Bool
in_time w s id c = not (counts w s id c) || leb s.next_barrier_time c.local_clock

abbrev pub waits_or_idles : World → Server → ℕ → CoreClock → Bool
waits_or_idles w s id c = c.acquired || not (is_core_running w s id)

abbrev pub is_waiting : ℕ → CoreClock → Bool
is_waiting id c = c.acquired

detailed_lem :
    (w : World) (s : Server) (id : ℕ) (cs : List CoreClock) (reached : Bool)
    → reached_detailed w s id cs reached
      ≡ (all_from (in_time w s) id cs && (any_from (counts w s) id cs || reached))
unfolding reached_detailed all_from any_from
detailed_lem w s id [] reached = ground arith
detailed_lem w s id (c ∷ cs) reached =
    let master = c.group == invalid_core_id && is_core_running w s id in
    ground (arith, detailed_lem w s (id + 1) cs (master || reached))

fast_lem :
    (w : World) (s : Server) (id : ℕ) (cs : List CoreClock) (reached : Bool)
    → reached_fast w s id cs reached
      ≡ (all_from (waits_or_idles w s) id cs && (any_from is_waiting id cs || reached))
unfolding reached_fast all_from any_from
fast_lem w s id [] reached = ground arith
fast_lem w s id (c ∷ cs) reached = ground (arith, fast_lem w s (id + 1) cs (c.acquired || reached))

or_false : (b : Bool) → (b || false) ≡ b
or_false true = refl
or_false false = refl

-- In detailed mode the barrier is reached exactly when every core without a master that runs, or has a sibling that runs, is at the time
-- of the barrier or later, and there is such a core; in fast-forward mode exactly when every core waits in the
-- barrier or does not run, and some core waits.
pub is_barrier_reached_lem :
    (w : World) (s : Server)
    → is_barrier_reached w s ≡ (
        if s.fastforward
        then all_from (waits_or_idles w s) 0 s.cores && any_from is_waiting 0 s.cores
        else all_from (in_time w s) 0 s.cores && any_from (counts w s) 0 s.cores)
unfolding is_barrier_reached
is_barrier_reached_lem w s =
    let fast = fast_lem w s 0 s.cores false in
    let detailed = detailed_lem w s 0 s.cores false in
    rw
      (
        fast,
        detailed,
        or_false (any_from is_waiting 0 s.cores),
        or_false (any_from (counts w s) 0 s.cores),
      )
      refl
