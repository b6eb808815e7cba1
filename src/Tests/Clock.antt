-- ===== src/Tests/Clock.antt =====
-- The barrier between two cores.
use snipersimcommon.Base.{true, false, ◌&&◌, ◌+◌, [], ◌∷◌, refl, ◌≡◌, arith, if◌then◌else◌}
use snipersimcommon.Directory.Entry.{invalid_core_id}
use snipersimcommon.Run.{Ensures, done, check, from, ◌>>=◌, ◌>>◌}
use snipersimcommon.Clock.Barrier.{
  invalid_thread_id, Server, World, signalled, barrier_enter, barrier_exit, is_barrier_reached,
  barrier_release, synchronize, release_thread, do_release, is_core_running, release_loop,
  resume_cores, abort_barrier, create,
}
use snipersimcommon.Clock.Reached.{
  all_from, any_from, waits_or_idles, is_waiting, in_time, counts, is_barrier_reached_lem,
}
use snipersimcommon.Clock.Release.{IsQuiet, IsRelease, starting, barrier_release_lem}
use snipersimcommon.Run.{Returns}
use snipersimcommon.Clock.Departure.{holds, release_thread-freed}
use snipersimcommon.Clock.Arrival.{NoneBehind, synchronize-NoneBehind}

-- All cores run a thread of their own number, and nothing happens in a hook.
abbrev quiet_world : World
quiet_world = record {
  core_running = λ core. true;
  core_ready = λ core. true;
  core_thread = λ core. core;
  periodic = λ s. s;
  any_thread_running = λ s. true;
  has_timeout = λ time. false;
  num_host_cores = 1;
  shuffle = λ cores. cores;
}

abbrev quiet_world-IsQuiet : IsQuiet quiet_world
quiet_world-IsQuiet = record {
  keeps_next = λ s. refl;
  keeps_interval = λ s. refl;
  keeps_cores = λ s. refl;
  keeps_disable = λ s. refl;
}

-- A quantum of 100, after which core 0 waits since 350, and core 1 arrives.
abbrev first_waits : Server
first_waits = record (create 2 100) {
  cores =
      record { local_clock = 350; acquired = true; group = invalid_core_id; thread = 0 }
      ∷ record { local_clock = 20; acquired = false; group = invalid_core_id; thread = 1 }
      ∷ [];
}

abbrev both_wait : Server
both_wait = record (create 2 100) {
  cores =
      record { local_clock = 350; acquired = true; group = invalid_core_id; thread = 0 }
      ∷ record { local_clock = 270; acquired = true; group = invalid_core_id; thread = 1 }
      ∷ [];
}

is_barrier_reached_lem_example : is_barrier_reached quiet_world both_wait ≡ (
    if both_wait.fastforward
    then all_from (waits_or_idles quiet_world both_wait) 0 both_wait.cores
      && any_from is_waiting 0 both_wait.cores
    else all_from (in_time quiet_world both_wait) 0 both_wait.cores
      && any_from (counts quiet_world both_wait) 0 both_wait.cores)
unfolding create
is_barrier_reached_lem_example = is_barrier_reached_lem quiet_world both_wait

barrier_release_lem_example :
    Returns (IsRelease 1 2 (starting both_wait)) (barrier_release quiet_world 5 both_wait 1 false)
unfolding create starting
barrier_release_lem_example =
    barrier_release_lem quiet_world 2 5 1 both_wait quiet_world-IsQuiet refl refl (omega arith)
      (omega arith) (omega arith) refl

synchronize-NoneBehind_example : Ensures NoneBehind (synchronize quiet_world 5 first_waits 1 270)
unfolding create
synchronize-NoneBehind_example =
    synchronize-NoneBehind quiet_world quiet_world-IsQuiet 2 5 (omega arith) (omega arith)
      first_waits 1 270 refl (omega arith) (omega arith) refl

release_thread-freed_example :
    Returns
      (λ r.
        (r.0.next_barrier_time ≡ first_waits.next_barrier_time + first_waits.barrier_interval)
        × (holds 0 r.0.cores ≡ false))
      (barrier_release quiet_world 1 (release_thread 0 first_waits) invalid_thread_id false)
unfolding create release_thread do_release
release_thread-freed_example =
    release_thread-freed quiet_world 1 invalid_thread_id 0 first_waits quiet_world-IsQuiet refl refl
      refl (omega arith) (omega arith) (omega arith) refl

-- The second core arrives: the barrier goes from 100 to 300, the second core goes on and the first waits.
second_arrives :
    synchronize quiet_world 5 first_waits 1 270
    ≡ done (
      record (create 2 100) {
        next_barrier_time = 300;
        global_time = 200;
        cores =
            record { local_clock = 350; acquired = true; group = invalid_core_id; thread = 0 }
            ∷ record { local_clock = 270; acquired = false; group = invalid_core_id; thread = 1 }
            ∷ [];
        events = barrier_exit 1 ∷ barrier_enter 1 ∷ [];
      },
      false,
    )
unfolding create synchronize ◌>>=◌ from ◌>>◌ check is_barrier_reached do_release is_core_running
    barrier_release release_loop resume_cores
second_arrives = refl

-- The thread of core 0 leaves: its clock is 0 from then on.
thread_leaves :
    (release_thread 0 first_waits).cores
    ≡ record { local_clock = 0; acquired = true; group = invalid_core_id; thread = 0 }
      ∷ record { local_clock = 20; acquired = false; group = invalid_core_id; thread = 1 }
      ∷ []
unfolding create release_thread do_release
thread_leaves = refl

barrier_aborted : (abort_barrier first_waits).events ≡ signalled 0 ∷ barrier_exit 0 ∷ []
unfolding create abort_barrier
barrier_aborted = refl
