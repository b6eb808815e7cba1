-- ===== src/Clock/Release.antt =====
-- What `barrierRelease` of system/barrier_sync_server.cc does when the periodic hooks leave the barrier alone.
use snipersimcommon.Base.{
  ℕ, zero, suc, ◌+◌, ◌-◌, ◌*◌, ◌⊎◌, ◌≡◌, refl, ◌∙◌, sym, ap, ap₂, ◌%◌, subst, Bool, true, false,
  Option, none, some, not, [], ◌++◌, map, ◌<◌, ◌≤◌, if◌then◌else◌, Bool-cases, inl, inr, arith, u64,
}
use snipersimcommon.Run.{done, check, ◌>>◌, ◌>>=◌}
use snipersimcommon.Clock.Barrier.{
  Server, World, resume_cores, skip, advanced, do_release, exits, release_loop, barrier_release,
  is_nil,
}
use snipersimcommon.Clock.Held.{
  some_held, thread_held, leave, resume_cores-cores, resume_cores-resumed, resume_cores-caller,
  leave_none,
}
use snipersimcommon.Run.{Returns, gives, Returns-map}

-- The periodic hooks leave what the barrier reads.
pub record IsQuiet (w : World) : Type 0 where
  pub keeps_next : (s : Server) → (w.periodic s).next_barrier_time ≡ s.next_barrier_time
  pub keeps_interval : (s : Server) → (w.periodic s).barrier_interval ≡ s.barrier_interval
  pub keeps_cores : (s : Server) → (w.periodic s).cores ≡ s.cores
  pub keeps_disable : (s : Server) → (w.periodic s).disable ≡ s.disable

-- What a release makes of the server: `steps` intervals pass, the fewest after which a core that is held is before
-- the time of the barrier; the cores before it are not held any more.
pub record IsRelease (caller most : ℕ) (s : Server) (r : Server × Bool) : Type 0 where
  pub steps : ℕ
  pub positive : 0 < steps
  pub bounded : steps ≤ most
  pub next : r.0.next_barrier_time ≡ s.next_barrier_time + steps * s.barrier_interval
  pub cores : r.0.cores ≡ map (leave r.0.next_barrier_time) s.cores
  pub resumed : some_held r.0.next_barrier_time s.cores ≡ true
  pub earliest :
      (steps ≡ 1)
      ⊎ (some_held (s.next_barrier_time + (steps - 1) * s.barrier_interval) s.cores ≡ false)
  pub waits : r.1 ≡ not (thread_held r.0.next_barrier_time caller s.cores)

small : (a : ℕ) → a < u64 → a % u64 ≡ a
small a h = omega arith

do_release_next :
    (n : Option ℕ) (s : Server) → (do_release n s).next_barrier_time ≡ s.next_barrier_time
unfolding do_release
do_release_next none s = refl
do_release_next (some n) s = refl

do_release_cores : (n : Option ℕ) (s : Server) → (do_release n s).cores ≡ s.cores
unfolding do_release
do_release_cores none s = refl
do_release_cores (some n) s = refl

module _ (w : World) (quiet : IsQuiet w) (caller : ℕ) where
  ticked : Server → Server
  ticked s =
      let t = w.periodic (record s { global_time = s.next_barrier_time }) in
      record t {
        next_barrier_time = s.next_barrier_time + s.barrier_interval;
        cores = (resume_cores (s.next_barrier_time + s.barrier_interval) caller 0 s.cores).cores;
      }

  finished : Server → Server × Bool
  finished s =
      let t = w.periodic (record s { global_time = s.next_barrier_time }) in
      let next = s.next_barrier_time + s.barrier_interval in
      let r = resume_cores next caller 0 s.cores in (advanced w next t r, not r.caller_resumed)

  release_loop-step :
      (fuel : ℕ) (s : Server)
      → s.disable ≡ false
      → s.next_barrier_time + s.barrier_interval < u64
      → release_loop w (suc fuel) s caller false ≡ (
          if some_held (s.next_barrier_time + s.barrier_interval) s.cores
          then done (finished s)
          else release_loop w fuel (ticked s) caller false)
  unfolding release_loop ticked finished check ◌>>◌ ◌>>=◌
  release_loop-step fuel s enabled fits =
      let u = record s { global_time = s.next_barrier_time } in
      let resumed =
        resume_cores-resumed (s.next_barrier_time + s.barrier_interval) caller 0 s.cores in
      rw
        (
          quiet.keeps_next u,
          quiet.keeps_interval u,
          quiet.keeps_cores u,
          quiet.keeps_disable u,
          enabled,
          small (s.next_barrier_time + s.barrier_interval) fits,
          resumed,
        )
        refl

  finished-IsRelease :
      (most : ℕ) (s : Server)
      → 0 < most
      → some_held (s.next_barrier_time + s.barrier_interval) s.cores ≡ true
      → IsRelease caller most s (finished s)
  unfolding finished advanced
  finished-IsRelease most s some_steps held =
      let t = w.periodic (record s { global_time = s.next_barrier_time }) in
      let next = s.next_barrier_time + s.barrier_interval in
      let r = resume_cores next caller 0 s.cores in
      let n = if t.fastforward then none else some w.num_host_cores in
      let u = record t {
        next_barrier_time = next;
        cores = r.cores;
        to_release = w.shuffle (t.to_release ++ r.released);
        events = exits r.released t.events;
      } in
      let same = do_release_next n u in
      record {
        steps = 1;
        positive = omega arith;
        bounded = omega (arith, some_steps);
        next = same ∙ omega arith;
        cores = rw (same, do_release_cores n u) (resume_cores-cores next caller 0 s.cores);
        resumed = rw same held;
        earliest = inl refl;
        waits = rw (same, resume_cores-caller next caller 0 s.cores) refl;
      }

  ticked-cores :
      (s : Server)
      → some_held (s.next_barrier_time + s.barrier_interval) s.cores ≡ false
      → (ticked s).cores ≡ s.cores
  unfolding ticked
  ticked-cores s none_held =
      let next = s.next_barrier_time + s.barrier_interval in
      resume_cores-cores next caller 0 s.cores ∙ leave_none next s.cores none_held

  ticked-next :
      (s : Server) → (ticked s).next_barrier_time ≡ s.next_barrier_time + s.barrier_interval
  unfolding ticked
  ticked-next s = refl

  ticked-interval : (s : Server) → (ticked s).barrier_interval ≡ s.barrier_interval
  unfolding ticked
  ticked-interval s = quiet.keeps_interval (record s { global_time = s.next_barrier_time })

  ticked-disable : (s : Server) → (ticked s).disable ≡ s.disable
  unfolding ticked
  ticked-disable s = quiet.keeps_disable (record s { global_time = s.next_barrier_time })

  -- The time of the barrier after `n` more intervals.
  later :
      (s : Server) (n : ℕ)
      → (ticked s).next_barrier_time + n * (ticked s).barrier_interval
        ≡ s.next_barrier_time + suc n * s.barrier_interval
  later s n = rw (ticked-next s, ticked-interval s) (omega arith)

  ticked-earliest :
      (s : Server) (steps : ℕ)
      → some_held (s.next_barrier_time + s.barrier_interval) s.cores ≡ false
      → 0 < steps
      → ((steps ≡ 1)
          ⊎ (some_held
                ((ticked s).next_barrier_time + (steps - 1) * (ticked s).barrier_interval)
                (ticked s).cores
              ≡ false))
      → some_held (s.next_barrier_time + (suc steps - 1) * s.barrier_interval) s.cores ≡ false
  ticked-earliest s steps none_held positive (inl once) =
      rw once (subst (λ x. some_held x s.cores ≡ false) (omega arith) none_held)
  ticked-earliest s steps none_held positive (inr before) =
      let same : (suc steps - 1) ≡ suc (steps - 1) = omega (arith, positive) in
      ap (λ k. some_held (s.next_barrier_time + k * s.barrier_interval) s.cores) same
      ∙ (sym (ap₂ some_held (later s (steps - 1)) (ticked-cores s none_held)) ∙ before)

  IsRelease-ticked :
      (most : ℕ) (s : Server) (r : Server × Bool)
      → some_held (s.next_barrier_time + s.barrier_interval) s.cores ≡ false
      → IsRelease caller most (ticked s) r
      → IsRelease caller (suc most) s r
  IsRelease-ticked most s r none_held i =
      let same = ticked-cores s none_held in
      record {
        steps = suc i.steps;
        positive = omega arith;
        bounded = omega (arith, i.bounded);
        next = i.next ∙ later s i.steps;
        cores = i.cores ∙ ap (map (leave r.0.next_barrier_time)) same;
        resumed = subst (λ cs. some_held r.0.next_barrier_time cs ≡ true) same i.resumed;
        earliest = inr (ticked-earliest s i.steps none_held i.positive i.earliest);
        waits = i.waits ∙ ap (λ cs. not (thread_held r.0.next_barrier_time caller cs)) same;
      }

  several :
      (s : Server) (m : ℕ)
      → some_held (s.next_barrier_time + s.barrier_interval) s.cores ≡ false
      → some_held (s.next_barrier_time + suc m * s.barrier_interval) s.cores ≡ true
      → 0 < m
  several s zero none_held held =
      let same : (s.next_barrier_time + 1 * s.barrier_interval)
          ≡ s.next_barrier_time + s.barrier_interval =
        omega arith in
      absurd (cc (none_held, held, same))
  several s (suc m) none_held held = omega arith

  pub loop-releases :
      (n fuel : ℕ) (s : Server)
      → s.disable ≡ false
      → 0 < n
      → n ≤ fuel
      → s.next_barrier_time + n * s.barrier_interval < u64
      → some_held (s.next_barrier_time + n * s.barrier_interval) s.cores ≡ true
      → Returns (IsRelease caller n s) (release_loop w fuel s caller false)
  loop-releases zero fuel s enabled some_steps enough fits held = absurd (omega (arith, some_steps))
  loop-releases (suc m) zero s enabled some_steps enough fits held = absurd (omega (arith, enough))
  loop-releases (suc m) (suc f) s enabled some_steps enough fits held =
      let step = release_loop-step f s enabled (omega (arith, fits)) in
      elim (Bool-cases (some_held (s.next_barrier_time + s.barrier_interval) s.cores)) [
        | inl now ↦ rw (step, now) (gives (finished-IsRelease (suc m) s some_steps now))
        | inr not_yet ↦
            rw (step, not_yet)
              (Returns-map
                (loop-releases m f (ticked s) (ticked-disable s ∙ enabled)
                  (several s m not_yet held) (omega (arith, enough)) (rw (later s m) fits)
                  (ap₂ some_held (later s m) (ticked-cores s not_yet) ∙ held))
                (λ r. IsRelease-ticked m s r not_yet))
      ]

-- The server at the first round of the release: in fast-forward mode the time of the barrier is the latest clock.
unfoldable pub starting : Server → Server
starting s = record s {
  next_barrier_time =
      if s.fastforward then skip s.cores s.next_barrier_time else s.next_barrier_time;
}

-- When the barrier is not disabled, nobody is still to be released, the periodic hooks leave what the barrier reads,
-- a core that is held is before the time of the barrier within `n` intervals of where the release starts, the time
-- does not overflow until then, and there is fuel for `n` rounds: the release returns; the time of the barrier
-- has advanced by the fewest intervals, at least one, at which a core that is held is before it; of the cores,
-- exactly those that were held before it are held no more; and the caller waits unless one of these has its thread.
pub barrier_release_lem :
    (w : World) (n fuel caller : ℕ) (s : Server)
    → IsQuiet w
    → s.disable ≡ false
    → s.to_release ≡ []
    → 0 < n
    → n ≤ fuel
    → (starting s).next_barrier_time + n * s.barrier_interval < u64
    → some_held ((starting s).next_barrier_time + n * s.barrier_interval) s.cores ≡ true
    → Returns (IsRelease caller n (starting s)) (barrier_release w fuel s caller false)
unfolding barrier_release starting check ◌>>◌ ◌>>=◌
barrier_release_lem w n fuel caller s quiet enabled nobody some_steps enough fits held =
    rw (ap is_nil nobody)
      (loop-releases w quiet caller n fuel (starting s) enabled some_steps enough fits held)
