-- ===== src/Clock/Arrival.antt =====
-- A thread that arrives at the barrier (`synchronize` of system/barrier_sync_server.cc), outside fast-forward mode.
use snipersimcommon.Base.{
  ℕ, zero, suc, ◌+◌, ◌*◌, ◌<◌, ◌≤◌, ◌≡◌, refl, ◌∙◌, ap, Bool, true, false, not, ◌&&◌, some, List,
  [], ◌∷◌, map, set, get_elem?, ltb, Bool-cases, inl, inr, arith, u64, if◌then◌else◌,
}
use snipersimcommon.Run.{Run, Ensures, returns, Ensures-bind, Ensures-check, Ensures-from}
use snipersimcommon.Clock.Barrier.{
  CoreClock, Server, World, barrier_enter, do_release, barrier_release, synchronize, enter, leaving,
  is_barrier_reached, master_of,
}
use snipersimcommon.Clock.Release.{IsQuiet, IsRelease, loop-releases}
use snipersimcommon.Clock.Held.{held_before, some_held, leave}
use snipersimcommon.Run.{Returns, gives}

leave-unheld : (time : ℕ) (c : CoreClock) → held_before time (leave time c) ≡ false
leave-unheld time c = elim (Bool-cases (held_before time c)) [
  | inl held ↦ rw held (ground arith)
  | inr free ↦ rw free free
]

map-leave-unheld : (time : ℕ) (cs : List CoreClock) → some_held time (map (leave time) cs) ≡ false
map-leave-unheld time [] = refl
map-leave-unheld time (c ∷ cs) = rw (leave-unheld time c) (map-leave-unheld time cs)

set-unheld :
    (time i : ℕ) (cs : List CoreClock) (c : CoreClock)
    → some_held time cs ≡ false
    → held_before time c ≡ false
    → some_held time (set cs i c) ≡ false
set-unheld time i [] c all one = refl
set-unheld time zero (d ∷ cs) c all one = ground (arith, all, one)
set-unheld time (suc i) (d ∷ cs) c all one =
    ground (arith, all, set-unheld time i cs c (ground (arith, all)) one)

set-held :
    (time i : ℕ) (cs : List CoreClock) (old c : CoreClock)
    → get_elem? cs i ≡ some old
    → held_before time c ≡ true
    → some_held time (set cs i c) ≡ true
set-held time i [] old c there one = ground (arith, there)
set-held time zero (d ∷ cs) old c there one = rw one refl
set-held time (suc i) (d ∷ cs) old c there one =
    rw (set-held time i cs old c there one) (ground arith)

Returns-Ensures {ℓ} :
    {A : Type ℓ} {P Q : A → Type 0} {m : Run A} → Returns P m → ((a : A) → P a → Q a) → Ensures Q m
Returns-Ensures (gives {a} p) f = returns (f a p)

-- No core is held whose clock is before the time of the barrier.
abbrev pub NoneBehind : Server × Bool → Type 0
NoneBehind r = some_held r.0.next_barrier_time r.0.cores ≡ false

IsRelease-NoneBehind :
    (caller n : ℕ) (s : Server) (r : Server × Bool) → IsRelease caller n s r → NoneBehind r
IsRelease-NoneBehind caller n s r i =
    ap (some_held r.0.next_barrier_time) i.cores ∙ map-leave-unheld r.0.next_barrier_time s.cores

release-NoneBehind :
    (w : World) (n fuel caller : ℕ) (s : Server)
    → IsQuiet w
    → s.disable ≡ false
    → s.fastforward ≡ false
    → 0 < n
    → n ≤ fuel
    → s.next_barrier_time + n * s.barrier_interval < u64
    → some_held (s.next_barrier_time + n * s.barrier_interval) s.cores ≡ true
    → Ensures NoneBehind (barrier_release w fuel s caller false)
unfolding barrier_release
release-NoneBehind w n fuel caller s quiet enabled detailed some_steps enough fits held =
    Ensures-check (λ nobody. rw detailed (
      Returns-Ensures
        (loop-releases w quiet caller n fuel (record s { fastforward = false }) enabled some_steps
          enough fits held)
        (IsRelease-NoneBehind caller n (record s { fastforward = false }))))

Ensures-if {ℓ} :
    {A : Type ℓ} {P : A → Type 0} {x y : Run A} (b : Bool)
    → Ensures P x
    → Ensures P y
    → Ensures P (if b then x else y)
Ensures-if true h k = h
Ensures-if false h k = k

leaving-NoneBehind : (core : ℕ) (r : Server × Bool) → NoneBehind r → NoneBehind (leaving core r)
leaving-NoneBehind core (s, true) h = h
leaving-NoneBehind core (s, false) h = h

module _ (w : World) (quiet : IsQuiet w) (n fuel : ℕ) (some_steps : 0 < n) (enough : n ≤ fuel) where
  enter-NoneBehind :
      (s : Server) (core time master : ℕ) (c : CoreClock)
      → s.disable ≡ false
      → s.fastforward ≡ false
      → s.next_barrier_time + n * s.barrier_interval < u64
      → time < s.next_barrier_time + n * s.barrier_interval
      → s.next_barrier_time ≤ time
      → get_elem? s.cores master ≡ some c
      → some_held s.next_barrier_time s.cores ≡ false
      → Ensures NoneBehind (enter w fuel s core master time c)
  unfolding enter do_release
  enter-NoneBehind s core time master c enabled detailed fits soon late there ahead =
      let t = do_release (some 1) s in
      let now = record c { local_clock = time; acquired = true; thread = w.core_thread core } in
      let entered = record t {
        cores = set t.cores master now;
        events = barrier_enter core ∷ t.events;
      } in
      Ensures-if (is_barrier_reached w entered)
        (Ensures-bind
          (release-NoneBehind w n fuel (w.core_thread core) entered quiet enabled detailed
            some_steps enough fits
            (set-held (s.next_barrier_time + n * s.barrier_interval) master s.cores c now there
              (ground (arith, soon))))
          (λ r h. returns (leaving-NoneBehind core r h)))
        (returns (set-unheld s.next_barrier_time master s.cores now ahead (ground (arith, late))))

  -- Outside fast-forward mode, with periodic hooks that leave what the barrier reads, when the time at which a
  -- thread arrives is less than `n` intervals after the time of the barrier, that does not overflow until
  -- then, and there is fuel for `n` rounds: if no core is held that is before the time of the barrier, then this
  -- is also so after the call, unless the call aborts, and the call does not spend its fuel.
  pub synchronize-NoneBehind :
      (s : Server) (core time : ℕ)
      → s.fastforward ≡ false
      → s.next_barrier_time + n * s.barrier_interval < u64
      → time < s.next_barrier_time + n * s.barrier_interval
      → some_held s.next_barrier_time s.cores ≡ false
      → Ensures NoneBehind (synchronize w fuel s core time)
  unfolding synchronize
  synchronize-NoneBehind s core time detailed fits soon ahead = elim (Bool-cases s.disable) [
    | inl off ↦ rw off (returns ahead)
    | inr enabled ↦ rw enabled (
        Ensures-bind (Ensures-from (get_elem? s.cores core)) (λ mine here.
          Ensures-bind (Ensures-from (get_elem? s.cores (master_of s core mine))) (λ c there.
            Ensures-check (λ ready. Ensures-check (λ free.
              elim (Bool-cases (ltb time s.next_barrier_time && not s.fastforward)) [
                | inl early ↦ rw early (returns ahead)
                | inr late ↦ rw late (
                    enter-NoneBehind (record s { disable = false }) core time
                      (master_of s core mine) c refl detailed fits soon
                      (ground (arith, late, detailed)) there ahead)
              ])))))
  ]
