-- ===== src/Sync/Server/Waits.antt =====
-- How often a thread is in the queues of a server, and how the writes change that.
use snipersimcommon.Base.{
  ℕ, zero, suc, ◌+◌, ◌≡◌, Bool, true, false, some, List, [], ◌∷◌, ◌++◌, arith, Option-cases, inl,
  inr, of_some, get_elem?, set,
}
use snipersimcommon.Sync.Event.{one_if, occurrences}
use snipersimcommon.Sync.Mutex.{SimMutex}
use snipersimcommon.Sync.Table.{find, total, measured, total-put}
use snipersimcommon.Sync.Barrier.{SimBarrier}
use snipersimcommon.Sync.Server.{SimCond, SyncServer, get_mutex, get_cond, put_mutex, put_cond}

-- How often a thread is in the queue of a condition, and of the barriers.
unfoldable pub in_cond : ℕ → SimCond → ℕ
in_cond x [] = 0
in_cond x (w ∷ ws) = one_if x w.thread_id + in_cond x ws

unfoldable pub in_barriers : ℕ → List SimBarrier → ℕ
unfolding occurrences
in_barriers x [] = 0
in_barriers x (b ∷ bs) = occurrences x b.waiting + in_barriers x bs

abbrev pub in_mutex : ℕ → SimMutex → ℕ
unfolding occurrences
in_mutex x m = occurrences x m.waiting

-- How often a thread is in a queue of the server.
unfoldable pub waits : ℕ → SyncServer → ℕ
unfolding total in_cond in_barriers
waits x s = total (in_mutex x) s.mutexes + (total (in_cond x) s.conds + in_barriers x s.barriers)

pub in_cond-append : (x : ℕ) (c d : SimCond) → in_cond x (c ++ d) ≡ in_cond x c + in_cond x d
unfolding in_cond
in_cond-append x [] d = omega arith
in_cond-append x (w ∷ ws) d = omega (arith, in_cond-append x ws d)

pub in_barriers-append :
    (x : ℕ) (bs cs : List SimBarrier)
    → in_barriers x (bs ++ cs) ≡ in_barriers x bs + in_barriers x cs
unfolding in_barriers
in_barriers-append x [] cs = omega arith
in_barriers-append x (b ∷ bs) cs = omega (arith, in_barriers-append x bs cs)

pub in_barriers-set :
    (x : ℕ) (bs : List SimBarrier) (i : ℕ) (b n : SimBarrier)
    → get_elem? bs i ≡ some b
    → in_barriers x (set bs i n) + occurrences x b.waiting
      ≡ in_barriers x bs + occurrences x n.waiting
unfolding in_barriers
in_barriers-set x [] i b n e = absurd (ground arith)
in_barriers-set x (c ∷ bs) zero b n e = let same = of_some e in rw same (omega arith)
in_barriers-set x (c ∷ bs) (suc i) b n e = omega (arith, in_barriers-set x bs i b n e)

-- A mutex that was got counts for what the map has in its place.
pub got_mutex :
    (x : ℕ) (s : SyncServer) (mux : ℕ) (create : Bool) (m : SimMutex)
    → get_mutex s mux create ≡ some m
    → measured (in_mutex x) (find mux s.mutexes) ≡ occurrences x m.waiting
unfolding get_mutex measured occurrences
got_mutex x s mux true m e = elim (Option-cases (find mux s.mutexes)) [
  | inl missing ↦ ground (arith, e, missing)
  | inr (d, there) ↦ ground (arith, e, there)
]
got_mutex x s mux false m e = rw e

-- A mutex put back in the place of one that was got: what waits changes by what waits at it.
pub put_mutex-waits :
    (x : ℕ) (s : SyncServer) (mux : ℕ) (create : Bool) (m n : SimMutex)
    → get_mutex s mux create ≡ some m
    → waits x (put_mutex s mux n) + occurrences x m.waiting ≡ waits x s + occurrences x n.waiting
unfolding waits put_mutex
put_mutex-waits x s mux create m n e =
    omega (arith, total-put (in_mutex x) mux n s.mutexes, got_mutex x s mux create m e)

pub got_cond :
    (x : ℕ) (s : SyncServer) (cond : ℕ)
    → measured (in_cond x) (find cond s.conds) ≡ in_cond x (get_cond s cond)
unfolding get_cond measured in_cond
got_cond x s cond = elim (Option-cases (find cond s.conds)) [
  | inl missing ↦ ground (arith, missing)
  | inr (d, there) ↦ ground (arith, there)
]

pub put_cond-waits :
    (x : ℕ) (s : SyncServer) (cond : ℕ) (c : SimCond)
    → waits x (put_cond s cond c) + in_cond x (get_cond s cond) ≡ waits x s + in_cond x c
unfolding waits put_cond
put_cond-waits x s cond c = omega (arith, total-put (in_cond x) cond c s.conds, got_cond x s cond)
