-- ===== src/Tests/Perf.antt =====
-- A circular queue of two elements, and a contention model of two slots.
use snipersimcommon.Base.{
  ℕ, zero, suc, ◌<◌, ◌≡◌, refl, some, [], ◌∷◌, ◌++◌, length, get_elem?, drop, arith, ◌==◌,
  if◌then◌else◌, ◌+◌, ◌-◌, ◌%◌, set, u64,
}
use snipersimcommon.Perf.CircularQueue.{CircularQueue, push, pop, push_circular, occupied, nth}
use snipersimcommon.Perf.CircularQueue.Fifo.{Holds, push-Holds, pop-Holds, push_circular-Holds}
use snipersimcommon.Perf.Contention.{ContentionModel, get_completion_time, get_start_time, begin_at}
use snipersimcommon.Perf.Contention.Start.{IsModel, IsEarliest, served_at-IsEarliest}

-- Room for two elements; the one held is at the end of the array.
abbrev wrapped : CircularQueue ℕ
wrapped = record { size = 3; first = 0; last = 2; queue = 5 ∷ 6 ∷ 7 ∷ [] }

wrapped-Holds : Holds wrapped (7 ∷ [])
unfolding occupied nth
wrapped-Holds = record {
  ok = record { first_in = omega arith; last_in = omega arith; fits = omega arith; long = refl };
  many = refl;
  each = at_zero;
}
  where
    at_zero : (k : ℕ) → k < 1 → nth wrapped k ≡ get_elem? (7 ∷ []) k
    at_zero zero h = refl
    at_zero (suc k) h = absurd (omega arith)

push-Holds_example :
    (r : CircularQueue ℕ) × (push wrapped 8 ≡ some r) × (r.size ≡ 3) × Holds r (7 ∷ 8 ∷ [])
push-Holds_example = push-Holds wrapped (7 ∷ []) 8 wrapped-Holds (omega arith)

pop-Holds_example : (r : CircularQueue ℕ) × (pop wrapped ≡ some (7, r)) × (r.size ≡ 3) × Holds r []
pop-Holds_example = pop-Holds wrapped 7 [] wrapped-Holds

push_circular-Holds_example :
    (r : CircularQueue ℕ) × (push_circular wrapped 8 ≡ some r)
    × Holds r (
        if suc (length {A = ℕ} (7 ∷ [])) == 3
        then drop 1 (7 ∷ []) ++ 8 ∷ []
        else (7 ∷ []) ++ 8 ∷ [])
push_circular-Holds_example = push_circular-Holds wrapped (7 ∷ []) 8 wrapped-Holds (omega arith)

-- Both slots are in use at time 10; the second is free first.
abbrev busy : ContentionModel
busy = record {
  num_outstanding = 2;
  time = (40, 0) ∷ (30, 0) ∷ [];
  t_last = 5;
  n_requests = 2;
  n_barriers = 0;
  n_outoforder = 0;
  n_simultaneous = 0;
  n_hasfreefail = 0;
  total_delay = 0;
  total_barrier_delay = 0;
}

busy-IsModel : IsModel busy
busy-IsModel = record { some_slot = omega arith; long = refl }

served_at-IsEarliest_example :
    let (after, t_end) = get_completion_time busy 10 7 3 in
    (unit : ℕ) × IsEarliest busy.time 10 2 unit
    × (get_start_time busy 10 ≡ begin_at busy.time 10 unit)
    × (t_end ≡ (begin_at busy.time 10 unit + 7) % u64)
    × (after.time ≡ set busy.time unit (t_end, 3))
    × (after.t_last ≡ 10)
    × (after.total_delay ≡ (0 + (begin_at busy.time 10 unit - 10)) % u64)
served_at-IsEarliest_example =
    served_at-IsEarliest busy 10 7 3 busy-IsModel (omega arith) (omega arith)
