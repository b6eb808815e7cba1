-- ===== src/Perf/Contention/Start.antt =====
-- When a request starts: the loops of `getStartTime` and `getCompletionTime` agree, and find the earliest slot.
use snipersimcommon.Base.{
  ℕ, zero, suc, ◌+◌, ◌-◌, ◌%◌, ◌≤◌, ◌<◌, ◌≡◌, ◌≢◌, ◌⊎◌, ◌↔◌, inl, inr, refl, List, [], ◌∷◌, length,
  set, ltb, leb, u64, arith, Bool-cases, ℕ_discrete, dec_lt,
}
use snipersimcommon.Perf.Contention.{
  ContentionModel, time_at, used_from, get_num_used, find_unit, begin_at, serve,
  get_completion_time, peek_from, get_start_time, compute_queue_delay,
}

-- None of the first `i` slots is free, and `unit` is the one of them that is free first.
record Best (time : List (ℕ × ℕ)) (t i unit : ℕ) : Type 0 where
  inside : (i + unit ≡ 0) ⊎ (unit < i)
  busy : (j : ℕ) → j < i → t < time_at time j
  least : (j : ℕ) → j < i → time_at time unit ≤ time_at time j

-- The slot at which a request of this time can start first, of the first `n`.
pub record IsEarliest (time : List (ℕ × ℕ)) (t n unit : ℕ) : Type 0 where
  pub below : unit < n
  pub first : (j : ℕ) → j < n → begin_at time t unit ≤ begin_at time t j

step-Best :
    (time : List (ℕ × ℕ)) (t i unit next : ℕ)
    → Best time t i unit
    → t < time_at time i
    → ((next ≡ i) × (time_at time i < time_at time unit))
      ⊎ ((next ≡ unit) × (time_at time unit ≤ time_at time i))
    → Best time t (i + 1) next
step-Best time t i unit next b late which = record {
  inside = inr (elim b.inside [ inl e ↦ ground arith | inr e ↦ ground arith ]);
  busy =
      λ j lt. elim (ℕ_discrete j i) [ yes same ↦ rw same late | no other ↦ b.busy j (omega arith) ];
  least = λ j lt. elim (ℕ_discrete j i) [
    | yes same ↦ rw same (elim which [ inl (n, c) ↦ rw n (omega arith) | inr (n, c) ↦ rw n c ])
    | no other ↦
        let held = b.least j (omega arith) in
        elim which [ inl (n, c) ↦ rw n (omega arith) | inr (n, c) ↦ rw n held ]
  ];
}

widen :
    (time : List (ℕ × ℕ)) (t i n unit : ℕ)
    → IsEarliest time t (i + 1 + n) unit
    → IsEarliest time t (i + suc n) unit
widen time t i n unit e = record {
  below = omega (arith, e.below);
  first = λ j lt. e.first j (omega arith);
}

find_unit-IsEarliest :
    (time : List (ℕ × ℕ)) (t n i unit : ℕ)
    → Best time t i unit
    → 0 < i + n
    → IsEarliest time t (i + n) (find_unit time t n i unit)
unfolding find_unit
find_unit-IsEarliest time t zero i unit b pos = record {
  below = elim b.inside [ inl e ↦ absurd (omega arith) | inr e ↦ omega arith ];
  first = λ j lt. ground (arith, b.least j (omega arith), b.busy j (omega arith));
}
find_unit-IsEarliest time t (suc n) i unit b pos = elim (Bool-cases (leb (time_at time i) t)) [
  | inl free ↦ rw free (record { below = omega arith; first = λ j lt. ground arith })
  | inr late ↦ elim (Bool-cases (ltb (time_at time i) (time_at time unit))) [
    | inl sooner ↦
        rw (late, sooner)
          (widen time t i n _ (
            find_unit-IsEarliest time t n (i + 1) i
              (step-Best time t i unit i b (ground arith) (inl (refl, ground arith)))
              (omega arith)))
    | inr later ↦
        rw (late, later)
          (widen time t i n _ (
            find_unit-IsEarliest time t n (i + 1) unit
              (step-Best time t i unit unit b (ground arith) (inr (refl, ground arith)))
              (omega arith)))
  ]
]

-- The peeking loop gives the start at the unit that the other loop finds.
peek_lem :
    (time : List (ℕ × ℕ)) (t n i unit : ℕ)
    → peek_from time t n i unit ≡ begin_at time t (find_unit time t n i unit)
unfolding peek_from find_unit
peek_lem time t zero i unit = refl
peek_lem time t (suc n) i unit =
    ground (arith, peek_lem time t n (i + 1) i, peek_lem time t n (i + 1) unit)

from_start :
    (time : List (ℕ × ℕ)) (t n unit : ℕ) → IsEarliest time t (0 + n) unit → IsEarliest time t n unit
from_start time t n unit e = record {
  below = omega (arith, e.below);
  first = λ j lt. e.first j (omega arith);
}

-- A model with a slot, and an array of the length that it was made with.
pub record IsModel (c : ContentionModel) : Type 0 where
  pub some_slot : 0 < c.num_outstanding
  pub long : length c.time ≡ c.num_outstanding

-- The unit that serves a request in order.
unfoldable pub unit_of : ContentionModel → ℕ → ℕ
unfolding find_unit
unit_of c t = find_unit c.time t c.num_outstanding 0 0

unit_of-IsEarliest :
    (c : ContentionModel) (t : ℕ) → IsModel c → IsEarliest c.time t c.num_outstanding (unit_of c t)
unfolding unit_of
unit_of-IsEarliest c t ok = from_start c.time t c.num_outstanding _ (
    find_unit-IsEarliest c.time t c.num_outstanding 0 0
      (record {
        inside = inl (omega arith);
        busy = λ j lt. absurd (omega arith);
        least = λ j lt. absurd (omega arith);
      })
      (omega (arith, ok.some_slot)))

served :
    (c : ContentionModel) (t_start t_delay tag : ℕ)
    → IsModel c
    → t_start ≢ 0
    → c.t_last ≤ t_start
    → get_completion_time c t_start t_delay tag ≡ serve c t_start t_delay tag (unit_of c t_start)
unfolding get_completion_time unit_of
served c t_start t_delay tag ok later in_order = ground (arith, ok.some_slot)

-- A request in order, at a time that is not 0, of a model with slots is served by a slot at which it can start
-- first: it starts when that slot is free, or at once, as `getStartTime` tells; it ends its delay later, on 64
-- bits; of the slots only that one changes, to the end and the tag of the request; the time of the last request
-- becomes its start, and the total delay grows by its wait.
pub served_at-IsEarliest :
    (c : ContentionModel) (t_start t_delay tag : ℕ)
    → IsModel c
    → t_start ≢ 0
    → c.t_last ≤ t_start
    → let (after, t_end) = get_completion_time c t_start t_delay tag in
      (unit : ℕ) × IsEarliest c.time t_start c.num_outstanding unit
      × (get_start_time c t_start ≡ begin_at c.time t_start unit)
      × (t_end ≡ (begin_at c.time t_start unit + t_delay) % u64)
      × (after.time ≡ set c.time unit (t_end, tag))
      × (after.t_last ≡ t_start)
      × (after.total_delay ≡ (c.total_delay + (begin_at c.time t_start unit - t_start)) % u64)
unfolding get_start_time unit_of
served_at-IsEarliest c t_start t_delay tag ok later in_order =
    let e = served c t_start t_delay tag ok later in_order in
    (
      unit_of c t_start,
      unit_of-IsEarliest c t_start ok,
      ground (arith, ok.some_slot, peek_lem c.time t_start c.num_outstanding 0 0),
      rw e refl,
      rw e refl,
      rw e refl,
      rw e refl,
    )

-- What a caller peeks is what it gets: a request completes its delay after the start time that
-- `getStartTime` gives, in order, out of order and with no slots at all.
pub get_completion_time-get_start_time :
    (c : ContentionModel) (t_start t_delay tag : ℕ)
    → t_start ≢ 0
    → (get_completion_time c t_start t_delay tag).1 ≡ (get_start_time c t_start + t_delay) % u64
unfolding get_completion_time get_start_time
get_completion_time-get_start_time c t_start t_delay tag later =
    ground (arith, peek_lem c.time t_start c.num_outstanding 0 0)

start_forward : (c : ContentionModel) (t : ℕ) → t ≤ get_start_time c t
unfolding get_start_time
start_forward c t = ground (arith, peek_lem c.time t c.num_outstanding 0 0)

-- The delay in the queue is the time until the request starts.
pub queue_delay_lem :
    (c : ContentionModel) (pkt_time processing_time : ℕ)
    → pkt_time ≢ 0
    → get_start_time c pkt_time + processing_time < u64
    → (compute_queue_delay c pkt_time processing_time).1 ≡ get_start_time c pkt_time - pkt_time
unfolding compute_queue_delay
queue_delay_lem c pkt_time processing_time later fits = omega (
  arith,
  start_forward c pkt_time,
  get_completion_time-get_start_time c pkt_time processing_time 0 later,
)

at_each :
    (u tag : ℕ) (rest : List (ℕ × ℕ)) (t : ℕ)
    → t < u
    → ((j : ℕ) → j < length rest → t < time_at rest j)
    → (j : ℕ) → j < length ((u, tag) ∷ rest)
    → t < time_at ((u, tag) ∷ rest) j
at_each u tag rest t here there zero lt = here
at_each u tag rest t here there (suc j) lt = there j (omega arith)

started :
    (c : ContentionModel) (t : ℕ)
    → IsModel c
    → c.t_last ≤ t
    → get_start_time c t ≡ begin_at c.time t (unit_of c t)
unfolding get_start_time unit_of
started c t ok in_order = ground (arith, ok.some_slot, peek_lem c.time t c.num_outstanding 0 0)

-- The slots in use at a time, counted with the array.
used_all :
    (time : List (ℕ × ℕ)) (t : ℕ)
    → (used_from time t ≤ length time)
      × ((used_from time t ≡ length time) → (j : ℕ) → j < length time → t < time_at time j)
unfolding used_from
used_all [] t = (omega arith, λ e j lt. absurd (omega arith))
used_all ((u, tag) ∷ rest) t =
    let (few, full) = used_all rest t in
    (ground arith, λ e. at_each u tag rest t (ground arith) (full (ground arith)))

used_some :
    (time : List (ℕ × ℕ)) (t : ℕ)
    → used_from time t < length time
    → (j : ℕ) × (j < length time) × (time_at time j ≤ t)
unfolding used_from
used_some [] t h = absurd (omega arith)
used_some ((u, tag) ∷ rest) t h = elim (dec_lt t u) [
  | yes busy ↦ let (j, lt, free) = used_some rest t (ground arith) in (suc j, omega arith, free)
  | no free ↦ (0, omega arith, omega arith)
]

-- A request in order has to wait exactly when all slots are in use at its time.
pub waits_only_when_full :
    (c : ContentionModel) (t : ℕ)
    → IsModel c
    → c.t_last ≤ t
    → (get_start_time c t ≡ t) ↔ (get_num_used c t < c.num_outstanding)
unfolding get_num_used unit_of
waits_only_when_full c t ok in_order =
    let u = unit_of-IsEarliest c t ok in
    let start : get_start_time c t ≡ begin_at c.time t (unit_of c t) = started c t ok in_order in
    let (few, full) = used_all c.time t in
    (
      λ at_once. elim (dec_lt (get_num_used c t) c.num_outstanding) [
        | yes fewer ↦ fewer
        | no all ↦
            let late =
              full (omega (arith, ok.long)) (unit_of c t) (omega (arith, u.below, ok.long)) in
            absurd (ground arith)
      ],
      λ fewer.
          let (j, lt, free) = used_some c.time t (omega (arith, ok.long)) in
          let soon = u.first j (omega (arith, ok.long)) in ground arith,
    )
