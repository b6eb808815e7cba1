-- ===== src/Perf/Contention.antt =====
-- `ContentionModel` of performance_model/contention_model.{h,cc}, on `SubsecondTime` values of 64 bits, with
-- performance_model/queue_model_contention.cc, and performance_model/queue_model_basic.cc without a moving average.
pub mod Start
use snipersimcommon.Base.{
  ℕ, zero, suc, ◌+◌, ◌-◌, ◌%◌, ◌≤◌, ◌<◌, ◌≡◌, Bool, true, false, ◌||◌, Option, none, some, List, [],
  ◌∷◌, map, length, get_or, set, replicate, ◌==◌, ltb, leb, if◌then◌else◌, u32, u64, first_from,
}

pub record ContentionModel : Type 0 where
  pub num_outstanding : ℕ
  pub time : List (ℕ × ℕ)
  pub t_last : ℕ
  pub n_requests : ℕ
  pub n_barriers : ℕ
  pub n_outoforder : ℕ
  pub n_simultaneous : ℕ
  pub n_hasfreefail : ℕ
  pub total_delay : ℕ
  pub total_barrier_delay : ℕ

unfoldable pub create : ℕ → ContentionModel
create num_outstanding = record {
  num_outstanding = num_outstanding;
  time = replicate num_outstanding (0, 0);
  t_last = 0;
  n_requests = 0;
  n_barriers = 0;
  n_outoforder = 0;
  n_simultaneous = 0;
  n_hasfreefail = 0;
  total_delay = 0;
  total_barrier_delay = 0;
}

-- `m_time[i].first` and `m_time[i].second`.
abbrev pub time_at : List (ℕ × ℕ) → ℕ → ℕ
time_at time i = (get_or time i (0, 0)).0

abbrev pub tag_at : List (ℕ × ℕ) → ℕ → ℕ
tag_at time i = (get_or time i (0, 0)).1

unfoldable pub used_from : List (ℕ × ℕ) → ℕ → ℕ
used_from [] t_start = 0
used_from ((t, tag) ∷ rest) t_start = (if ltb t_start t then 1 else 0) + used_from rest t_start

unfoldable pub get_num_used : ContentionModel → ℕ → ℕ
unfolding used_from
get_num_used c t_start = used_from c.time t_start

-- `SubsecondTime::MaxTime()`.
abbrev pub max_time : ℕ
max_time = 18446744073709551615

unfoldable pub get_tag_completion_time : ContentionModel → ℕ → ℕ
get_tag_completion_time c tag =
    elim (first_from c.num_outstanding 0 (λ i. tag_at c.time i == tag)) [
      | none ↦ max_time
      | some i ↦ time_at c.time i
    ]

unfoldable pub has_tag : ContentionModel → ℕ → Bool
has_tag c tag = elim (first_from c.num_outstanding 0 (λ i. tag_at c.time i == tag)) [
  | none ↦ false
  | some i ↦ true
]

-- A slot that is free, or whose tag is already in process; a failure is counted.
unfoldable pub has_free_slot : ContentionModel → ℕ → ℕ → ContentionModel × Bool
has_free_slot c t_start tag =
    elim (first_from c.num_outstanding 0
      (λ i. leb (time_at c.time i) t_start || (tag_at c.time i == tag))) [
        | none ↦ (record c { n_hasfreefail = (c.n_hasfreefail + 1) % u64 }, false)
        | some i ↦ (c, true)
      ]

unfoldable pub latest : List (ℕ × ℕ) → ℕ → ℕ
latest [] t = t
latest ((u, tag) ∷ rest) t = latest rest (if ltb t u then u else t)

unfoldable pub get_barrier_completion_time : ContentionModel → ℕ → ℕ → ℕ → ContentionModel × ℕ
unfolding latest
get_barrier_completion_time c t_start t_delay tag =
    if c.num_outstanding == 0
    then (c, (t_start + t_delay) % u64)
    else let last = latest c.time t_start in
      (
        record c {
          time = replicate (length c.time) ((last + t_delay) % u64, tag);
          total_barrier_delay = (c.total_barrier_delay + (last - t_start)) % u64;
          n_barriers = (c.n_barriers + 1) % u64;
        },
        (last + t_delay) % u64,
      )

-- The loop that looks for the first free entry: entries from `i` on, `n` of them, the best so far.
unfoldable pub find_unit : List (ℕ × ℕ) → ℕ → ℕ → ℕ → ℕ → ℕ
find_unit time t_start zero i unit = unit
find_unit time t_start (suc n) i unit =
    let better = find_unit time t_start n (i + 1) i in
    let same = find_unit time t_start n (i + 1) unit in
    if leb (time_at time i) t_start
    then i
    else if ltb (time_at time i) (time_at time unit)
    then better
    else same

abbrev pub begin_at : List (ℕ × ℕ) → ℕ → ℕ → ℕ
begin_at time t_start unit = if ltb t_start (time_at time unit) then time_at time unit else t_start

-- A request that is served by the unit.
abbrev pub serve : ContentionModel → ℕ → ℕ → ℕ → ℕ → ContentionModel × ℕ
serve c t_start t_delay tag unit =
    let t_begin = begin_at c.time t_start unit in
    let t_end = (t_begin + t_delay) % u64 in
    (
      record c {
        time = set c.time unit (t_end, tag);
        total_delay = (c.total_delay + (t_begin - t_start)) % u64;
        t_last = t_start;
        n_simultaneous =
            if t_start == c.t_last then (c.n_simultaneous + 1) % u64 else c.n_simultaneous;
        n_requests = (c.n_requests + 1) % u64;
      },
      t_end,
    )

unfoldable pub get_completion_time : ContentionModel → ℕ → ℕ → ℕ → ContentionModel × ℕ
unfolding find_unit
get_completion_time c t_start t_delay tag =
    let counted = (c.n_requests + 1) % u64 in
    if c.num_outstanding == 0
    then (c, (t_start + t_delay) % u64)
    else if t_start == 0
    then (record c { n_requests = counted }, t_delay)
    else if ltb t_start c.t_last
    then (
      record c { n_outoforder = (c.n_outoforder + 1) % u64; n_requests = counted },
      (t_start + t_delay) % u64,
    )
    else serve c t_start t_delay tag (find_unit c.time t_start c.num_outstanding 0 0)

-- The loop of `getStartTime`, which returns at a free entry.
unfoldable pub peek_from : List (ℕ × ℕ) → ℕ → ℕ → ℕ → ℕ → ℕ
peek_from time t_start zero i unit = begin_at time t_start unit
peek_from time t_start (suc n) i unit =
    let better = peek_from time t_start n (i + 1) i in
    let same = peek_from time t_start n (i + 1) unit in
    if leb (time_at time i) t_start
    then t_start
    else if ltb (time_at time i) (time_at time unit)
    then better
    else same

unfoldable pub get_start_time : ContentionModel → ℕ → ℕ
unfolding peek_from
get_start_time c t_start =
    if c.num_outstanding == 0
    then t_start
    else if ltb t_start c.t_last
    then t_start
    else peek_from c.time t_start c.num_outstanding 0 0

-- `QueueModelContention::computeQueueDelay`.
unfoldable pub compute_queue_delay : ContentionModel → ℕ → ℕ → ContentionModel × ℕ
unfolding get_completion_time
compute_queue_delay c pkt_time processing_time =
    let (after, t_complete) = get_completion_time c pkt_time processing_time 0 in
    (after, (t_complete + (u64 - pkt_time) + (u64 - processing_time)) % u64)

-- `QueueModelBasic::computeQueueDelay`: the new queue time, and the delay.
unfoldable pub basic_queue_delay : ℕ → ℕ → ℕ → ℕ × ℕ
basic_queue_delay queue_time pkt_time processing_time = (
  ((if ltb queue_time pkt_time then pkt_time else queue_time) + processing_time) % u64,
  if ltb pkt_time queue_time then queue_time - pkt_time else 0,
)
