-- ===== src/Sync/Barrier.antt =====
-- `SimBarrier` of system/sync_server.{h,cc}.
use snipersimcommon.Base.{
  ℕ, suc, ◌+◌, ◌-◌, ◌%◌, ◌≤◌, ◌<◌, ◌≡◌, refl, List, [], ◌∷◌, ◌++◌, map, length, ◌==◌, if◌then◌else◌,
  arith, u32, length-append, length-map, append-nil, append_assoc,
}
use snipersimcommon.Sync.Event.{
  Event, stall, resume, stall_barrier, Outcome, at_time, after_resume, one_if, occurrences, stalls,
  resumes, occurrences-append,
}

pub record SimBarrier : Type 0 where
  pub waiting : List ℕ
  pub count : ℕ

-- The threads of a queue, resumed one after the other.
unfoldable pub resume_all : ℕ → ℕ → List ℕ → List Event
resume_all by time [] = []
resume_all by time (w ∷ ws) = resume w by time ∷ resume_all by time ws

-- `m_count - 1` is on 32 bits.
unfoldable pub wait : SimBarrier → ℕ → ℕ → SimBarrier × List Event × Outcome
unfolding resume_all
wait b thread time =
    if length b.waiting == (b.count + (u32 - 1)) % u32
    then (record b { waiting = [] }, resume_all thread time b.waiting, at_time time)
    else (
      record b { waiting = b.waiting ++ thread ∷ [] },
      stall thread stall_barrier time ∷ [],
      after_resume 0,
    )

pub resume_all-count :
    (x by time : ℕ) (ws : List ℕ)
    → (resumes x (resume_all by time ws) ≡ occurrences x ws)
      × (stalls x (resume_all by time ws) ≡ 0)
unfolding resume_all resumes stalls occurrences
resume_all-count x by time [] = (refl, refl)
resume_all-count x by time (w ∷ ws) =
    (ground (arith, (resume_all-count x by time ws).0), (resume_all-count x by time ws).1)

pub wait-count :
    (x : ℕ) (b : SimBarrier) (thread time : ℕ)
    → let (after, events, outcome) = wait b thread time in
      occurrences x after.waiting + resumes x events ≡ occurrences x b.waiting + stalls x events
unfolding wait occurrences stalls resumes
wait-count x b thread time = ground (
  arith,
  occurrences-append x b.waiting (thread ∷ []),
  (resume_all-count x thread time b.waiting).0,
  (resume_all-count x thread time b.waiting).1,
)

pub wait-stalls :
    (x : ℕ) (b : SimBarrier) (thread time : ℕ) → stalls x (wait b thread time).1 ≤ one_if x thread
unfolding wait stalls
wait-stalls x b thread time = ground (arith, (resume_all-count x thread time b.waiting).1)

-- Threads that come to the barrier one after the other, each at its time: the barrier after them, and all that they cause.
unfoldable pub arrive : SimBarrier → List (ℕ × ℕ) → SimBarrier × List Event
unfolding wait
arrive b [] = (b, [])
arrive b ((thread, time) ∷ rest) =
    let (next, events, outcome) = wait b thread time in
    let (last, more) = arrive next rest in (last, events ++ more)

abbrev pub stalling : ℕ × ℕ → Event
stalling (thread, time) = stall thread stall_barrier time

-- A thread of the round is resumed by another one, at the time of that one.
abbrev pub resuming : ℕ → ℕ → ℕ × ℕ → Event
resuming by time (thread, came) = resume thread by time

resume_all-map :
    (by time : ℕ) (ts : List (ℕ × ℕ))
    → resume_all by time (map (λ t. t.0) ts) ≡ map (resuming by time) ts
unfolding resume_all
resume_all-map by time [] = refl
resume_all-map by time (t ∷ ts) = rw (resume_all-map by time ts) refl

-- A barrier that waits for at least one thread, with room for it on 32 bits, and some threads still to come.
pub record IsBarrier (b : SimBarrier) : Type 0 where
  pub pos : 0 < b.count
  pub fits : b.count < u32
  pub open_ : length b.waiting < b.count

last_of : (b : SimBarrier) → IsBarrier b → (b.count + (u32 - 1)) % u32 ≡ b.count - 1
last_of b ok = ground (arith, ok.pos, ok.fits)

wait-early :
    (b : SimBarrier) (thread time : ℕ)
    → IsBarrier b
    → suc (length b.waiting) < b.count
    → wait b thread time ≡ (
      record b { waiting = b.waiting ++ thread ∷ [] },
      stall thread stall_barrier time ∷ [],
      after_resume 0,
    )
unfolding wait
wait-early b thread time ok few = ground (arith, last_of b ok)

-- As long as the barrier is not full, arrivals only stall, in order.
arrive_early :
    (b : SimBarrier) (ts : List (ℕ × ℕ))
    → IsBarrier b
    → length b.waiting + length ts < b.count
    → arrive b ts ≡ (record b { waiting = b.waiting ++ map (λ t. t.0) ts }, map stalling ts)
unfolding arrive
arrive_early b [] ok few = rw (append-nil b.waiting)
arrive_early b ((thread, time) ∷ rest) ok few =
    let next = record b { waiting = b.waiting ++ thread ∷ [] } in
    let grown = length-append b.waiting (thread ∷ []) in
    let ih =
      arrive_early next rest
        (record { pos = ok.pos; fits = ok.fits; open_ = omega (arith, grown, few) })
        (omega (arith, grown, few)) in
    rw (
      wait-early b thread time ok (omega arith),
      ih,
      append_assoc b.waiting (thread ∷ []) (map (λ t. t.0) rest),
    )

-- The arrival that fills the barrier goes on, resumes all who waited there in the order of their coming, and leaves the barrier empty.
wait-last :
    (b : SimBarrier) (thread time : ℕ)
    → IsBarrier b
    → suc (length b.waiting) ≡ b.count
    → wait b thread time
      ≡ (record b { waiting = [] }, resume_all thread time b.waiting, at_time time)
unfolding wait
wait-last b thread time ok full = ground (arith, last_of b ok)

append_arrive :
    (b : SimBarrier) (ts us : List (ℕ × ℕ))
    → arrive b (ts ++ us)
      ≡ ((arrive (arrive b ts).0 us).0, (arrive b ts).1 ++ (arrive (arrive b ts).0 us).1)
unfolding arrive
append_arrive b [] us = refl
append_arrive b ((thread, time) ∷ ts) us =
    let (next, events, outcome) = wait b thread time in
    rw (
      append_arrive next ts us,
      append_assoc events (arrive next ts).1 (arrive (arrive next ts).0 us).1,
    )

-- A whole round of an empty barrier: the first `count - 1` threads stall, each at its time and in their
-- order; the last one resumes exactly these, in the same order and at its own time, does not stall, and
-- leaves the barrier as it was, ready for the next round.
pub round_releases_all :
    (b : SimBarrier) (early : List (ℕ × ℕ)) (thread time : ℕ)
    → b.waiting ≡ []
    → suc (length early) ≡ b.count
    → b.count < u32
    → arrive b (early ++ (thread, time) ∷ [])
      ≡ (b, map stalling early ++ map (resuming thread time) early)
unfolding arrive
round_releases_all b early thread time empty full fits =
    let names = map (λ t. t.0) early in
    let first =
      arrive_early b early
        (record { pos = omega arith; fits = fits; open_ = rw empty (omega arith) })
        (rw empty (omega arith)) in
    let last =
      wait-last (record b { waiting = names }) thread time
        (record {
          pos = omega arith;
          fits = fits;
          open_ = rw (length-map early (λ t. t.0)) (omega arith);
        })
        (rw (length-map early (λ t. t.0)) (omega arith)) in
    rw (
      append_arrive b early ((thread, time) ∷ []),
      first,
      empty,
      last,
      append-nil (resume_all thread time names),
      resume_all-map thread time early,
    )
