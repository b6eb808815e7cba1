-- ===== src/Cache/Policy/Lru/Recent.antt =====
-- The LRU policy of cache_set_lru.cc against the recency list that its ages stand for.
use snipersimcommon.Base.{
  ℕ, ◌+◌, ◌-◌, ◌%◌, ◌≤◌, ◌<◌, ◌≡◌, refl, ap, ◌∙◌, ◌⊎◌, Bool, true, false, Option, none, some, List,
  [], ◌∷◌, arith, u64, ◌>>=◌, get_or, first_from-IsFirst, IsFirst,
}
use snipersimcommon.Cache.Block.{Block, Ways, block_at, is_invalid_way, is_valid_replacement}
use snipersimcommon.Cache.Policy.Recency.{Ranks, move_to_mru-Ranks, index_of, use_way}
use snipersimcommon.Cache.Policy.SetInfo.{
  SetInfo, Cntlr, Serves, increment_attempt_served, increment_lem, counted,
}
use snipersimcommon.Cache.Policy.Lru.{
  Lru, touch, oldest, attempts, first_invalid, get_replacement_index, update_replacement_index,
}
use snipersimcommon.Cache.Policy.Lru.Victim.{
  attempts-Evicts, attempts_last, scan_none, oldest-lt, oldest_best, oldest_valid,
}

-- The state of the policy of a set whose recency list is `order`.
pub record IsLru (w : Ways) (order : List ℕ) (s : Lru) : Type 0 where
  pub ranks : Ranks w.assoc s.lru_bits order
  pub nonempty : 0 < w.assoc
  pub some_attempts : 0 < s.num_attempts
  pub serves : Serves s.info s.num_attempts
  pub small : s.lookups < u64
  pub counters : s.info.assoc ≡ w.assoc

-- The state after an access to way `i`.
abbrev used : Lru → ℕ → Lru
used s i = touch (record s { info = counted s.info (get_or s.lru_bits i 0) }) i

module _ {w : Ways} {order : List ℕ} {s : Lru} (v : IsLru w order s) where
  update_lem : (i : ℕ) → i < w.assoc → update_replacement_index s i ≡ some (used s i)
  unfolding update_replacement_index
  update_lem i h = rw (
      increment_lem s.info (get_or s.lru_bits i 0)
        (omega (arith, v.counters, v.ranks.rank i h, v.ranks.member i h)))

  used-IsLru : (i : ℕ) → i < w.assoc → IsLru w (use_way order i) (used s i)
  used-IsLru i h = record {
    ranks = move_to_mru-Ranks i h v.ranks;
    nonempty = v.nonempty;
    some_attempts = v.some_attempts;
    serves = v.serves;
    small = v.small;
    counters = v.counters;
  }

-- The accesses of a trace, in turn.
unfoldable pub accesses : Lru → List ℕ → Option Lru
accesses s [] = some s
accesses s (i ∷ trace) = do t ← update_replacement_index s i; accesses t trace

unfoldable pub uses : List ℕ → List ℕ → List ℕ
uses order [] = order
uses order (i ∷ trace) = uses (use_way order i) trace

abbrev pub InRange : ℕ → List ℕ → Type 0
InRange n [] = Unit {0}
InRange n (i ∷ trace) = (i < n) × InRange n trace

-- Any trace of accesses to ways of the set runs without an abort, and leaves the ages equal to the
-- positions of the ways in the recency list of that trace.
pub accesses_refine :
    (w : Ways) (order : List ℕ) (s : Lru) (trace : List ℕ)
    → IsLru w order s
    → InRange w.assoc trace
    → (t : Lru) × (accesses s trace ≡ some t) × IsLru w (uses order trace) t
unfolding accesses uses
accesses_refine w order s [] v h = (s, refl, v)
accesses_refine w order s (i ∷ trace) v h =
    let (t, e, vt) =
      accesses_refine w (use_way order i) (used s i) trace (used-IsLru v i h.0) h.1 in
    (t, rw (update_lem v i h.0) e, vt)

module _ (cntlr : Cntlr) {w : Ways} {order : List ℕ} {s : Lru} (v : IsLru w order s) where
  -- With one attempt, a full set evicts the oldest way.
  plain_lem :
      s.num_attempts ≡ 1
      → first_invalid w ≡ none
      → (info : SetInfo) × (get_replacement_index cntlr w s
          ≡ some (oldest w s.lru_bits, record (touch s (oldest w s.lru_bits)) { info = info }))
  unfolding get_replacement_index
  plain_lem one full =
      let (info, counts) =
        increment_attempt_served s.info 0 s.num_attempts (omega (arith, v.some_attempts))
          v.serves in
      (
        info,
        rw full (
            ap (λ n. attempts cntlr w n 0 s) one
            ∙ attempts_last cntlr w 0 0 s info v.nonempty counts (ground arith)),
      )

-- A full set, plain LRU: with a replaceable line that is not the most recent one, the victim is the
-- least recently used of the replaceable lines, and it becomes the most recent.
pub evicts_least_recent :
    (cntlr : Cntlr) (w : Ways) (order : List ℕ) (s : Lru) (c : ℕ)
    → IsLru w order s
    → s.num_attempts ≡ 1
    → first_invalid w ≡ none
    → c < w.assoc
    → is_valid_replacement w c ≡ true
    → 0 < index_of c order
    → (i : ℕ) × (t : Lru) × (get_replacement_index cntlr w s ≡ some (i, t))
      × (is_valid_replacement w i ≡ true)
      × ((j : ℕ)
          → j < w.assoc
          → is_valid_replacement w j ≡ true
          → index_of j order ≤ index_of i order)
      × Ranks w.assoc t.lru_bits (use_way order i)
evicts_least_recent cntlr w order s c v one full hc cand older =
    let (info, e) = plain_lem cntlr v one full in
    (
      oldest w s.lru_bits,
      record (touch s (oldest w s.lru_bits)) { info = info },
      e,
      oldest_valid w s.lru_bits c hc cand (omega (arith, v.ranks.rank c hc)),
      (λ j hj candidate. omega (
        arith,
        oldest_best w s.lru_bits j hj candidate,
        v.ranks.rank j hj,
        v.ranks.rank (oldest w s.lru_bits) (oldest-lt w s.lru_bits v.nonempty),
      )),
      move_to_mru-Ranks (oldest w s.lru_bits) (oldest-lt w s.lru_bits v.nonempty) v.ranks,
    )

-- Query-based selection on a full set always finds a way, and keeps the ages a ranking. The line
-- that it evicts is not in a lower-level cache, unless every query allowed was answered yes.
pub qbs_evicts :
    (f : Block → Bool) (w : Ways) (order : List ℕ) (s : Lru)
    → IsLru w order s
    → first_invalid w ≡ none
    → (i : ℕ) × (t : Lru) × (later : List ℕ) × (get_replacement_index (some f) w s ≡ some (i, t))
      × (i < w.assoc)
      × Ranks w.assoc t.lru_bits later
      × ((f (block_at w i) ≡ false) ⊎ (t.lookups ≡ (s.lookups + (s.num_attempts - 1)) % u64))
unfolding get_replacement_index
qbs_evicts f w order s v full =
    let e =
      attempts-Evicts f w s.num_attempts 0 s order v.nonempty v.some_attempts (omega arith) v.small
        v.serves v.ranks in
    (e.way, e.after, e.order, rw full e.returns, e.in_range, e.ranks, e.cause)

-- A set with an invalid line: the first one is taken and becomes the most recent.
pub fills_first_invalid :
    (cntlr : Cntlr) (w : Ways) (order : List ℕ) (s : Lru) (i : ℕ)
    → IsLru w order s
    → first_invalid w ≡ some i
    → (get_replacement_index cntlr w s ≡ some (i, touch s i))
      × IsFirst 0 w.assoc (is_invalid_way w) i
      × IsLru w (use_way order i) (touch s i)
unfolding get_replacement_index
fills_first_invalid cntlr w order s i v e =
    let f = first_from-IsFirst w.assoc 0 (is_invalid_way w) e in
    (
      rw e,
      f,
      record {
        ranks = move_to_mru-Ranks i (omega (arith, f.below)) v.ranks;
        nonempty = v.nonempty;
        some_attempts = v.some_attempts;
        serves = v.serves;
        small = v.small;
        counters = v.counters;
      },
    )

-- A full set in which no line may be replaced: way 0 is evicted all the same.
pub evicts_upgrading :
    (cntlr : Cntlr) (w : Ways) (order : List ℕ) (s : Lru)
    → IsLru w order s
    → s.num_attempts ≡ 1
    → first_invalid w ≡ none
    → ((j : ℕ) → j < w.assoc → is_valid_replacement w j ≡ false)
    → (t : Lru) × (get_replacement_index cntlr w s ≡ some (0, t))
      × (is_valid_replacement w 0 ≡ false)
unfolding oldest
evicts_upgrading cntlr w order s v one full no_valid =
    let (info, e) = plain_lem cntlr v one full in
    let zeroth = scan_none w s.lru_bits w.assoc 0 0 0 (λ j lo hi. no_valid j (omega arith)) in
    (
      record (touch s 0) { info = info },
      e ∙ ap (λ i. some (i, record (touch s i) { info = info })) zeroth,
      no_valid 0 v.nonempty,
    )
