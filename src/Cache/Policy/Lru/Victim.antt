-- ===== src/Cache/Policy/Lru/Victim.antt =====
-- Which way the LRU policy of cache_set_lru.cc takes.
use snipersimcommon.Base.{
  ℕ, zero, suc, ◌+◌, ◌-◌, ◌%◌, ◌≤◌, ◌<◌, ◌≡◌, refl, ◌∙◌, ◌⊎◌, inl, inr, Bool, true, false, some,
  List, arith, ltb, get_or, u64, Bool-cases, ◌&&◌, lt→ltb,
}
use snipersimcommon.Cache.Block.{Block, Ways, block_at, is_valid_replacement}
use snipersimcommon.Cache.Policy.Recency.{Ranks, move_to_mru-Ranks, use_way}
use snipersimcommon.Cache.Policy.SetInfo.{
  SetInfo, Cntlr, Serves, increment_attempt, increment_attempt_served,
}
use snipersimcommon.Cache.Policy.Lru.{Lru, touch, scan, oldest, attempts}

-- The result `r` of a scan: no candidate beat the age at hand, or `r` is an oldest candidate.
module _ (w : Ways) (bits : List ℕ) where
  abbrev Bounded : ℕ → ℕ → ℕ → Type 0
  Bounded n i age =
      (j : ℕ) → i ≤ j → j < i + n → is_valid_replacement w j ≡ true → get_or bits j 0 ≤ age

  record Kept (n i index max_bits r : ℕ) : Type 0 where
    same : r ≡ index
    bound : Bounded n i max_bits

  record Picked (n i max_bits r : ℕ) : Type 0 where
    below : r < i + n
    candidate : is_valid_replacement w r ≡ true
    more : max_bits < get_or bits r 0
    bound : Bounded n i (get_or bits r 0)

  abbrev Scanned : ℕ → ℕ → ℕ → ℕ → ℕ → Type 0
  Scanned n i index max_bits r = Kept n i index max_bits r ⊎ Picked n i max_bits r

  better :
      (n i index max_bits r : ℕ)
      → (ltb max_bits (get_or bits i 0) && is_valid_replacement w i) ≡ true
      → Scanned n (i + 1) i (get_or bits i 0) r
      → Picked (suc n) i max_bits r
  better n i index max_bits r hit (inl k) = record {
    below = ground (arith, k.same);
    candidate = ground (arith, k.same);
    more = ground (arith, k.same);
    bound = λ j lo hi c. ground (arith, k.same, k.bound j);
  }
  better n i index max_bits r hit (inr p) = record {
    below = omega (arith, p.below);
    candidate = p.candidate;
    more = ground (arith, p.more);
    bound = λ j lo hi c. ground (arith, p.more, p.bound j);
  }

  worse :
      (n i index max_bits r : ℕ)
      → (ltb max_bits (get_or bits i 0) && is_valid_replacement w i) ≡ false
      → Scanned n (i + 1) index max_bits r
      → Scanned (suc n) i index max_bits r
  worse n i index max_bits r miss (inl k) =
      inl (record { same = k.same; bound = λ j lo hi c. ground (arith, k.bound j) })
  worse n i index max_bits r miss (inr p) = inr (record {
    below = omega (arith, p.below);
    candidate = p.candidate;
    more = p.more;
    bound = λ j lo hi c. ground (arith, p.more, p.bound j);
  })

  scan-Scanned :
      (n i index max_bits : ℕ) → Scanned n i index max_bits (scan w bits n i index max_bits)
  unfolding scan
  scan-Scanned zero i index max_bits =
      inl (record { same = refl; bound = λ j lo hi c. absurd (omega arith) })
  scan-Scanned (suc n) i index max_bits =
      elim (Bool-cases (ltb max_bits (get_or bits i 0) && is_valid_replacement w i)) [
        | inl hit ↦
            rw (hit, scan)
              (inr (better n i index max_bits _ hit (scan-Scanned n (i + 1) i (get_or bits i 0))))
        | inr miss ↦
            rw (miss, scan)
              (worse n i index max_bits _ miss (scan-Scanned n (i + 1) index max_bits))
      ]

  oldest-Scanned : Scanned w.assoc 0 0 0 (oldest w bits)
  unfolding oldest
  oldest-Scanned = scan-Scanned w.assoc 0 0 0

  -- The way chosen is in the set.
  pub oldest-lt : 0 < w.assoc → oldest w bits < w.assoc
  oldest-lt h = elim oldest-Scanned [
    | inl k ↦ omega (arith, k.same)
    | inr p ↦ omega (arith, p.below)
  ]

  -- No way that may be replaced is older.
  pub oldest_best :
      (j : ℕ)
      → j < w.assoc
      → is_valid_replacement w j ≡ true
      → get_or bits j 0 ≤ get_or bits (oldest w bits) 0
  oldest_best j h c = elim oldest-Scanned [
    | inl k ↦ omega (arith, k.bound j (omega arith) (omega arith) c)
    | inr p ↦ p.bound j (omega arith) (omega arith) c
  ]

  -- With a candidate that is not the most recent, the way chosen is a candidate.
  pub oldest_valid :
      (j : ℕ)
      → j < w.assoc
      → is_valid_replacement w j ≡ true
      → 0 < get_or bits j 0
      → is_valid_replacement w (oldest w bits) ≡ true
  oldest_valid j h c pos = elim oldest-Scanned [
    | inl k ↦ absurd (omega (arith, k.bound j (omega arith) (omega arith) c))
    | inr p ↦ p.candidate
  ]

-- With no candidate at all, way 0 is chosen.
pub scan_none :
    (w : Ways) (bits : List ℕ) (n i index max_bits : ℕ)
    → ((j : ℕ) → i ≤ j → j < i + n → is_valid_replacement w j ≡ false)
    → scan w bits n i index max_bits ≡ index
unfolding scan
scan_none w bits zero i index max_bits none_valid = refl
scan_none w bits (suc n) i index max_bits none_valid = ground (
  arith,
  none_valid i,
  scan_none w bits n (i + 1) index max_bits (λ j lo hi. none_valid j (omega arith) (omega arith)),
)

-- Attempts `attempt …` of a call that has `n` attempts left return a way `way`.
pub record Evicts (f : Block → Bool) (w : Ways) (n attempt : ℕ) (s : Lru) : Type 0 where
  pub way : ℕ
  pub after : Lru
  pub order : List ℕ
  pub returns : attempts (some f) w n attempt s ≡ some (way, after)
  pub in_range : way < w.assoc
  pub ranks : Ranks w.assoc after.lru_bits order
  pub cause : (f (block_at w way) ≡ false) ⊎ (after.lookups ≡ (s.lookups + (n - 1)) % u64)

-- The last attempt asks no controller.
pub attempts_last :
    (cntlr : Cntlr) (w : Ways) (n attempt : ℕ) (s : Lru) (info : SetInfo)
    → 0 < w.assoc
    → increment_attempt s.info attempt ≡ some info
    → ltb attempt (s.num_attempts - 1) ≡ false
    → attempts cntlr w (suc n) attempt s
      ≡ some (oldest w s.lru_bits, record (touch s (oldest w s.lru_bits)) { info = info })
unfolding attempts
attempts_last cntlr w n attempt s info ha counts last =
    rw (lt→ltb _ _ (oldest-lt w s.lru_bits ha), last, counts)

module _ (f : Block → Bool) (w : Ways) (n attempt : ℕ) (s : Lru) (ha : 0 < w.assoc) where
  abbrev victim : ℕ
  victim = oldest w s.lru_bits

  abbrev retried : Lru
  retried = record (touch s victim) { lookups = (s.lookups + 1) % u64 }

  attempts_retry :
      ltb attempt (s.num_attempts - 1) ≡ true
      → f (block_at w victim) ≡ true
      → attempts (some f) w (suc n) attempt s ≡ attempts (some f) w n (attempt + 1) retried
  unfolding attempts
  attempts_retry early below = rw (lt→ltb _ _ (oldest-lt w s.lru_bits ha), early, below)

  attempts_take :
      (info : SetInfo)
      → increment_attempt s.info attempt ≡ some info
      → (ltb attempt (s.num_attempts - 1) ≡ false) ⊎ (f (block_at w victim) ≡ false)
      → attempts (some f) w (suc n) attempt s
        ≡ some (victim, record (touch s victim) { info = info })
  unfolding attempts
  attempts_take info counts (inl last) = attempts_last (some f) w n attempt s info ha counts last
  attempts_take info counts (inr above) = ground (arith, lt→ltb _ _ (oldest-lt w s.lru_bits ha))

pub attempts-Evicts :
    (f : Block → Bool) (w : Ways) (n attempt : ℕ) (s : Lru) (order : List ℕ)
    → 0 < w.assoc
    → 0 < n
    → attempt + n ≡ s.num_attempts
    → s.lookups < u64
    → Serves s.info s.num_attempts
    → Ranks w.assoc s.lru_bits order
    → Evicts f w n attempt s
attempts-Evicts f w zero attempt s order ha hn e small serves r = absurd (omega arith)
attempts-Evicts f w (suc n) attempt s order ha hn e small serves r =
    elim (Bool-cases (ltb attempt (s.num_attempts - 1))) [
      | inl early ↦ elim (Bool-cases (f (block_at w (oldest w s.lru_bits)))) [
        | inl below ↦ retry below early (
            attempts-Evicts f w n (attempt + 1) (retried f w n attempt s ha)
              (use_way order (oldest w s.lru_bits)) ha (ground arith) (omega arith) (omega arith)
              serves (move_to_mru-Ranks (oldest w s.lru_bits) (oldest-lt w s.lru_bits ha) r))
        | inr above ↦ take (inr above) (inl above)
      ]
      | inr last ↦ take (inl last) (inr (ground arith))
    ]
  where
    count : (info' : SetInfo) × (increment_attempt s.info attempt ≡ some info')
    count = increment_attempt_served s.info attempt s.num_attempts (omega arith) serves

    take :
        (ltb attempt (s.num_attempts - 1) ≡ false) ⊎ (f (block_at w (oldest w s.lru_bits)) ≡ false)
        → (f (block_at w (oldest w s.lru_bits)) ≡ false)
          ⊎ (s.lookups ≡ (s.lookups + (suc n - 1)) % u64)
        → Evicts f w (suc n) attempt s
    take why cause = record {
      way = oldest w s.lru_bits;
      after = record (touch s (oldest w s.lru_bits)) { info = count.0 };
      order = use_way order (oldest w s.lru_bits);
      returns = attempts_take f w n attempt s ha count.0 count.1 why;
      in_range = oldest-lt w s.lru_bits ha;
      ranks = move_to_mru-Ranks (oldest w s.lru_bits) (oldest-lt w s.lru_bits ha) r;
      cause = cause;
    }

    retry :
        f (block_at w (oldest w s.lru_bits)) ≡ true
        → ltb attempt (s.num_attempts - 1) ≡ true
        → Evicts f w n (attempt + 1) (retried f w n attempt s ha)
        → Evicts f w (suc n) attempt s
    retry below early v = record {
      way = v.way;
      after = v.after;
      order = v.order;
      returns = attempts_retry f w n attempt s ha early below ∙ v.returns;
      in_range = v.in_range;
      ranks = v.ranks;
      cause = ground (arith, v.cause);
    }
