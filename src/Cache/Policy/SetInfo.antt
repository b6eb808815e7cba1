-- ===== src/Cache/Policy/SetInfo.antt =====
-- `CacheSetInfoLRU` of core/memory_subsystem/cache/cache_set_lru.{h,cc}: the statistics that the sets
-- of one cache share, and the cache controller that query-based selection asks.
use snipersimcommon.Base.{
  ℕ, ◌+◌, ◌%◌, ◌<◌, ◌≡◌, refl, dec_lt, lt→ltb, Bool, Option, none, some, List, arith, ltb, ◌==◌,
  if◌then◌else◌, get_or, set, replicate, u64, ◌>>◌, assert,
}
use snipersimcommon.Cache.Block.{Block}

-- `attempts` is absent where the constructor allocates no histogram of attempts.
pub record SetInfo : Type 0 where
  pub assoc : ℕ
  pub access : List ℕ
  pub attempts : Option (List ℕ)

unfoldable pub create_info : ℕ → ℕ → SetInfo
create_info assoc num_attempts = record {
  assoc = assoc;
  access = replicate assoc 0;
  attempts = if ltb 1 num_attempts then some (replicate num_attempts 0) else none;
}

abbrev pub bump : List ℕ → ℕ → List ℕ
bump counters i = set counters i ((get_or counters i 0 + 1) % u64)

unfoldable pub increment : SetInfo → ℕ → Option SetInfo
increment s index = do assert (ltb index s.assoc); some (record s { access = bump s.access index })

abbrev pub counted : SetInfo → ℕ → SetInfo
counted s index = record s { access = bump s.access index }

pub increment_lem :
    (s : SetInfo) (index : ℕ) → index < s.assoc → increment s index ≡ some (counted s index)
unfolding increment
increment_lem s index h = rw (lt→ltb _ _ h)

abbrev count_attempt : SetInfo → Option (List ℕ) → ℕ → Option SetInfo
count_attempt s (some counters) attempt =
    some (record s { attempts = some (bump counters attempt) })
count_attempt s none attempt = do assert (attempt == 0); some s

unfoldable pub increment_attempt : SetInfo → ℕ → Option SetInfo
increment_attempt s attempt = count_attempt s s.attempts attempt

-- `CacheCntlr`: whether a line is in a lower-level cache; null where no controller is passed.
abbrev pub Cntlr : Type 0
Cntlr = Option (Block → Bool)

-- `cntlr->isInLowerLevelCache(block)`, with the assertion that there is a controller.
unfoldable pub in_lower_level_cache : Cntlr → Block → Option Bool
in_lower_level_cache none b = none
in_lower_level_cache (some f) b = some (f b)

-- The histogram that `num_attempts` calls for is there.
abbrev pub Serves : SetInfo → ℕ → Type 0
Serves s num_attempts = 1 < num_attempts → (counters : List ℕ) × (s.attempts ≡ some counters)

count_attempt_served :
    (s : SetInfo) (o : Option (List ℕ)) (attempt num_attempts : ℕ)
    → attempt < num_attempts
    → (1 < num_attempts → (counters : List ℕ) × (o ≡ some counters))
    → (t : SetInfo) × (count_attempt s o attempt ≡ some t)
count_attempt_served s (some counters) attempt num_attempts h serves =
    (record s { attempts = some (bump counters attempt) }, refl)
count_attempt_served s none attempt num_attempts h serves = elim (dec_lt 1 num_attempts) [
  | yes many ↦ cc ((serves many).1)
  | no one ↦ (s, ground arith)
]

-- There is a counter for every attempt number that a call reaches.
pub increment_attempt_served :
    (s : SetInfo) (attempt num_attempts : ℕ)
    → attempt < num_attempts
    → Serves s num_attempts
    → (t : SetInfo) × (increment_attempt s attempt ≡ some t)
unfolding increment_attempt
increment_attempt_served s attempt num_attempts h serves =
    count_attempt_served s s.attempts attempt num_attempts h serves

pub create_info-Serves :
    (assoc num_attempts : ℕ) → Serves (create_info assoc num_attempts) num_attempts
unfolding create_info
create_info-Serves assoc num_attempts many = (replicate num_attempts 0, ground arith)
