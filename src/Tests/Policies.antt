-- ===== src/Tests/Policies.antt =====
-- The replacement policies on small sets.
use snipersimcommon.Base.{
  ◌++◌, if◌then◌else◌, ℕ, zero, suc, ◌+◌, ◌-◌, ◌%◌, ◌≤◌, ◌<◌, ◌≡◌, ◌⊎◌, inl, inr, refl, true, false,
  none, some, List, [], ◌∷◌, length, get_or, arith, u64, first_from, ◌==◌,
}
use snipersimcommon.Cache.Block.{
  Block, Ways, modified, shared_upgrading, block_at, fresh_block, is_invalid_way,
  is_valid_replacement, is_valid,
}
use snipersimcommon.Cache.Policy.SetInfo.{create_info, create_info-Serves}
use snipersimcommon.Cache.Policy.Recency.{
  Ranks, initial_bits, initial_bits-Ranks, index_of, use_way,
}
use snipersimcommon.Cache.Policy.Pointer.{advance}
use snipersimcommon.Cache.Policy.Lru.{Lru, first_invalid, touch}
use snipersimcommon.Cache.Policy.Lru
use snipersimcommon.Cache.Policy.Lru.Recent.{
  IsLru, accesses, uses, accesses_refine, evicts_least_recent, qbs_evicts, evicts_upgrading,
}
use snipersimcommon.Cache.Policy.Nmru.{Nmru}
use snipersimcommon.Cache.Policy.Nru.{Nru, IsNru, update-IsNru, evicts_untouched}
use snipersimcommon.Cache.Policy.Nru.Trace.{touch_all, touched, clears_each_round}
use snipersimcommon.Cache.Policy.Nru
use snipersimcommon.Cache.Policy.Plru.{cleared}
use snipersimcommon.Cache.Policy.Plru.Round.{misses, contains, misses_cover}
use snipersimcommon.Cache.Policy.Srrip.{Srrip}
use snipersimcommon.Cache.Policy.Srrip
use snipersimcommon.Cache.Policy.Srrip.Victim.{IsSrrip, evicts_farthest}
use snipersimcommon.Cache.Policy.RoundRobin.{step_down, returned_above_tested, round_ends}
use snipersimcommon.Cache.Policy.RoundRobin

abbrev line : ℕ → Block
line tag = record fresh_block { tag = tag; cstate = modified }

abbrev upgrading : ℕ → Block
upgrading tag = record fresh_block { tag = tag; cstate = shared_upgrading }

abbrev full_pair : Ways
full_pair = record { assoc = 2; blocks = line 10 ∷ line 11 ∷ [] }

abbrev half_full : Ways
half_full = record { assoc = 2; blocks = line 10 ∷ fresh_block ∷ [] }

abbrev busy_pair : Ways
busy_pair = record { assoc = 2; blocks = upgrading 10 ∷ upgrading 11 ∷ [] }

below_two : (P : ℕ → Type 0) → P 0 → P 1 → (j : ℕ) → j < 2 → P j
below_two P p q zero h = p
below_two P p q (suc zero) h = q
below_two P p q (suc (suc j)) h = absurd (omega arith)

abbrev pair_order : List ℕ
pair_order = 0 ∷ 1 ∷ []

pair-Ranks : Ranks 2 (0 ∷ 1 ∷ []) pair_order
unfolding initial_bits
pair-Ranks = initial_bits-Ranks 2 (omega arith)

abbrev plain_lru : Lru
plain_lru = record { num_attempts = 1; lru_bits = 0 ∷ 1 ∷ []; info = create_info 2 1; lookups = 0 }

abbrev qbs_lru : Lru
qbs_lru = record { num_attempts = 2; lru_bits = 0 ∷ 1 ∷ []; info = create_info 2 2; lookups = 0 }

plain_lru-IsLru :
    (blocks : List Block) → IsLru (record { assoc = 2; blocks = blocks }) pair_order plain_lru
unfolding create_info
plain_lru-IsLru blocks = record {
  ranks = pair-Ranks;
  nonempty = omega arith;
  some_attempts = omega arith;
  serves = create_info-Serves 2 1;
  small = omega arith;
  counters = refl;
}

qbs_lru-IsLru :
    (blocks : List Block) → IsLru (record { assoc = 2; blocks = blocks }) pair_order qbs_lru
unfolding create_info
qbs_lru-IsLru blocks = record {
  ranks = pair-Ranks;
  nonempty = omega arith;
  some_attempts = omega arith;
  serves = create_info-Serves 2 2;
  small = omega arith;
  counters = refl;
}

accesses_refine_example :
    (t : Lru) × (accesses plain_lru (1 ∷ 0 ∷ []) ≡ some t)
    × IsLru full_pair (uses pair_order (1 ∷ 0 ∷ [])) t
accesses_refine_example =
    accesses_refine full_pair pair_order plain_lru (1 ∷ 0 ∷ []) (plain_lru-IsLru full_pair.blocks)
      (omega arith, (omega arith, tt))

evicts_least_recent_example :
    (i : ℕ) × (t : Lru) × (Lru.get_replacement_index none full_pair plain_lru ≡ some (i, t))
    × (is_valid_replacement full_pair i ≡ true)
    × ((j : ℕ)
        → j < 2
        → is_valid_replacement full_pair j ≡ true
        → index_of j pair_order ≤ index_of i pair_order)
    × Ranks 2 t.lru_bits (use_way pair_order i)
unfolding first_from is_invalid_way is_valid is_valid_replacement index_of
evicts_least_recent_example =
    evicts_least_recent none full_pair pair_order plain_lru 1 (plain_lru-IsLru full_pair.blocks)
      refl refl (omega arith) refl (omega arith)

qbs_evicts_example :
    (i : ℕ) × (t : Lru) × (later : List ℕ) × (Lru.get_replacement_index
        (some λ b. b.tag == 11)
        full_pair
        qbs_lru
      ≡ some (i, t))
    × (i < 2)
    × Ranks 2 t.lru_bits later
    × ((((block_at full_pair i).tag == 11) ≡ false) ⊎ (t.lookups ≡ (0 + (2 - 1)) % u64))
unfolding first_from is_invalid_way is_valid
qbs_evicts_example =
    qbs_evicts (λ b. b.tag == 11) full_pair pair_order qbs_lru (qbs_lru-IsLru full_pair.blocks) refl

evicts_upgrading_example :
    (t : Lru) × (Lru.get_replacement_index none busy_pair plain_lru ≡ some (0, t))
    × (is_valid_replacement busy_pair 0 ≡ false)
unfolding first_from is_invalid_way is_valid is_valid_replacement
evicts_upgrading_example =
    evicts_upgrading none busy_pair pair_order plain_lru (plain_lru-IsLru busy_pair.blocks) refl
      refl (below_two (λ j. is_valid_replacement busy_pair j ≡ false) refl refl)

abbrev pair_nmru : Nmru
pair_nmru = record { lru_bits = 0 ∷ 1 ∷ []; pointer = 0 }

-- Way 0 was accessed once.
abbrev pair_nru : Nru
pair_nru = record { lru_bits = 1 ∷ 0 ∷ []; num_bits_set = 1; pointer = 0 }

pair_nru-IsNru : IsNru 2 pair_nru
pair_nru-IsNru = record {
  small = omega arith;
  long = refl;
  room = omega arith;
  at_most = omega arith;
  pointed = omega arith;
}

evicts_untouched_example :
    (i : ℕ) × (Nru.get_replacement_index full_pair pair_nru
      ≡ some (i, Nru.update_replacement_index 2 (record pair_nru { pointer = advance 2 i }) i))
    × (is_valid_replacement full_pair i ≡ true)
    × (get_or pair_nru.lru_bits 1 0 ≡ 0 → get_or pair_nru.lru_bits i 0 ≡ 0)
unfolding first_from is_invalid_way is_valid is_valid_replacement
evicts_untouched_example =
    evicts_untouched full_pair pair_nru 1 pair_nru-IsNru refl (omega arith) refl

-- Two accesses to way 0 clear the bits, and a third one sets its bit.
clears_each_round_example :
    let t = touch_all 2 (Nru.create 2) ((0 ∷ 0 ∷ []) ++ 0 ∷ []) in
    (t.num_bits_set ≡ 1)
    × (t.pointer ≡ 0)
    × (get_or t.lru_bits 0 0 ≡ (if touched 0 (0 ∷ []) then 1 else 0))
unfolding Nru.create
clears_each_round_example =
    clears_each_round 2 1 0 (Nru.create 2) (0 ∷ 0 ∷ []) (0 ∷ []) (omega arith) refl refl refl
      (omega arith) (omega arith)

abbrev four_lines : Ways
four_lines = record { assoc = 4; blocks = line 1 ∷ line 2 ∷ line 3 ∷ line 4 ∷ [] }

below_four : (P : ℕ → Type 0) → P 0 → P 1 → P 2 → P 3 → (j : ℕ) → j < 4 → P j
below_four P p q r s zero h = p
below_four P p q r s (suc zero) h = q
below_four P p q r s (suc (suc zero)) h = r
below_four P p q r s (suc (suc (suc zero))) h = s
below_four P p q r s (suc (suc (suc (suc j)))) h = absurd (omega arith)

misses_cover_example :
    (ways : List ℕ) × (misses four_lines 4 cleared ≡ some ways)
    × (length ways ≡ 4)
    × ((i : ℕ) → i < 4 → contains i ways ≡ true)
unfolding first_from is_invalid_way is_valid is_valid_replacement
misses_cover_example =
    misses_cover four_lines cleared (inl refl) refl
      (below_four (λ j. is_valid_replacement four_lines j ≡ true) refl refl refl refl)

abbrev pair_srrip : Srrip
pair_srrip = record {
  rrip_max = 3;
  rrip_insert = 2;
  num_attempts = 1;
  rrip_bits = 0 ∷ 2 ∷ [];
  pointer = 0;
  info = create_info 2 1;
  lookups = 0;
}

pair_srrip-IsSrrip : IsSrrip full_pair pair_srrip
pair_srrip-IsSrrip = record {
  small = omega arith;
  long = refl;
  one = refl;
  top = omega arith;
  bounded = below_two (λ j. get_or (0 ∷ 2 ∷ []) j 0 ≤ 3) (omega arith) (omega arith);
  pointed = omega arith;
}

evicts_farthest_example :
    (i : ℕ) × (t : Srrip) × (Srrip.get_replacement_index none full_pair pair_srrip ≡ some (i, t))
    × (i < 2)
    × ((j : ℕ) → j < 2 → get_or (0 ∷ 2 ∷ []) j 0 ≤ get_or (0 ∷ 2 ∷ []) i 0)
    × (t.pointer ≡ advance 2 i)
    × (get_or t.rrip_bits i 0 ≡ 2)
unfolding first_from is_invalid_way is_valid is_valid_replacement
evicts_farthest_example =
    evicts_farthest none full_pair pair_srrip pair_srrip-IsSrrip (create_info-Serves 2 1) refl
      (below_two (λ j. is_valid_replacement full_pair j ≡ true) refl refl)

-- Way 0 may not be replaced; from way 1 the test falls on way 0 first.
abbrev half_busy : Ways
half_busy = record { assoc = 2; blocks = upgrading 10 ∷ line 11 ∷ [] }

returned_above_tested_example : (1 ≡ step_down 2 0) × (is_valid_replacement half_busy 1 ≡ true)
unfolding RoundRobin.get_replacement_index step_down is_valid_replacement
returned_above_tested_example = returned_above_tested half_busy 2 1 0 1 refl

round_ends_example :
    (i : ℕ) × (next : ℕ) × (RoundRobin.get_replacement_index half_busy 2 1 ≡ some (i, next))
    × (i < 2)
unfolding is_valid_replacement
round_ends_example =
    round_ends half_busy 2 1 1 (omega arith) (omega arith) (omega arith) refl
      (inr (omega arith, omega arith))
