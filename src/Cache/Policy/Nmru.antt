-- ===== src/Cache/Policy/Nmru.antt =====
-- core/memory_subsystem/cache/cache_set_nmru.cc: the first line from the pointer on that is not the
-- most recently used.
use snipersimcommon.Base.{
  ℕ, ◌<◌, ◌≡◌, refl, Bool, true, not, ◌&&◌, Option, none, some, List, arith, ◌==◌, get_or,
  first_from,
}
use snipersimcommon.Cache.Block.{Ways, is_invalid_way, is_valid_replacement}
use snipersimcommon.Cache.Policy.Recency.{
  Ranks, initial_bits, move_to_mru, move_to_mru-Ranks, index_of, use_way,
}
use snipersimcommon.Cache.Policy.Pointer.{advance, advance-lt, seek, seek_round}

pub record Nmru : Type 0 where
  pub lru_bits : List ℕ
  pub pointer : ℕ

unfoldable pub create : ℕ → Nmru
unfolding initial_bits
create assoc = record { lru_bits = initial_bits assoc; pointer = 0 }

unfoldable pub update_replacement_index : Nmru → ℕ → Nmru
update_replacement_index s accessed = record s { lru_bits = move_to_mru s.lru_bits accessed }

abbrev pub not_mru : Ways → List ℕ → ℕ → Bool
not_mru w bits i = not (get_or bits i 0 == 0) && is_valid_replacement w i

abbrev taking : Nmru → Option (ℕ × ℕ) → Option (ℕ × Nmru)
taking s none = none
taking s (some (i, p)) = some (i, update_replacement_index (record s { pointer = p }) i)

abbrev choose : Ways → Nmru → Option ℕ → Option (ℕ × Nmru)
choose w s (some i) = some (i, update_replacement_index s i)
choose w s none = taking s (seek w.assoc (not_mru w s.lru_bits) w.assoc s.pointer)

unfoldable pub get_replacement_index : Ways → Nmru → Option (ℕ × Nmru)
get_replacement_index w s = choose w s (first_from w.assoc 0 (is_invalid_way w))

-- A full set with a replaceable line that is not the most recent: such a line is evicted, the
-- pointer moves behind it, and the ages stay those of the recency list.
pub evicts_not_most_recent :
    (w : Ways) (order : List ℕ) (s : Nmru) (c : ℕ)
    → Ranks w.assoc s.lru_bits order
    → s.pointer < w.assoc
    → first_from w.assoc 0 (is_invalid_way w) ≡ none
    → c < w.assoc
    → is_valid_replacement w c ≡ true
    → 0 < index_of c order
    → (i : ℕ) × (t : Nmru) × (get_replacement_index w s ≡ some (i, t))
      × (is_valid_replacement w i ≡ true)
      × (0 < index_of i order)
      × (t.pointer ≡ advance w.assoc i)
      × (t.pointer < w.assoc)
      × Ranks w.assoc t.lru_bits (use_way order i)
unfolding get_replacement_index update_replacement_index
evicts_not_most_recent w order s c r hp full hc cand older =
    let (i, e, hi, ok) =
      seek_round w.assoc (not_mru w s.lru_bits) s.pointer c r.small hp hc
        (ground (arith, r.rank c hc)) in
    (
      i,
      record { lru_bits = move_to_mru s.lru_bits i; pointer = advance w.assoc i },
      rw full (rw e),
      ground (arith, ok),
      ground (arith, ok, r.rank i hi),
      refl,
      advance-lt w.assoc r.small i hi,
      move_to_mru-Ranks i hi r,
    )
