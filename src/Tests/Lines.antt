-- ===== src/Tests/Lines.antt =====
-- Sets and whole caches of two lines.
use snipersimcommon.Base.{
  List, length, not, ◌&&◌, ℕ, zero, suc, ◌+◌, ◌<◌, ◌≡◌, ◌≢◌, ◌↔◌, refl, true, false, none, some, [],
  ◌∷◌, arith, ◌==◌, if◌then◌else◌,
}
use snipersimcommon.Cache.Block.{
  Block, modified, block_at, fresh_block, invalid_tag, is_valid, is_valid_replacement, clone,
}
use snipersimcommon.Cache.Address.{
  CacheBase, Split, hash_mask, split_address, set_index_of, block_offset, tag_to_address,
}
use snipersimcommon.Cache.Address.Parts.{IsGeometry, join_lem, set_index-lt}
use snipersimcommon.Cache.Policy.SetInfo.{create_info}
use snipersimcommon.Cache.Policy.RoundRobin
use snipersimcommon.Cache.Set.Policies.{Policy, nmru, round_robin}
use snipersimcommon.Cache.Set.Policies
use snipersimcommon.Cache.Set.{
  CacheSet, find, find_below, insert, inserted, Insertion, invalidate, read_line, write_line,
}
use snipersimcommon.Cache.Set.Lines.{IsCacheSet, find_iff}
use snipersimcommon.Cache.Set.Placing.{insert_lem}
use snipersimcommon.Cache.Set.Clearing.{invalidate_lem}
use snipersimcommon.Cache.Set.Data.{read_line-write_line}
use snipersimcommon.Cache.Store.{Cache, set_of, peek_single_line, insert_single_line, Eviction}
use snipersimcommon.Cache.Store.Others.{hits, lost, hits-insert_other}
use snipersimcommon.Cache.Store.Lookup.{Falls, peek-insert}

abbrev line : ℕ → Block
line tag = record fresh_block { tag = tag; cstate = modified }

-- Line 0 holds tag 10, line 1 nothing.
abbrev one_held : CacheSet
one_held = record {
  ways = record { assoc = 2; blocks = line 10 ∷ fresh_block ∷ [] };
  blocksize = 4;
  bytes = some (0 ∷ 1 ∷ 2 ∷ 3 ∷ 4 ∷ 5 ∷ 6 ∷ 7 ∷ []);
  policy = round_robin 1;
}

one_held-IsCacheSet : IsCacheSet one_held
one_held-IsCacheSet = record { long = refl; unique = same }
  where
    same :
        (i j : ℕ)
        → i < 2
        → j < 2
        → (block_at one_held.ways i).tag ≡ (block_at one_held.ways j).tag
        → (block_at one_held.ways i).tag ≢ invalid_tag
        → i ≡ j
    same zero zero h k e r = refl
    same zero (suc zero) h k e r = absurd (omega arith)
    same (suc zero) zero h k e r = absurd (omega arith)
    same (suc zero) (suc zero) h k e r = refl
    same (suc (suc i)) j h k e r = absurd (omega arith)
    same i (suc (suc j)) h k e r = absurd (omega arith)

abbrev both_held : Insertion
both_held = record {
  after = record one_held {
    ways = record { assoc = 2; blocks = line 10 ∷ line 11 ∷ [] };
    policy = round_robin 0;
  };
  index = 1;
  eviction = false;
  evicted = fresh_block;
  evict_data = [];
}

insert_lem_example :
    IsCacheSet both_held.after
    × (find both_held.after 11 ≡ some both_held.index)
    × (block_at both_held.after.ways both_held.index ≡ line 11)
    × ((t : ℕ)
        → t ≢ 11
        → t ≢ invalid_tag
        → find both_held.after t
          ≡ (if (block_at one_held.ways both_held.index).tag == t then none else find one_held t))
    × (both_held.eviction ≡ is_valid (block_at one_held.ways both_held.index))
    × (both_held.evicted
        ≡ (if both_held.eviction then block_at one_held.ways both_held.index else fresh_block))
unfolding find find_below insert inserted Policies.get_replacement_index
    RoundRobin.get_replacement_index RoundRobin.step_down is_valid_replacement is_valid clone
insert_lem_example =
    insert_lem 5 none one_held (line 11) fresh_block none both_held one_held-IsCacheSet
      (omega arith) refl refl

invalidate_lem_example :
    IsCacheSet (invalidate one_held 10).0
    × (find (invalidate one_held 10).0 10 ≡ none)
    × ((u : ℕ) → u ≢ 10 → u ≢ invalid_tag → find (invalidate one_held 10).0 u ≡ find one_held u)
    × (((invalidate one_held 10).1 ≡ true) ↔ (find one_held 10 ≢ none))
invalidate_lem_example = invalidate_lem one_held 10 one_held-IsCacheSet (omega arith)

find_iff_example : (find one_held 10 ≡ some 0) ↔ ((0 < 2) × ((block_at one_held.ways 0).tag ≡ 10))
find_iff_example = find_iff one_held 10 0 one_held-IsCacheSet (omega arith)

abbrev eight_bytes : List ℕ
eight_bytes = 0 ∷ 1 ∷ 2 ∷ 3 ∷ 4 ∷ 5 ∷ 6 ∷ 7 ∷ []

read_line-write_line_example :
    (after : List ℕ) × (write_line one_held 1 2 (8 ∷ 9 ∷ []) false
      ≡ some (record one_held { bytes = some after }))
    × (length after ≡ length eight_bytes)
    × (read_line (record one_held { bytes = some after }) 1 2 2 false
        ≡ some (record one_held { bytes = some after }, 8 ∷ 9 ∷ []))
read_line-write_line_example =
    read_line-write_line one_held eight_bytes (8 ∷ 9 ∷ []) 1 2 refl refl (omega arith) (omega arith)
      (omega arith)

-- Four sets of blocks of 64 bytes.
abbrev small_base : CacheBase
small_base = record {
  assoc = 2;
  blocksize = 64;
  hash = hash_mask;
  num_sets = 4;
  ahl = none;
  log_blocksize = 6;
  log_num_sets = 2;
}

small_base-IsGeometry : IsGeometry small_base 6 2
small_base-IsGeometry = record {
  blocks = refl;
  sets = refl;
  log_blocks = refl;
  log_sets = refl;
  block_fits = omega arith;
  sets_fit = omega arith;
}

join_lem_example : tag_to_address small_base 5 + block_offset small_base 325 ≡ 325
unfolding split_address set_index_of
join_lem_example =
    join_lem small_base-IsGeometry 325 (record { tag = 5; set_index = 1 }) (omega arith) refl

set_index-lt_example : (p : Split) × (split_address small_base 325 ≡ some p) × (p.set_index < 4)
set_index-lt_example = set_index-lt small_base-IsGeometry 325 (omega arith)

-- A cache of one such set; the address 704 has the tag 11.
abbrev one_set : Cache
one_set = record {
  base = record small_base { num_sets = 1; log_num_sets = 0 };
  sets = one_held ∷ [];
  info = create_info 2 1;
  enabled = true;
  num_accesses = 0;
  num_hits = 0;
}

falls : Falls one_set 704
unfolding split_address set_index_of
falls = record {
  parts = record { tag = 11; set_index = 0 };
  home = one_held;
  split = refl;
  there = refl;
}

abbrev filled : Eviction
filled = record {
  after = record one_set {
    sets =
        record one_held {
          ways = record { assoc = 2; blocks = line 10 ∷ record fresh_block { tag = 11 } ∷ [] };
          policy = round_robin 0;
        }
        ∷ [];
  };
  eviction = false;
  evict_addr = 18446744073709551552;
  evicted = fresh_block;
  evict_data = [];
}

peek-insert_example :
    peek_single_line filled.after 704 ≡ some (some (record fresh_block { tag = 11 }))
unfolding falls peek_single_line insert_single_line set_of split_address set_index_of find
    find_below insert inserted Policies.get_replacement_index RoundRobin.get_replacement_index
    RoundRobin.step_down is_valid_replacement is_valid clone tag_to_address
peek-insert_example =
    peek-insert 5 none one_set 704 none fresh_block filled falls one_held-IsCacheSet (omega arith)
      refl refl

falls_other : Falls one_set 640
unfolding split_address set_index_of
falls_other = record {
  parts = record { tag = 10; set_index = 0 };
  home = one_held;
  split = refl;
  there = refl;
}

hits-insert_other_example :
    hits filled.after 640 ≡ hits one_set 640 && not (lost filled (0 == 0) 10)
unfolding falls falls_other peek_single_line insert_single_line set_of split_address set_index_of
    find find_below insert inserted Policies.get_replacement_index RoundRobin.get_replacement_index
    RoundRobin.step_down is_valid_replacement is_valid clone tag_to_address
hits-insert_other_example =
    hits-insert_other 5 none one_set 704 640 none fresh_block filled falls falls_other
      one_held-IsCacheSet (omega arith) (omega arith) (omega arith) refl refl
