-- ===== src/Tests/Directory.antt =====
-- Directory entries of three cores.
use snipersimcommon.Base.{
  ℕ, ◌≤◌, ◌≡◌, refl, Bool, true, false, some, [], ◌∷◌, length, get_elem?, arith, ltb,
}
use snipersimcommon.Directory.Entry.{
  Entry, shared, has_sharer, count, get_num_sharers, get_sharers_list, invalid_core_id,
}
use snipersimcommon.Directory.Sharers.{Added, get_sharers_list_lem}
use snipersimcommon.Directory.Limited.{add_sharer, add_sharer_within}
use snipersimcommon.Directory.Limitless.{Limitless}

-- Cores 0 and 2 share the block.
abbrev two_sharers : Entry
two_sharers = record {
  address = 64;
  dstate = shared;
  owner = invalid_core_id;
  forwarder = 2;
  sharers = true ∷ false ∷ true ∷ [];
}

get_sharers_list_lem_example :
    (length (get_sharers_list two_sharers) ≡ get_num_sharers two_sharers)
    × ((k id : ℕ)
        → get_elem? (get_sharers_list two_sharers) k ≡ some id
        → has_sharer two_sharers id ≡ some true)
    × ((id : ℕ)
        → has_sharer two_sharers id ≡ some true
        → (k : ℕ) × (get_elem? (get_sharers_list two_sharers) k ≡ some id))
get_sharers_list_lem_example = get_sharers_list_lem two_sharers

-- Two sharers are allowed.
add_sharer_within_example :
    (r : Entry × Bool) × (add_sharer two_sharers 1 2 ≡ some r)
    × (r.1 ≡ ltb (get_num_sharers two_sharers) 2)
    × (r.1 ≡ true → Added two_sharers r.0 1)
    × (r.1 ≡ false → r.0 ≡ two_sharers)
    × (get_num_sharers r.0 ≤ 2)
unfolding has_sharer get_num_sharers count
add_sharer_within_example = add_sharer_within two_sharers 1 2 refl (omega arith)

abbrev trapping : Limitless
trapping = record {
  entry = two_sharers;
  software_trap_enabled = false;
  software_trap_penalty = 200;
}
