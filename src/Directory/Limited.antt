-- ===== src/Directory/Limited.antt =====
-- `DirectoryEntryLimitedNoBroadcast` of
-- core/memory_subsystem/directory_schemes/directory_entry_limited_no_broadcast.h: at most `max_hw_sharers` sharers.
use snipersimcommon.Base.{
  ℕ, zero, suc, ◌/◌, ◌%◌, ◌≤◌, ◌<◌, ◌≡◌, refl, Bool, true, false, not, Option, some, List, [], ◌∷◌,
  get_elem?, set, length, ltb, leb, if◌then◌else◌, ◌>>=◌, ◌>>◌, assert, dec_lt, arith,
}
use native.Mathlib.Nat.{mod-lt}
use snipersimcommon.Cache.Policy.Random.{next_seed}
use snipersimcommon.Directory.Entry.{Entry, has_sharer, get_num_sharers, get_sharers_list}
use snipersimcommon.Directory.Sharers.{Added, set-Added, get_sharers_list_lem}

-- Whether the sharer was added: not when there will be an eviction before.
unfoldable pub add_sharer : Entry → ℕ → ℕ → Option (Entry × Bool)
unfolding get_num_sharers
add_sharer e id max_hw_sharers = do
  there ← get_elem? e.sharers id
  assert (not there)
  if leb max_hw_sharers (get_num_sharers e)
      then some (e, false)
      else some (record e { sharers = set e.sharers id true }, true)

-- A sharer drawn by the entry's own generator, whose new seed is given back too.
unfoldable pub get_one_sharer : Entry → ℕ → Option (ℕ × ℕ)
unfolding get_sharers_list next_seed
get_one_sharer e seed = do
  let sharers = get_sharers_list e
  assert (ltb 0 (length sharers))
  id ← get_elem? sharers (next_seed seed / 65536 % length sharers)
  some (id, next_seed seed)

get_elem?-lt : (ids : List ℕ) (i : ℕ) → i < length ids → (id : ℕ) × (get_elem? ids i ≡ some id)
get_elem?-lt [] i h = absurd (omega arith)
get_elem?-lt (x ∷ ids) zero h = (x, refl)
get_elem?-lt (x ∷ ids) (suc i) h = get_elem?-lt ids i (omega arith)

-- Adding a core that is no sharer: below the limit it becomes one, no other core's bit changes, and
-- removing it again gives the entry back; at the limit the call says so and changes nothing. So the limit is never passed.
pub add_sharer_within :
    (e : Entry) (id max_hw_sharers : ℕ)
    → has_sharer e id ≡ some false
    → get_num_sharers e ≤ max_hw_sharers
    → (r : Entry × Bool) × (add_sharer e id max_hw_sharers ≡ some r)
      × (r.1 ≡ ltb (get_num_sharers e) max_hw_sharers)
      × (r.1 ≡ true → Added e r.0 id)
      × (r.1 ≡ false → r.0 ≡ e)
      × (get_num_sharers r.0 ≤ max_hw_sharers)
unfolding add_sharer has_sharer
add_sharer_within e id max_hw_sharers free within =
    elim (dec_lt (get_num_sharers e) max_hw_sharers) [
      | yes room ↦
          let new = set-Added e id free in
          let test : leb max_hw_sharers (get_num_sharers e) ≡ false = ground arith in
          (
            (record e { sharers = set e.sharers id true }, true),
            rw (free, test),
            ground arith,
            λ _. new,
            λ no. absurd (ground arith),
            omega (arith, new.more),
          )
      | no full ↦
          let test : leb max_hw_sharers (get_num_sharers e) ≡ true = ground arith in
          (
            (e, false),
            rw (free, test),
            ground arith,
            λ yes. absurd (ground arith),
            λ _. refl,
            within,
          )
    ]

-- With a sharer, and whatever the generator draws, the core that is chosen is a sharer.
pub get_one_sharer_sound :
    (e : Entry) (seed : ℕ)
    → 0 < get_num_sharers e
    → (id : ℕ) × (get_one_sharer e seed ≡ some (id, next_seed seed)) × (has_sharer e id ≡ some true)
unfolding get_one_sharer
get_one_sharer_sound e seed some_sharer =
    let (long, sound, _) = get_sharers_list_lem e in
    let index = next_seed seed / 65536 % length (get_sharers_list e) in
    let (id, there) =
      get_elem?-lt (get_sharers_list e) index (mod-lt (next_seed seed / 65536) (omega arith)) in
    let test : ltb 0 (length (get_sharers_list e)) ≡ true = ground arith in
    (id, rw (test, there), sound index id there)
