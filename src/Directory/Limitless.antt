-- ===== src/Directory/Limitless.antt =====
-- `DirectoryEntryLimitless` of core/memory_subsystem/directory_schemes/directory_entry_limitless.h: any number of
-- sharers, with a software trap beyond the hardware's.
use snipersimcommon.Base.{
  ℕ, zero, suc, ◌<◌, ◌≡◌, ◌≢◌, Bool, true, false, not, Option, some, List, [], ◌∷◌, get_elem?,
  get_or, set, length, ◌==◌, if◌then◌else◌, ◌>>=◌, ◌>>◌, assert, ap, of_some, first_from-some,
  arith, first_from,
}
use snipersimcommon.Directory.Entry.{Entry, has_sharer}
use snipersimcommon.Directory.Sharers.{Added, set-Added, in_range}

pub record Limitless : Type 0 where
  pub entry : Entry
  pub software_trap_enabled : Bool
  pub software_trap_penalty : ℕ

unfoldable pub get_latency : Limitless → ℕ
get_latency e = if e.software_trap_enabled then e.software_trap_penalty else 0

unfoldable pub add_sharer : Limitless → ℕ → ℕ → Option (Limitless × Bool)
add_sharer e id max_hw_sharers = do
  there ← get_elem? e.entry.sharers id
  assert (not there)
  some (
    record e {
      entry = record e.entry { sharers = set e.entry.sharers id true };
      software_trap_enabled =
          if length e.entry.sharers == max_hw_sharers then true else e.software_trap_enabled;
    },
    true,
  )

-- The first sharer; `none` is the assertion that there is one.
unfoldable pub get_one_sharer : Limitless → Option ℕ
get_one_sharer e = first_from (length e.entry.sharers) 0 (λ j. get_or e.entry.sharers j false)

-- Adding a core that is no sharer always makes it one, and nothing else; the trap is on from the
-- first addition to an entry whose size is the limit.
pub add_sharer_always :
    (e : Limitless) (id max_hw_sharers : ℕ)
    → has_sharer e.entry id ≡ some false
    → (r : Limitless) × (add_sharer e id max_hw_sharers ≡ some (r, true))
      × Added e.entry r.entry id
      × (length e.entry.sharers ≡ max_hw_sharers → get_latency r ≡ e.software_trap_penalty)
      × (length e.entry.sharers ≢ max_hw_sharers → get_latency r ≡ get_latency e)
unfolding add_sharer has_sharer get_latency
add_sharer_always e id max_hw_sharers free = (
  record e {
    entry = record e.entry { sharers = set e.entry.sharers id true };
    software_trap_enabled =
        if length e.entry.sharers == max_hw_sharers then true else e.software_trap_enabled;
  },
  rw free,
  set-Added e.entry id free,
  λ same. ground arith,
  λ other. ground arith,
)

bit_at : (bs : List Bool) (i : ℕ) → get_or bs i false ≡ true → get_elem? bs i ≡ some true
bit_at [] i h = absurd (ground arith)
bit_at (b ∷ bs) zero h = ap some h
bit_at (b ∷ bs) (suc i) h = bit_at bs i h

at_bit : (bs : List Bool) (i : ℕ) (b : Bool) → get_elem? bs i ≡ some b → get_or bs i false ≡ b
at_bit [] i b h = absurd (ground arith)
at_bit (c ∷ bs) zero b h = of_some h
at_bit (c ∷ bs) (suc i) b h = at_bit bs i b h

-- With a sharer, the core that is chosen is the first one.
pub get_one_sharer_first :
    (e : Limitless) (j : ℕ)
    → has_sharer e.entry j ≡ some true
    → (id : ℕ) × (get_one_sharer e ≡ some id)
      × (has_sharer e.entry id ≡ some true)
      × ((k : ℕ) → k < id → has_sharer e.entry k ≢ some true)
unfolding get_one_sharer has_sharer
get_one_sharer_first e j there =
    let bits = e.entry.sharers in
    let (id, found, first) =
      first_from-some (length bits) 0 (λ i. get_or bits i false) j (omega arith)
        (omega (arith, in_range bits j true there)) (at_bit bits j true there) in
    (
      id,
      found,
      bit_at bits id first.hit,
      λ k lt hit. ground (arith, first.least k (omega arith) lt, at_bit bits k true hit),
    )
