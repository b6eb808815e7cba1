-- ===== src/Msi/Holders.antt =====
-- Who holds a line, by the directory of
-- core/memory_subsystem/pr_l1_pr_l2_dram_directory_msi, after any sequence of messages.
use snipersimcommon.Base.{
  ℕ, zero, suc, ◌<◌, ◌≡◌, ◌≢◌, refl, ap, Bool, true, false, some, List, [], ◌∷◌, ◌++◌, get_elem?,
  arith,
}
use snipersimcommon.Base.Every.{Every, Every-append, Every-map}
use snipersimcommon.Directory.Entry.{
  Entry, DState, uncached, shared, owned, modified, exclusive, has_sharer, count, get_num_sharers,
}
use snipersimcommon.Run.{Ensures, Ensures-map}
use snipersimcommon.Msi.Slots.{Slot}
use snipersimcommon.Msi.Slots
use snipersimcommon.Msi.State.{Setup, State}
use snipersimcommon.Msi.State
use snipersimcommon.Msi.Replies.{Event, run}
use snipersimcommon.Msi.Coherent.{CoherentIn}
use snipersimcommon.Msi.Runs.{create-Sound, run-Served}

bit_counts : (bs : List Bool) (i : ℕ) → get_elem? bs i ≡ some true → 0 < count bs
unfolding count
bit_counts [] i e = absurd (ground arith)
bit_counts (b ∷ bs) zero e = ground arith
bit_counts (b ∷ bs) (suc i) e = omega (arith, bit_counts bs i e)

one_bit :
    (bs : List Bool) (i j : ℕ)
    → count bs ≡ 1
    → get_elem? bs i ≡ some true
    → get_elem? bs j ≡ some true
    → i ≡ j
unfolding count
one_bit [] i j one e f = absurd (ground arith)
one_bit (b ∷ bs) zero zero one e f = refl
one_bit (b ∷ bs) zero (suc j) one e f = absurd (ground (arith, bit_counts bs j f))
one_bit (b ∷ bs) (suc i) zero one e f = absurd (ground (arith, bit_counts bs i e))
one_bit (true ∷ bs) (suc i) (suc j) one e f = absurd (omega (arith, bit_counts bs i e))
one_bit (false ∷ bs) (suc i) (suc j) one e f = ap suc (one_bit bs i j (omega arith) e f)

some_bit : (bs : List Bool) → 0 < count bs → (i : ℕ) × (get_elem? bs i ≡ some true)
unfolding count
some_bit [] more = absurd (omega arith)
some_bit (true ∷ bs) more = (0, refl)
some_bit (false ∷ bs) more = let (i, e) = some_bit bs (omega arith) in (suc i, e)

-- The one core that may write, or has the only clean copy.
abbrev pub Sole : Entry → Type 0
Sole e =
    (has_sharer e e.owner ≡ some true)
    × ((core : ℕ) → has_sharer e core ≡ some true → core ≡ e.owner)

-- What the state of an entry says of its holders.
abbrev pub HoldersIn : DState → Entry → Type 0
HoldersIn uncached e = (core : ℕ) → has_sharer e core ≢ some true
HoldersIn shared e = (core : ℕ) × (has_sharer e core ≡ some true)
HoldersIn owned e = ⊥
HoldersIn modified e = Sole e
HoldersIn exclusive e = Sole e

abbrev pub Holders : Entry → Type 0
Holders e = HoldersIn e.dstate e

sole : (e : Entry) → get_num_sharers e ≡ 1 → has_sharer e e.owner ≡ some true → Sole e
unfolding get_num_sharers has_sharer
sole e one there = (there, λ core h. one_bit e.sharers core e.owner one h there)

holders :
    (e : Entry) (d : DState)
    → CoherentIn d (get_num_sharers e) (has_sharer e e.owner)
    → HoldersIn d e
unfolding get_num_sharers has_sharer
holders e uncached c = λ core h. absurd (omega (arith, bit_counts e.sharers core h))
holders e shared c = some_bit e.sharers c
holders e owned c = c
holders e modified c = sole e c.0 c.1
holders e exclusive c = sole e c.0 c.1

-- For every sequence of messages to a new controller, if nothing aborts, then every entry of the
-- directory, one that was replaced in it included, is in a state that says who holds the line: no core if it is uncached,
-- some core if it is shared, and if it is modified or exclusive its owner and no other core; it is
-- never in the state owned.
pub run-Holders :
    (p : Setup) (total_entries : ℕ) (ptrs : List ℕ) (events : List Event)
    → Ensures
        (λ t. Every (λ slot. Holders slot.entry) (t.cache.slots ++ t.cache.replaced))
        (run p (State.create (Slots.create p.directory total_entries ptrs)) events)
run-Holders p total_entries ptrs events =
    let s = State.create (Slots.create p.directory total_entries ptrs) in
    Ensures-map (run-Served p s events (create-Sound p.directory total_entries ptrs)) (λ t r.
      Every-map (λ slot c. holders slot.entry slot.entry.dstate c)
        (Every-append r.sound.cache.slots r.sound.cache.replaced))
