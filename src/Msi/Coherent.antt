-- ===== src/Msi/Coherent.antt =====
-- What the directory says of a line in each state of its entry, and that the operations on entries of
-- core/memory_subsystem/directory_schemes keep to it.
use snipersimcommon.Base.{
  ℕ, zero, suc, ◌+◌, ◌<◌, ◌≡◌, ◌≢◌, refl, sym, subst, ◌∙◌, Bool, true, false, Option, some, List,
  [], ◌∷◌, get_elem?, replicate, leb, Option-cases, Bool-cases, of_some, arith, inl, inr,
}
use snipersimcommon.Directory.Entry.{
  Entry, DState, uncached, shared, owned, modified, exclusive, has_sharer, count, get_num_sharers,
  remove_sharer, set_owner, set_d_state, set_forwarder, set_address,
}
use snipersimcommon.Directory.Entry
use snipersimcommon.Directory.Limited
use snipersimcommon.Directory.Limitless
use snipersimcommon.Directory.Sharers.{set-Added, count-set-false}
use snipersimcommon.Run.{Ensures, returns, Ensures-bind, Ensures-map, Ensures-from, from}
use snipersimcommon.Msi.Slots.{
  Config, Slot, DirectoryType, create_directory_entry, add_sharer, add_by, limited_add,
  limitless_add, with_trap, one_by, limited_one, get_one_sharer, full_map, limited_no_broadcast,
  limitless,
}

-- By the state: how many sharers there are, and whether the owner is one.
abbrev pub CoherentIn : DState → ℕ → Option Bool → Type 0
CoherentIn uncached sharers owner_bit = sharers ≡ 0
CoherentIn shared sharers owner_bit = 0 < sharers
CoherentIn owned sharers owner_bit = ⊥
CoherentIn modified sharers owner_bit = (sharers ≡ 1) × (owner_bit ≡ some true)
CoherentIn exclusive sharers owner_bit = (sharers ≡ 1) × (owner_bit ≡ some true)

abbrev pub Coherent : Entry → Type 0
Coherent e = CoherentIn e.dstate (get_num_sharers e) (has_sharer e e.owner)

abbrev pub CoherentSlot : Slot → Type 0
CoherentSlot s = Coherent s.entry

count-replicate : (n : ℕ) → count (replicate n false) ≡ 0
unfolding count
count-replicate zero = refl
count-replicate (suc n) = omega (arith, count-replicate n)

pub create_directory_entry-Coherent : (c : Config) → CoherentSlot (create_directory_entry c)
unfolding create_directory_entry Entry.create get_num_sharers
create_directory_entry-Coherent c = count-replicate _

-- What adding a core does, when it is added.
pub record Grown (e r : Entry) (core : ℕ) : Type 0 where
  pub more : get_num_sharers r ≡ get_num_sharers e + 1
  pub there : has_sharer r core ≡ some true
  pub dstate : r.dstate ≡ e.dstate

abbrev pub AddedOr : Entry → ℕ → Entry → Bool → Type 0
AddedOr e core r true = Grown e r core
AddedOr e core r false = r ≡ e

limited_lem :
    (e : Entry) (core m : ℕ) (r : Entry × Bool)
    → Limited.add_sharer e core m ≡ some r
    → AddedOr e core r.0 r.1
unfolding Limited.add_sharer has_sharer
limited_lem e core m r h = elim (Option-cases (get_elem? e.sharers core)) [
  | inl out ↦ absurd (ground (arith, rw out at h))
  | inr (true, there) ↦ absurd (ground (arith, rw there at h))
  | inr (false, free) ↦ elim (Bool-cases (leb m (get_num_sharers e))) [
    | inl full ↦ subst (λ q. AddedOr e core q.0 q.1) (of_some (rw (free, full) at h)) refl
    | inr room ↦
        let new = set-Added e core free in
        subst (λ q. AddedOr e core q.0 q.1) (of_some (rw (free, room) at h))
          (record { more = new.more; there = new.there; dstate = refl })
  ]
]

limitless_lem :
    (e : Limitless.Limitless) (core m : ℕ) (r : Limitless.Limitless × Bool)
    → Limitless.add_sharer e core m ≡ some r
    → AddedOr e.entry core r.0.entry r.1
unfolding Limitless.add_sharer has_sharer
limitless_lem e core m r h = elim (Option-cases (get_elem? e.entry.sharers core)) [
  | inl out ↦ absurd (ground (arith, rw out at h))
  | inr (true, there) ↦ absurd (ground (arith, rw there at h))
  | inr (false, free) ↦
      let new = set-Added e.entry core free in
      subst (λ q. AddedOr e.entry core q.0.entry q.1) (of_some (rw free at h))
        (record { more = new.more; there = new.there; dstate = refl })
]

limited_add_lem :
    (c : Config) (s : Slot) (core : ℕ)
    → Ensures (λ r. AddedOr s.entry core r.0.entry r.1) (limited_add c s core)
unfolding limited_add
limited_add_lem c s core =
    Ensures-bind (Ensures-from _) (λ r h. returns (limited_lem s.entry core _ r h))

add_by_lem :
    (t : DirectoryType) (c : Config) (s : Slot) (core : ℕ)
    → Ensures (λ r. AddedOr s.entry core r.0.entry r.1) (add_by t c s core)
unfolding add_by limitless_add
add_by_lem full_map c s core = limited_add_lem c s core
add_by_lem limited_no_broadcast c s core = limited_add_lem c s core
add_by_lem limitless c s core =
    Ensures-bind (Ensures-from _) (λ r h. returns (limitless_lem (with_trap c s) core _ r h))

-- A sharer is added, or the entry stays as it is.
pub add_sharer_lem :
    (c : Config) (s : Slot) (core : ℕ)
    → Ensures (λ r. AddedOr s.entry core r.0.entry r.1) (add_sharer c s core)
unfolding add_sharer
add_sharer_lem c s core = add_by_lem c.directory_type c s core

one_by_lem :
    (t : DirectoryType) (c : Config) (s : Slot) → Ensures (λ r. r.0.entry ≡ s.entry) (one_by t c s)
unfolding one_by limited_one
one_by_lem full_map c s = Ensures-bind (Ensures-from _) (λ r h. returns refl)
one_by_lem limited_no_broadcast c s = Ensures-bind (Ensures-from _) (λ r h. returns refl)
one_by_lem limitless c s = Ensures-bind (Ensures-from _) (λ r h. returns refl)

pub get_one_sharer_lem :
    (c : Config) (s : Slot) → Ensures (λ r. r.0.entry ≡ s.entry) (get_one_sharer c s)
unfolding get_one_sharer
get_one_sharer_lem c s = one_by_lem c.directory_type c s

pub set_owner_lem :
    (e : Entry) (core : ℕ) → Ensures (λ r. record e { owner = core } ≡ r) (from (set_owner e core))
unfolding set_owner
set_owner_lem e core = Ensures-map (Ensures-from _) (λ r h. ground arith)

-- What removing a sharer changes, when it is one.
pub record Removed (e r : Entry) : Type 0 where
  pub less : get_num_sharers r + 1 ≡ get_num_sharers e
  pub dstate : r.dstate ≡ e.dstate

pub remove_sharer-Removed :
    (e : Entry) (core : ℕ) → Ensures (Removed e) (from (remove_sharer e core false))
unfolding remove_sharer get_num_sharers
remove_sharer-Removed e core = Ensures-map (Ensures-from _) (λ r h.
    elim (Option-cases (get_elem? e.sharers core)) [
      | inl out ↦ absurd (ground (arith, rw out at h))
      | inr (false, free) ↦ absurd (ground (arith, rw free at h))
      | inr (true, there) ↦
          subst (Removed e) (of_some (rw there at h))
            (record { less = count-set-false e.sharers core there; dstate = refl })
    ])

-- The transitions of an entry.
pub set_forwarder-Coherent : (e : Entry) (core : ℕ) → Coherent e → Coherent (set_forwarder e core)
unfolding set_forwarder get_num_sharers has_sharer
set_forwarder-Coherent e core p = p

pub set_address-Coherent : (e : Entry) (a : ℕ) → Coherent e → Coherent (set_address e a)
unfolding set_address get_num_sharers has_sharer
set_address-Coherent e a p = p

-- A write-back, an upgrade and a first sharer.
pub shared-Coherent : (e : Entry) → 0 < get_num_sharers e → Coherent (set_d_state e shared)
unfolding set_d_state get_num_sharers
shared-Coherent e some_sharer = some_sharer

pub modified-Coherent :
    (e : Entry)
    → get_num_sharers e ≡ 1
    → has_sharer e e.owner ≡ some true
    → Coherent (set_d_state e modified)
unfolding set_d_state get_num_sharers has_sharer
modified-Coherent e one there = (one, there)

pub exclusive-Coherent :
    (e : Entry)
    → get_num_sharers e ≡ 1
    → has_sharer e e.owner ≡ some true
    → Coherent (set_d_state e exclusive)
unfolding set_d_state get_num_sharers has_sharer
exclusive-Coherent e one there = (one, there)

pub uncached-Coherent : (e : Entry) → get_num_sharers e ≡ 0 → Coherent (set_d_state e uncached)
unfolding set_d_state get_num_sharers
uncached-Coherent e none_left = none_left

-- Read at a state that is known.
pub in_state :
    (r : Entry) {d : DState}
    → r.dstate ≡ d
    → CoherentIn d (get_num_sharers r) (has_sharer r r.owner)
    → Coherent r
in_state r same p =
    subst (λ d. CoherentIn d (get_num_sharers r) (has_sharer r r.owner)) (sym same) p

pub at_state :
    (r : Entry) {d : DState}
    → r.dstate ≡ d
    → Coherent r
    → CoherentIn d (get_num_sharers r) (has_sharer r r.owner)
at_state r same p = subst (λ d. CoherentIn d (get_num_sharers r) (has_sharer r r.owner)) same p

-- One more sharer of a shared line.
pub Grown-Coherent : (e r : Entry) (core : ℕ) → e.dstate ≡ shared → Grown e r core → Coherent r
Grown-Coherent e r core is_shared g = in_state r (g.dstate ∙ is_shared) (omega (arith, g.more))

has_some : (bs : List Bool) (i : ℕ) → get_elem? bs i ≡ some true → 0 < count bs
unfolding count
has_some [] i e = absurd (ground arith)
has_some (b ∷ bs) zero e = ground arith
has_some (b ∷ bs) (suc i) e = omega (arith, has_some bs i e)

pub counted_if_there : (e : Entry) (i : ℕ) → has_sharer e i ≡ some true → 0 < get_num_sharers e
unfolding has_sharer get_num_sharers
counted_if_there e i there = has_some e.sharers i there

-- An entry that is not uncached, is shared or held by one core.
pub Coherent-Removed : (e r : Entry) → Coherent e → Removed e r → get_num_sharers r ≢ 0 → Coherent r
Coherent-Removed e r p rem left = by_state e.dstate p rem.dstate
  where
    by_state :
        (d : DState)
        → CoherentIn d (get_num_sharers e) (has_sharer e e.owner)
        → r.dstate ≡ d
        → Coherent r
    by_state uncached q same = absurd (omega (arith, rem.less))
    by_state shared q same = in_state r same (omega arith)
    by_state owned q same = elim q [ ]
    by_state modified q same = absurd (omega (arith, rem.less, q.0))
    by_state exclusive q same = absurd (omega (arith, rem.less, q.0))
