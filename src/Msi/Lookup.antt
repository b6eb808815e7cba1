-- ===== src/Msi/Lookup.antt =====
-- Where `DramDirectoryCache::getDirectoryEntry`
-- (core/memory_subsystem/pr_l1_pr_l2_dram_directory_msi/dram_directory_cache.cc) finds a line, before and after its
-- entry is written.
use snipersimcommon.Base.{
  ℕ, zero, suc, ◌+◌, ◌≤◌, ◌<◌, ◌≡◌, ◌⊎◌, refl, sym, ap, ◌∙◌, true, false, none, some, List, [], ◌∷◌,
  get_elem?, set, length, ◌==◌, if◌then◌else◌, Bool-cases, Option-cases, inl, inr, arith,
  get_elem?-set_self, get_elem?-set_ne,
}
use snipersimcommon.Run.{done, abort, from, ◌>>=◌}
use snipersimcommon.Msi.Message.{ShmemReq}
use snipersimcommon.Msi.Slots.{
  Config, Slot, DirectoryCache, way, first_way, find_way, when_found, get_directory_entry, read,
  write,
}
use snipersimcommon.Msi.State.{Setup, State, existing, present}
use snipersimcommon.Msi.Requests.{Next, address, entry_for, entry_at}

-- The way of a line, and what is there.
pub record Resides (c : Config) (d : DirectoryCache) (x i : ℕ) (slot : Slot) : Type 0 where
  pub found : find_way c.associativity d.slots (first_way c x) x ≡ done (some i)
  pub there : get_elem? d.slots i ≡ some slot

find_way_next :
    (left : ℕ) (slots : List Slot) (k x : ℕ) (s : Slot)
    → get_elem? slots k ≡ some s
    → find_way (suc left) slots k x
      ≡ (if s.entry.address == x then done (some k) else find_way left slots (k + 1) x)
unfolding find_way ◌>>=◌ from
find_way_next left slots k x s e = rw e refl

find_way_out :
    (left : ℕ) (slots : List Slot) (k x : ℕ)
    → get_elem? slots k ≡ none
    → find_way (suc left) slots k x ≡ abort
unfolding find_way ◌>>=◌ from
find_way_out left slots k x e = rw e refl

no_way : {A : Type 0} {a : A} → abort ≡ done a → ⊥
no_way e = ground arith

-- How a search comes to its way: here, or further on.
abbrev Steps : ℕ → List Slot → ℕ → ℕ → ℕ → Slot → Type 0
Steps left slots k x i s =
    (((s.entry.address == x) ≡ true) × (k ≡ i))
    ⊎ (((s.entry.address == x) ≡ false) × (find_way left slots (k + 1) x ≡ done (some i)))

find_way_step :
    (left : ℕ) (slots : List Slot) (k x i : ℕ)
    → find_way (suc left) slots k x ≡ done (some i)
    → (s : Slot) × (get_elem? slots k ≡ some s) × Steps left slots k x i s
find_way_step left slots k x i h = elim (Option-cases (get_elem? slots k)) [
  | inl out ↦ absurd (no_way (sym (find_way_out left slots k x out) ∙ h))
  | inr (s, e) ↦
      let g = sym (find_way_next left slots k x s e) ∙ h in
      elim (Bool-cases (s.entry.address == x)) [
        | inl same ↦ (s, e, inl (same, ground (arith, rw same at g)))
        | inr other ↦ (s, e, inr (other, rw other at g))
      ]
]

find_way_above :
    (left : ℕ) (slots : List Slot) (k x i : ℕ) → find_way left slots k x ≡ done (some i) → k ≤ i
unfolding find_way
find_way_above zero slots k x i h = absurd (ground arith)
find_way_above (suc left) slots k x i h =
    let (s, e, steps) = find_way_step left slots k x i h in
    elim steps [
      | inl (same, here) ↦ omega arith
      | inr (other, further) ↦ omega (arith, find_way_above left slots (k + 1) x i further)
    ]

in_range : (slots : List Slot) (i : ℕ) (s : Slot) → get_elem? slots i ≡ some s → i < length slots
in_range [] i s e = absurd (ground arith)
in_range (t ∷ slots) zero s e = omega arith
in_range (t ∷ slots) (suc i) s e = omega (arith, in_range slots i s e)

-- The way of a line stays its way when its entry is written, with the same address.
find_way-set :
    (left : ℕ) (slots : List Slot) (k x i : ℕ) (new : Slot)
    → find_way left slots k x ≡ done (some i)
    → new.entry.address ≡ x
    → find_way left (set slots i new) k x ≡ done (some i)
unfolding find_way
find_way-set zero slots k x i new h e = absurd (ground arith)
find_way-set (suc left) slots k x i new h e =
    let (s, there, steps) = find_way_step left slots k x i h in
    elim steps [
      | inl (same, here) ↦
          let written =
            ap (λ z. get_elem? (set slots z new) k) (sym here)
            ∙ get_elem?-set_self slots k new (in_range slots k s there) in
          let test : (new.entry.address == x) ≡ true = ground arith in
          find_way_next left (set slots i new) k x new written
          ∙ rw test (ap (λ z. done (some z)) here)
      | inr (other, further) ↦
          let above = find_way_above left slots (k + 1) x i further in
          let kept = get_elem?-set_ne slots {i = i} {j = k} new (λ same. omega arith) ∙ there in
          find_way_next left (set slots i new) k x s kept
          ∙ rw other (find_way-set left slots (k + 1) x i new further e)
    ]

pub Resides-write :
    {c : Config} {d : DirectoryCache} {x i : ℕ} {slot : Slot} (new : Slot)
    → Resides c d x i slot
    → new.entry.address ≡ x
    → Resides c (write d (way i) new) x i new
unfolding write
Resides-write {d = d} {i = i} {slot} new r e = record {
  found = find_way-set _ d.slots _ _ i new r.found e;
  there = get_elem?-set_self d.slots i new (in_range d.slots i slot r.there);
}

pub get_directory_entry_lem :
    {c : Config} {d : DirectoryCache} {x i : ℕ} {slot : Slot}
    → Resides c d x i slot
    → get_directory_entry c d x ≡ done (d, some (way i))
unfolding get_directory_entry when_found ◌>>=◌
get_directory_entry_lem r = rw r.found refl

read_lem :
    {c : Config} {d : DirectoryCache} {x i : ℕ} {slot : Slot}
    → Resides c d x i slot
    → read d (way i) ≡ done slot
unfolding read from
read_lem r = rw r.there refl

pub existing-Resides :
    (p : Setup) (s : State) {x i : ℕ} {slot : Slot}
    → Resides p.directory s.cache x i slot
    → existing p s x ≡ done (s, way i, slot)
unfolding existing present ◌>>=◌
existing-Resides p s r = rw (get_directory_entry_lem r, read_lem r) refl

pub entry_for-Resides :
    (p : Setup) (next : Next) (s : State) (req : ShmemReq) {i : ℕ} {slot : Slot}
    → Resides p.directory s.cache (address req) i slot
    → entry_for p next s req ≡ done (s, way i, slot)
unfolding entry_for entry_at ◌>>=◌
entry_for-Resides p next s req r = rw (get_directory_entry_lem r, read_lem r) refl
