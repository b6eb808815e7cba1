-- ===== src/Msi/Kept/Cache.antt =====
-- The operations of
-- core/memory_subsystem/pr_l1_pr_l2_dram_directory_msi/dram_directory_cache.cc keep all entries coherent.
use snipersimcommon.Base.{ℕ, zero, suc, ◌+◌, Option, none, some, List, ◌==◌, Bool-cases, inl, inr}
use snipersimcommon.Base.Every.{Every, nothing, both, Every-get_elem?, Every-set, Every-append}
use snipersimcommon.Run.{
  Ensures, returns, aborts, Ensures-bind, Ensures-map, Ensures-from, Ensures-check,
}
use snipersimcommon.Msi.Slots.{
  Config, Slot, DirectoryCache, Place, way, replaced_at, find_way, claim, in_replaced, when_free,
  when_found, get_directory_entry, read, write, candidates, get_replacement_candidates, move_out,
  replace_directory_entry, erase, invalidate_directory_entry,
}
use snipersimcommon.Msi.Coherent.{
  CoherentSlot, create_directory_entry-Coherent, set_address-Coherent,
}

pub record SoundCache (d : DirectoryCache) : Type 0 where
  pub slots : Every CoherentSlot d.slots
  pub replaced : Every CoherentSlot d.replaced

pub read-Coherent :
    {d : DirectoryCache} → SoundCache d → (place : Place) → Ensures CoherentSlot (read d place)
unfolding read
read-Coherent v (way i) = Ensures-map (Ensures-from _) (λ s h. Every-get_elem? v.slots i s h)
read-Coherent v (replaced_at i) =
    Ensures-map (Ensures-from _) (λ s h. Every-get_elem? v.replaced i s h)

pub write-SoundCache :
    {d : DirectoryCache}
    → SoundCache d
    → (place : Place) (s : Slot) → CoherentSlot s
    → SoundCache (write d place s)
unfolding write
write-SoundCache v (way i) s p = record { slots = Every-set v.slots i s p; replaced = v.replaced }
write-SoundCache v (replaced_at i) s p = record {
  slots = v.slots;
  replaced = Every-set v.replaced i s p;
}

-- A search does not spend fuel.
pub find_way_ends :
    (left : ℕ) (slots : List Slot) (i address : ℕ)
    → Ensures (λ _. Unit) (find_way left slots i address)
unfolding find_way
find_way_ends zero slots i address = returns tt
find_way_ends (suc left) slots i address = Ensures-bind (Ensures-from _) (λ s h.
    elim (Bool-cases (s.entry.address == address)) [
      | inl same ↦ rw same (returns tt)
      | inr other ↦ rw other (find_way_ends left slots (i + 1) address)
    ])

in_replaced-SoundCache :
    {d : DirectoryCache} → SoundCache d → (i : Option ℕ) → SoundCache (in_replaced d i).0
unfolding in_replaced
in_replaced-SoundCache v none = v
in_replaced-SoundCache v (some i) = v

when_free-SoundCache :
    {d : DirectoryCache}
    → SoundCache d
    → (address : ℕ) (free : Option ℕ) → Ensures (λ r. SoundCache r.0) (when_free d address free)
unfolding when_free claim in_replaced
when_free-SoundCache v address (some i) = Ensures-bind (Ensures-from _) (λ s h. returns (record {
  slots =
      Every-set v.slots i _ (set_address-Coherent s.entry address (Every-get_elem? v.slots i s h));
  replaced = v.replaced;
}))
when_free-SoundCache v address none = returns (in_replaced-SoundCache v _)

when_found-SoundCache :
    (c : Config) {d : DirectoryCache}
    → SoundCache d
    → (address : ℕ) (found : Option ℕ)
    → Ensures (λ r. SoundCache r.0) (when_found c d address found)
unfolding when_found
when_found-SoundCache c v address (some i) = returns v
when_found-SoundCache c v address none =
    Ensures-bind (find_way_ends _ _ _ _) (λ free _. when_free-SoundCache v address free)

pub get_directory_entry-SoundCache :
    (c : Config) {d : DirectoryCache}
    → SoundCache d
    → (address : ℕ) → Ensures (λ r. SoundCache r.0) (get_directory_entry c d address)
unfolding get_directory_entry
get_directory_entry-SoundCache c v address =
    Ensures-bind (find_way_ends _ _ _ _) (λ found _. when_found-SoundCache c v address found)

candidates_end :
    (left i ptr base : ℕ) (slots : List Slot)
    → Ensures (λ _. Unit) (candidates left i ptr base slots)
unfolding candidates
candidates_end zero i ptr base slots = returns tt
candidates_end (suc left) i ptr base slots =
    Ensures-bind (Ensures-from _)
      (λ s h. Ensures-bind (candidates_end left (i + 1) ptr base slots) (λ rest _. returns tt))

pub get_replacement_candidates-SoundCache :
    (c : Config) {d : DirectoryCache}
    → SoundCache d
    → (address : ℕ) → Ensures (λ r. SoundCache r.0) (get_replacement_candidates c d address)
unfolding get_replacement_candidates
get_replacement_candidates-SoundCache c v address =
    Ensures-bind (get_directory_entry-SoundCache c v address) (λ r w. Ensures-check (λ _.
      Ensures-bind (Ensures-from _) (λ ptr _.
        Ensures-bind (candidates_end _ _ _ _ _)
          (λ list _. returns (record { slots = w.slots; replaced = w.replaced })))))

move_out-SoundCache :
    (c : Config) {d : DirectoryCache}
    → SoundCache d
    → (address : ℕ) (found : Option ℕ) → Ensures (λ r. SoundCache r.0) (move_out c d address found)
unfolding move_out
move_out-SoundCache c v address none = aborts
move_out-SoundCache c v address (some i) = Ensures-bind (Ensures-from _) (λ s h. returns (record {
  slots =
      Every-set v.slots i _ (set_address-Coherent _ address (create_directory_entry-Coherent c));
  replaced = Every-append v.replaced (both (Every-get_elem? v.slots i s h) nothing);
}))

pub replace_directory_entry-SoundCache :
    (c : Config) {d : DirectoryCache}
    → SoundCache d
    → (replaced_address address : ℕ)
    → Ensures (λ r. SoundCache r.0) (replace_directory_entry c d replaced_address address)
unfolding replace_directory_entry
replace_directory_entry-SoundCache c v replaced_address address =
    Ensures-bind (find_way_ends _ _ _ _) (λ found _. move_out-SoundCache c v address found)

erase-Every :
    (address : ℕ) {slots : List Slot}
    → Every CoherentSlot slots
    → Ensures (λ r. Every CoherentSlot r) (erase address slots)
unfolding erase
erase-Every address nothing = aborts
erase-Every address (both {x} {xs} p all) = elim (Bool-cases (x.entry.address == address)) [
  | inl same ↦ rw same (returns all)
  | inr other ↦ rw other (Ensures-bind (erase-Every address all) (λ kept q. returns (both p q)))
]

pub invalidate_directory_entry-SoundCache :
    {d : DirectoryCache}
    → SoundCache d
    → (address : ℕ) → Ensures SoundCache (invalidate_directory_entry d address)
unfolding invalidate_directory_entry
invalidate_directory_entry-SoundCache v address =
    Ensures-bind (erase-Every address v.replaced)
      (λ kept q. returns (record { slots = v.slots; replaced = q }))
