-- ===== src/Directory/Sharers.antt =====
-- What the sharer bits of an entry hold: the count, the list and the effect of a write agree.
use snipersimcommon.Base.{
  ℕ, zero, suc, ◌+◌, ◌-◌, ◌≤◌, ◌<◌, ◌≡◌, ◌≢◌, refl, sym, ap, ◌∙◌, Bool, true, false, some, List, [],
  ◌∷◌, get_elem?, set, length, arith, of_some, get_elem?-set_self, get_elem?-set_ne,
}
use snipersimcommon.Directory.Entry.{
  Entry, has_sharer, count, get_num_sharers, list_from, get_sharers_list, remove_sharer,
}

count-set-true :
    (bs : List Bool) (i : ℕ) → get_elem? bs i ≡ some false → count (set bs i true) ≡ count bs + 1
unfolding count
count-set-true [] i e = absurd (ground arith)
count-set-true (b ∷ bs) zero e = ground arith
count-set-true (b ∷ bs) (suc i) e = omega (arith, count-set-true bs i e)

pub count-set-false :
    (bs : List Bool) (i : ℕ) → get_elem? bs i ≡ some true → count (set bs i false) + 1 ≡ count bs
unfolding count
count-set-false [] i e = absurd (ground arith)
count-set-false (b ∷ bs) zero e = ground arith
count-set-false (b ∷ bs) (suc i) e = omega (arith, count-set-false bs i e)

pub set-set_back :
    (bs : List Bool) (i : ℕ) (a b : Bool) → get_elem? bs i ≡ some b → set (set bs i a) i b ≡ bs
set-set_back [] i a b e = refl
set-set_back (c ∷ bs) zero a b e = let same = of_some e in ap (λ d. d ∷ bs) (sym same)
set-set_back (c ∷ bs) (suc i) a b e = ap (λ ds. c ∷ ds) (set-set_back bs i a b e)

pub in_range : (bs : List Bool) (i : ℕ) (b : Bool) → get_elem? bs i ≡ some b → i < length bs
in_range [] i b e = absurd (ground arith)
in_range (c ∷ bs) zero b e = omega arith
in_range (c ∷ bs) (suc i) b e = omega (arith, in_range bs i b e)

length-list_from : (j : ℕ) (bs : List Bool) → length (list_from j bs) ≡ count bs
unfolding list_from count
length-list_from j [] = refl
length-list_from j (true ∷ bs) = omega (arith, length-list_from (j + 1) bs)
length-list_from j (false ∷ bs) = omega (arith, length-list_from (j + 1) bs)

list_from_sound :
    (j : ℕ) (bs : List Bool) (k id : ℕ)
    → get_elem? (list_from j bs) k ≡ some id
    → (j ≤ id) × (get_elem? bs (id - j) ≡ some true)
unfolding list_from
list_from_sound j [] k id e = absurd (ground arith)
list_from_sound j (true ∷ bs) zero id e =
    let same = of_some e in let here : id - j ≡ 0 = omega arith in (omega arith, rw here refl)
list_from_sound j (true ∷ bs) (suc k) id e =
    let (above, there) = list_from_sound (j + 1) bs k id e in
    let next : id - j ≡ suc (id - (j + 1)) = omega arith in (omega arith, rw next there)
list_from_sound j (false ∷ bs) k id e =
    let (above, there) = list_from_sound (j + 1) bs k id e in
    let next : id - j ≡ suc (id - (j + 1)) = omega arith in (omega arith, rw next there)

list_from_complete :
    (j : ℕ) (bs : List Bool) (i : ℕ)
    → get_elem? bs i ≡ some true
    → (k : ℕ) × (get_elem? (list_from j bs) k ≡ some (j + i))
unfolding list_from
list_from_complete j [] i e = absurd (ground arith)
list_from_complete j (true ∷ bs) zero e = (0, ap some (omega arith))
list_from_complete j (false ∷ bs) zero e = absurd (ground arith)
list_from_complete j (true ∷ bs) (suc i) e =
    let (k, there) = list_from_complete (j + 1) bs i e in (suc k, there ∙ ap some (omega arith))
list_from_complete j (false ∷ bs) (suc i) e =
    let (k, there) = list_from_complete (j + 1) bs i e in (k, there ∙ ap some (omega arith))

-- The list of sharers has as many elements as are counted, all of them are sharers, and every sharer
-- is in it.
pub get_sharers_list_lem :
    (e : Entry)
    → (length (get_sharers_list e) ≡ get_num_sharers e)
      × ((k id : ℕ) → get_elem? (get_sharers_list e) k ≡ some id → has_sharer e id ≡ some true)
      × ((id : ℕ)
          → has_sharer e id ≡ some true
          → (k : ℕ) × (get_elem? (get_sharers_list e) k ≡ some id))
unfolding get_sharers_list get_num_sharers has_sharer
get_sharers_list_lem e = (
  length-list_from 0 e.sharers,
  λ k id there.
      let (_, hit) = list_from_sound 0 e.sharers k id there in
      ap (get_elem? e.sharers) (omega arith) ∙ hit,
  λ id there.
      let (k, hit) = list_from_complete 0 e.sharers id there in (k, hit ∙ ap some (omega arith)),
)

-- An entry whose bit for a core was set, and no other.
pub record Added (e r : Entry) (id : ℕ) : Type 0 where
  pub more : get_num_sharers r ≡ get_num_sharers e + 1
  pub there : has_sharer r id ≡ some true
  pub others : (j : ℕ) → j ≢ id → has_sharer r j ≡ has_sharer e j
  pub back : remove_sharer r id false ≡ some e

pub set-Added :
    (e : Entry) (id : ℕ)
    → has_sharer e id ≡ some false
    → Added e (record e { sharers = set e.sharers id true }) id
unfolding has_sharer get_num_sharers remove_sharer
set-Added e id free =
    let here = get_elem?-set_self e.sharers id true (in_range e.sharers id false free) in
    record {
      more = count-set-true e.sharers id free;
      there = here;
      others = λ j other. get_elem?-set_ne e.sharers true (λ same. other (sym same));
      back = rw (here, set-set_back e.sharers id true false free);
    }

-- Removing a sharer, with no reply expected, takes it out, and nothing else.
pub remove_sharer_lem :
    (e : Entry) (id : ℕ)
    → has_sharer e id ≡ some true
    → (r : Entry) × (remove_sharer e id false ≡ some r)
      × (get_num_sharers r + 1 ≡ get_num_sharers e)
      × (has_sharer r id ≡ some false)
      × ((j : ℕ) → j ≢ id → has_sharer r j ≡ has_sharer e j)
unfolding has_sharer get_num_sharers remove_sharer
remove_sharer_lem e id there = (
  record e { sharers = set e.sharers id false },
  rw there,
  count-set-false e.sharers id there,
  get_elem?-set_self e.sharers id false (in_range e.sharers id true there),
  λ j other. get_elem?-set_ne e.sharers false (λ same. other (sym same)),
)
