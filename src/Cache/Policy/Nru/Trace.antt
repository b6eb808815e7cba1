-- ===== src/Cache/Policy/Nru/Trace.antt =====
-- The bits of core/memory_subsystem/cache/cache_set_nru.cc under a trace of accesses.
use snipersimcommon.Base.{
  ℕ, zero, suc, ◌+◌, ◌*◌, ◌<◌, ◌≡◌, refl, ap, ◌∙◌, sym, Bool, false, ◌||◌, List, [], ◌∷◌, ◌++◌,
  arith, ◌==◌, if◌then◌else◌, get_or, set, length, replicate, u8, length-set, length-replicate,
  get_or-replicate, take, drop, take-append-drop, length-take, length-drop, get_or-set_self,
  get_or-set_ne, ℕ_discrete,
}
use snipersimcommon.Cache.Policy.Nru.{Nru, update_replacement_index}

-- The accesses of a trace, one after the other.
unfoldable pub touch_all : ℕ → Nru → List ℕ → Nru
touch_all assoc s [] = s
touch_all assoc s (way ∷ ways) = touch_all assoc (update_replacement_index assoc s way) ways

-- Whether a way is in a trace.
abbrev pub touched : ℕ → List ℕ → Bool
touched way [] = false
touched way (w ∷ ways) = (w == way) || touched way ways

-- The bits of a set after the accesses of a trace that clears nothing.
mark : List ℕ → List ℕ → List ℕ
mark bits [] = bits
mark bits (way ∷ ways) = mark (set bits way 1) ways

touch_all-append :
    (assoc : ℕ) (s : Nru) (ts us : List ℕ)
    → touch_all assoc s (ts ++ us) ≡ touch_all assoc (touch_all assoc s ts) us
unfolding touch_all
touch_all-append assoc s [] us = refl
touch_all-append assoc s (t ∷ ts) us =
    touch_all-append assoc (update_replacement_index assoc s t) ts us

-- The state when no access is counted since the bits were cleared.
abbrev pub cleared : ℕ → Nru → Nru
cleared assoc s = record s { lru_bits = replicate assoc 0; num_bits_set = 0 }

update_few :
    (assoc : ℕ) (s : Nru) (t : ℕ)
    → assoc < u8
    → s.num_bits_set + 1 < assoc
    → update_replacement_index assoc s t
      ≡ record s { lru_bits = set s.lru_bits t 1; num_bits_set = s.num_bits_set + 1 }
unfolding update_replacement_index
update_few assoc s t small few = ground arith

update_last :
    (assoc : ℕ) (s : Nru) (t : ℕ)
    → assoc < u8
    → s.num_bits_set + 1 ≡ assoc
    → update_replacement_index assoc s t ≡ cleared assoc s
unfolding update_replacement_index
update_last assoc s t small last = ground arith

few_touches :
    (assoc : ℕ) (s : Nru) (ts : List ℕ)
    → assoc < u8
    → s.num_bits_set + length ts < assoc
    → touch_all assoc s ts
      ≡ record s { lru_bits = mark s.lru_bits ts; num_bits_set = s.num_bits_set + length ts }
unfolding touch_all mark
few_touches assoc s [] small few = ap (λ n. record s { num_bits_set = n }) (omega arith)
few_touches assoc s (t ∷ ts) small few =
    let next = record s { lru_bits = set s.lru_bits t 1; num_bits_set = s.num_bits_set + 1 } in
    ap (λ x. touch_all assoc x ts) (update_few assoc s t small (omega (arith, few)))
    ∙ (few_touches assoc next ts small (omega (arith, few))
        ∙ ap (λ n. record s { lru_bits = mark next.lru_bits ts; num_bits_set = n }) (omega arith))

-- The accesses that fill the count clear the bits.
full_touches :
    (assoc : ℕ) (s : Nru) (t : ℕ) (ts : List ℕ)
    → assoc < u8
    → s.num_bits_set + suc (length ts) ≡ assoc
    → touch_all assoc s (t ∷ ts) ≡ cleared assoc s
unfolding touch_all
full_touches assoc s t [] small full = update_last assoc s t small (omega (arith, full))
full_touches assoc s t (u ∷ ts) small full =
    let next = record s { lru_bits = set s.lru_bits t 1; num_bits_set = s.num_bits_set + 1 } in
    ap (λ x. touch_all assoc x (u ∷ ts)) (update_few assoc s t small (omega (arith, full)))
    ∙ full_touches assoc next u ts small (omega (arith, full))

one_round :
    (assoc : ℕ) (s : Nru) (ts : List ℕ)
    → assoc < u8
    → 0 < assoc
    → length ts ≡ assoc
    → touch_all assoc (cleared assoc s) ts ≡ cleared assoc s
one_round assoc s [] small some_way full = absurd (omega arith)
one_round assoc s (t ∷ ts) small some_way full =
    full_touches assoc (cleared assoc s) t ts small (omega (arith, full))

rounds :
    (assoc k : ℕ) (s : Nru) (ts : List ℕ)
    → assoc < u8
    → 0 < assoc
    → length ts ≡ k * assoc
    → touch_all assoc (cleared assoc s) ts ≡ cleared assoc s
unfolding touch_all
rounds assoc zero s [] small some_way full = refl
rounds assoc zero s (t ∷ ts) small some_way full = absurd (omega (arith, full))
rounds assoc (suc k) s ts small some_way full =
    let first =
      one_round assoc s (take assoc ts) small some_way
        (omega (arith, length-take assoc ts, full)) in
    let rest =
      rounds assoc k s (drop assoc ts) small some_way (omega (arith, length-drop assoc ts, full)) in
    ap (touch_all assoc (cleared assoc s)) (sym (take-append-drop assoc ts))
    ∙ (touch_all-append assoc (cleared assoc s) (take assoc ts) (drop assoc ts)
        ∙ (ap (λ x. touch_all assoc x (drop assoc ts)) first ∙ rest))

mark-touched :
    (bits ways : List ℕ) (i : ℕ)
    → i < length bits
    → get_or (mark bits ways) i 0 ≡ (if touched i ways then 1 else get_or bits i 0)
unfolding mark
mark-touched bits [] i inside = refl
mark-touched bits (w ∷ ways) i inside =
    let ih = mark-touched (set bits w 1) ways i (omega (arith, length-set bits w 1, inside)) in
    elim (ℕ_discrete w i) [
      | yes same ↦ ground (arith, ih, same, get_or-set_self bits w 1 0)
      | no other ↦ ground (arith, ih, other, get_or-set_ne bits w i 1 0 other)
    ]

-- With at least one way and fewer than 256, from bits that are clear with nothing counted: after any trace whose
-- length is a multiple of the number of ways and then fewer accesses than ways, the count is that of
-- these last accesses, the pointer is as before, and the bit of a way is set exactly if one of these last
-- accesses was to it. So the bits are cleared by every `assoc` accesses, whichever ways they are to.
pub clears_each_round :
    (assoc k i : ℕ) (s : Nru) (before since : List ℕ)
    → assoc < u8
    → s.lru_bits ≡ replicate assoc 0
    → s.num_bits_set ≡ 0
    → length before ≡ k * assoc
    → length since < assoc
    → i < assoc
    → let t = touch_all assoc s (before ++ since) in
      (t.num_bits_set ≡ length since)
      × (t.pointer ≡ s.pointer)
      × (get_or t.lru_bits i 0 ≡ (if touched i since then 1 else 0))
clears_each_round assoc k i s before since small clear none_set full few inside =
    let c = cleared assoc s in
    let run : touch_all assoc c (before ++ since)
        ≡ record s { lru_bits = mark (replicate assoc 0) since; num_bits_set = length since } =
      touch_all-append assoc c before since
      ∙ (ap (λ x. touch_all assoc x since)
            (rounds assoc k s before small (omega (arith, inside)) full)
          ∙ (few_touches assoc c since small (omega (arith, few))
              ∙ ap (λ n. record s { lru_bits = mark (replicate assoc 0) since; num_bits_set = n })
                  (omega arith))) in
    let bits =
      mark-touched (replicate assoc 0) since i (rw (length-replicate {A = ℕ} assoc 0) inside) in
    rw (clear, none_set, run)
      (
        refl,
        refl,
        bits
            ∙ ap (λ b. if touched i since then 1 else b)
                (get_or-replicate {A = ℕ} assoc i 0 0 inside),
      )
