-- ===== src/Cache/Policy/Srrip/Victim.antt =====
-- Plain SRRIP (one attempt) of cache_set_srrip.cc finds a victim within its passes.
use snipersimcommon.Base.{
  ℕ, zero, suc, ◌+◌, ◌-◌, ◌≤◌, ◌<◌, ◌≡◌, refl, ap, ◌∙◌, inl, inr, Bool, true, false, none, some,
  map, arith, ltb, leb, get_or, set, u8, first_from, first_from-none, first_from-IsFirst,
  Bool-cases, Option-cases, length, length-map, get_or-map, get_or-set_self, subst, sym,
}
use snipersimcommon.Cache.Block.{Ways, is_invalid_way, is_valid_replacement}
use snipersimcommon.Cache.Policy.Pointer.{advance, advance-lt, seek, seek_round}
use snipersimcommon.Cache.Policy.SetInfo.{
  SetInfo, Cntlr, Serves, increment_attempt, increment_attempt_served,
}
use snipersimcommon.Cache.Policy.Srrip.{
  Srrip, found, onward, take_victim, pass, passes, bump, bump_all, get_replacement_index,
}

-- The state between calls, for a cache without query-based selection.
pub record IsSrrip (w : Ways) (s : Srrip) : Type 0 where
  pub small : w.assoc ≤ u8
  pub long : length s.rrip_bits ≡ w.assoc
  pub one : s.num_attempts ≡ 1
  pub top : s.rrip_max < u8
  pub bounded : (j : ℕ) → j < w.assoc → get_or s.rrip_bits j 0 ≤ s.rrip_max
  pub pointed : s.pointer < w.assoc

abbrev is_far : Srrip → ℕ → Bool
is_far s i = leb s.rrip_max (get_or s.rrip_bits i 0)

-- The state after the way at the pointer of `s` is taken.
abbrev pub taken : Ways → SetInfo → Srrip → ℕ → Srrip
taken w info s i = record s {
  pointer = advance w.assoc i;
  rrip_bits = set s.rrip_bits i s.rrip_insert;
  info = info;
}

module _ (cntlr : Cntlr) (w : Ways) (info : SetInfo) where
  -- The way at the pointer has its counter at the maximum.
  pass_here :
      (n : ℕ) (s : Srrip)
      → s.num_attempts ≡ 1
      → increment_attempt s.info 0 ≡ some info
      → is_valid_replacement w s.pointer ≡ true
      → is_far s s.pointer ≡ true
      → pass cntlr w (suc n) 0 s ≡ found s.pointer (taken w info s s.pointer)
  unfolding pass take_victim
  pass_here n s one counts cand far =
      let last : ltb 0 (s.num_attempts - 1) ≡ false = ground arith in rw (far, last, counts, cand)

  -- A pass is the search for the first counter at its maximum.
  pass_lem :
      (n : ℕ) (s : Srrip) (i q : ℕ)
      → s.num_attempts ≡ 1
      → increment_attempt s.info 0 ≡ some info
      → is_valid_replacement w i ≡ true
      → seek w.assoc (is_far s) n s.pointer ≡ some (i, q)
      → pass cntlr w n 0 s ≡ found i (taken w info s i)
  unfolding pass seek take_victim
  pass_lem zero s i q one counts cand e = cc
  pass_lem (suc n) s i q one counts cand e = elim (Bool-cases (is_far s s.pointer)) [
    | inl far ↦
        let same : s.pointer ≡ i = ground arith in
        pass_here n s one counts (subst (λ k. is_valid_replacement w k ≡ true) (sym same) cand) far
        ∙ ap (λ k. found k (taken w info s k)) same
    | inr near ↦
        rw (near, pass)
          (pass_lem n (record s { pointer = advance w.assoc s.pointer }) i q one counts cand
            (ground arith))
  ]

  pass_none :
      (n : ℕ) (s : Srrip)
      → w.assoc ≤ u8
      → s.pointer < w.assoc
      → ((j : ℕ) → j < w.assoc → is_far s j ≡ false)
      → (p : ℕ) × (pass cntlr w n 0 s ≡ onward 0 (record s { pointer = p })) × (p < w.assoc)
  unfolding pass
  pass_none zero s small hp near = (s.pointer, refl, hp)
  pass_none (suc n) s small hp near =
      let (p, e, lt) =
        pass_none n (record s { pointer = advance w.assoc s.pointer }) small
          (advance-lt w.assoc small s.pointer hp) near in
      (p, rw (near s.pointer hp) e, lt)

-- When no counter is at the maximum, every one of them takes a step.
module _ (w : Ways) (s : Srrip) (v : IsSrrip w s)
    (near : (j : ℕ) → j < w.assoc → is_far s j ≡ false) where
  stepped :
      (j : ℕ)
      → j < w.assoc
      → get_or (map (bump s.rrip_max) s.rrip_bits) j 0 ≡ get_or s.rrip_bits j 0 + 1
  unfolding bump
  stepped j hj =
      ground (arith, near j hj, v.top, v.long, get_or-map (bump s.rrip_max) s.rrip_bits j 0 0)

  bump_all-IsSrrip : (p : ℕ) → p < w.assoc → IsSrrip w (bump_all (record s { pointer = p }))
  bump_all-IsSrrip p hp = record {
    small = v.small;
    long = length-map s.rrip_bits (bump s.rrip_max) ∙ v.long;
    one = v.one;
    top = v.top;
    bounded = λ j hj. ground (arith, stepped j hj, near j hj);
    pointed = hp;
  }

passes_found :
    (cntlr : Cntlr) (w : Ways) (m : ℕ) (s : Srrip) (i : ℕ) (t : Srrip)
    → pass cntlr w w.assoc 0 s ≡ found i t
    → passes cntlr w (suc m) 0 s ≡ some (i, t)
unfolding passes
passes_found cntlr w m s i t e = rw (e, passes)

-- Within `m` passes a victim is found, if some counter reaches the maximum within them, and no line
-- has a larger counter.
passes_lem :
    (cntlr : Cntlr) (w : Ways) (info : SetInfo) (m : ℕ) (s : Srrip) (c : ℕ)
    → IsSrrip w s
    → increment_attempt s.info 0 ≡ some info
    → ((j : ℕ) → j < w.assoc → is_valid_replacement w j ≡ true)
    → c < w.assoc
    → s.rrip_max < get_or s.rrip_bits c 0 + m
    → (i : ℕ) × (t : Srrip) × (passes cntlr w m 0 s ≡ some (i, t))
      × (i < w.assoc)
      × ((j : ℕ) → j < w.assoc → get_or s.rrip_bits j 0 ≤ get_or s.rrip_bits i 0)
      × (t.pointer ≡ advance w.assoc i)
      × (get_or t.rrip_bits i 0 ≡ s.rrip_insert)
unfolding passes
passes_lem cntlr w info zero s c v counts ok hc h = absurd (omega (arith, v.bounded c hc))
passes_lem cntlr w info (suc m) s c v counts ok hc h =
    elim (Option-cases (first_from w.assoc 0 (is_far s))) [
      | inl no_far ↦
          let near = first_from-none w.assoc 0 (is_far s) no_far in
          let (p, e, hp) =
            pass_none cntlr w info w.assoc s v.small v.pointed
              (λ j hj. near j (omega arith) (omega arith)) in
          let near' = λ (j : ℕ) (hj : j < w.assoc). near j (omega arith) (omega arith) in
          let (i, t, f, hi, most, at, inserted) =
            passes_lem cntlr w info m (bump_all (record s { pointer = p })) c
              (bump_all-IsSrrip w s v near' p hp) counts ok hc
              (omega (arith, stepped w s v near' c hc)) in
          (
            i,
            t,
            rw (e, passes) f,
            hi,
            (λ j hj. omega (arith, most j hj, stepped w s v near' i hi, stepped w s v near' j hj)),
            at,
            inserted,
          )
      | inr (k, some_far) ↦
          let far = first_from-IsFirst w.assoc 0 (is_far s) some_far in
          let (i, e, hi, top) =
            seek_round w.assoc (is_far s) s.pointer k v.small v.pointed (omega (arith, far.below))
              far.hit in
          (
            i,
            taken w info s i,
            passes_found cntlr w m s i (taken w info s i)
                (pass_lem cntlr w info w.assoc s i (advance w.assoc i) v.one counts (ok i hi) e),
            hi,
            (λ j hj. ground (arith, v.bounded j hj)),
            refl,
            get_or-set_self s.rrip_bits i s.rrip_insert 0 (omega (arith, v.long)),
          )
    ]

-- Plain SRRIP on a full set whose lines may all be replaced always finds a victim, one with the
-- largest re-reference prediction; the pointer moves behind it and its prediction is set to `long`.
pub evicts_farthest :
    (cntlr : Cntlr) (w : Ways) (s : Srrip)
    → IsSrrip w s
    → Serves s.info s.num_attempts
    → first_from w.assoc 0 (is_invalid_way w) ≡ none
    → ((j : ℕ) → j < w.assoc → is_valid_replacement w j ≡ true)
    → (i : ℕ) × (t : Srrip) × (get_replacement_index cntlr w s ≡ some (i, t))
      × (i < w.assoc)
      × ((j : ℕ) → j < w.assoc → get_or s.rrip_bits j 0 ≤ get_or s.rrip_bits i 0)
      × (t.pointer ≡ advance w.assoc i)
      × (get_or t.rrip_bits i 0 ≡ s.rrip_insert)
unfolding get_replacement_index
evicts_farthest cntlr w s v serves full ok =
    let (info, counts) =
      increment_attempt_served s.info 0 s.num_attempts (omega (arith, v.one)) serves in
    rw full
      (passes_lem cntlr w info (s.rrip_max + 1) s s.pointer v counts ok v.pointed (omega arith))
