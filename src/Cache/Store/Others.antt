-- ===== src/Cache/Store/Others.antt =====
-- What an insertion of cache.cc means for the other addresses.
use snipersimcommon.Base.{
  ℕ, ◌≡◌, ◌≢◌, refl, sym, ap, ◌∙◌, inl, inr, Bool, true, false, not, ◌&&◌, Option, none, some, List,
  arith, get_elem?, set, get_elem?-set_self, get_elem?-set_ne, Option-cases, Bool-cases, of_some,
  ◌==◌, if◌then◌else◌, ℕ_discrete,
}
use snipersimcommon.Cache.Block.{Block, block_at, invalid_tag, is_valid}
use snipersimcommon.Cache.Policy.SetInfo.{Cntlr}
use snipersimcommon.Cache.Set.{CacheSet, find}
use snipersimcommon.Cache.Set.Lines.{IsCacheSet}
use snipersimcommon.Cache.Set.Placing.{insert_lem}
use snipersimcommon.Cache.Store.{
  Cache, borrowed, put_set, peek_single_line, insert_single_line, Eviction,
}
use snipersimcommon.Cache.Store.Lookup.{
  Falls, set_of_lem, insert_parts, borrowed-IsCacheSet, absent, get_elem?-lt,
}

abbrev pub is_some {ℓ} : {A : Type ℓ} → Option A → Bool
is_some none = false
is_some (some a) = true

abbrev pub found_line : Option (Option Block) → Bool
found_line none = false
found_line (some o) = is_some o

-- Whether a lookup of the address finds a line.
unfoldable pub hits : Cache → ℕ → Bool
unfolding peek_single_line
hits c addr = found_line (peek_single_line c addr)

hits_lem :
    (c : Cache) (addr : ℕ) (f : Falls c addr) → hits c addr ≡ is_some (find f.home f.parts.tag)
unfolding hits find
hits_lem c addr f = elim (Option-cases (find f.home f.parts.tag)) [
  | inl miss ↦ rw (set_of_lem c addr f, miss)
  | inr (i, hit) ↦ rw (set_of_lem c addr f, hit)
]

-- Where an address falls after a set was put back: in that set, or where it fell before.
falls_here :
    (c : Cache) (addr i : ℕ) (s : CacheSet) (g : Falls c addr)
    → i ≡ g.parts.set_index
    → hits (put_set c i s) addr ≡ is_some (find s g.parts.tag)
falls_here c addr i s g e = hits_lem (put_set c i s) addr (record {
  parts = g.parts;
  home = s;
  split = g.split;
  there =
      ap (get_elem? (set c.sets i s)) (sym e)
      ∙ get_elem?-set_self c.sets i s (rw e (get_elem?-lt c.sets g.parts.set_index g.home g.there));
})

falls_elsewhere :
    (c : Cache) (addr i : ℕ) (s : CacheSet) (g : Falls c addr)
    → i ≢ g.parts.set_index
    → hits (put_set c i s) addr ≡ hits c addr
falls_elsewhere c addr i s g ne =
    hits_lem (put_set c i s) addr (record {
      parts = g.parts;
      home = g.home;
      split = g.split;
      there = get_elem?-set_ne c.sets s ne ∙ g.there;
    })
    ∙ sym (hits_lem c addr g)

-- The line that went away had the tag, in the same set.
abbrev pub lost : Eviction → Bool → ℕ → Bool
lost r same_set tag = same_set && (r.eviction && (r.evicted.tag == tag))

and_true : (b : Bool) → b ≡ b && true
and_true true = refl
and_true false = refl

and_false : (b : Bool) → false ≡ b && false
and_false true = refl
and_false false = refl

-- The overwritten line `b` hides its own tag, and that only if it was valid.
overwritten :
    (b old : Block) (t : ℕ) (o : Option ℕ)
    → t ≢ invalid_tag
    → is_some (if b.tag == t then none else o)
      ≡ is_some o && not (is_valid b && ((if is_valid b then b else old).tag == t))
unfolding is_valid
overwritten b old t o named = elim (ℕ_discrete b.tag t) [
  | yes same ↦
      let test : (b.tag == t) ≡ true = ground arith in
      let valid : (b.tag == invalid_tag) ≡ false = ground arith in
      rw (test, valid, test) (and_false (is_some o))
  | no ne ↦
      let test : (b.tag == t) ≡ false = ground arith in
      elim (Bool-cases (b.tag == invalid_tag)) [
        | inl gone ↦ rw (test, gone) (and_true (is_some o))
        | inr valid ↦ rw (test, valid, test) (and_true (is_some o))
      ]
]

-- In a set that holds each tag once, and for two different tags other than the invalid one: after
-- a miss on one address, an insertion that completes leaves the other address as it was, a hit or
-- a miss, unless the call reports its line as evicted from the same set: then it misses.
pub hits-insert_other :
    (fuel : ℕ) (cntlr : Cntlr) (c : Cache) (addr other : ℕ) (fill : Option (List ℕ)) (old : Block)
    (r : Eviction)
    → (f : Falls c addr) → (g : Falls c other) → IsCacheSet f.home
    → f.parts.tag ≢ invalid_tag
    → g.parts.tag ≢ invalid_tag
    → g.parts.tag ≢ f.parts.tag
    → peek_single_line c addr ≡ some none
    → insert_single_line fuel cntlr c addr fill old ≡ some r
    → hits r.after other
      ≡ hits c other && not (lost r (f.parts.set_index == g.parts.set_index) g.parts.tag)
unfolding find
hits-insert_other fuel cntlr c addr other fill old r f g v real named differs miss e =
    let (q, done, same) = insert_parts f v real fuel cntlr fill old r e in
    let (_, _, _, others, evicts, victim) =
      insert_lem fuel cntlr (borrowed c f.home) _ old fill q (borrowed-IsCacheSet f v real) real
        (absent f v real miss) done in
    elim (ℕ_discrete f.parts.set_index g.parts.set_index) [
      | yes here ↦
          let same_home : f.home ≡ g.home =
            of_some (sym f.there ∙ ap (get_elem? c.sets) here ∙ g.there) in
          let before : hits c other ≡ is_some (find f.home g.parts.tag) =
            hits_lem c other g ∙ ap (λ s. is_some (find s g.parts.tag)) (sym same_home) in
          let after : hits r.after other ≡ is_some (find q.after g.parts.tag) =
            ap (λ d. hits d.after other) same
            ∙ falls_here c other f.parts.set_index q.after g here in
          let test : (f.parts.set_index == g.parts.set_index) ≡ true = ground arith in
          let gone : lost r true g.parts.tag ≡ (q.eviction && (q.evicted.tag == g.parts.tag)) =
            ap (λ d. lost d true g.parts.tag) same in
          after
          ∙ ap is_some (others g.parts.tag differs named)
          ∙ overwritten (block_at f.home.ways q.index) old g.parts.tag (find f.home g.parts.tag)
              named
          ∙ (rw (test, before, gone, victim, evicts) refl)
      | no apart ↦
          let after : hits r.after other ≡ hits c other =
            ap (λ d. hits d.after other) same
            ∙ falls_elsewhere c other f.parts.set_index q.after g apart in
          let test : (f.parts.set_index == g.parts.set_index) ≡ false = ground arith in
          after ∙ and_true (hits c other) ∙ (rw test refl)
    ]
