-- ===== src/Cache/Store/Lookup.antt =====
-- What a lookup of cache.cc sees after an insertion or an invalidation.
use snipersimcommon.Base.{
  ℕ, zero, suc, ◌<◌, ◌≡◌, ◌≢◌, refl, sym, ap, ◌∙◌, inl, inr, Option, none, some, List, [], ◌∷◌,
  arith, length, get_elem?, get_elem?-set_self, Option-cases, of_some,
}
use mathlib.Core.Option
use mathlib.Core.Option.{none-ne-some}
use snipersimcommon.Cache.Block.{Block, block_at, fresh_block, invalid_tag}
use snipersimcommon.Cache.Address.{Split, split_address, tag_to_address}
use snipersimcommon.Cache.Policy.SetInfo.{Cntlr}
use snipersimcommon.Cache.Set.{CacheSet, find, insert, Insertion}
use snipersimcommon.Cache.Set.Lines.{IsCacheSet}
use snipersimcommon.Cache.Set.Placing.{insert_lem}
use snipersimcommon.Cache.Store.{
  Cache, borrowed, put_set, set_of, peek_single_line, insert_single_line, Eviction,
}

pub get_elem?-lt {ℓ} :
    {A : Type ℓ} (xs : List A) (i : ℕ) (x : A) → get_elem? xs i ≡ some x → i < length xs
get_elem?-lt [] i x e = absurd (ground arith)
get_elem?-lt (y ∷ xs) zero x e = omega arith
get_elem?-lt (y ∷ xs) (suc i) x e = omega (arith, get_elem?-lt xs i x e)

-- An address and the set that it falls in.
pub record Falls (c : Cache) (addr : ℕ) : Type 0 where
  pub parts : Split
  pub home : CacheSet
  pub split : split_address c.base addr ≡ some parts
  pub there : get_elem? c.sets parts.set_index ≡ some home

module _ (c : Cache) (addr : ℕ) (f : Falls c addr) where
  open f use {parts, home}

  pub set_of_lem : set_of c addr ≡ some (parts.tag, parts.set_index, borrowed c home)
  unfolding set_of
  set_of_lem = rw (f.split, f.there)

  -- The address falls in the set that was put back.
  set_of-put_set :
      (s : CacheSet)
      → set_of (put_set c parts.set_index s) addr
        ≡ some (parts.tag, parts.set_index, borrowed (put_set c parts.set_index s) s)
  unfolding set_of
  set_of-put_set s = rw (
    f.split,
    get_elem?-set_self c.sets parts.set_index s (get_elem?-lt c.sets parts.set_index home f.there),
  )

map-none {ℓ κ} :
    {A : Type ℓ} {B : Type κ} (f : A → B) (o : Option A) → Option.map f o ≡ none → o ≡ none
map-none f none e = refl
map-none f (some a) e = cc

module _ {c : Cache} {addr : ℕ} (f : Falls c addr) (v : IsCacheSet f.home)
    (real : f.parts.tag ≢ invalid_tag) where
  open f use {parts, home}

  pub borrowed-IsCacheSet : IsCacheSet (borrowed c home)
  borrowed-IsCacheSet = record { long = v.long; unique = v.unique }

  -- A lookup of the address is a lookup of its tag in its set.
  peek_lem : peek_single_line c addr ≡ some (Option.map (block_at home.ways) (find home parts.tag))
  unfolding peek_single_line find
  peek_lem = rw (set_of_lem c addr f)

  peek-put_set :
      (s : CacheSet)
      → peek_single_line (put_set c parts.set_index s) addr
        ≡ some (Option.map (block_at s.ways) (find s parts.tag))
  unfolding peek_single_line find
  peek-put_set s = rw (set_of-put_set c addr f s)

  pub absent : peek_single_line c addr ≡ some none → find (borrowed c home) parts.tag ≡ none
  unfolding find
  absent miss = map-none (block_at home.ways) (find home parts.tag) (of_some (sym peek_lem ∙ miss))

  abbrev pub evicting : Insertion → Eviction
  evicting q = record {
    after = put_set c parts.set_index q.after;
    eviction = q.eviction;
    evict_addr = tag_to_address c.base q.evicted.tag;
    evicted = q.evicted;
    evict_data = q.evict_data;
  }

  -- An insertion is one into the set of the address.
  insert_made :
      (fuel : ℕ) (cntlr : Cntlr) (fill : Option (List ℕ)) (old : Block)
      → insert_single_line fuel cntlr c addr fill old
        ≡ Option.map evicting
            (insert fuel cntlr (borrowed c home) (record fresh_block { tag = parts.tag }) fill old)
  unfolding insert_single_line
  insert_made fuel cntlr fill old =
      let place =
        insert fuel cntlr (borrowed c home) (record fresh_block { tag = parts.tag }) fill old in
      elim (Option-cases place) [
        | inl stuck ↦ rw (set_of_lem c addr f, stuck)
        | inr (q, done) ↦ rw (set_of_lem c addr f, done)
      ]

  pub insert_parts :
      (fuel : ℕ) (cntlr : Cntlr) (fill : Option (List ℕ)) (old : Block) (r : Eviction)
      → insert_single_line fuel cntlr c addr fill old ≡ some r
      → (q : Insertion) × (insert fuel cntlr
            (borrowed c home)
            (record fresh_block { tag = parts.tag })
            fill
            old
          ≡ some q)
        × (r ≡ evicting q)
  insert_parts fuel cntlr fill old r e =
      let place =
        insert fuel cntlr (borrowed c home) (record fresh_block { tag = parts.tag }) fill old in
      elim (Option-cases place) [
        | inl stuck ↦ absurd (
            none-ne-some r
              (sym (ap (Option.map evicting) stuck) ∙ sym (insert_made fuel cntlr fill old) ∙ e))
        | inr (q, done) ↦ (
          q,
          done,
          of_some (sym e ∙ insert_made fuel cntlr fill old ∙ ap (Option.map evicting) done),
        )
      ]

-- In a set that holds each tag once, and for a tag other than the invalid one: after a miss, an
-- insertion that completes makes the address hit, on a line with its tag.
pub peek-insert :
    (fuel : ℕ) (cntlr : Cntlr) (c : Cache) (addr : ℕ) (fill : Option (List ℕ)) (old : Block)
    (r : Eviction)
    → (f : Falls c addr) → IsCacheSet f.home
    → f.parts.tag ≢ invalid_tag
    → peek_single_line c addr ≡ some none
    → insert_single_line fuel cntlr c addr fill old ≡ some r
    → peek_single_line r.after addr ≡ some (some (record fresh_block { tag = f.parts.tag }))
peek-insert fuel cntlr c addr fill old r f v real miss e =
    let (q, done, same) = insert_parts f v real fuel cntlr fill old r e in
    let (_, found, placed, _, _, _) =
      insert_lem fuel cntlr (borrowed c f.home) _ old fill q (borrowed-IsCacheSet f v real) real
        (absent f v real miss) done in
    ap (λ e. peek_single_line e.after addr) same
    ∙ peek-put_set f v real q.after
    ∙ ap (λ o. some (Option.map (block_at q.after.ways) o)) found
    ∙ ap (λ b. some (some b)) placed
