-- ===== src/Cache/Set/Clearing.antt =====
-- What `invalidate` of core/memory_subsystem/cache/cache_set.cc does to the lines of a set.
use snipersimcommon.Base.{
  ℕ, ◌<◌, ◌≡◌, ◌≢◌, refl, ap, ◌∙◌, ◌↔◌, inl, inr, true, none, some, arith, ◌==◌, if◌then◌else◌, set,
  Option-cases, ℕ_discrete, length-set,
}
use snipersimcommon.Cache.Block.{Block, block_at, invalidate_block, invalid_tag, invalid}
use snipersimcommon.Cache.Set.{CacheSet, find_below, find, put_block, invalidate}
use snipersimcommon.Cache.Set.Lines.{
  IsCacheSet, find_below-some, find_below-none, find_none_of, find_only, tag_at, tag_at-set,
}

module _ {s : CacheSet} (v : IsCacheSet s) {i : ℕ} (hi : i < s.assoc) where
  abbrev cleared : Block
  cleared = record (block_at s.ways i) { tag = invalid_tag; cstate = invalid }

  cleared_tag :
      (j : ℕ)
      → tag_at (set s.blocks i cleared) j ≡ (if j == i then invalid_tag else tag_at s.blocks j)
  cleared_tag j = tag_at-set s.blocks i j cleared (omega (arith, v.long))

  cleared-IsCacheSet : IsCacheSet (put_block s i cleared)
  cleared-IsCacheSet = record {
    long = length-set s.blocks i cleared ∙ v.long;
    unique =
        λ a c ha hc same some_tag. ground (arith, cleared_tag a, cleared_tag c, v.unique a c ha hc);
  }

  cleared_others :
      (t : ℕ)
      → t ≢ invalid_tag
      → find_below s.assoc (set s.blocks i cleared) t
        ≡ (if tag_at s.blocks i == t then none else find_below s.assoc s.blocks t)
  cleared_others t some_tag = elim (Option-cases (find_below s.assoc s.blocks t)) [
    | inl e ↦
        let gone = find_none_of s.assoc (set s.blocks i cleared) t (λ j hj found.
          ground (arith, cleared_tag j, find_below-none s.assoc s.blocks t e j hj)) in
        ground (arith, gone, e)
    | inr (k, e) ↦
        let (hk, here) = find_below-some s.assoc s.blocks t k e in moved t k some_tag e hk here
  ]
    where
      moved :
          (t k : ℕ)
          → t ≢ invalid_tag
          → find_below s.assoc s.blocks t ≡ some k
          → k < s.assoc
          → tag_at s.blocks k ≡ t
          → find_below s.assoc (set s.blocks i cleared) t
            ≡ (if tag_at s.blocks i == t then none else find_below s.assoc s.blocks t)
      moved t k some_tag e hk here = elim (ℕ_discrete i k) [
        | yes same ↦
            let gone =
              find_none_of s.assoc (set s.blocks i cleared) t
                (λ j hj found. ground (arith, cleared_tag j, v.unique j k hj hk)) in
            ground (arith, gone, ap (tag_at s.blocks) same)
        | no differ ↦
            let still =
              find_only s.assoc (set s.blocks i cleared) t k hk (ground (arith, cleared_tag k))
                (λ j hj found. ground (arith, cleared_tag j, v.unique j k hj hk)) in
            ground (arith, still, e, v.unique i k hi hk)
      ]

-- In a set that holds each tag once, and for a tag other than the invalid one: `invalidate` says
-- whether the tag was in the set; after it the tag is not found, every other tag is found where it
-- was, and each tag is still held once.
pub invalidate_lem :
    (s : CacheSet) (t : ℕ)
    → IsCacheSet s
    → t ≢ invalid_tag
    → IsCacheSet (invalidate s t).0
      × (find (invalidate s t).0 t ≡ none)
      × ((u : ℕ) → u ≢ t → u ≢ invalid_tag → find (invalidate s t).0 u ≡ find s u)
      × (((invalidate s t).1 ≡ true) ↔ (find s t ≢ none))
unfolding invalidate invalidate_block find
invalidate_lem s t v real = elim (Option-cases (find_below s.assoc s.blocks t)) [
  | inl e ↦ rw e (v, e, (λ u ne some_tag. refl), ((λ h. cc), (λ h. absurd (h refl))))
  | inr (i, e) ↦
      let (hi, here) = find_below-some s.assoc s.blocks t i e in
      rw e (
        cleared-IsCacheSet v hi,
        ground (arith, cleared_others v hi t real, here),
        (λ u ne some_tag. ground (arith, cleared_others v hi u some_tag, here)),
        ((λ h miss. cc), (λ h. refl)),
      )
]
