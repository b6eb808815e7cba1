-- ===== src/Cache/Set/Placing.antt =====
-- What `insert` of core/memory_subsystem/cache/cache_set.cc does to the lines of a set.
use snipersimcommon.Base.{
  ℕ, ◌<◌, ◌≡◌, ◌≢◌, refl, sym, ap, ◌∙◌, inl, inr, true, false, Option, none, some, List, arith, ltb,
  ◌==◌, if◌then◌else◌, set, Bool-cases, Option-cases, ℕ_discrete, get_or-set_self, length-set, ◌>>◌,
  assert, of_some, subst, ltb→lt,
}
use snipersimcommon.Cache.Block.{Block, block_at, fresh_block, is_valid, invalid_tag, clone}
use snipersimcommon.Cache.Policy.SetInfo.{Cntlr}
use snipersimcommon.Cache.Set.Policies.{Policy, get_replacement_index}
use snipersimcommon.Cache.Set.{CacheSet, find_below, find, Insertion, insert, inserted, can_copy}
use snipersimcommon.Cache.Set.Lines.{
  IsCacheSet, find_below-some, find_below-none, find_none_of, find_only, tag_at, tag_at-set,
}

clone_lem : (a b : Block) → clone a b ≡ b
unfolding clone
clone_lem a b = refl

-- What a completed insertion did to the lines.
record Placed (s : CacheSet) (b old : Block) (r : Insertion) : Type 0 where
  in_range : r.index < s.assoc
  ways : r.after.ways ≡ record { assoc = s.assoc; blocks = set s.blocks r.index b }
  evicts : r.eviction ≡ is_valid (block_at s.ways r.index)
  victim : r.eviction ≡ true → r.evicted ≡ block_at s.ways r.index
  kept : r.eviction ≡ false → r.evicted ≡ old

inserted-Placed :
    (s : CacheSet) (b old : Block) (fill : Option (List ℕ)) (i : ℕ) (p : Policy)
    → i < s.assoc
    → Placed s b old (inserted s b fill old i p)
unfolding inserted
inserted-Placed s b old fill i p lt = record {
  in_range = lt;
  ways =
      ap (λ x. record { assoc = s.assoc; blocks = set s.blocks i x })
        (clone_lem (block_at s.ways i) b);
  evicts = refl;
  victim = λ e. rw (e, clone_lem old (block_at s.ways i));
  kept = λ e. rw e;
}

insert-Placed :
    (fuel : ℕ) (cntlr : Cntlr) (s : CacheSet) (b old : Block) (fill : Option (List ℕ))
    (r : Insertion)
    → insert fuel cntlr s b fill old ≡ some r
    → Placed s b old r
unfolding insert
insert-Placed fuel cntlr s b old fill r e =
    elim (Option-cases (get_replacement_index fuel cntlr s.ways s.policy)) [
      | inl stuck ↦ absurd (ground arith)
      | inr ((i, p), chosen) ↦
          let run : (assert (ltb i s.assoc)
                >> (assert (can_copy s i fill) >> some (inserted s b fill old i p)))
              ≡ some r =
            rw chosen at e in
          elim (Bool-cases (ltb i s.assoc)) [
            | inl lt ↦
                let copied = (rw lt at run) in
                elim (Bool-cases (can_copy s i fill)) [
                  | inl ok ↦
                      subst (Placed s b old) (of_some (rw ok at copied))
                        (inserted-Placed s b old fill i p (ltb→lt _ _ lt))
                  | inr bad ↦ absurd (ground arith)
                ]
            | inr out ↦ absurd (ground arith)
          ]
    ]

module _ {s : CacheSet} {b old : Block} {r : Insertion} (v : IsCacheSet s)
    (real : b.tag ≢ invalid_tag) (fresh : find s b.tag ≡ none) (p : Placed s b old r) where
  abbrev tag_after : ℕ → ℕ
  tag_after = tag_at (set s.blocks r.index b)

  tag_after_lem : (j : ℕ) → tag_after j ≡ (if j == r.index then b.tag else tag_at s.blocks j)
  tag_after_lem j = tag_at-set s.blocks r.index j b (omega (arith, p.in_range, v.long))

  unseen : (j : ℕ) → j < s.assoc → tag_at s.blocks j ≢ b.tag
  unfolding find
  unseen = find_below-none s.assoc s.blocks b.tag fresh

  placed_unique :
      (i j : ℕ)
      → i < s.assoc
      → j < s.assoc
      → tag_after i ≡ tag_after j
      → tag_after i ≢ invalid_tag
      → i ≡ j
  placed_unique i j hi hj same some_tag =
      ground (arith, tag_after_lem i, tag_after_lem j, unseen i hi, unseen j hj, v.unique i j hi hj)

  placed-IsCacheSet : IsCacheSet r.after
  placed-IsCacheSet =
      subst (λ w. IsCacheSet (record r.after { ways = w })) (sym p.ways)
        (record { long = length-set s.blocks r.index b ∙ v.long; unique = placed_unique })

  placed_found : find_below s.assoc (set s.blocks r.index b) b.tag ≡ some r.index
  placed_found =
      find_only s.assoc (set s.blocks r.index b) b.tag r.index p.in_range
        (ground (arith, tag_after_lem r.index))
        (λ j hj found. ground (arith, tag_after_lem j, unseen j hj))

  placed_others :
      (t : ℕ)
      → t ≢ b.tag
      → t ≢ invalid_tag
      → find_below s.assoc (set s.blocks r.index b) t
        ≡ (if tag_at s.blocks r.index == t then none else find_below s.assoc s.blocks t)
  placed_others t ne some_tag = elim (Option-cases (find_below s.assoc s.blocks t)) [
    | inl e ↦
        let gone = find_none_of s.assoc (set s.blocks r.index b) t (λ j hj found.
          ground (arith, tag_after_lem j, find_below-none s.assoc s.blocks t e j hj)) in
        ground (arith, gone, e)
    | inr (i, e) ↦
        let (hi, here) = find_below-some s.assoc s.blocks t i e in
        placed_other t i ne some_tag e hi here
  ]
    where
      placed_other :
          (t i : ℕ)
          → t ≢ b.tag
          → t ≢ invalid_tag
          → find_below s.assoc s.blocks t ≡ some i
          → i < s.assoc
          → tag_at s.blocks i ≡ t
          → find_below s.assoc (set s.blocks r.index b) t
            ≡ (if tag_at s.blocks r.index == t then none else find_below s.assoc s.blocks t)
      placed_other t i ne some_tag e hi here = elim (ℕ_discrete r.index i) [
        | yes same ↦
            let gone =
              find_none_of s.assoc (set s.blocks r.index b) t
                (λ j hj found. ground (arith, tag_after_lem j, v.unique j i hj hi)) in
            ground (arith, gone, ap (tag_at s.blocks) same)
        | no differ ↦
            let still =
              find_only s.assoc (set s.blocks r.index b) t i hi (ground (arith, tag_after_lem i))
                (λ j hj found. ground (arith, tag_after_lem j, v.unique j i hj hi)) in
            ground (arith, still, e, v.unique r.index i p.in_range hi)
      ]

-- In a set that holds each tag once, for a block whose tag is not the invalid one and not in the
-- set: a completed insertion puts it where `find` then finds it, and every other tag is found
-- where it was, but for the line that was overwritten. The set again holds each tag once, and the
-- caller is told of an eviction, and given the line, exactly when a valid line was overwritten.
pub insert_lem :
    (fuel : ℕ) (cntlr : Cntlr) (s : CacheSet) (b old : Block) (fill : Option (List ℕ))
    (r : Insertion)
    → IsCacheSet s
    → b.tag ≢ invalid_tag
    → find s b.tag ≡ none
    → insert fuel cntlr s b fill old ≡ some r
    → IsCacheSet r.after
      × (find r.after b.tag ≡ some r.index)
      × (block_at r.after.ways r.index ≡ b)
      × ((t : ℕ)
          → t ≢ b.tag
          → t ≢ invalid_tag
          → find r.after t ≡ (if (block_at s.ways r.index).tag == t then none else find s t))
      × (r.eviction ≡ is_valid (block_at s.ways r.index))
      × (r.evicted ≡ (if r.eviction then block_at s.ways r.index else old))
unfolding find
insert_lem fuel cntlr s b old fill r v real fresh e =
    let p = insert-Placed fuel cntlr s b old fill r e in
    (
      placed-IsCacheSet v real fresh p,
      ap (λ w. find_below w.assoc w.blocks b.tag) p.ways ∙ placed_found v real fresh p,
      ap (λ w. block_at w r.index) p.ways
          ∙ get_or-set_self s.blocks r.index b fresh_block (omega (arith, p.in_range, v.long)),
      (λ t ne some_tag.
          ap (λ w. find_below w.assoc w.blocks t) p.ways
          ∙ placed_others v real fresh p t ne some_tag),
      p.evicts,
      ground (arith, p.victim, p.kept),
    )
