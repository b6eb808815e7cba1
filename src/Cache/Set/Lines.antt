-- ===== src/Cache/Set/Lines.antt =====
-- A set of cache_set.cc as a partial map from tags to lines.
use snipersimcommon.Base.{
  ℕ, zero, suc, ◌<◌, ◌≡◌, ◌≢◌, sym, ap, ◌∙◌, ◌↔◌, inl, inr, none, some, List, arith, ◌==◌, ==_iff,
  if◌then◌else◌, length, get_or, set, Bool-cases, Option-cases, ℕ_discrete, get_or-set_self,
  get_or-set_ne,
}
use snipersimcommon.Cache.Block.{Block, block_at, fresh_block, invalid_tag}
use snipersimcommon.Cache.Set.{CacheSet, find_below, find}

-- No two lines hold the same tag, unless they hold no block.
pub record IsCacheSet (s : CacheSet) : Type 0 where
  pub long : length s.blocks ≡ s.assoc
  pub unique :
      (i j : ℕ)
      → i < s.assoc
      → j < s.assoc
      → (block_at s.ways i).tag ≡ (block_at s.ways j).tag
      → (block_at s.ways i).tag ≢ invalid_tag
      → i ≡ j

abbrev pub tag_at : List Block → ℕ → ℕ
tag_at blocks i = (get_or blocks i fresh_block).tag

pub find_below-some :
    (n : ℕ) (blocks : List Block) (t i : ℕ)
    → find_below n blocks t ≡ some i
    → (i < n) × (tag_at blocks i ≡ t)
unfolding find_below
find_below-some zero blocks t i e = cc
find_below-some (suc n) blocks t i e = elim (Bool-cases (tag_at blocks n == t)) [
  | inl hit ↦
      let same : n ≡ i = ground arith in
      (omega arith, ap (tag_at blocks) (sym same) ∙ (==_iff _ _).0 hit)
  | inr miss ↦ let (lt, found) = find_below-some n blocks t i (ground arith) in (omega arith, found)
]

pub find_below-none :
    (n : ℕ) (blocks : List Block) (t : ℕ)
    → find_below n blocks t ≡ none
    → (i : ℕ) → i < n
    → tag_at blocks i ≢ t
unfolding find_below
find_below-none zero blocks t e i h = absurd (omega arith)
find_below-none (suc n) blocks t e i h = elim (ℕ_discrete i n) [
  | yes here ↦ λ found. ground (arith, ap (tag_at blocks) here)
  | no below ↦ find_below-none n blocks t (ground arith) i (omega arith)
]

-- The only line with a tag is the one found.
pub find_only :
    (n : ℕ) (blocks : List Block) (t i : ℕ)
    → i < n
    → tag_at blocks i ≡ t
    → ((j : ℕ) → j < n → tag_at blocks j ≡ t → j ≡ i)
    → find_below n blocks t ≡ some i
find_only n blocks t i h here only = elim (Option-cases (find_below n blocks t)) [
  | inl e ↦ absurd (find_below-none n blocks t e i h here)
  | inr (j, e) ↦ let (lt, found) = find_below-some n blocks t j e in e ∙ ap some (only j lt found)
]

-- Lines that hold a tag before and after at the same places make the search end alike.
pub find_none_of :
    (n : ℕ) (blocks : List Block) (t : ℕ)
    → ((j : ℕ) → j < n → tag_at blocks j ≢ t)
    → find_below n blocks t ≡ none
find_none_of n blocks t no_line = elim (Option-cases (find_below n blocks t)) [
  | inl e ↦ e
  | inr (j, e) ↦ let (lt, found) = find_below-some n blocks t j e in absurd (no_line j lt found)
]

-- `find` tells exactly where a block is.
pub find_iff :
    (s : CacheSet) (t i : ℕ)
    → IsCacheSet s
    → t ≢ invalid_tag
    → (find s t ≡ some i) ↔ ((i < s.assoc) × ((block_at s.ways i).tag ≡ t))
unfolding find
find_iff s t i v real = (
  find_below-some s.assoc s.blocks t i,
  λ (lt, here).
      find_only s.assoc s.blocks t i lt here
        (λ j lj found. v.unique j i lj lt (found ∙ sym here) (λ bad. real (sym found ∙ bad))),
)

-- The tag at line `j` after block `b` went to line `i`.
pub tag_at-set :
    (blocks : List Block) (i j : ℕ) (b : Block)
    → i < length blocks
    → tag_at (set blocks i b) j ≡ (if j == i then b.tag else tag_at blocks j)
tag_at-set blocks i j b h = elim (ℕ_discrete j i) [
  | yes e ↦ ground (
    arith,
    get_or-set_self blocks i b fresh_block h,
    ap (λ k. get_or (set blocks i b) k fresh_block) e,
  )
  | no ne ↦ ground (arith, get_or-set_ne blocks i j b fresh_block (λ e. ne (sym e)))
]
