-- ===== src/Cache/Policy/Recency.antt =====
-- The ages that CacheSetLRU, CacheSetMRU and CacheSetNMRU keep in `m_lru_bits`, and the list of ways
-- from the most to the least recently used that they stand for.
use snipersimcommon.Base.{
  ℕ, zero, suc, ◌+◌, ◌-◌, ◌%◌, ◌≤◌, ◌<◌, ◌≡◌, ◌≢◌, List, [], ◌∷◌, map, arith, ltb, ◌==◌,
  if◌then◌else◌, length, get_or, set, u8, length-set, length-map, get_or-set_self, get_or-set_ne,
  get_or-map, ℕ_discrete, range_from, length-range_from, get_or-range_from, sym, ap, ◌∙◌,
}

-- `for (i) m_lru_bits[i] = i;` over bytes.
unfoldable pub initial_bits : ℕ → List ℕ
initial_bits assoc = map (λ i. i % u8) (range_from assoc 0)

-- `if (m_lru_bits[i] < m_lru_bits[accessed]) m_lru_bits[i]++;` for an age `b` and the accessed age `a`.
unfoldable pub older : ℕ → ℕ → ℕ
older a b = if ltb b a then (b + 1) % u8 else b

-- The loop never changes the accessed way's own age, so each round compares with the same `a`.
unfoldable pub move_to_mru : List ℕ → ℕ → List ℕ
unfolding older
move_to_mru bits accessed = set (map (older (get_or bits accessed 0)) bits) accessed 0

-- The specification: a list of ways, most recent first.
unfoldable pub index_of : ℕ → List ℕ → ℕ
index_of w [] = 0
index_of w (x ∷ xs) = if x == w then 0 else suc (index_of w xs)

unfoldable pub remove : ℕ → List ℕ → List ℕ
remove w [] = []
remove w (x ∷ xs) = if x == w then xs else x ∷ remove w xs

-- A use of way `w`.
unfoldable pub use_way : List ℕ → ℕ → List ℕ
use_way order w = w ∷ remove w order

-- The ages are the positions in the recency list of the ways `0 … n - 1`.
pub record Ranks (n : ℕ) (bits order : List ℕ) : Type 0 where
  pub small : n ≤ u8
  pub long : length bits ≡ n
  pub whole : length order ≡ n
  pub rank : (v : ℕ) → v < n → get_or bits v 0 ≡ index_of v order
  pub member : (v : ℕ) → v < n → index_of v order < n

pub length-move_to_mru : (bits : List ℕ) (w : ℕ) → length (move_to_mru bits w) ≡ length bits
unfolding move_to_mru
length-move_to_mru bits w =
    length-set (map (older (get_or bits w 0)) bits) w 0 ∙ length-map bits (older (get_or bits w 0))

pub get_or-move_to_mru :
    (bits : List ℕ) (w v : ℕ)
    → w < length bits
    → v < length bits
    → get_or (move_to_mru bits w) v 0
      ≡ (if v == w then 0 else older (get_or bits w 0) (get_or bits v 0))
unfolding move_to_mru
get_or-move_to_mru bits w v hw hv = elim (ℕ_discrete v w) [
  | yes e ↦ ground (
    arith,
    get_or-set_self (map age bits) w 0 0,
    length-map bits age,
    ap (λ i. get_or (set (map age bits) w 0) i 0) e,
  )
  | no ne ↦
      ground
        (arith, get_or-set_ne (map age bits) w v 0 0 (λ e. ne (sym e)), get_or-map age bits v 0 0)
]
  where
    age : ℕ → ℕ
    age = older (get_or bits w 0)

index_of-lt-length : (w : ℕ) (xs : List ℕ) → index_of w xs ≤ length xs
unfolding index_of
index_of-lt-length w [] = omega arith
index_of-lt-length w (x ∷ xs) = ground (arith, index_of-lt-length w xs)

index_of-ne :
    (v w : ℕ) (xs : List ℕ) → v ≢ w → index_of w xs < length xs → index_of v xs ≢ index_of w xs
unfolding index_of
index_of-ne v w [] ne h = absurd (omega arith)
index_of-ne v w (x ∷ xs) ne h = ground (arith, index_of-ne v w xs)

index_of-remove :
    (v w : ℕ) (xs : List ℕ)
    → v ≢ w
    → index_of w xs < length xs
    → index_of v xs ≡ (
        if ltb (index_of v xs) (index_of w xs)
        then index_of v (remove w xs)
        else suc (index_of v (remove w xs)))
unfolding index_of remove
index_of-remove v w [] ne h = absurd (omega arith)
index_of-remove v w (x ∷ xs) ne h = ground (arith, index_of-remove v w xs, index_of-ne v w xs)

length-remove :
    (w : ℕ) (xs : List ℕ) → index_of w xs < length xs → suc (length (remove w xs)) ≡ length xs
unfolding index_of remove
length-remove w [] h = absurd (omega arith)
length-remove w (x ∷ xs) h = ground (arith, length-remove w xs)

-- A use moves the way to the front and keeps the order of the others.
index_of-use_way :
    (v w : ℕ) (order : List ℕ)
    → v ≢ w
    → index_of w order < length order
    → index_of v (use_way order w) ≡ (
        if ltb (index_of v order) (index_of w order)
        then suc (index_of v order)
        else index_of v order)
unfolding index_of use_way
index_of-use_way v w order ne h = ground (arith, index_of-remove v w order ne)

index_of-use_way_self : (w : ℕ) (order : List ℕ) → index_of w (use_way order w) ≡ 0
unfolding index_of use_way
index_of-use_way_self w order = ground arith

pub length-use_way :
    (w : ℕ) (order : List ℕ)
    → index_of w order < length order
    → length (use_way order w) ≡ length order
unfolding use_way
length-use_way w order h = omega (arith, length-remove w order h)

module _ {n : ℕ} {bits order : List ℕ} (w : ℕ) (hw : w < n) (r : Ranks n bits order) where
  in_order : index_of w order < length order
  in_order = omega (arith, r.member w hw, r.whole)

  move_to_mru_rank :
      (v : ℕ) → v < n → get_or (move_to_mru bits w) v 0 ≡ index_of v (use_way order w)
  unfolding older
  move_to_mru_rank v hv = elim (ℕ_discrete v w) [
    | yes e ↦ ground (
      arith,
      r.long,
      get_or-move_to_mru bits w v,
      index_of-use_way_self w order,
      ap (λ i. index_of i (use_way order w)) e,
    )
    | no ne ↦ ground (
      arith,
      r.long,
      r.small,
      r.rank v hv,
      r.rank w hw,
      r.member w hw,
      get_or-move_to_mru bits w v,
      index_of-use_way v w order ne in_order,
    )
  ]

  use_way_member : (v : ℕ) → v < n → index_of v (use_way order w) < n
  use_way_member v hv = elim (ℕ_discrete v w) [
    | yes e ↦
        ground (arith, index_of-use_way_self w order, ap (λ i. index_of i (use_way order w)) e)
    | no ne ↦ ground (arith, r.member v hv, r.member w hw, index_of-use_way v w order ne in_order)
  ]

  -- A use of a way by the code, `moveToMRU`, is a use of it in the recency list.
  pub move_to_mru-Ranks : Ranks n (move_to_mru bits w) (use_way order w)
  move_to_mru-Ranks = record {
    small = r.small;
    long = length-move_to_mru bits w ∙ r.long;
    whole = length-use_way w order in_order ∙ r.whole;
    rank = move_to_mru_rank;
    member = use_way_member;
  }

index_of-range_from :
    (n start v : ℕ) → start ≤ v → v < start + n → index_of v (range_from n start) ≡ v - start
unfolding index_of
index_of-range_from zero start v lo hi = absurd (omega arith)
index_of-range_from (suc n) start v lo hi = ground (arith, index_of-range_from n (suc start) v)

-- At the start way `i` has age `i`.
pub initial_bits-Ranks : (n : ℕ) → n ≤ u8 → Ranks n (initial_bits n) (range_from n 0)
unfolding initial_bits
initial_bits-Ranks n h = record {
  small = h;
  long = length-map (range_from n 0) (λ i. i % u8) ∙ length-range_from n 0;
  whole = length-range_from n 0;
  rank = λ v hv. ground (
    arith,
    length-range_from n 0,
    get_or-map (λ i. i % u8) (range_from n 0) v 0 0,
    get_or-range_from n 0 v 0 hv,
    index_of-range_from n 0 v,
  );
  member = λ v hv. omega (arith, index_of-range_from n 0 v (omega arith) (omega arith));
}
