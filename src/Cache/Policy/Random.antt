-- ===== src/Cache/Policy/Random.antt =====
-- core/memory_subsystem/cache/cache_set_random.cc, with the generator of misc/random.h.
use snipersimcommon.Base.{
  ℕ, zero, suc, ◌+◌, ◌*◌, ◌/◌, ◌%◌, ◌<◌, ◌≡◌, true, false, Option, none, some, arith, if◌then◌else◌,
  u32, first_from,
}
use snipersimcommon.Cache.Block.{Ways, is_invalid_way, is_valid_replacement}

-- `Random::next()`: the new seed, and the number drawn, below the default limit.
abbrev pub limit : ℕ
limit = 32768

unfoldable pub next_seed : ℕ → ℕ
next_seed seed = (seed * 1103515245 + 12345) % u32

unfoldable pub draw : ℕ → ℕ
draw seed = next_seed seed / 65536 % limit

-- The draws until one may be replaced; `none` is the fuel spent.
unfoldable pub redraw : Ways → ℕ → ℕ → Option (ℕ × ℕ)
redraw w zero seed = none
redraw w (suc fuel) seed =
    let again = redraw w fuel (next_seed seed) in
    let index = draw seed % w.assoc in
    if is_valid_replacement w index then some (index, next_seed seed) else again

abbrev choose : Ways → ℕ → ℕ → Option ℕ → Option (ℕ × ℕ)
choose w fuel seed (some i) = some (i, seed)
choose w fuel seed none = redraw w fuel seed

-- The recursive call looks for an invalid line again, and finds none again.
unfoldable pub get_replacement_index : Ways → ℕ → ℕ → Option (ℕ × ℕ)
get_replacement_index w fuel seed = choose w fuel seed (first_from w.assoc 0 (is_invalid_way w))

-- The seed after `n` draws.
unfoldable pub seed_after : ℕ → ℕ → ℕ
seed_after zero seed = seed
seed_after (suc n) seed = seed_after n (next_seed seed)

redraw_lem :
    (w : Ways) (n fuel seed : ℕ)
    → n < fuel
    → ((k : ℕ) → k < n → is_valid_replacement w (draw (seed_after k seed) % w.assoc) ≡ false)
    → is_valid_replacement w (draw (seed_after n seed) % w.assoc) ≡ true
    → redraw w fuel seed ≡ some (draw (seed_after n seed) % w.assoc, seed_after (suc n) seed)
unfolding redraw seed_after
redraw_lem w n zero seed h misses hit = absurd (omega arith)
redraw_lem w zero (suc fuel) seed h misses hit = rw hit
redraw_lem w (suc n) (suc fuel) seed h misses hit =
    rw (misses 0 (omega arith)) (
      redraw_lem w n fuel (next_seed seed) (omega arith) (λ k lt. misses (suc k) (omega arith)) hit)

-- A full set: the first draw that falls on a replaceable line decides, however many come before it,
-- and the generator has made one step for each draw.
pub first_replaceable_draw :
    (w : Ways) (n fuel seed : ℕ)
    → first_from w.assoc 0 (is_invalid_way w) ≡ none
    → n < fuel
    → ((k : ℕ) → k < n → is_valid_replacement w (draw (seed_after k seed) % w.assoc) ≡ false)
    → is_valid_replacement w (draw (seed_after n seed) % w.assoc) ≡ true
    → get_replacement_index w fuel seed
      ≡ some (draw (seed_after n seed) % w.assoc, seed_after (suc n) seed)
unfolding get_replacement_index
first_replaceable_draw w n fuel seed full h misses hit =
    rw full (redraw_lem w n fuel seed h misses hit)
