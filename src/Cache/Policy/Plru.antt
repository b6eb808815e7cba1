-- ===== src/Cache/Policy/Plru.antt =====
-- core/memory_subsystem/cache/cache_set_plru.cc: a tree of bits over 4 or 8 ways.
pub mod Round
use snipersimcommon.Base.{
  ℕ, ◌<◌, ◌≡◌, ◌≢◌, ◌⊎◌, inl, inr, refl, Bool, true, false, ◌||◌, Option, none, some, arith, ◌==◌,
  if◌then◌else◌, ◌>>=◌, ◌>>◌, assert, first_from,
}
use snipersimcommon.Cache.Block.{Ways, is_invalid_way, is_valid_replacement}

-- `b[0]` to `b[6]`, which only ever hold 0 (false) and 1 (true); `b[7]` is not used.
pub record Tree : Type 0 where
  pub b0 : Bool
  pub b1 : Bool
  pub b2 : Bool
  pub b3 : Bool
  pub b4 : Bool
  pub b5 : Bool
  pub b6 : Bool

abbrev pub cleared : Tree
cleared = record {
  b0 = false;
  b1 = false;
  b2 = false;
  b3 = false;
  b4 = false;
  b5 = false;
  b6 = false;
}

-- The constructor asserts that the associativity is 4 or 8.
unfoldable pub create : ℕ → Option Tree
create assoc = do assert (assoc == 4 || assoc == 8); some cleared

abbrev pub victim_of_4 : Tree → ℕ
victim_of_4 t = if t.b0 then (if t.b2 then 3 else 2) else (if t.b1 then 1 else 0)

abbrev pub victim_of_8 : Tree → ℕ
victim_of_8 t =
    if t.b0
    then (if t.b4 then (if t.b6 then 7 else 6) else (if t.b5 then 5 else 4))
    else (if t.b1 then (if t.b3 then 3 else 2) else (if t.b2 then 1 else 0))

unfoldable pub victim : ℕ → Tree → Option ℕ
victim assoc t =
    if assoc == 4 then some (victim_of_4 t) else if assoc == 8 then some (victim_of_8 t) else none

abbrev pub touch_of_4 : Tree → ℕ → Tree
touch_of_4 t i =
    if i == 0
    then record t { b0 = true; b1 = true }
    else if i == 1
    then record t { b0 = true; b1 = false }
    else if i == 2
    then record t { b0 = false; b2 = true }
    else if i == 3
    then record t { b0 = false; b2 = false }
    else t

abbrev pub touch_of_8 : Tree → ℕ → Tree
touch_of_8 t i =
    if i == 0
    then record t { b0 = true; b1 = true; b2 = true }
    else if i == 1
    then record t { b0 = true; b1 = true; b2 = false }
    else if i == 2
    then record t { b0 = true; b1 = false; b3 = true }
    else if i == 3
    then record t { b0 = true; b1 = false; b3 = false }
    else if i == 4
    then record t { b0 = false; b4 = true; b5 = true }
    else if i == 5
    then record t { b0 = false; b4 = true; b5 = false }
    else if i == 6
    then record t { b0 = false; b4 = false; b6 = true }
    else if i == 7
    then record t { b0 = false; b4 = false; b6 = false }
    else t

unfoldable pub update_replacement_index : ℕ → Tree → ℕ → Option Tree
update_replacement_index assoc t i =
    if assoc == 4 then some (touch_of_4 t i) else if assoc == 8 then some (touch_of_8 t i) else none

abbrev choose : Ways → Tree → Option ℕ → Option (ℕ × Tree)
choose w t (some i) = do u ← update_replacement_index w.assoc t i; some (i, u)
choose w t none = do
  i ← victim w.assoc t
  assert (is_valid_replacement w i)
  u ← update_replacement_index w.assoc t i
  some (i, u)

unfoldable pub get_replacement_index : Ways → Tree → Option (ℕ × Tree)
get_replacement_index w t = choose w t (first_from w.assoc 0 (is_invalid_way w))
