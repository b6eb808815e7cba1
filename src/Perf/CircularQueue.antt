-- ===== src/Perf/CircularQueue.antt =====
-- `CircularQueue` of misc/circular_queue.h, for one thread. Its indices are on 32 bits.
pub mod Index
pub mod Fifo
use snipersimcommon.Base.{
  ℕ, zero, suc, ◌+◌, ◌-◌, ◌%◌, ◌≤◌, ◌<◌, ◌≡◌, ◌≢◌, refl, sym, ap, ◌∙◌, Bool, true, false, not,
  Option, none, some, List, [], ◌∷◌, ◌++◌, arith, if◌then◌else◌, length, get_elem?, set, replicate,
  length-set, get_elem?-set_self, get_elem?-set_ne, length-append, length-replicate, ◌>>=◌, ◌>>◌,
  assert, ◌==◌, ltb, u32, ℕ_discrete, of_some, Option-cases, ◌⊎◌, inl, inr,
}
use native.Mathlib.Nat.{mod-eq_of_lt, mod-lt}

-- `size` is `m_size`, one more than the capacity.
pub record CircularQueue {ℓ} (A : Type ℓ) : Type ℓ where
  pub size : ℕ
  pub first : ℕ
  pub last : ℕ
  pub queue : List A

module _ {ℓ} {A : Type ℓ} where
  -- A new queue; the elements are default-constructed.
  unfoldable pub create : ℕ → A → CircularQueue A
  create capacity default = record {
    size = (capacity + 1) % u32;
    first = 0;
    last = 0;
    queue = replicate ((capacity + 1) % u32) default;
  }

  unfoldable pub is_full : CircularQueue A → Bool
  is_full q = (q.first + 1) % u32 % q.size == q.last

  unfoldable pub is_empty : CircularQueue A → Bool
  is_empty q = q.first == q.last

  -- `size()`.
  unfoldable pub occupied : CircularQueue A → ℕ
  occupied q = (q.first + q.size + (u32 - q.last)) % u32 % q.size

  unfoldable pub push : CircularQueue A → A → Option (CircularQueue A)
  unfolding is_full
  push q t = do
    assert (not (is_full q))
    some (record q { queue = set q.queue q.first t; first = (q.first + 1) % u32 % q.size })

  unfoldable pub pop : CircularQueue A → Option (A × CircularQueue A)
  unfolding is_empty
  pop q = do
    assert (not (is_empty q))
    t ← get_elem? q.queue q.last
    some (t, record q { last = (q.last + 1) % u32 % q.size })

  unfoldable pub push_circular : CircularQueue A → A → Option (CircularQueue A)
  unfolding is_full push pop
  push_circular q t = if is_full q then (pop q >>= λ r. push r.1 t) else push q t

  unfoldable pub front : CircularQueue A → Option A
  unfolding is_empty
  front q = do assert (not (is_empty q)); get_elem? q.queue q.last

  unfoldable pub back : CircularQueue A → Option A
  unfolding is_empty
  back q = do
    assert (not (is_empty q))
    get_elem? q.queue ((q.first + q.size + (u32 - 1)) % u32 % q.size)

  -- `operator[]` and `at`.
  unfoldable pub nth : CircularQueue A → ℕ → Option A
  nth q idx = get_elem? q.queue ((q.last + idx) % u32 % q.size)

  unfoldable pub at : CircularQueue A → ℕ → Option A
  unfolding occupied nth
  at q idx = do assert (ltb idx (occupied q)); nth q idx
