-- ===== src/Perf/CircularQueue/Index.antt =====
-- The two indices of the circular queue of misc/circular_queue.h: its size, its slots, and how a push and a pop move them.
use snipersimcommon.Base.{
  ℕ, suc, ◌+◌, ◌-◌, ◌%◌, ◌≤◌, ◌<◌, ◌≡◌, ◌≢◌, ap, ◌∙◌, some, arith, length, get_elem?, set,
  length-set, get_elem?-set_self, get_elem?-set_ne, u32, ◌⊎◌, inl, inr, dec_lt,
}
use native.Mathlib.Nat.{mod-eq_of_lt, mod-lt, mod-eq-sub-mod}
use snipersimcommon.Perf.CircularQueue.{CircularQueue, occupied, nth}

-- A remainder below two rounds.
wrap : (a n : ℕ) → a < n + n → ((a < n) × (a % n ≡ a)) ⊎ ((n ≤ a) × (a % n + n ≡ a))
wrap a n h = elim (dec_lt a n) [
  | yes below ↦ inl (below, mod-eq_of_lt below)
  | no above ↦
      let back : (a - n) % n ≡ a - n = mod-eq_of_lt (omega arith) in
      let down : a % n ≡ (a - n) % n = mod-eq-sub-mod (omega arith) in
      inr (omega arith, omega arith)
]

-- Indices within the array, and sums of two of them within 32 bits.
pub record IsQueue {ℓ} {A : Type ℓ} (q : CircularQueue A) : Type ℓ where
  pub first_in : q.first < q.size
  pub last_in : q.last < q.size
  pub fits : q.size + q.size < u32
  pub long : length q.queue ≡ q.size

module _ {ℓ} {A : Type ℓ} (q : CircularQueue A) (ok : IsQueue q) where
  pub inner : (a : ℕ) → a < q.size + q.size → a % u32 ≡ a
  inner a h = omega (arith, ok.fits)

  -- The size in the two positions of the indices.
  pub occupied_lem :
      ((q.last ≤ q.first) × (occupied q + q.last ≡ q.first))
      ⊎ ((q.first < q.last) × (occupied q + q.last ≡ q.first + q.size))
  unfolding occupied
  occupied_lem =
      let gap = q.first + q.size - q.last in
      let plain : (q.first + q.size + (u32 - q.last)) % u32 ≡ gap =
        omega (arith, ok.first_in, ok.last_in, ok.fits) in
      let e = ap (λ n. n % q.size) plain in
      elim (wrap gap q.size (omega (arith, ok.first_in, ok.last_in))) [
        | inl (below, same) ↦ inr (omega arith, omega (arith, ok.last_in, e, same))
        | inr (above, down) ↦ inl (omega (arith, ok.last_in), omega (arith, ok.last_in, e, down))
      ]

  pub next_lem :
      (i : ℕ)
      → i < q.size
      → ((i + 1 < q.size) × ((i + 1) % u32 % q.size ≡ i + 1))
        ⊎ ((i + 1 ≡ q.size) × ((i + 1) % u32 % q.size ≡ 0))
  next_lem i h =
      let e = ap (λ n. n % q.size) (inner (i + 1) (omega arith)) in
      elim (wrap (i + 1) q.size (omega arith)) [
        | inl (below, same) ↦ inl (below, omega arith)
        | inr (above, down) ↦ inr (omega arith, omega arith)
      ]

  pub index_lem :
      (k : ℕ)
      → k < q.size
      → ((q.last + k < q.size) × ((q.last + k) % u32 % q.size ≡ q.last + k))
        ⊎ ((q.size ≤ q.last + k) × ((q.last + k) % u32 % q.size + q.size ≡ q.last + k))
  index_lem k h =
      let e = ap (λ n. n % q.size) (inner (q.last + k) (omega (arith, ok.last_in))) in
      elim (wrap (q.last + k) q.size (omega (arith, ok.last_in))) [
        | inl (below, same) ↦ inl (below, e ∙ same)
        | inr (above, down) ↦ inr (above, omega arith)
      ]

module _ {ℓ} {A : Type ℓ} where
  pub occupied-lt : (q : CircularQueue A) → IsQueue q → occupied q < q.size
  unfolding occupied
  occupied-lt q ok = mod-lt _ (omega (arith, ok.first_in))

  pub occupied_at :
      (q : CircularQueue A)
      → IsQueue q
      → (n : ℕ) → n < q.size
      → ((q.last ≤ q.first) × (n + q.last ≡ q.first))
        ⊎ ((q.first < q.last) × (n + q.last ≡ q.first + q.size))
      → occupied q ≡ n
  occupied_at q ok n h place = elim place [
    | inl (c, e) ↦ elim (occupied_lem q ok) [ inl (d, s) ↦ omega arith | inr (d, s) ↦ omega arith ]
    | inr (c, e) ↦ elim (occupied_lem q ok) [ inl (d, s) ↦ omega arith | inr (d, s) ↦ omega arith ]
  ]

  unfoldable pub pushed : CircularQueue A → A → CircularQueue A
  pushed q t = record q { queue = set q.queue q.first t; first = (q.first + 1) % u32 % q.size }

  pub pushed-IsQueue : (q : CircularQueue A) (t : A) → IsQueue q → IsQueue (pushed q t)
  unfolding pushed
  pushed-IsQueue q t ok = record {
    first_in = mod-lt ((q.first + 1) % u32) (omega (arith, ok.first_in));
    last_in = ok.last_in;
    fits = ok.fits;
    long = length-set q.queue q.first t ∙ ok.long;
  }

  pub pushed-occupied :
      (q : CircularQueue A) (t : A)
      → IsQueue q
      → suc (occupied q) < q.size
      → occupied (pushed q t) ≡ suc (occupied q)
  unfolding pushed
  pushed-occupied q t ok room =
      occupied_at (pushed q t) (pushed-IsQueue q t ok) (suc (occupied q)) room
        (elim (next_lem q ok q.first ok.first_in) [
          | inl (b, e) ↦ elim (occupied_lem q ok) [
            | inl (c, s) ↦ inl (omega arith, omega arith)
            | inr (c, s) ↦ inr (omega arith, omega arith)
          ]
          | inr (b, e) ↦ elim (occupied_lem q ok) [
            | inl (c, s) ↦ inr (omega arith, omega arith)
            | inr (c, s) ↦ absurd (omega arith)
          ]
        ])

  unfoldable pub popped : CircularQueue A → CircularQueue A
  popped q = record q { last = (q.last + 1) % u32 % q.size }

  pub popped-IsQueue : (q : CircularQueue A) → IsQueue q → IsQueue (popped q)
  unfolding popped
  popped-IsQueue q ok = record {
    first_in = ok.first_in;
    last_in = mod-lt ((q.last + 1) % u32) (omega (arith, ok.first_in));
    fits = ok.fits;
    long = ok.long;
  }

  pub popped-occupied :
      (q : CircularQueue A) (n : ℕ) → IsQueue q → occupied q ≡ suc n → occupied (popped q) ≡ n
  unfolding popped
  popped-occupied q n ok some_there =
      let room = occupied-lt q ok in
      occupied_at (popped q) (popped-IsQueue q ok) n (omega arith)
        (elim (next_lem q ok q.last ok.last_in) [
          | inl (b, e) ↦ elim (occupied_lem q ok) [
            | inl (c, s) ↦ inl (omega arith, omega arith)
            | inr (c, s) ↦ inr (omega arith, omega arith)
          ]
          | inr (b, e) ↦ elim (occupied_lem q ok) [
            | inl (c, s) ↦ absurd (omega arith)
            | inr (c, s) ↦ inl (omega arith, omega arith)
          ]
        ])

  -- The slot of a held element is not the one that is written next; the slot behind them is.
  pub held_slot :
      (q : CircularQueue A) (k : ℕ)
      → IsQueue q
      → k < occupied q
      → q.first ≢ (q.last + k) % u32 % q.size
  held_slot q k ok held = λ same. elim (index_lem q ok k (omega (arith, occupied-lt q ok))) [
    | inl (b, e) ↦ elim (occupied_lem q ok) [
      | inl (c, s) ↦ omega (arith, ok.first_in)
      | inr (c, s) ↦ omega (arith, ok.first_in)
    ]
    | inr (b, e) ↦ elim (occupied_lem q ok) [
      | inl (c, s) ↦ omega (arith, ok.first_in)
      | inr (c, s) ↦ omega (arith, ok.last_in)
    ]
  ]

  pub end_slot : (q : CircularQueue A) → IsQueue q → (q.last + occupied q) % u32 % q.size ≡ q.first
  end_slot q ok = elim (index_lem q ok (occupied q) (occupied-lt q ok)) [
    | inl (b, e) ↦ elim (occupied_lem q ok) [ inl (c, s) ↦ omega arith | inr (c, s) ↦ omega arith ]
    | inr (b, e) ↦ elim (occupied_lem q ok) [
      | inl (c, s) ↦ omega (arith, ok.first_in)
      | inr (c, s) ↦ omega arith
    ]
  ]

  pub first_slot : (q : CircularQueue A) → IsQueue q → (q.last + 0) % u32 % q.size ≡ q.last
  first_slot q ok = elim (index_lem q ok 0 (omega (arith, ok.first_in))) [
    | inl (b, e) ↦ omega arith
    | inr (b, e) ↦ omega (arith, ok.last_in)
  ]

  -- A push leaves what is held where it is, and puts the element behind it.
  pub pushed-nth :
      (q : CircularQueue A) (t : A) (k : ℕ)
      → IsQueue q
      → k < occupied q
      → nth (pushed q t) k ≡ nth q k
  unfolding pushed nth
  pushed-nth q t k ok held = get_elem?-set_ne q.queue t (held_slot q k ok held)

  pub pushed-end :
      (q : CircularQueue A) (t : A) → IsQueue q → nth (pushed q t) (occupied q) ≡ some t
  unfolding pushed nth
  pushed-end q t ok =
      ap (get_elem? (set q.queue q.first t)) (end_slot q ok)
      ∙ get_elem?-set_self q.queue q.first t (omega (arith, ok.first_in, ok.long))

  pub popped-nth :
      (q : CircularQueue A) (k : ℕ) → IsQueue q → suc k < q.size → nth (popped q) k ≡ nth q (suc k)
  unfolding popped nth
  popped-nth q k ok room = ap (get_elem? q.queue) (elim (next_lem q ok q.last ok.last_in) [
    | inl (b, e) ↦ ap (λ n. n % u32 % q.size) (omega arith)
    | inr (b, e) ↦ elim (index_lem q ok (suc k) room) [
      | inl (c, f) ↦ absurd (omega arith)
      | inr (c, f) ↦
          let turn = mod-eq_of_lt {n = k} {m = q.size} (omega arith) in
          let small = ap (λ n. n % q.size) (inner q ok k (omega arith)) in
          let start : ((q.last + 1) % u32 % q.size + k) % u32 % q.size ≡ k =
            ap (λ n. n % u32 % q.size) (omega arith) ∙ small ∙ turn in
          omega arith
    ]
  ])
