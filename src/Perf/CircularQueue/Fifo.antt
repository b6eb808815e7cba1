-- ===== src/Perf/CircularQueue/Fifo.antt =====
-- The circular queue holds what was pushed and not yet popped, in order.
use snipersimcommon.Base.{
  ℕ, zero, suc, ◌<◌, ◌≡◌, ◌≢◌, refl, sym, ap, ◌∙◌, true, false, some, List, [], ◌∷◌, ◌++◌, arith,
  if◌then◌else◌, length, get_elem?, length-append, ◌>>=◌, ◌==◌, ℕ_discrete, drop, inl, inr,
}
use snipersimcommon.Perf.CircularQueue.{
  CircularQueue, is_full, is_empty, occupied, push, pop, push_circular, nth,
}
use snipersimcommon.Perf.CircularQueue.Index.{
  IsQueue, occupied_lem, next_lem, occupied-lt, pushed-IsQueue, pushed-occupied, popped-IsQueue,
  popped-occupied, pushed, popped, first_slot, pushed-nth, pushed-end, popped-nth,
}

-- The queue holds these elements, the oldest first.
pub record Holds {ℓ} {A : Type ℓ} (q : CircularQueue A) (xs : List A) : Type ℓ where
  pub ok : IsQueue q
  pub many : occupied q ≡ length xs
  pub each : (k : ℕ) → k < length xs → nth q k ≡ get_elem? xs k

module _ {ℓ} {A : Type ℓ} where
  -- It is full when it has one element less than slots, and empty when it has none.
  pub full_iff :
      (q : CircularQueue A) (xs : List A)
      → Holds q xs
      → (is_full q ≡ (suc (length xs) == q.size))
        × (is_empty q ≡ (length xs == 0))
        × (length xs < q.size)
  unfolding is_full is_empty
  full_iff q xs h =
      let n = h.ok.first_in in
      let m = h.ok.last_in in
      let short = occupied-lt q h.ok in
      elim (next_lem q h.ok q.first h.ok.first_in) [
        | inl (b, e) ↦ elim (occupied_lem q h.ok) [
          | inl (c, s) ↦ (
            ground (arith, e, s, n, m, h.many),
            ground (arith, s, n, m, h.many),
            omega (arith, short, h.many),
          )
          | inr (c, s) ↦ (
            ground (arith, e, s, n, m, h.many),
            ground (arith, s, n, m, h.many),
            omega (arith, short, h.many),
          )
        ]
        | inr (b, e) ↦ elim (occupied_lem q h.ok) [
          | inl (c, s) ↦ (
            ground (arith, e, s, n, m, h.many),
            ground (arith, s, n, m, h.many),
            omega (arith, short, h.many),
          )
          | inr (c, s) ↦ (
            ground (arith, e, s, n, m, h.many),
            ground (arith, s, n, m, h.many),
            omega (arith, short, h.many),
          )
        ]
      ]

  get_elem?-append_old :
      (xs : List A) (t : A) (k : ℕ) → k < length xs → get_elem? (xs ++ t ∷ []) k ≡ get_elem? xs k
  get_elem?-append_old [] t k h = absurd (omega arith)
  get_elem?-append_old (x ∷ xs) t zero h = refl
  get_elem?-append_old (x ∷ xs) t (suc k) h = get_elem?-append_old xs t k (omega arith)

  get_elem?-append_new : (xs : List A) (t : A) → get_elem? (xs ++ t ∷ []) (length xs) ≡ some t
  get_elem?-append_new [] t = refl
  get_elem?-append_new (x ∷ xs) t = get_elem?-append_new xs t

  pushed-Holds :
      (q : CircularQueue A) (xs : List A) (t : A)
      → Holds q xs
      → suc (length xs) < q.size
      → Holds (pushed q t) (xs ++ t ∷ [])
  pushed-Holds q xs t h room = record {
    ok = pushed-IsQueue q t h.ok;
    many = omega (
      arith,
      pushed-occupied q t h.ok (omega (arith, h.many)),
      length-append xs (t ∷ []),
      h.many,
    );
    each = λ k short. elim (ℕ_discrete k (length xs)) [
      | yes end ↦
          ap (nth (pushed q t)) (omega (arith, h.many))
          ∙ pushed-end q t h.ok
          ∙ sym (ap (get_elem? (xs ++ t ∷ [])) end ∙ get_elem?-append_new xs t)
      | no other ↦
          let old : k < length xs = omega (arith, length-append xs (t ∷ [])) in
          pushed-nth q t k h.ok (omega (arith, h.many))
          ∙ h.each k old
          ∙ sym (get_elem?-append_old xs t k old)
    ];
  }

  popped-Holds :
      (q : CircularQueue A) (x : A) (xs : List A) → Holds q (x ∷ xs) → Holds (popped q) xs
  popped-Holds q x xs h = record {
    ok = popped-IsQueue q h.ok;
    many = popped-occupied q (length xs) h.ok h.many;
    each = λ k short.
        popped-nth q k h.ok (omega (arith, occupied-lt q h.ok, h.many))
        ∙ h.each (suc k) (omega arith);
  }

-- A push into a queue that is not full puts the element behind what is held.
pub push-Holds {ℓ} :
    {A : Type ℓ} (q : CircularQueue A) (xs : List A) (t : A)
    → Holds q xs
    → suc (length xs) < q.size
    → (r : CircularQueue A) × (push q t ≡ some r) × (r.size ≡ q.size) × Holds r (xs ++ t ∷ [])
unfolding push pushed
push-Holds q xs t h room =
    let roomy : is_full q ≡ false = ground (arith, (full_iff q xs h).0) in
    (pushed q t, rw roomy, refl, pushed-Holds q xs t h room)

-- A pop of a queue that holds something gives the oldest element and keeps the others.
pub pop-Holds {ℓ} :
    {A : Type ℓ} (q : CircularQueue A) (x : A) (xs : List A)
    → Holds q (x ∷ xs)
    → (r : CircularQueue A) × (pop q ≡ some (x, r)) × (r.size ≡ q.size) × Holds r xs
unfolding pop popped nth
pop-Holds q x xs h =
    let there : is_empty q ≡ false = ground (arith, (full_iff q (x ∷ xs) h).1) in
    let oldest : get_elem? q.queue q.last ≡ some x =
      sym (ap (get_elem? q.queue) (first_slot q h.ok)) ∙ h.each 0 (omega arith) in
    (popped q, rw (there, oldest), refl, popped-Holds q x xs h)

test_ne : (a b : ℕ) → a ≢ b → (a == b) ≡ false
test_ne a b h = ground arith

test_same : (a b : ℕ) → a ≡ b → (a == b) ≡ true
test_same a b h = ground arith

push_circular-roomy {ℓ} :
    {A : Type ℓ} (q : CircularQueue A) (t : A) → is_full q ≡ false → push_circular q t ≡ push q t
unfolding push_circular
push_circular-roomy q t e = ap (λ b. if b then (pop q >>= λ r. push r.1 t) else push q t) e

push_circular-full {ℓ} :
    {A : Type ℓ} (q : CircularQueue A) (t : A)
    → is_full q ≡ true
    → push_circular q t ≡ (pop q >>= λ r. push r.1 t)
unfolding push_circular
push_circular-full q t e = ap (λ b. if b then (pop q >>= λ r. push r.1 t) else push q t) e

-- A circular push keeps the newest elements: into a full queue it drops the oldest one.
pub push_circular-Holds {ℓ} :
    {A : Type ℓ} (q : CircularQueue A) (xs : List A) (t : A)
    → Holds q xs
    → 1 < q.size
    → (r : CircularQueue A) × (push_circular q t ≡ some r)
      × Holds r (if suc (length xs) == q.size then drop 1 xs ++ t ∷ [] else xs ++ t ∷ [])
push_circular-Holds q [] t h wide =
    let (r, done, same, held) = push-Holds q [] t h (omega arith) in
    let roomy : is_full q ≡ false = ground (arith, (full_iff q [] h).0) in
    (r, push_circular-roomy q t roomy ∙ done, rw (test_ne (suc zero) q.size (omega arith)) held)
push_circular-Holds q (x ∷ xs) t h wide = elim (ℕ_discrete (suc (suc (length xs))) q.size) [
  | yes full ↦
      let (popped_one, first, kept, left) = pop-Holds q x xs h in
      let (r, done, same, held) = push-Holds popped_one xs t left (omega arith) in
      let no_room : is_full q ≡ true = ground (arith, (full_iff q (x ∷ xs) h).0) in
      (
        r,
        push_circular-full q t no_room ∙ ap (λ o. o >>= λ r. push r.1 t) first ∙ done,
        rw (test_same (suc (suc (length xs))) q.size full) held,
      )
  | no roomy ↦
      let (r, done, same, held) =
        push-Holds q (x ∷ xs) t h (omega (arith, (full_iff q (x ∷ xs) h).2)) in
      let room : is_full q ≡ false = ground (arith, (full_iff q (x ∷ xs) h).0) in
      (
        r,
        push_circular-roomy q t room ∙ done,
        rw (test_ne (suc (suc (length xs))) q.size roomy) held,
      )
]
