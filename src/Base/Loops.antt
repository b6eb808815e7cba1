-- ===== src/Base/Loops.antt =====
-- Counted loops that search: `for (i = s; i < s + n; i++) if (p(i)) return i;`.
use Prim.Native.Nat.{ℕ, zero, suc, ◌+◌, ◌≤◌, ◌<◌}
use mathlib.Core.Path.{◌≡◌, refl, subst}
use mathlib.Core.Logic.{inl, inr}
use mathlib.Core.Bool.{Bool, true, false}
use mathlib.Core.Option.{Option, none, some}
use native.Mathlib.Omega.{arith}
use native.Mathlib.Decide.{dec_lt}
use snipersimcommon.Base.Tests.{if◌then◌else◌, Bool-cases}

-- The first of the `n` indices from `s` on that passes the test.
unfoldable pub first_from : ℕ → ℕ → (ℕ → Bool) → Option ℕ
first_from zero s p = none
first_from (suc n) s p = let rest = first_from n (s + 1) p in if p s then some s else rest

pub record IsFirst (s n : ℕ) (p : ℕ → Bool) (k : ℕ) : Type 0 where
  pub above : s ≤ k
  pub below : k < s + n
  pub hit : p k ≡ true
  pub least : (j : ℕ) → s ≤ j → j < k → p j ≡ false

-- A fact at `s` and at every later index holds at every index from `s` on.
from_next {ℓ} : (P : ℕ → Type ℓ) (s : ℕ) → P s → (j : ℕ) → s ≤ j → (s + 1 ≤ j → P j) → P j
from_next P s here j lo later = elim (dec_lt s j) [
  | yes h ↦ later (omega arith)
  | no h ↦ let e : s ≡ j = omega arith in subst P e here
]

pub first_from-IsFirst :
    (n s : ℕ) (p : ℕ → Bool) {k : ℕ} → first_from n s p ≡ some k → IsFirst s n p k
unfolding first_from
first_from-IsFirst zero s p e = cc
first_from-IsFirst (suc n) s p {k} e = elim (Bool-cases (p s)) [
  | inl hit ↦
      let here : s ≡ k = ground arith in
      subst (IsFirst s (suc n) p) here (record {
        above = omega arith;
        below = omega arith;
        hit = hit;
        least = λ j a b. absurd (omega arith);
      })
  | inr miss ↦ extend miss (first_from-IsFirst n (s + 1) p {k = k} (ground arith))
]
  where
    extend : p s ≡ false → IsFirst (s + 1) n p k → IsFirst s (suc n) p k
    extend miss f = record {
      above = omega (arith, f.above);
      below = omega (arith, f.below);
      hit = f.hit;
      least = λ j a b. from_next (λ i. p i ≡ false) s miss j a (λ c. f.least j c b);
    }

pub first_from-none :
    (n s : ℕ) (p : ℕ → Bool) → first_from n s p ≡ none → (j : ℕ) → s ≤ j → j < s + n → p j ≡ false
unfolding first_from
first_from-none zero s p e j lo hi = absurd (omega arith)
first_from-none (suc n) s p e j lo hi = elim (Bool-cases (p s)) [
  | inl hit ↦ ground arith
  | inr miss ↦
      from_next (λ i. p i ≡ false) s miss j lo
        (λ c. first_from-none n (s + 1) p (ground arith) j c (omega arith))
]

-- A hit anywhere in the range makes the search succeed.
pub first_from-some :
    (n s : ℕ) (p : ℕ → Bool) (j : ℕ)
    → s ≤ j
    → j < s + n
    → p j ≡ true
    → (k : ℕ) × (first_from n s p ≡ some k) × IsFirst s n p k
first_from-some n s p j lo hi hit = go (first_from n s p) refl
  where
    go :
        (r : Option ℕ)
        → first_from n s p ≡ r
        → (k : ℕ) × (first_from n s p ≡ some k) × IsFirst s n p k
    go none e = cc (first_from-none n s p e j lo hi)
    go (some k) e = (k, e, first_from-IsFirst n s p e)
