-- ===== src/Run.antt =====
-- What a call that may recur without a bound ends in: a value, an abort of the simulator (a failed
-- assertion, a fatal log message or undefined behaviour), or fuel spent.
use snipersimcommon.Base.{Bool, true, false, Option, none, some, ◌≡◌, refl}

pub data Run {ℓ} (A : Type ℓ) : Type ℓ where
  done : A → Run A
  abort spent : Run A

infixl 5 ◌>>=◌ ◌>>◌
unfoldable pub ◌>>=◌ {ℓ κ} : {A : Type ℓ} {B : Type κ} → Run A → (A → Run B) → Run B
done a >>= f = f a
abort >>= f = abort
spent >>= f = spent

unfoldable pub ◌>>◌ {ℓ} : {B : Type ℓ} → Run (Unit {0}) → Run B → Run B
unfolding ◌>>=◌
m >> k = m >>= λ _. k

unfoldable pub check : Bool → Run (Unit {0})
check true = done tt
check false = abort

unfoldable pub from {ℓ} : {A : Type ℓ} → Option A → Run A
from none = abort
from (some a) = done a

-- The call does not spend its fuel, and what it returns, if it does not abort, is such.
pub data Ensures {ℓ} {A : Type ℓ} (P : A → Type 0) : Run A → Type ℓ where
  returns : {a : A} → P a → Ensures P (done a)
  aborts : Ensures P abort

module _ {ℓ κ} {A : Type ℓ} {B : Type κ} where
  pub Ensures-bind :
      {P : A → Type 0} {Q : B → Type 0} {m : Run A} {f : A → Run B}
      → Ensures P m
      → ((a : A) → P a → Ensures Q (f a))
      → Ensures Q (m >>= f)
  unfolding ◌>>=◌
  Ensures-bind (returns {a} p) k = k a p
  Ensures-bind aborts k = aborts

  pub Ensures-done :
      {Q : B → Type 0} (a : A) (f : A → Run B) → Ensures Q (f a) → Ensures Q (done a >>= f)
  unfolding ◌>>=◌
  Ensures-done a f q = q

module _ {ℓ} {A : Type ℓ} where
  pub Ensures-map :
      {P Q : A → Type 0} {m : Run A} → Ensures P m → ((a : A) → P a → Q a) → Ensures Q m
  Ensures-map (returns {a} p) k = returns (k a p)
  Ensures-map aborts k = aborts

  pub Ensures-check :
      {Q : A → Type 0} {b : Bool} {m : Run A} → (b ≡ true → Ensures Q m) → Ensures Q (check b >> m)
  unfolding ◌>>◌ ◌>>=◌ check
  Ensures-check {b = true} k = k refl
  Ensures-check {b = false} k = aborts

pub Ensures-from : {A : Type 0} (o : Option A) → Ensures (λ a. o ≡ some a) (from o)
unfolding from
Ensures-from none = aborts
Ensures-from (some a) = returns refl

-- The call returns, and what it returns is such.
pub data Returns {ℓ} {A : Type ℓ} (P : A → Type 0) : Run A → Type ℓ where
  gives : {a : A} → P a → Returns P (done a)

pub Returns-map {ℓ} :
    {A : Type ℓ} {P Q : A → Type 0} {m : Run A} → Returns P m → ((a : A) → P a → Q a) → Returns Q m
Returns-map (gives {a} p) f = gives (f a p)
