-- ===== src/Base/Bits.antt =====
-- Masks of low bits, and bounds of the exclusive or, read off the digits of the native operations.
use Prim.Native.Nat.{
  ℕ, zero, suc, ◌+◌, ◌*◌, ◌/◌, ◌%◌, ◌^◌, ◌≤◌, ◌<◌, min, bit_and, bit_xor, digits, differ,
  bit_and-bitwise, bit_xor-bitwise,
}
use mathlib.Core.Path.{◌≡◌, refl, ap, ◌∙◌, sym}
use native.Mathlib.Omega.{arith}
use native.Mathlib.Nat.{
  pow-suc, mul-add-mod_self_left, mod-eq_of_lt, div-add-mod, mod-lt, zero-mod, mod-one,
}

abbrev none_left : ℕ → ℕ
none_left b = 0

-- Nothing is kept by a mask of no bits.
no_mask : (fuel x : ℕ) → digits none_left min fuel x 0 ≡ 0
no_mask zero x = refl
no_mask (suc fuel) zero = refl
no_mask (suc fuel) (suc x) = omega (arith, no_mask fuel (suc x / 2))

-- The last `k + 1` digits are the last `k` of the half, and the last one.
last_digits : (k x : ℕ) → 0 < 2 ^ k → x / 2 % 2 ^ k * 2 + x % 2 ≡ x % 2 ^ suc k
last_digits k x pos =
    let low = x / 2 % 2 ^ k * 2 + x % 2 in
    let bound = mod-lt (x / 2) {m = 2 ^ k} pos in
    let whole : x ≡ 2 ^ suc k * (x / 2 / 2 ^ k) + low =
      rw (pow-suc 2 k) (omega (arith, div-add-mod (x / 2) (2 ^ k))) in
    sym (
      ap (λ y. y % 2 ^ suc k) whole
      ∙ mul-add-mod_self_left (2 ^ suc k) (x / 2 / 2 ^ k) low
      ∙ mod-eq_of_lt (omega (arith, pow-suc 2 k, bound)))

mask_digits :
    (k fuel x m : ℕ) → x ≤ fuel → suc m ≡ 2 ^ k → digits none_left min fuel x m ≡ x % 2 ^ k
mask_digits zero fuel x m h e =
    let bare : m ≡ 0 = omega arith in rw (mod-one x, bare) (no_mask fuel x)
mask_digits (suc k) zero x m h e =
    let nothing : x ≡ 0 = omega arith in rw nothing (sym (zero-mod (2 ^ suc k)))
mask_digits (suc k) (suc fuel) zero m h e = sym (zero-mod (2 ^ suc k))
mask_digits (suc k) (suc fuel) (suc x) m h e =
    let half : suc (m / 2) ≡ 2 ^ k = omega (arith, pow-suc 2 k) in
    omega (
      arith,
      pow-suc 2 k,
      mask_digits k fuel (suc x / 2) (m / 2) (omega arith) half,
      last_digits k (suc x) (omega arith),
    )

-- A mask of `k` ones leaves the remainder by 2 ^ k.
pub bit_and_mask : (k a m : ℕ) → suc m ≡ 2 ^ k → bit_and a m ≡ a % 2 ^ k
bit_and_mask k a m e = bit_and-bitwise a m ∙ mask_digits k a a m (omega arith) e

differ-le : (x y : ℕ) → x ≤ 1 → y ≤ 1 → differ x y ≤ 1
differ-le zero y hx hy = hy
differ-le (suc x) zero hx hy = hx
differ-le (suc x) (suc y) hx hy = differ-le x y (omega arith) (omega arith)

-- The exclusive or of two numbers below a power of two stays below it.
xor_digits-lt : (k n a b : ℕ) → a < 2 ^ k → b < 2 ^ k → digits (λ b. b) differ n a b < 2 ^ k
xor_digits-lt k zero a b ha hb = hb
xor_digits-lt k (suc n) zero b ha hb = hb
xor_digits-lt zero (suc n) (suc a) b ha hb = absurd (omega arith)
xor_digits-lt (suc k) (suc n) (suc a) b ha hb = omega (
  arith,
  pow-suc 2 k,
  xor_digits-lt k n (suc a / 2) (b / 2) (omega (arith, pow-suc 2 k)) (omega (arith, pow-suc 2 k)),
  differ-le (suc a % 2) (b % 2) (omega arith) (omega arith),
)

pub bit_xor-lt : (k a b : ℕ) → a < 2 ^ k → b < 2 ^ k → bit_xor a b < 2 ^ k
bit_xor-lt k a b ha hb = rw (bit_xor-bitwise a b) (xor_digits-lt k a a b ha hb)
