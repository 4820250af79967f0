-- ===== src/Base/Bits.antt =====
-- `i & mask` for a mask of ones is the remainder by the power of two above it.
use Prim.Native.Nat.{
  ℕ, zero, suc, ◌+◌, ◌*◌, ◌/◌, ◌%◌, ◌^◌, ◌≤◌, ◌<◌, min, bit_and, digits, bit_and-bitwise,
}
use mathlib.Core.Path.{◌≡◌, refl, ◌∙◌, sym, ap}
use native.Mathlib.Omega.{arith}
use native.Mathlib.Nat.{
  two-pow-succ, one-le-pow, div-add-mod, mod-lt, mod-eq_of_lt, mod-one, mul-add-mod_self_left,
}

-- The recursion that `bit_and` stands for: a digit at a time, on fuel.
abbrev by_digits : ℕ → ℕ → ℕ → ℕ
by_digits fuel a b = digits (λ _. zero) min fuel a b

-- More fuel than digits changes nothing.
by_digits_stable : (f g a b : ℕ) → a ≤ f → a ≤ g → by_digits f a b ≡ by_digits g a b
by_digits_stable zero zero a b p q = refl
by_digits_stable zero (suc g) zero b p q = refl
by_digits_stable zero (suc g) (suc a) b p q = absurd (omega arith)
by_digits_stable (suc f) zero zero b p q = refl
by_digits_stable (suc f) zero (suc a) b p q = absurd (omega arith)
by_digits_stable (suc f) (suc g) zero b p q = refl
by_digits_stable (suc f) (suc g) (suc a) b p q =
    omega (arith, by_digits_stable f g (suc a / 2) (b / 2) (omega arith) (omega arith))

zero-bit_and : (b : ℕ) → bit_and 0 b ≡ 0
zero-bit_and b = bit_and-bitwise 0 b

bit_and_halves : (a b : ℕ) → bit_and a b ≡ bit_and (a / 2) (b / 2) * 2 + min (a % 2) (b % 2)
bit_and_halves zero b = omega (arith, zero-bit_and b, zero-bit_and (b / 2))
bit_and_halves (suc a) b = omega (
  arith,
  bit_and-bitwise (suc a) b,
  bit_and-bitwise (suc a / 2) (b / 2),
  by_digits_stable a (suc a / 2) (suc a / 2) (b / 2) (omega arith) (omega arith),
)

bit_and-zero_below : (n a : ℕ) → a ≤ n → bit_and a 0 ≡ 0
bit_and-zero_below n zero h = zero-bit_and 0
bit_and-zero_below zero (suc a) h = absurd (omega arith)
bit_and-zero_below (suc n) (suc a) h =
    omega (arith, bit_and_halves (suc a) 0, bit_and-zero_below n (suc a / 2) (omega arith))

mod_double : (a m : ℕ) → 0 < m → a % (m + m) ≡ (a / 2 % m) * 2 + a % 2
mod_double a m h =
    ap (λ x. x % (m + m)) split
    ∙ (mul-add-mod_self_left (m + m) (a / 2 / m) low ∙ mod-eq_of_lt (omega (arith, below)))
  where
    low : ℕ
    low = (a / 2 % m) * 2 + a % 2

    below : a / 2 % m < m
    below = mod-lt (a / 2) h

    split : a ≡ (m + m) * (a / 2 / m) + low
    split = omega (arith, div-add-mod (a / 2) m)

pub bit_and-low_mask : (k a mask : ℕ) → mask + 1 ≡ 2 ^ k → bit_and a mask ≡ a % (mask + 1)
bit_and-low_mask zero a mask h =
    let e : mask ≡ 0 = omega arith in rw e (bit_and-zero_below a a (omega arith) ∙ sym (mod-one a))
bit_and-low_mask (suc k) a mask h = omega (
  arith,
  two-pow-succ k,
  one-le-pow k 2 (omega arith),
  bit_and_halves a mask,
  bit_and-low_mask k (a / 2) (mask / 2) half_size,
  ap (λ n. a / 2 % n) half_size,
  mod_double a (2 ^ k) (one-le-pow k 2 (omega arith)),
  ap (λ n. a % n) whole,
)
  where
    half_size : mask / 2 + 1 ≡ 2 ^ k
    half_size = omega (arith, two-pow-succ k)

    whole : mask + 1 ≡ 2 ^ k + 2 ^ k
    whole = omega (arith, two-pow-succ k)
