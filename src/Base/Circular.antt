-- ===== src/Base/Circular.antt =====
-- Reduction by the length of an array keeps apart the indices of a window no longer than it.
use Prim.Native.Nat.{ℕ, ◌+◌, ◌/◌, ◌%◌, ◌^◌, ◌≤◌, ◌<◌, bit_and}
use mathlib.Core.Path.{◌≡◌, ◌∙◌}
use mathlib.Core.List.{List}
use native.Mathlib.Omega.{arith}
use native.Mathlib.Decide.{dec_lt}
use native.Mathlib.Nat.{div-add-mod, mod-lt, mul-le-mul_left}
use saps_extended.Base.Tests.{◌==◌, if◌then◌else◌}
use saps_extended.Base.Lists.{
  length, get_or, set, replicate, length-set, get_or-set_self, get_or-set_ne, get_or-replicate,
}
use saps_extended.Base.Bits.{bit_and-low_mask}

mod-inj_le : (m i j : ℕ) → i ≤ j → j < i + m → i % m ≡ j % m → i ≡ j
mod-inj_le m i j h k e = elim (dec_lt (i / m) (j / m)) [
  | yes p ↦ absurd (omega (arith, div-add-mod i m, div-add-mod j m, mul-le-mul_left m p))
  | no p ↦ omega (
    arith,
    div-add-mod i m,
    div-add-mod j m,
    mul-le-mul_left {m = j / m} {n = i / m} m (omega arith),
  )
]

pub mod-inj : (m lo i j : ℕ) → lo ≤ i → i < lo + m → lo ≤ j → j < lo + m → i % m ≡ j % m → i ≡ j
mod-inj m lo i j a b c d e = elim (dec_lt i j) [
  | yes p ↦ mod-inj_le m i j (omega arith) (omega arith) e
  | no p ↦ omega (arith, mod-inj_le m j i (omega arith) (omega arith) (omega arith))
]

-- `xs[i & mask]`
unfoldable pub read : List ℕ → ℕ → ℕ → ℕ
read xs mask i = get_or xs (bit_and i mask) 0

-- `xs[i & mask] = v`
unfoldable pub write : List ℕ → ℕ → ℕ → ℕ → List ℕ
write xs mask i v = set xs (bit_and i mask) v

-- The array has `mask + 1` entries, a power of two.
pub record IsRing (mask : ℕ) (xs : List ℕ) : Type 0 where
  pub bits : ℕ
  pub ones : mask + 1 ≡ 2 ^ bits
  pub sized : length xs ≡ mask + 1

pub write-IsRing :
    {mask : ℕ} {xs : List ℕ} (i v : ℕ) → IsRing mask xs → IsRing mask (write xs mask i v)
unfolding write
write-IsRing {mask} {xs} i v r = record {
  bits = r.bits;
  ones = r.ones;
  sized = length-set xs (bit_and i mask) v ∙ r.sized;
}

-- In a window that starts at `lo`, a write is seen at its own index only.
pub read-write :
    {mask : ℕ} {xs : List ℕ} (lo i j v : ℕ)
    → IsRing mask xs
    → lo ≤ i
    → i ≤ lo + mask
    → lo ≤ j
    → j ≤ lo + mask
    → read (write xs mask i v) mask j ≡ (if i == j then v else read xs mask j)
unfolding read write
read-write {mask} {xs} lo i j v r a b c d = ground (
  arith,
  r.sized,
  bit_and-low_mask r.bits i mask r.ones,
  bit_and-low_mask r.bits j mask r.ones,
  mod-inj (mask + 1) lo i j a (omega arith) c (omega arith),
  mod-lt i (let p : 0 < mask + 1 = omega arith in p),
  get_or-set_self xs (bit_and i mask) v 0,
  get_or-set_ne xs (bit_and i mask) (bit_and j mask) v 0,
)

pub read-replicate : (n mask i : ℕ) → read (replicate n 0) mask i ≡ 0
unfolding read
read-replicate n mask i = get_or-replicate n (bit_and i mask) 0
