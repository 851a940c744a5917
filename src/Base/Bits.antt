-- ===== src/Base/Bits.antt =====
-- `x & (2^k - 1)` is `x mod 2^k`: the bit mask of a table whose capacity is a power of two.
use Prim.Native.Nat.{
  ℕ, zero, suc, ◌+◌, ◌-◌, ◌*◌, ◌/◌, ◌%◌, ◌^◌, ◌≤◌, ◌<◌, min, bit_and, digits, bit_and-bitwise,
}
use mathlib.Core.Path.{◌≡◌, ap, sym, ◌∙◌}
use native.Mathlib.Omega.{arith}
use native.Mathlib.Nat.{
  pow-suc, pow-succ', div-add-mod, mul-add-mod_self_left, mod-eq_of_lt, mod-lt,
}

pub pow-pos : (k : ℕ) → 0 < 2 ^ k
pow-pos zero = omega arith
pow-pos (suc k) = omega (arith, pow-suc 2 k, pow-pos k)

-- A mask of ones loses its lowest one to a halving.
mask_halved : (p : ℕ) → 0 < p → ((2 * p - 1) / 2 ≡ p - 1) × ((2 * p - 1) % 2 ≡ 1)
mask_halved p h = omega arith

-- The remainder by an even number, from the remainder of the half.
mod_double : (x p : ℕ) → 0 < p → (x / 2 % p) * 2 + x % 2 ≡ x % (2 * p)
mod_double x p h =
    let q = x / 2 / p in
    let r = x / 2 % p in
    let split : x ≡ 2 * p * q + (2 * r + x % 2) = omega (arith, div-add-mod (x / 2) p) in
    let small : 2 * r + x % 2 < 2 * p = omega (arith, mod-lt (x / 2) h) in
    let turned : x % (2 * p) ≡ 2 * r + x % 2 =
      ap (λ t. t % (2 * p)) split
      ∙ mul-add-mod_self_left (2 * p) q (2 * r + x % 2)
      ∙ mod-eq_of_lt small in
    omega arith

-- The digits that the native operation computes, under a mask of k ones and enough fuel.
digits-mask : (k fuel x : ℕ) → x ≤ fuel → digits (λ b. 0) min fuel x (2 ^ k - 1) ≡ x % 2 ^ k
digits-mask k zero x le = omega (arith, mod-eq_of_lt {n = 0} (pow-pos k))
digits-mask k (suc fuel) zero le = sym (mod-eq_of_lt (pow-pos k))
digits-mask zero (suc fuel) (suc x) le = omega (arith, digits-mask 0 fuel (suc x / 2) (omega arith))
digits-mask (suc k) (suc fuel) (suc x) le =
    let half = mask_halved (2 ^ k) (pow-pos k) in
    rw (pow-succ', half.0, half.1, digits-mask k fuel (suc x / 2) (omega arith))
      (omega (arith, mod_double (suc x) (2 ^ k) (pow-pos k)))

pub bit_and-mask : (k x : ℕ) → bit_and x (2 ^ k - 1) ≡ x % 2 ^ k
bit_and-mask k x = bit_and-bitwise x (2 ^ k - 1) ∙ digits-mask k x x (omega arith)
