-- ===== src/Prelude/Bits.antt =====
-- Masking by a run of ones is the remainder by a power of two.
use Prim.Native.Nat.{
  ℕ, zero, suc, ◌+◌, ◌*◌, ◌/◌, ◌%◌, ◌^◌, ◌≤◌, ◌<◌, min, bit_and, digits, bit_and-bitwise,
}
use mathlib.Core.Path.{◌≡◌, refl, ap, ◌∙◌}
use native.Mathlib.Omega.{arith}
use native.Mathlib.Nat.{pow-suc, div-add-mod, mod-lt, mod-eq_of_lt, add-mul-mod_self_right}

-- The digit recursion that `bit_and` stands for, with any fuel that is large enough.
abbrev by_digits : ℕ → ℕ → ℕ → ℕ
by_digits fuel a b = digits (λ _. zero) min fuel a b

more_fuel : (f g a b : ℕ) → a ≤ f → a ≤ g → by_digits f a b ≡ by_digits g a b
more_fuel zero zero a b hf hg = refl
more_fuel zero (suc g) zero b hf hg = refl
more_fuel (suc f) zero zero b hf hg = refl
more_fuel (suc f) (suc g) zero b hf hg = refl
more_fuel zero (suc g) (suc a) b hf hg = absurd (omega arith)
more_fuel (suc f) zero (suc a) b hf hg = absurd (omega arith)
more_fuel (suc f) (suc g) (suc a) b hf hg =
    let rest = more_fuel f g (suc a / 2) (b / 2) (omega arith) (omega arith) in omega arith

bit_and_step : (a b : ℕ) → bit_and a b ≡ bit_and (a / 2) (b / 2) * 2 + min (a % 2) (b % 2)
bit_and_step zero b = omega (arith, bit_and-bitwise 0 b, bit_and-bitwise 0 (b / 2))
bit_and_step (suc a) b =
    let same = more_fuel a (suc a / 2) (suc a / 2) (b / 2) (omega arith) (omega arith) in
    omega (arith, bit_and-bitwise (suc a) b, bit_and-bitwise (suc a / 2) (b / 2))

bit_and-zero : (fuel a : ℕ) → a ≤ fuel → bit_and a 0 ≡ 0
bit_and-zero fuel zero h = refl
bit_and-zero zero (suc a) h = absurd (omega arith)
bit_and-zero (suc fuel) (suc a) h =
    let rest = bit_and-zero fuel (suc a / 2) (omega arith) in omega (arith, bit_and_step (suc a) 0)

one-le-pow : (k : ℕ) → 1 ≤ 2 ^ k
one-le-pow zero = omega arith
one-le-pow (suc k) = omega (arith, one-le-pow k, pow-suc 2 k)

-- The last `k + 1` digits are the last `k` of the half, and the lowest.
mod_double : (a p : ℕ) → 1 ≤ p → a % (p * 2) ≡ a / 2 % p * 2 + a % 2
mod_double a p h =
    let q = a / 2 / p in
    let r = a / 2 % p in
    let split : a ≡ r * 2 + a % 2 + q * (p * 2) = grind (arith, div-add-mod (a / 2) p) in
    let small : r * 2 + a % 2 < p * 2 = grind (arith, mod-lt) in
    ap (λ x. x % (p * 2)) split
    ∙ (add-mul-mod_self_right (r * 2 + a % 2) q (p * 2) ∙ mod-eq_of_lt small)

pub bit_and-mod : (k a m : ℕ) → m + 1 ≡ 2 ^ k → bit_and a m ≡ a % 2 ^ k
bit_and-mod zero a zero h = omega (arith, bit_and-zero a a)
bit_and-mod zero a (suc m) h = absurd (omega arith)
bit_and-mod (suc k) a m h =
    let twice = pow-suc 2 k in
    let rest = bit_and-mod k (a / 2) (m / 2) (omega arith) in
    rw twice (omega (arith, bit_and_step a m, mod_double a (2 ^ k) (one-le-pow k)))
