-- ===== src/Base/Bits/Digit.antt =====
-- The lowest binary digit of `&`, from the recursion on digits that the native operation stands
-- for; and `&` with zero.
use Prim.Native.Nat.{
  ℕ, zero, suc, ◌+◌, ◌-◌, ◌*◌, ◌/◌, ◌%◌, ◌≤◌, min, bit_and, digits, bit_and-bitwise,
}
use mathlib.Core.Path.{◌≡◌, refl, subst}
use native.Mathlib.Omega.{arith}

-- The recursion behind `&`, on fuel.
abbrev conjunction : ℕ → ℕ → ℕ → ℕ
conjunction = digits (λ y. 0) min

conjunction-zero_left : (fuel b : ℕ) → conjunction fuel 0 b ≡ 0
conjunction-zero_left zero b = refl
conjunction-zero_left (suc fuel) b = refl

conjunction-zero_right : (fuel a : ℕ) → conjunction fuel a 0 ≡ 0
conjunction-zero_right zero zero = refl
conjunction-zero_right zero (suc a) = refl
conjunction-zero_right (suc fuel) zero = refl
conjunction-zero_right (suc fuel) (suc a) = omega (arith, conjunction-zero_right fuel (suc a / 2))

pub bit_and-zero : (a : ℕ) → bit_and a 0 ≡ 0
bit_and-zero a = simp bit_and-bitwise (conjunction-zero_right a a)

-- Fuel beyond the left number is spare.
conjunction-spare :
    (fuel spare a b : ℕ) → a ≤ fuel → conjunction (spare + fuel) a b ≡ conjunction fuel a b
conjunction-spare fuel spare zero b h =
    rw (conjunction-zero_left (spare + fuel) b, conjunction-zero_left fuel b) refl
conjunction-spare zero spare (suc a) b h = absurd (omega arith)
conjunction-spare (suc fuel) spare (suc a) b h =
    let shift : suc (spare + fuel) ≡ spare + suc fuel = omega arith in
    subst (λ n. conjunction n (suc a) b ≡ conjunction (suc fuel) (suc a) b) shift
      (omega (arith, conjunction-spare fuel spare (suc a / 2) (b / 2) (omega arith)))

halve : (a b : ℕ) → conjunction a (suc a / 2) b ≡ bit_and (suc a / 2) b
halve a b =
    let half = suc a / 2 in
    let split : a - half + half ≡ a = omega arith in
    simp bit_and-bitwise (
      subst (λ n. conjunction n half b ≡ conjunction half half b) split
        (conjunction-spare half (a - half) half b (omega arith)))

pub bit_and_digit : (a b : ℕ) → bit_and a b ≡ bit_and (a / 2) (b / 2) * 2 + min (a % 2) (b % 2)
bit_and_digit zero b = simp bit_and-bitwise (omega arith)
bit_and_digit (suc a) b = omega (arith, bit_and-bitwise (suc a) b, halve a (b / 2))
