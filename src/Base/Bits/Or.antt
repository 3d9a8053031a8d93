-- ===== src/Base/Bits/Or.antt =====
-- `|` at variables: the lowest binary digit, from the recursion that the native operation stands
-- for, and words that are put together from a high and a low part.
use Prim.Native.Nat.{
  ℕ, zero, suc, ◌+◌, ◌-◌, ◌*◌, ◌/◌, ◌%◌, ◌^◌, ◌≤◌, ◌<◌, max, bit_or, digits, bit_or-bitwise,
}
use mathlib.Core.Path.{◌≡◌, refl, ap, subst}
use native.Mathlib.Nat.{pow-suc}
use native.Mathlib.Omega.{arith}

-- The recursion behind `|`, on fuel.
abbrev union : ℕ → ℕ → ℕ → ℕ
union = digits (λ y. y) max

union-zero_left : (fuel b : ℕ) → union fuel 0 b ≡ b
union-zero_left zero b = refl
union-zero_left (suc fuel) b = refl

union-zero_right : (fuel a : ℕ) → a ≤ fuel → union fuel a 0 ≡ a
union-zero_right zero zero h = refl
union-zero_right zero (suc a) h = absurd (omega arith)
union-zero_right (suc fuel) zero h = refl
union-zero_right (suc fuel) (suc a) h =
    omega (arith, union-zero_right fuel (suc a / 2) (omega arith))

pub bit_or-zero_left : (b : ℕ) → bit_or 0 b ≡ b
bit_or-zero_left b = simp bit_or-bitwise (union-zero_left 0 b)

pub bit_or-zero : (a : ℕ) → bit_or a 0 ≡ a
bit_or-zero a = simp bit_or-bitwise (union-zero_right a a (omega arith))

-- Fuel beyond the left number is spare.
union-spare : (spare fuel a b : ℕ) → a ≤ fuel → union (spare + fuel) a b ≡ union fuel a b
union-spare spare fuel zero b h = rw (union-zero_left (spare + fuel) b, union-zero_left fuel b) refl
union-spare spare zero (suc a) b h = absurd (omega arith)
union-spare spare (suc fuel) (suc a) b h =
    let shift : suc (spare + fuel) ≡ spare + suc fuel = omega arith in
    subst (λ n. union n (suc a) b ≡ union (suc fuel) (suc a) b) shift
      (omega (arith, union-spare spare fuel (suc a / 2) (b / 2) (omega arith)))

halve : (a b : ℕ) → union a (suc a / 2) b ≡ bit_or (suc a / 2) b
halve a b =
    let half = suc a / 2 in
    let split : a - half + half ≡ a = omega arith in
    simp bit_or-bitwise (
      subst (λ n. union n half b ≡ union half half b) split
        (union-spare (a - half) half half b (omega arith)))

bit_or_digit : (a b : ℕ) → bit_or a b ≡ bit_or (a / 2) (b / 2) * 2 + max (a % 2) (b % 2)
bit_or_digit zero b = simp bit_or-bitwise (omega arith)
bit_or_digit (suc a) b = omega (arith, bit_or-bitwise (suc a) b, halve a (b / 2))

scale : (k q : ℕ) → q * 2 ^ suc k ≡ 2 * (q * 2 ^ k)
scale k q = omega (arith, ap (λ (t : ℕ). q * t) (pow-suc 2 k))

-- High and low parts do not meet.
pub bit_or_parts :
    (k a b r s : ℕ)
    → r < 2 ^ k
    → s < 2 ^ k
    → bit_or (a * 2 ^ k + r) (b * 2 ^ k + s) ≡ bit_or a b * 2 ^ k + bit_or r s
bit_or_parts zero a b r s hr hs = ground (arith, bit_or-zero 0)
bit_or_parts (suc k) a b r s hr hs = ground (
  arith,
  bit_or_digit (a * 2 ^ suc k + r) (b * 2 ^ suc k + s),
  bit_or_digit r s,
  scale k a,
  scale k b,
  scale k (bit_or a b),
  pow-suc 2 k,
  bit_or_parts k a b (r / 2) (s / 2) (omega (arith, pow-suc 2 k)) (omega (arith, pow-suc 2 k)),
)
