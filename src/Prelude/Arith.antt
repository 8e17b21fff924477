-- ===== src/Prelude/Arith.antt =====
-- Facts about products and quotients of native numbers that the components share.
use native.Mathlib.Nat.{
  mul-le-mul, mul-div-le, le-div_iff_mul-le, div-lt_iff_lt-mul, eq-zero-or-pos, mul-add, le_trans,
}
use native.Mathlib.Decide.{dec_le}
use Prim.Native.Nat.{ℕ, zero, suc, ◌+◌, ◌-◌, ◌*◌, ◌/◌, ◌≤◌, ◌<◌}
use mathlib.Core.Path.{◌≡◌, sym, ap, ◌∙◌}
use mathlib.Core.Logic.{◌⊎◌, inl, inr}
use native.Mathlib.Omega.{arith}

pub le-cases : (a b : ℕ) → ((d : ℕ) × (b ≡ a + d)) ⊎ ((d : ℕ) × (a ≡ b + d))
le-cases a b = elim (dec_le a b) [
  | yes h ↦ inl (b - a, omega arith)
  | no h ↦ inr (a - b, omega arith)
]

-- Four times a product is at most the square of the sum.
pub am_gm : (a b : ℕ) → 4 * (a * b) ≤ (a + b) * (a + b)
am_gm a b = elim (le-cases a b) [
  | inl (d, e) ↦ rw e (omega arith)
  | inr (d, e) ↦ rw e (omega arith)
]

pub div-le-div : (a b d : ℕ) → a ≤ b → a / d ≤ b / d
div-le-div a b d h = elim (eq-zero-or-pos d) [
  | inl e ↦ rw e (omega arith)
  | inr p ↦ (le-div_iff_mul-le p).1 (le_trans (omega (arith, mul-div-le a d)) h)
]

-- A quotient is below a bound when the numerator is below the product.
pub div-le_of_le-mul : (a b d : ℕ) → 0 < d → a ≤ b * d → a / d ≤ b
div-le_of_le-mul a b d p h =
    let q : a / d < suc b = (div-lt_iff_lt-mul p).1 (omega arith) in omega arith

pub le-div_of_mul-le : (a b d : ℕ) → 0 < d → b * d ≤ a → b ≤ a / d
le-div_of_mul-le a b d p h = (le-div_iff_mul-le p).1 h

pub mul_mono : {a b c d : ℕ} → a ≤ c → b ≤ d → a * b ≤ c * d
mul_mono h k = mul-le-mul h k

pub add-le-mul : (a b : ℕ) → 0 < a → 0 < b → a + b ≤ a * b + 1
add-le-mul zero b p q = absurd (omega arith)
add-le-mul (suc a) zero p q = absurd (omega arith)
add-le-mul (suc a) (suc b) p q = omega arith

-- A product distributes over a difference that does not stop at zero.
pub mul-sub : (d r o : ℕ) → o ≤ r → d * (r - o) + d * o ≡ d * r
mul-sub d r o h = sym (mul-add d (r - o) o) ∙ ap (λ (t : ℕ). d * t) (omega arith)

-- A product is bounded by the bounds of its factors.
pub mul-le-bound : (a b m n : ℕ) → a ≤ m → b ≤ n → a * b ≤ m * n
mul-le-bound a b m n h k = mul-le-mul h k
