-- ===== src/Calculation/V2/Isqrt.antt =====
-- `isqrt` of src/calculation/v2.rs returns the integer square root.
use native.Mathlib.Nat.{lt-mul-div-succ, mul-div-le, mul-le-mul, div_self}
use arb_bot.Prelude.{
  ℕ, zero, suc, ◌+◌, ◌*◌, ◌/◌, ◌≤◌, ◌<◌, ◌≡◌, refl, arith, ltb, ◌==◌, inl, inr, ltb→lt, tests,
  Bool-cases,
}
use arb_bot.Prelude.Arith.{am_gm, le-div_of_mul-le, add-le-mul}
use arb_bot.Word.{u256_mod, u256_max, add256, add256_exact}
use arb_bot.Calculation.V2.{done, panic, newton, isqrt}

-- One step of Newton's method from above stays above the root.
step_above : (n x : ℕ) → 0 < x → n < ((x + n / x) / 2 + 1) * ((x + n / x) / 2 + 1)
step_above n x p =
    let q = n / x in
    let y = (x + q) / 2 in
    let below : n < x * (q + 1) = lt-mul-div-succ n p in
    let mean : 4 * (x * (q + 1)) ≤ (x + (q + 1)) * (x + (q + 1)) = am_gm x (q + 1) in
    let round : x + (q + 1) ≤ 2 * (y + 1) = omega arith in
    let square : (x + (q + 1)) * (x + (q + 1)) ≤ 2 * (y + 1) * (2 * (y + 1)) =
      mul-le-mul round round in
    omega arith

-- No step overflows.
step_small : (n x : ℕ) → 0 < x → x ≤ n → x + n / x ≤ n + 1
step_small n x p h =
    let one : 1 ≤ n / x = le-div_of_mul-le n 1 x p (omega arith) in
    omega (arith, add-le-mul x (n / x) p one, mul-div-le n x)

-- What the loop keeps: `x` is not below the root, and `y` is the step from `x`.
record Inv (n x y : ℕ) : Type 0 where
  pos : 0 < x
  le : x ≤ n
  above : n < (x + 1) * (x + 1)
  step : y ≡ (x + n / x) / 2

-- `r` is the integer square root of `n`.
abbrev pub IsRoot : ℕ → ℕ → Type 0
IsRoot n r = (r * r ≤ n) × (n < (r + 1) * (r + 1))

Inv-next : (n x y : ℕ) → n + 1 < u256_mod → y < x → Inv n x y → Inv n y (add256 y (n / y) / 2)
Inv-next n x y fits lt inv =
    let one : 1 ≤ n / x = le-div_of_mul-le n 1 x inv.pos (omega arith) in
    let pos : 0 < y = omega arith in
    record {
      pos = pos;
      le = omega arith;
      above = rw inv.step (step_above n x inv.pos);
      step = rw (add256_exact y (n / y) (omega (arith, step_small n y pos (omega arith))));
    }

Inv-end : (n x y : ℕ) → x ≤ y → Inv n x y → IsRoot n x
Inv-end n x y h inv =
    let root : x ≤ n / x = omega arith in
    (omega (arith, mul-le-mul {n₁ = x} {n₂ = x} (omega arith) root, mul-div-le n x), inv.above)

-- The loop ends with the root if it has `x` rounds.
newton_ends :
    (fuel n x y : ℕ)
    → n + 1 < u256_mod
    → x ≤ fuel
    → Inv n x y
    → (r : ℕ) × (newton fuel n x y ≡ done r) × IsRoot n r
unfolding newton
newton_ends zero n x y fits h inv = absurd (omega (arith, inv.pos))
newton_ends (suc fuel) n x y fits h inv = elim (Bool-cases (ltb y x)) [
  | inl lt ↦
      let next = Inv-next n x y fits (ltb→lt y x lt) inv in
      let (r, e, root) = newton_ends fuel n y (add256 y (n / y) / 2) fits (omega tests) next in
      (r, ground (arith, next.pos), root)
  | inr ge ↦ (x, rw ge, Inv-end n x y (ground arith) inv)
]

Inv-start : (n : ℕ) → 0 < n → n + 1 < u256_mod → Inv n n (add256 n 1 / 2)
Inv-start n p fits = record {
  pos = p;
  le = omega arith;
  above = omega arith;
  step = rw (add256_exact n 1 fits, div_self p);
}

-- For every `n` below 2^256 - 1 the loop of `isqrt` ends without a panic, and its result `r` is the
-- integer square root: r * r ≤ n < (r + 1) * (r + 1).
pub isqrt-IsRoot :
    (n : ℕ)
    → n + 1 < u256_mod
    → (r : ℕ) × (isqrt n ≡ done r) × (r * r ≤ n) × (n < (r + 1) * (r + 1))
unfolding isqrt
isqrt-IsRoot n fits = elim (Bool-cases (n == 0)) [
  | inl none_left ↦ (0, rw none_left, ground arith, ground arith)
  | inr more ↦
      let (r, e, root) =
        newton_ends n n n (add256 n 1 / 2) fits (omega arith) (Inv-start n (ground arith) fits) in
      (r, rw more e, root.0, root.1)
]

-- At 2^256 - 1 the first sum wraps to zero, and the loop divides by it: `isqrt` panics there.
pub isqrt-max : isqrt u256_max ≡ panic
unfolding isqrt add256
isqrt-max = refl
