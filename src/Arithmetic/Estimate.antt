-- ===== src/Arithmetic/Estimate.antt =====
-- The quotient by the leading digits of the divisor, in `udiv64` of lib/arithmetic.c: it is at most
-- one too large.
use os_project.Common.{ℕ, zero, suc, ◌+◌, ◌-◌, ◌*◌, ◌/◌, ◌≤◌, ◌<◌, ◌≡◌, arith, dec_le}
use native.Mathlib.Nat.{
  add-mul, mul-pos, mul-le-mul_left, mul-le-mul_right, mul-lt-mul_of_pos_right,
  lt_of_mul-lt-mul_left,
}
use native.Mathlib.Nat.{le-div_iff_mul-le, div-mul-le_self, lt-div-mul-add}

square_bound : (f : ℕ) → f * 4 ≤ (f + 1) * (f + 1)
square_bound zero = omega arith
square_bound (suc g) = grind (arith, add-mul (g + 1) 1 (g + 2))

-- Here m is 2 ^ 31, `lead` the divisor without its last digits, which are at most f.
two_too_large :
    (m f k lead n : ℕ)
    → m * (f + 1) ≤ lead
    → (k + 1) * lead ≤ n
    → n < m * m * 4
    → n < k * (lead + f)
    → ⊥
two_too_large m f k lead n long many small few =
    let over : lead < k * f = grind (arith, many, few) in
    let short : (k + 1) * (f + 1) < m * 4 =
      lt_of_mul-lt-mul_left m (grind (arith, mul-le-mul_right (k + 1) long, many, small)) in
    let upper : k * (f + 1) * f ≤ m * 4 * f = mul-le-mul_right f (grind (arith, short)) in
    let lower : m * (f + 1) * (f + 1) < k * f * (f + 1) =
      mul-lt-mul_of_pos_right (omega (arith, long, over)) (omega arith) in
    let square : m * (f * 4) ≤ m * ((f + 1) * (f + 1)) = mul-le-mul_left m (square_bound f) in
    grind (arith, upper, lower, square)

estimate_last :
    (m f lead d n : ℕ)
    → m * (f + 1) ≤ lead
    → lead ≤ d
    → d ≤ lead + f
    → 0 < m
    → n < m * m * 4
    → (n / d ≤ n / lead) × (n / lead ≤ n / d + 1)
estimate_last m f lead d n long below above pos small =
    let lead_pos : 0 < lead = omega (arith, long, mul-pos {n = f + 1} pos (omega arith)) in
    let d_pos : 0 < d = omega arith in
    let few : n < n / d * d + d = lt-div-mul-add d_pos in
    let fits : n / d * d ≤ n = div-mul-le_self n d in
    (
      (le-div_iff_mul-le lead_pos).1 (omega (arith, fits, mul-le-mul_left (n / d) below)),
      elim (dec_le (n / lead) (n / d + 1)) [
        | yes p ↦ p
        | no p ↦ absurd (
            two_too_large m f (n / d + 1) lead n long ((le-div_iff_mul-le lead_pos).0 (omega arith))
              small (omega (arith, few, add-mul (n / d) 1 d, mul-le-mul_left (n / d + 1) above)))
      ],
    )

-- The quotient by lead is the quotient by d or one more, where lead is d without its remainder
-- modulo e.
pub estimate :
    (m e lead d n : ℕ)
    → m * e ≤ lead
    → lead ≤ d
    → d < lead + e
    → 0 < m
    → n < m * m * 4
    → (n / d ≤ n / lead) × (n / lead ≤ n / d + 1)
estimate m e lead d n long below above pos small =
    let last : e - 1 + 1 ≡ e = omega (arith, below, above) in
    estimate_last m (e - 1) lead d n (rw last long) below (omega (arith, above)) pos small
