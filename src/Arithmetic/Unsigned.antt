-- ===== src/Arithmetic/Unsigned.antt =====
-- `udiv64` and `umod64` of lib/arithmetic.c.
use os_project.Common.{
  ℕ, zero, suc, ◌+◌, ◌-◌, ◌*◌, ◌/◌, ◌%◌, ◌^◌, ◌≤◌, ◌<◌, ◌≡◌, refl, sym, ap, ◌∙◌, false, ltb, ◌==◌,
  Bool-cases, ltb→lt, ==_iff, inl, inr, arith, ok, err, divide_error, ◌>>=◌, u32, u64,
  if◌then◌else◌,
}
use native.Mathlib.Nat.{
  div-eq_of_lt, suc-mul, mul-lt-mul_of_pos_right, le-div_iff_mul-le, div-mul-le_self,
  lt-div-mul-add, div-lt_iff_lt-mul, div-add-mod, mod-lt, div-le_self, mul-add-div,
  div-div-eq-div-mul, mul-div-mul_right, mul-le-mul_right,
}
use os_project.Common.Bits.{pow_pos}
use os_project.Arithmetic.{divl, nlz, udiv64_short, udiv64_long, udiv64, umod64}
use os_project.Arithmetic.Normalise.{nlz-digits, pow-complement}
use os_project.Arithmetic.Estimate.{estimate}

divl_ok : (n d : ℕ) → 0 < d → n < 2 ^ 32 * d → divl n d ≡ ok (n / d)
unfolding divl
divl_ok n d pos h = let fits : n / d < 2 ^ 32 = (div-lt_iff_lt-mul pos).1 h in ground arith

short_core :
    (n1 n0 d : ℕ)
    → n1 < 2 ^ 32
    → n0 < 2 ^ 32
    → 0 < d
    → d < 2 ^ 32
    → (if d == 0 then err divide_error else (do
      q ← divl (u64 (u64 (2 ^ 32 * (n1 % d)) + n0)) d
      ok (u64 (q + u64 (2 ^ 32 * (n1 / d))))))
      ≡ ok ((2 ^ 32 * n1 + n0) / d)
short_core n1 n0 d h1 h0 pos hd =
    let r_lt : n1 % d < d = mod-lt n1 pos in
    let t_le : n1 / d ≤ n1 = div-le_self n1 d in
    let e1 : u64 (u64 (2 ^ 32 * (n1 % d)) + n0) ≡ 2 ^ 32 * (n1 % d) + n0 = omega (arith, r_lt) in
    let e2 : u64 (2 ^ 32 * (n1 / d)) ≡ 2 ^ 32 * (n1 / d) = omega (arith, t_le) in
    let split : (2 ^ 32 * n1 + n0) / d ≡ 2 ^ 32 * (n1 / d) + (2 ^ 32 * (n1 % d) + n0) / d =
      ap (λ (m : ℕ). m / d) {y = d * (2 ^ 32 * (n1 / d)) + (2 ^ 32 * (n1 % d) + n0)}
        (grind (arith, div-add-mod n1 d))
      ∙ mul-add-div pos (2 ^ 32 * (n1 / d)) (2 ^ 32 * (n1 % d) + n0) in
    let total : (2 ^ 32 * n1 + n0) / d < 2 ^ 64 = omega (arith, div-le_self (2 ^ 32 * n1 + n0) d) in
    let e0 : (d == 0) ≡ false = ground arith in
    rw (e0, e1, divl_ok (2 ^ 32 * (n1 % d) + n0) d pos (omega (arith, r_lt)), e2)
      (ap ok (omega (arith, split, total)))

udiv64_short_lem : (n d : ℕ) → n < 2 ^ 64 → 0 < d → d < 2 ^ 32 → udiv64_short n d ≡ ok (n / d)
unfolding udiv64_short divl
udiv64_short_lem n d h pos small =
    let e1 : u32 (n / 2 ^ 32) ≡ n / 2 ^ 32 = omega arith in
    let e2 : u32 d ≡ d = omega arith in
    rw (e1, e2)
      (short_core (n / 2 ^ 32) (u32 n) d (omega arith) (omega arith) pos small
        ∙ ap (λ (m : ℕ). ok (m / d)) (omega arith))

-- 2 ^ (31 - s) is w: the divisor's leading 32 digits are those in front of the last log w + 1.
lead_digits :
    (d s w : ℕ)
    → w * 2 ^ s ≡ 2 ^ 31
    → d < 2 ^ 32 * (w * 2)
    → u32 (u64 (d * 2 ^ s) / 2 ^ 32) ≡ d / (w * 2)
lead_digits d s w whole h =
    let w_pos : 0 < w * 2 = omega (arith, whole) in
    let no_loss : d * 2 ^ s < 2 ^ 64 =
      grind (arith, mul-lt-mul_of_pos_right h (pow_pos s), whole) in
    let e : d * 2 ^ s / 2 ^ 32 ≡ d / (w * 2) =
      ap (λ (m : ℕ). d * 2 ^ s / m) {y = w * 2 * 2 ^ s} (grind (arith, whole))
      ∙ mul-div-mul_right d (w * 2) (pow_pos s) in
    let fits : d / (w * 2) < 2 ^ 32 = (div-lt_iff_lt-mul w_pos).1 h in
    omega (arith, e, no_loss, fits)

choose :
    (n d k q : ℕ)
    → n < 2 ^ 64
    → k * d ≤ n
    → n < k * d + d
    → 1 ≤ k
    → k ≤ q
    → q ≤ k + 1
    → (if ltb (u64 (n + 2 ^ 64 - u64 ((q - 1) * d))) d then q - 1 else q) ≡ k
choose n d zero q hn below above some_times low high = absurd (omega (arith, some_times))
choose n d (suc k) q hn below above some_times low high = elim (Bool-cases (q == suc k)) [
  | inl e ↦
      let same_q : q ≡ suc k = (==_iff q (suc k)).0 e in
      let pred : suc k - 1 ≡ k = omega arith in
      let product : suc k * d ≡ k * d + d = suc-mul k d in
      rw (same_q, pred) (ground (arith, product))
  | inr e ↦
      let next_q : q ≡ suc k + 1 = ground arith in
      let pred : suc k + 1 - 1 ≡ suc k = omega arith in rw (next_q, pred) (ground arith)
]

-- The correction chooses the right one of the two candidates.
correct_quotient :
    (n d q : ℕ)
    → n < 2 ^ 64
    → 0 < d
    → d ≤ n
    → n / d ≤ q
    → q ≤ n / d + 1
    → q < 2 ^ 64
    → (let less = u64 (q + (2 ^ 64 - 1)) in
        if ltb (u64 (n + 2 ^ 64 - u64 (less * d))) d then less else q)
      ≡ n / d
correct_quotient n d q hn pos le low high fits =
    let k = n / d in
    let below : k * d ≤ n = div-mul-le_self n d in
    let above : n < k * d + d = lt-div-mul-add pos in
    let some_times : 1 ≤ k = (le-div_iff_mul-le pos).1 (omega arith) in
    let less : u64 (q + (2 ^ 64 - 1)) ≡ q - 1 = omega (arith, some_times) in
    rw less (choose n d k q hn below above some_times low high)

long_core :
    (n d s w : ℕ)
    → n < 2 ^ 64
    → w * 2 ^ s ≡ 2 ^ 31
    → 2 ^ 32 * w ≤ d
    → d < 2 ^ 32 * (w * 2)
    → d ≤ n
    → (do
      top ← divl (n / 2) (u32 (u64 (d * 2 ^ s) / 2 ^ 32))
      let q = top / w
      let less = u64 (q + (2 ^ 64 - 1))
      ok (if ltb (u64 (n + 2 ^ 64 - u64 (less * d))) d then less else q))
      ≡ ok (n / d)
long_core n d s w h whole low high le =
    let e = w * 2 in
    let v1 = d / e in
    let e_pos : 0 < e = omega (arith, whole) in
    let large : 2 ^ 31 ≤ v1 = (le-div_iff_mul-le e_pos).1 (omega (arith, low)) in
    let q_lead : n / 2 / v1 / w ≡ n / (v1 * e) =
      rw (div-div-eq-div-mul n 2 v1, div-div-eq-div-mul n (2 * v1) w)
        (ap (λ (m : ℕ). n / m) (grind arith)) in
    let (under, over) =
      estimate (2 ^ 31) e (v1 * e) d n (mul-le-mul_right e large) (div-mul-le_self d e)
        (lt-div-mul-add e_pos) (omega arith) (omega (arith, h)) in
    let fits : n / (v1 * e) < 2 ^ 64 = omega (arith, div-le_self n (v1 * e)) in
    rw
      (
        lead_digits d s w whole high,
        divl_ok (n / 2) v1 (omega (arith, large)) (omega (arith, large)),
        q_lead,
      )
      (ap ok (correct_quotient n d (n / (v1 * e)) h (omega (arith, low, e_pos)) le under over fits))

udiv64_long_lem : (n d : ℕ) → n < 2 ^ 64 → 2 ^ 32 ≤ d → d < 2 ^ 64 → udiv64_long n d ≡ ok (n / d)
unfolding udiv64_long divl
udiv64_long_lem n d h big fits = elim (Bool-cases (ltb n d)) [
  | inl e ↦ rw e (ap ok (sym (div-eq_of_lt (ltb→lt n d e))))
  | inr e ↦
      let x = u32 (d / 2 ^ 32) in
      let (bounded, low, high) = nlz-digits x (omega arith) (omega arith) in
      let whole : 2 ^ (31 - nlz x) * 2 ^ nlz x ≡ 2 ^ 31 = pow-complement (nlz x) bounded in
      rw e (
        long_core n d (nlz x) (2 ^ (31 - nlz x)) h whole (omega (arith, low, fits))
          (omega (arith, high, fits)) (ground arith))
]

-- udiv64 returns the quotient of any two 64-bit numbers, and traps when the divisor is 0; the
-- divide instruction inside it never traps for another divisor.
pub udiv64_lem :
    (n d : ℕ)
    → n < 2 ^ 64
    → d < 2 ^ 64
    → udiv64 n d ≡ (if d == 0 then err divide_error else ok (n / d))
unfolding udiv64 udiv64_short
udiv64_lem n d h fits = elim (Bool-cases (d / 2 ^ 32 == 0)) [
  | inl e ↦
      let small : d < 2 ^ 32 = ground arith in
      rw e (elim (Bool-cases (d == 0)) [
        | inl z ↦ rw ((==_iff d 0).0 z) refl
        | inr nz ↦ rw nz (udiv64_short_lem n d h (ground arith) small)
      ])
  | inr e ↦
      let nonzero : (d == 0) ≡ false = ground arith in
      rw (e, nonzero) (udiv64_long_lem n d h (ground arith) fits)
]

-- umod64 returns the remainder modulo 2 ^ 32, which is the remainder itself only when it is below
-- 2 ^ 32; for the divisor 0 it traps.
pub umod64_lem :
    (n d : ℕ)
    → n < 2 ^ 64
    → d < 2 ^ 64
    → umod64 n d ≡ (if d == 0 then err divide_error else ok (n % d % 2 ^ 32))
unfolding umod64
umod64_lem n d h fits = elim (Bool-cases (d == 0)) [
  | inl e ↦ rw (udiv64_lem n d h fits, e) refl
  | inr e ↦
      let parts = div-add-mod n d in
      rw (udiv64_lem n d h fits, e) (ap ok (omega (arith, parts, mod-lt n {m = d} (ground arith))))
]
