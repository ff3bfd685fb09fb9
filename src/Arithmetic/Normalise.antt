-- ===== src/Arithmetic/Normalise.antt =====
-- `nlz` of lib/arithmetic.c.
use os_project.Common.{
  ℕ, zero, suc, ◌+◌, ◌-◌, ◌*◌, ◌^◌, ◌≤◌, ◌<◌, ◌≡◌, refl, sym, ap, ◌∙◌, dec_le, leb, Bool-cases, inl,
  inr, arith, if◌then◌else◌,
}
use native.Mathlib.Nat.{
  add-zero, add-suc, mul-one, pow-suc, mul_assoc, mul_comm, mul_right_comm, le-mul_of_pos_right,
  pow-le-pow_right, le_of_mul-le-mul_right, mul-le-mul_right, lt_of_mul-lt-mul_right,
  mul-lt-mul_of_pos_right,
}
use os_project.Common.Bits.{pow_pos}
use os_project.Arithmetic.{nlz, shift_up}

pub pow-add : (m n : ℕ) → 2 ^ (m + n) ≡ 2 ^ m * 2 ^ n
pow-add m zero = rw add-zero (sym (mul-one (2 ^ m)))
pow-add m (suc n) =
    rw (add-suc m n, pow-suc 2 (m + n), pow-suc 2 n, pow-add m n) (mul_assoc (2 ^ m) (2 ^ n) 2)

-- The pair (n, y) that `nlz x` holds: nothing is shifted out, and y is at least `least`.
pub record Shifted (x least : ℕ) (r : ℕ × ℕ) : Type 0 where
  pub kept : r.1 ≡ x * 2 ^ r.0
  pub fits : r.1 < 2 ^ 32
  pub high : least ≤ r.1

shift_up-Shifted :
    {x least : ℕ} (limit bits : ℕ) (r : ℕ × ℕ)
    → (limit + 1) * 2 ^ bits ≡ 2 ^ 32
    → least * 2 ^ bits ≡ limit + 1
    → Shifted x least r
    → Shifted x (limit + 1) (shift_up limit bits r)
unfolding shift_up
shift_up-Shifted {x} {least} limit bits (n, y) e1 e2 v = elim (Bool-cases (leb y limit)) [
  | inl e ↦
      let small : y < limit + 1 = ground arith in
      let no_loss : y * 2 ^ bits < 2 ^ 32 =
        omega (arith, e1, mul-lt-mul_of_pos_right small (pow_pos bits)) in
      rw e (record {
        kept =
            let wider : x * 2 ^ (n + bits) ≡ y * 2 ^ bits =
              rw (pow-add n bits, v.kept) (sym (mul_assoc x (2 ^ n) (2 ^ bits))) in
            omega (arith, no_loss, wider);
        fits = omega (arith, no_loss);
        high = omega (arith, no_loss, e2, mul-le-mul_right (2 ^ bits) v.high);
      })
  | inr e ↦ rw e (record { kept = v.kept; fits = v.fits; high = ground arith })
]

last_shift :
    {x : ℕ} (r : ℕ × ℕ)
    → Shifted x (2 ^ 30) r
    → let s = if leb r.1 0x7FFFFFFF then r.0 + 1 else r.0 in
      (2 ^ 31 ≤ x * 2 ^ s) × (x * 2 ^ s < 2 ^ 32)
last_shift {x} (n, y) v = elim (Bool-cases (leb y 0x7FFFFFFF)) [
  | inl e ↦
      let small : y < 2 ^ 31 = ground arith in
      let twice : x * 2 ^ (n + 1) ≡ y * 2 =
        rw (pow-add n 1, v.kept) (sym (mul_assoc x (2 ^ n) 2)) in
      rw e (omega (arith, twice, v.high), omega (arith, twice, small))
  | inr e ↦ rw e (ground (arith, v.kept), omega (arith, v.kept, v.fits))
]

-- The number of leading zeros: the shift brings bit 31 to 1 and loses nothing.
pub nlz_lem : (x : ℕ) → 0 < x → x < 2 ^ 32 → (2 ^ 31 ≤ x * 2 ^ nlz x) × (x * 2 ^ nlz x < 2 ^ 32)
unfolding nlz
nlz_lem x pos h =
    let start : Shifted x 1 (0, x) = record { kept = omega arith; fits = h; high = pos } in
    let a = shift_up-Shifted 0x0000FFFF 16 (0, x) refl refl start in
    let b = shift_up-Shifted 0x00FFFFFF 8 (shift_up 0x0000FFFF 16 (0, x)) refl refl a in
    let c = shift_up-Shifted 0x0FFFFFFF 4 _ refl refl b in
    last_shift _ (shift_up-Shifted 0x3FFFFFFF 2 _ refl refl c)

pub pow-complement : (s : ℕ) → s ≤ 31 → 2 ^ (31 - s) * 2 ^ s ≡ 2 ^ 31
pow-complement s h = sym (pow-add (31 - s) s) ∙ ap (λ (t : ℕ). 2 ^ t) {y = 31} (omega arith)

digits-from :
    (x s : ℕ)
    → 0 < x
    → 2 ^ 31 ≤ x * 2 ^ s
    → x * 2 ^ s < 2 ^ 32
    → (s ≤ 31) × (2 ^ (31 - s) ≤ x) × (x < 2 ^ (31 - s) * 2)
digits-from x s pos low high =
    let bounded : s ≤ 31 = elim (dec_le s 31) [
      | yes p ↦ p
      | no p ↦ absurd (
          omega (
            arith,
            pow-le-pow_right {n = 2} (omega arith) {i = 32} {j = s} (omega arith),
            le-mul_of_pos_right (2 ^ s) pos,
            mul_comm x (2 ^ s),
          ))
    ] in
    let whole : 2 ^ (31 - s) * 2 ^ s ≡ 2 ^ 31 = pow-complement s bounded in
    (
      bounded,
      le_of_mul-le-mul_right (omega (arith, whole)) (pow_pos s),
      lt_of_mul-lt-mul_right (2 ^ s)
          (omega (arith, whole, mul_right_comm (2 ^ (31 - s)) 2 (2 ^ s))),
    )

-- In terms of powers: x has 32 - nlz x digits.
pub nlz-digits :
    (x : ℕ)
    → 0 < x
    → x < 2 ^ 32
    → (nlz x ≤ 31) × (2 ^ (31 - nlz x) ≤ x) × (x < 2 ^ (31 - nlz x) * 2)
nlz-digits x pos h = let (low, high) = nlz_lem x pos h in digits-from x (nlz x) pos low high
