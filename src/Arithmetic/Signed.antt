-- ===== src/Arithmetic/Signed.antt =====
-- `sdiv64` and `smod64` of lib/arithmetic.c.
use os_project.Common.{
  ℕ, zero, suc, ◌+◌, ◌-◌, ◌*◌, ◌/◌, ◌%◌, ◌^◌, ◌≤◌, ◌<◌, ◌≡◌, refl, sym, ap, ◌∙◌, Bool, true, false,
  not, ◌==◌, same, Bool-cases, inl, inr, arith, ok, err, divide_error, u32, u64, if◌then◌else◌,
}
use native.Mathlib.Nat.{add-mul, mul_comm, div-add-mod, div-le_self}
use os_project.Arithmetic.{negate, is_negative, magnitude, sdiv64, smod64, widen}
use os_project.Arithmetic.Unsigned.{udiv64_lem}

-- The number with the given sign and absolute value, as an `int64_t`.
abbrev pub int64 : Bool → ℕ → ℕ
int64 true m = negate m
int64 false m = m

-- The absolute values that an `int64_t` can have; 0 is not negative.
abbrev pub IsInt64 : Bool → ℕ → Type 0
IsInt64 true m = (0 < m) × (m ≤ 2 ^ 63)
IsInt64 false m = m < 2 ^ 63

is_negative-int64 : (s : Bool) (m : ℕ) → IsInt64 s m → is_negative (int64 s m) ≡ s
is_negative-int64 true m (pos, h) = ground arith
is_negative-int64 false m h = ground arith

magnitude-int64 : (s : Bool) (m : ℕ) → IsInt64 s m → magnitude (int64 s m) ≡ m
magnitude-int64 true m (pos, h) = ground arith
magnitude-int64 false m h = ground arith

int64-bound : (s : Bool) (m : ℕ) → IsInt64 s m → m < 2 ^ 64
int64-bound true m (pos, h) = omega arith
int64-bound false m h = omega arith

apply_sign : (s : Bool) (q : ℕ) → (if s then q else negate q) ≡ int64 (not s) q
apply_sign true q = refl
apply_sign false q = refl

-- Multiplying back: d * (n / d), in 64 bits.
negate-mul : (k x : ℕ) → k < 2 ^ 64 → u64 (negate k * x + k * x) ≡ 0
negate-mul zero x h = grind arith
negate-mul (suc k) x h =
    let e : negate (suc k) ≡ 2 ^ 64 - suc k = omega arith in
    let whole : (2 ^ 64 - suc k) * x + suc k * x ≡ 2 ^ 64 * x =
      sym (add-mul (2 ^ 64 - suc k) (suc k) x) ∙ ap (λ (t : ℕ). t * x) (omega arith) in
    rw e (omega (arith, whole))

subtract_product :
    (a b : Bool) (m k q r : ℕ)
    → IsInt64 a m
    → IsInt64 b k
    → k * q + r ≡ m
    → q ≤ m
    → u64 (int64 a m + 2 ^ 64 - u64 (int64 b k * int64 (not (same a b)) q)) ≡ u64 (int64 a r)
subtract_product true true m k q r (pos, h) hk parts le =
    omega (arith, negate-mul k q (int64-bound true k hk))
subtract_product true false m k q r (pos, h) hk parts le =
    omega (arith, negate-mul q k (omega arith), mul_comm (negate q) k, mul_comm q k)
subtract_product false true m k q r h hk parts le = omega (
  arith,
  negate-mul k (negate q) (int64-bound true k hk),
  negate-mul q k (omega arith),
  mul_comm (negate q) k,
  mul_comm q k,
)
subtract_product false false m k q r h hk parts le = omega arith

-- sdiv64 divides the absolute values and gives the quotient the sign of the product: it rounds
-- towards 0. It traps when the divisor is 0. The one quotient outside the type, 2 ^ 63, wraps.
pub sdiv64_lem :
    (a b : Bool) (m k : ℕ)
    → IsInt64 a m
    → IsInt64 b k
    → sdiv64 (int64 a m) (int64 b k)
      ≡ (if k == 0 then err divide_error else ok (int64 (not (same a b)) (m / k)))
unfolding sdiv64
sdiv64_lem a b m k hm hk =
    rw
      (
        magnitude-int64 a m hm,
        magnitude-int64 b k hk,
        is_negative-int64 a m hm,
        is_negative-int64 b k hk,
        udiv64_lem m k (int64-bound a m hm) (int64-bound b k hk),
      )
      (elim (Bool-cases (k == 0)) [
        | inl e ↦ rw e refl
        | inr e ↦ rw e (ap ok (apply_sign (same a b) (m / k)))
      ])

-- smod64: the remainder of the absolute values with the sign of the dividend, cut to 32 bits and
-- widened again.
pub smod64_lem :
    (a b : Bool) (m k : ℕ)
    → IsInt64 a m
    → IsInt64 b k
    → smod64 (int64 a m) (int64 b k)
      ≡ (if k == 0 then err divide_error else ok (widen (u32 (int64 a (m % k)))))
unfolding smod64
smod64_lem a b m k hm hk = rw (sdiv64_lem a b m k hm hk) (elim (Bool-cases (k == 0)) [
  | inl e ↦ rw e refl
  | inr e ↦
      let cut =
        subtract_product a b m k (m / k) (m % k) hm hk (div-add-mod m k) (div-le_self m k) in
      let low : u32 (u64 (int64 a (m % k))) ≡ u32 (int64 a (m % k)) = omega arith in
      rw (e, cut, low) refl
])
