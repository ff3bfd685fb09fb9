-- ===== src/Common/Bits.antt =====
-- Binary digits of a number, and what `|`, `&`, `^` and `~` do to them.
use Prim.Native.Nat.{
  ℕ, zero, suc, ◌+◌, ◌-◌, ◌*◌, ◌/◌, ◌%◌, ◌^◌, ◌≤◌, ◌<◌, min, max, bit_and, bit_or, bit_xor, digits,
  bitwise, bit_and-bitwise, bit_or-bitwise, bit_xor-bitwise, differ,
}
use mathlib.Core.Path.{◌≡◌, refl, ap}
use mathlib.Core.Logic.{◌≢◌}
use native.Mathlib.Omega.{arith}
use native.Mathlib.Nat.{pow-suc}

-- The digit of weight 2 ^ k.
abbrev pub digit : ℕ → ℕ → ℕ
digit w zero = w % 2
digit w (suc k) = digit (w / 2) k

-- What the native operations have in common: `op` works digit by digit with `f`, and ends with `z`
-- when the left operand has run out. The rounds given to the recursion do not matter.
module _ (op f : ℕ → ℕ → ℕ) (z : ℕ → ℕ) where
  digits-no_left : (rounds right : ℕ) → digits z f rounds 0 right ≡ z right
  digits-no_left zero right = refl
  digits-no_left (suc rounds) right = refl

  digits-rounds :
      (left right r s : ℕ) → left ≤ s → left ≤ r → digits z f s left right ≡ digits z f r left right
  digits-rounds zero right r s hs hr = rw (digits-no_left s right, digits-no_left r right) refl
  digits-rounds (suc left) right zero s hs hr = absurd (omega arith)
  digits-rounds (suc left) right (suc r) zero hs hr = absurd (omega arith)
  digits-rounds (suc left) right (suc r) (suc s) hs hr =
      let half : suc left / 2 ≤ left = omega arith in
      ap (λ (t : ℕ). t * 2 + f (suc left % 2) (right % 2))
        (digits-rounds (suc left / 2) (right / 2) r s (omega arith) (omega arith))

  halves :
      ((x y : ℕ) → op x y ≡ bitwise z f x y)
      → ((y : ℕ) → z y ≡ z (y / 2) * 2 + f 0 (y % 2))
      → (x y : ℕ) → op x y ≡ op (x / 2) (y / 2) * 2 + f (x % 2) (y % 2)
  halves is_bitwise last zero y = rw (is_bitwise 0 y, is_bitwise 0 (y / 2)) (last y)
  halves is_bitwise last (suc x) y =
      let h : suc x / 2 ≤ x = omega arith in
      omega (
        arith,
        is_bitwise (suc x) y,
        is_bitwise (suc x / 2) (y / 2),
        digits-rounds (suc x / 2) (y / 2) (suc x / 2) x h (omega arith),
      )

pub bit_or-halves : (x y : ℕ) → bit_or x y ≡ bit_or (x / 2) (y / 2) * 2 + max (x % 2) (y % 2)
bit_or-halves = halves bit_or max (λ y. y) bit_or-bitwise (λ y. omega arith)

pub bit_and-halves : (x y : ℕ) → bit_and x y ≡ bit_and (x / 2) (y / 2) * 2 + min (x % 2) (y % 2)
bit_and-halves = halves bit_and min (λ y. 0) bit_and-bitwise (λ y. omega arith)

pub bit_xor-halves : (x y : ℕ) → bit_xor x y ≡ bit_xor (x / 2) (y / 2) * 2 + differ (x % 2) (y % 2)
bit_xor-halves = halves bit_xor differ (λ y. y) bit_xor-bitwise (λ y. omega arith)

pub digit-lt_two : (w k : ℕ) → digit w k < 2
digit-lt_two w zero = omega arith
digit-lt_two w (suc k) = digit-lt_two (w / 2) k

pub digit-bit_or : (a b k : ℕ) → digit (bit_or a b) k ≡ max (digit a k) (digit b k)
digit-bit_or a b zero = omega (arith, bit_or-halves a b)
digit-bit_or a b (suc k) =
    let e : bit_or a b / 2 ≡ bit_or (a / 2) (b / 2) = omega (arith, bit_or-halves a b) in
    rw e (digit-bit_or (a / 2) (b / 2) k)

pub digit-bit_and : (a b k : ℕ) → digit (bit_and a b) k ≡ min (digit a k) (digit b k)
digit-bit_and a b zero = omega (arith, bit_and-halves a b)
digit-bit_and a b (suc k) =
    let e : bit_and a b / 2 ≡ bit_and (a / 2) (b / 2) = omega (arith, bit_and-halves a b) in
    rw e (digit-bit_and (a / 2) (b / 2) k)

-- 1 << j has the one digit j.
pub digit-pow_self : (j : ℕ) → digit (2 ^ j) j ≡ 1
digit-pow_self zero = refl
digit-pow_self (suc j) =
    let e : 2 ^ suc j / 2 ≡ 2 ^ j = omega (arith, pow-suc 2 j) in rw e (digit-pow_self j)

digit-zero : (k : ℕ) → digit 0 k ≡ 0
digit-zero zero = refl
digit-zero (suc k) = digit-zero k

pub digit-pow_ne : (j k : ℕ) → j ≢ k → digit (2 ^ j) k ≡ 0
digit-pow_ne zero zero ne = absurd (ne refl)
digit-pow_ne zero (suc k) ne = digit-zero k
digit-pow_ne (suc j) zero ne = omega (arith, pow-suc 2 j)
digit-pow_ne (suc j) (suc k) ne =
    let e : 2 ^ suc j / 2 ≡ 2 ^ j = omega (arith, pow-suc 2 j) in
    rw e (digit-pow_ne j k (λ p. ne (omega arith)))

-- ~w in n bits.
pub digit-complement : (n w k : ℕ) → w < 2 ^ n → k < n → digit (2 ^ n - 1 - w) k + digit w k ≡ 1
digit-complement zero w k fits below = absurd (omega arith)
digit-complement (suc n) w zero fits below = omega (arith, pow-suc 2 n)
digit-complement (suc n) w (suc k) fits below =
    let e : (2 ^ suc n - 1 - w) / 2 ≡ 2 ^ n - 1 - w / 2 = omega (arith, pow-suc 2 n) in
    rw e (digit-complement n (w / 2) k (omega (arith, pow-suc 2 n)) (omega arith))

pub bit_or-lt : (n a b : ℕ) → a < 2 ^ n → b < 2 ^ n → bit_or a b < 2 ^ n
bit_or-lt zero zero zero p q = omega arith
bit_or-lt zero zero (suc b) p q = absurd (omega arith)
bit_or-lt zero (suc a) b p q = absurd (omega arith)
bit_or-lt (suc n) a b p q = omega (
  arith,
  pow-suc 2 n,
  bit_or-halves a b,
  bit_or-lt n (a / 2) (b / 2) (omega (arith, pow-suc 2 n)) (omega (arith, pow-suc 2 n)),
)

bit_and-zero_if : (bound w : ℕ) → w < bound → bit_and w 0 ≡ 0
bit_and-zero_if zero w below = absurd (omega arith)
bit_and-zero_if (suc bound) zero below = refl
bit_and-zero_if (suc bound) (suc w) below =
    let half = bit_and-zero_if bound (suc w / 2) (omega arith) in
    omega (arith, half, bit_and-halves (suc w) 0)

pub bit_and-zero : (w : ℕ) → bit_and w 0 ≡ 0
bit_and-zero w = bit_and-zero_if (suc w) w (omega arith)

differ-lt_two : (a b : ℕ) → a < 2 → b < 2 → differ a b < 2
differ-lt_two zero b p q = q
differ-lt_two (suc a) zero p q = p
differ-lt_two (suc a) (suc b) p q = differ-lt_two a b (omega arith) (omega arith)

pub digit-bit_xor : (a b k : ℕ) → digit (bit_xor a b) k ≡ differ (digit a k) (digit b k)
digit-bit_xor a b zero =
    omega (arith, bit_xor-halves a b, differ-lt_two (a % 2) (b % 2) (omega arith) (omega arith))
digit-bit_xor a b (suc k) =
    let small : differ (a % 2) (b % 2) < 2 =
      differ-lt_two (a % 2) (b % 2) (omega arith) (omega arith) in
    let e : bit_xor a b / 2 ≡ bit_xor (a / 2) (b / 2) = omega (arith, bit_xor-halves a b) in
    rw e (digit-bit_xor (a / 2) (b / 2) k)

pub bit_xor-lt : (n a b : ℕ) → a < 2 ^ n → b < 2 ^ n → bit_xor a b < 2 ^ n
bit_xor-lt zero zero zero p q = omega arith
bit_xor-lt zero zero (suc b) p q = absurd (omega arith)
bit_xor-lt zero (suc a) b p q = absurd (omega arith)
bit_xor-lt (suc n) a b p q = omega (
  arith,
  pow-suc 2 n,
  bit_xor-halves a b,
  differ-lt_two (a % 2) (b % 2) (omega arith) (omega arith),
  bit_xor-lt n (a / 2) (b / 2) (omega (arith, pow-suc 2 n)) (omega (arith, pow-suc 2 n)),
)

-- w & m has no digit that m lacks.
pub bit_and-lt : (n a b : ℕ) → b < 2 ^ n → bit_and a b < 2 ^ n
bit_and-lt zero a zero q = omega (arith, bit_and-zero a)
bit_and-lt zero a (suc b) q = absurd (omega arith)
bit_and-lt (suc n) a b q = omega (
  arith,
  pow-suc 2 n,
  bit_and-halves a b,
  bit_and-lt n (a / 2) (b / 2) (omega (arith, pow-suc 2 n)),
)

-- w & (1 << k) is nonzero exactly when digit k of w is 1.
pub bit_and-pow : (w k : ℕ) → bit_and w (2 ^ k) ≡ digit w k * 2 ^ k
bit_and-pow w zero = omega (arith, bit_and-halves w 1, bit_and-zero (w / 2))
bit_and-pow w (suc k) =
    let e : 2 ^ suc k / 2 ≡ 2 ^ k = omega (arith, pow-suc 2 k) in
    let half : bit_and w (2 ^ suc k) ≡ bit_and (w / 2) (2 ^ k) * 2 =
      omega
        (arith, pow-suc 2 k, bit_and-halves w (2 ^ suc k), ap (λ (t : ℕ). bit_and (w / 2) t) e) in
    grind (arith, half, bit_and-pow (w / 2) k, pow-suc 2 k)

pub pow_pos : (n : ℕ) → 0 < 2 ^ n
pow_pos zero = omega arith
pow_pos (suc n) = omega (arith, pow-suc 2 n, pow_pos n)

pub pow-lt : (k n : ℕ) → k < n → 2 ^ k < 2 ^ n
pow-lt k zero h = absurd (omega arith)
pow-lt zero (suc n) h = omega (arith, pow-suc 2 n, pow_pos n)
pow-lt (suc k) (suc n) h = omega (arith, pow-suc 2 k, pow-suc 2 n, pow-lt k n (omega arith))

-- 2 ^ n - 1 has the digits below n.
pub digit-ones_below : (n k : ℕ) → k < n → digit (2 ^ n - 1) k ≡ 1
digit-ones_below zero k below = absurd (omega arith)
digit-ones_below (suc n) zero below = omega (arith, pow-suc 2 n, pow_pos n)
digit-ones_below (suc n) (suc k) below =
    let e : (2 ^ suc n - 1) / 2 ≡ 2 ^ n - 1 = omega (arith, pow-suc 2 n) in
    rw e (digit-ones_below n k (omega arith))

pub digit-ones_above : (n k : ℕ) → n ≤ k → digit (2 ^ n - 1) k ≡ 0
digit-ones_above zero k above = digit-zero k
digit-ones_above (suc n) zero above = absurd (omega arith)
digit-ones_above (suc n) (suc k) above =
    let e : (2 ^ suc n - 1) / 2 ≡ 2 ^ n - 1 = omega (arith, pow-suc 2 n) in
    rw e (digit-ones_above n k (omega arith))
