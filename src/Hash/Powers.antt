-- ===== src/Hash/Powers.antt =====
-- The bucket counts of lib/kernel/hash.c are powers of 2: what the loop in rehash comes to.
use os_project.Common.{
  ℕ, zero, suc, ◌+◌, ◌*◌, ◌/◌, ◌%◌, ◌^◌, ◌≤◌, ◌<◌, ◌≡◌, ◌≢◌, refl, sym, ap, ◌∙◌, Bool, true, false,
  not, ◌&&◌, ◌==◌, ok, ◌>>=◌, arith, u32, min, ℕ_discrete,
}
use Prim.Native.Nat.{bit_and}
use os_project.Common.Bits.{bit_and-zero, bit_and-halves, pow_pos}
use native.Mathlib.Nat.{pow-suc}
use mathlib.Core.Path.{subst}
use os_project.Links.Lists.{ne-false}
use os_project.Hash.{turn_off_least_1bit, is_power_of_2, power_loop}

and_false : (b : Bool) → (b && false) ≡ false
and_false true = refl
and_false false = refl

bit_and-same_if : (bound x : ℕ) → x < bound → bit_and x x ≡ x
bit_and-same_if zero x below = let no : ⊥ = omega arith in elim no [ ]
bit_and-same_if (suc bound) zero below = refl
bit_and-same_if (suc bound) (suc x) below =
    omega (arith, bit_and-halves (suc x) (suc x), bit_and-same_if bound (suc x / 2) (omega arith))

-- x & (x - 1) by the last digit of x.
and_before_odd : (y : ℕ) → bit_and (y * 2 + 1) (y * 2) ≡ y * 2
and_before_odd y =
    let high : (y * 2 + 1) / 2 ≡ y = omega arith in
    let high' : (y * 2) / 2 ≡ y = omega arith in
    let step : bit_and (y * 2 + 1) (y * 2) ≡ bit_and y y * 2 + min ((y * 2 + 1) % 2) ((y * 2) % 2) =
      bit_and-halves (y * 2 + 1) (y * 2) ∙ rw high (rw high' refl) in
    omega (arith, step, bit_and-same_if (suc y) y (omega arith))

and_before_even : (y : ℕ) → bit_and (suc y * 2) (y * 2 + 1) ≡ bit_and (suc y) y * 2
and_before_even y =
    let high : (suc y * 2) / 2 ≡ suc y = omega arith in
    let high' : (y * 2 + 1) / 2 ≡ y = omega arith in
    let step : bit_and (suc y * 2) (y * 2 + 1)
        ≡ bit_and (suc y) y * 2 + min ((suc y * 2) % 2) ((y * 2 + 1) % 2) =
      bit_and-halves (suc y * 2) (y * 2 + 1) ∙ rw high (rw high' refl) in
    omega (arith, step)

turn_off_odd : (y : ℕ) → y * 2 + 1 < 0x1_0000_0000 → turn_off_least_1bit (y * 2 + 1) ≡ y * 2
unfolding turn_off_least_1bit
turn_off_odd y small =
    let before : u32 (y * 2 + 1 + 0xffff_ffff) ≡ y * 2 = omega arith in rw before (and_before_odd y)

turn_off_even :
    (y : ℕ)
    → suc y * 2 < 0x1_0000_0000
    → turn_off_least_1bit (suc y * 2) ≡ turn_off_least_1bit (suc y) * 2
unfolding turn_off_least_1bit
turn_off_even y small =
    let before : u32 (suc y * 2 + 0xffff_ffff) ≡ y * 2 + 1 = omega arith in
    let before' : u32 (suc y + 0xffff_ffff) ≡ y = omega arith in
    rw before (rw before' (and_before_even y))

bit_and-le_if : (bound x y : ℕ) → y < bound → bit_and x y ≤ x
bit_and-le_if zero x y below = let no : ⊥ = omega arith in elim no [ ]
bit_and-le_if (suc bound) x zero below = omega (arith, bit_and-zero x)
bit_and-le_if (suc bound) x (suc y) below =
    omega (arith, bit_and-halves x (suc y), bit_and-le_if bound (x / 2) (suc y / 2) (omega arith))

turn_off-le : (x : ℕ) → turn_off_least_1bit x ≤ x
unfolding turn_off_least_1bit
turn_off-le x = let y = u32 (x + 0xffff_ffff) in bit_and-le_if (suc y) x y (omega arith)

power_true : (x : ℕ) → x ≢ 0 → turn_off_least_1bit x ≡ 0 → is_power_of_2 x ≡ true
unfolding is_power_of_2
power_true x x0 e = rw (ne-false x 0 x0) (rw e refl)

power_false : (x t : ℕ) → turn_off_least_1bit x ≡ t → t ≢ 0 → is_power_of_2 x ≡ false
unfolding is_power_of_2
power_false x t e t0 = rw e (rw (ne-false t 0 t0) (and_false (not (x == 0))))

abbrev Doubles : ℕ → ℕ → Type 0
Doubles fuel y = power_loop fuel (y * 2) ≡ (power_loop fuel y >>= (λ p. ok (p * 2)))

double_step :
    (fuel y t : ℕ)
    → turn_off_least_1bit (suc y) ≡ t
    → turn_off_least_1bit (suc y * 2) ≡ t * 2
    → ((u : ℕ) → t ≡ suc u → Doubles fuel (suc u))
    → Doubles (suc fuel) (suc y)
unfolding power_loop
double_step fuel y zero e e2 rest =
    rw (power_true (suc y * 2) (λ z. omega (arith, z)) (e2 ∙ omega arith))
      (rw (power_true (suc y) (λ z. omega (arith, z)) e) refl)
double_step fuel y (suc t) e e2 rest =
    rw (power_false (suc y * 2) (suc t * 2) e2 (λ z. omega (arith, z)))
      (rw (power_false (suc y) (suc t) e (λ z. omega (arith, z))) (rw e2 (rw e (rest t refl))))

-- Doubling the number doubles the power of 2 that the loop finds.
power_loop-double : (fuel y : ℕ) → suc y * 2 < 0x1_0000_0000 → Doubles fuel (suc y)
unfolding power_loop
power_loop-double zero y small = refl
power_loop-double (suc fuel) y small =
    double_step fuel y (turn_off_least_1bit (suc y)) refl (turn_off_even y small)
      (λ u e. power_loop-double fuel u (omega (arith, e, turn_off-le (suc y))))

doubles :
    (fuel y j : ℕ)
    → 0 < y
    → y * 2 < 0x1_0000_0000
    → power_loop fuel y ≡ ok (2 ^ j)
    → power_loop fuel (y * 2) ≡ ok (2 ^ suc j)
doubles fuel zero j pos small e = let no : ⊥ = omega arith in elim no [ ]
doubles fuel (suc y) j pos small e =
    power_loop-double fuel y small ∙ rw e (ap ok (omega (arith, pow-suc 2 j)))

odd_step :
    (fuel y j : ℕ)
    → y * 2 + 1 < 0x1_0000_0000
    → 0 < y
    → power_loop fuel (y * 2) ≡ ok (2 ^ suc j)
    → power_loop (suc fuel) (y * 2 + 1) ≡ ok (2 ^ suc j)
unfolding power_loop
odd_step fuel y j small pos e =
    rw (power_false (y * 2 + 1) (y * 2) (turn_off_odd y small) (λ z. omega (arith, z)))
      (rw (turn_off_odd y small) e)

-- From a number with j + 1 digits on, the loop comes to 2 ^ j within j + 1 rounds.
pub power_loop_lem :
    (j x fuel : ℕ)
    → 2 ^ j ≤ x
    → x < 2 ^ suc j
    → x < 0x1_0000_0000
    → j < fuel
    → power_loop fuel x ≡ ok (2 ^ j)
unfolding power_loop
power_loop_lem j x zero low high small enough = let no : ⊥ = omega arith in elim no [ ]
power_loop_lem zero x (suc fuel) low high small enough =
    let one : x ≡ 1 = omega arith in
    rw one (rw (power_true 1 (λ z. omega (arith, z)) (turn_off_odd 0 (omega arith))) refl)
power_loop_lem (suc j) x (suc fuel) low high small enough =
    let y = x / 2 in
    let low' : 2 ^ j ≤ y = omega (arith, low, pow-suc 2 j) in
    let high' : y < 2 ^ suc j = omega (arith, high, pow-suc 2 (suc j)) in
    let pos : 0 < y = omega (arith, low', pow_pos j) in
    elim (ℕ_discrete (x % 2) 0) [
      | yes even ↦
          let e : x ≡ y * 2 = omega (arith, even) in
          subst (λ u. power_loop (suc fuel) u ≡ ok (2 ^ suc j)) (sym e)
            (doubles (suc fuel) y j pos (omega arith)
              (power_loop_lem j y (suc fuel) low' high' (omega arith) (omega arith)))
      | no odd ↦
          let e : x ≡ y * 2 + 1 = omega (arith, odd) in
          subst (λ u. power_loop (suc fuel) u ≡ ok (2 ^ suc j)) (sym e)
            (odd_step fuel y j (omega arith) pos (
              doubles fuel y j pos (omega arith)
                (power_loop_lem j y fuel low' high' (omega arith) (omega arith))))
    ]
