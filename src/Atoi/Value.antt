-- ===== src/Atoi/Value.antt =====
-- The value that atoi of lib/stdlib.c reads.
use mathlib.Core.Path.{subst}
use os_project.Common.{
  ℕ, zero, suc, ◌+◌, ◌-◌, ◌*◌, ◌^◌, ◌≤◌, ◌<◌, ◌≡◌, ◌≢◌, refl, ap, ◌∙◌, Bool, true, false, not, ◌==◌,
  if◌then◌else◌, ok, ◌>>=◌, arith, List, [], ◌∷◌, ◌++◌, length, u32, Returns, Returns-bind,
}
use os_project.Links.Lists.{ne-false}
use os_project.Strings.{Bytes}
use os_project.Strings.Texts.{IsString}
use os_project.Strings.Tokens.{plus_zero, plus_suc}
use os_project.Ctype.{isspace, isdigit}
use os_project.Atoi.{space_loop, digit_loop, parse_sign, atoi}

-- Every character passes the test.
abbrev pub Are : (ℕ → Bool) → List ℕ → Type 0
Are test [] = Unit
Are test (c ∷ s) = (test c ≡ true) × Are test s

-- The first character, or the NUL.
abbrev pub first : List ℕ → ℕ
first [] = 0
first (c ∷ s) = c

-- The number that digits write behind a number.
abbrev pub decimal : ℕ → List ℕ → ℕ
decimal value [] = value
decimal value (c ∷ s) = decimal (value * 10 + (c - 48)) s

pub data Sign : Type 0 where
  none : Sign
  plus : Sign
  minus : Sign

abbrev pub written : Sign → List ℕ → List ℕ
written none s = s
written plus s = 43 ∷ s
written minus s = 45 ∷ s

-- The `int` is the number with the sign, modulo 2^32.
abbrev pub IsValue : Sign → ℕ → ℕ → Type 0
IsValue none n value = value ≡ u32 n
IsValue plus n value = value ≡ u32 n
IsValue minus n value = value ≡ u32 (2 ^ 32 - u32 n)

first-IsString : (mem : Bytes) (p : ℕ) (s : List ℕ) → IsString mem p s → mem p ≡ first s
first-IsString mem p [] t = t
first-IsString mem p (c ∷ s) (at, c0, t) = at

space_loop_lem :
    (mem : Bytes) (spaces s : List ℕ) (p fuel : ℕ)
    → IsString mem p (spaces ++ s)
    → Are isspace spaces
    → isspace (first s) ≡ false
    → length spaces < fuel
    → (space_loop fuel p mem ≡ ok (p + length spaces)) × IsString mem (p + length spaces) s
unfolding space_loop
space_loop_lem mem spaces s p zero t are stop enough = let no : ⊥ = omega arith in elim no [ ]
space_loop_lem mem [] s p (suc fuel) t are stop enough = (
  rw (first-IsString mem p s t) (rw stop (ap ok (plus_zero p))),
  subst (λ n. IsString mem n s) (plus_zero p) t,
)
space_loop_lem mem (c ∷ spaces) s p (suc fuel) (at, c0, t) (space, are) stop enough =
    let (ends, rest) = space_loop_lem mem spaces s (suc p) fuel t are stop (omega arith) in
    (
      rw at (rw space (ends ∙ ap ok (plus_suc p (length spaces)))),
      subst (λ n. IsString mem n s) (plus_suc p (length spaces)) rest,
    )

-- One round keeps the value and what has been read opposite to each other.
opposite :
    (value n c : ℕ)
    → isdigit c ≡ true
    → u32 (value + n) ≡ 0
    → u32 (u32 (value * 10 + 2 ^ 32 - (c - 48)) + (n * 10 + (c - 48))) ≡ 0
opposite value n c digit e = let small : c ≤ 57 = ground (arith, digit) in omega (arith, small, e)

digit_loop_lem :
    (mem : Bytes) (digits s : List ℕ) (p value n fuel : ℕ)
    → IsString mem p (digits ++ s)
    → Are isdigit digits
    → isdigit (first s) ≡ false
    → length digits < fuel
    → value < 2 ^ 32
    → u32 (value + n) ≡ 0
    → Returns (λ r. r < 2 ^ 32 × (u32 (r + decimal n digits) ≡ 0)) (digit_loop fuel p value mem)
unfolding digit_loop
digit_loop_lem mem digits s p value n zero t are stop enough below e =
    let no : ⊥ = omega (arith, enough) in elim no [ ]
digit_loop_lem mem [] s p value n (suc fuel) t are stop enough below e =
    rw (first-IsString mem p s t) (rw stop (below, e))
digit_loop_lem mem (c ∷ digits) s p value n (suc fuel) (at, c0, t) (digit, are) stop enough below
      e =
    rw at (
      rw digit (
        digit_loop_lem mem digits s (suc p) (u32 (value * 10 + 2 ^ 32 - (c - 48)))
          (n * 10 + (c - 48)) fuel t are stop (omega (arith, enough)) (omega arith)
          (opposite value n c digit e)))

-- A digit is no white space and no sign.
digit-isspace : (c : ℕ) → isdigit c ≡ true → isspace c ≡ false
digit-isspace c digit = ground (arith, digit)

digit_plus : (c : ℕ) → isdigit c ≡ true → (c == 43) ≡ false
digit_plus c digit = ground (arith, digit)

digit_minus : (c : ℕ) → isdigit c ≡ true → (c == 45) ≡ false
digit_minus c digit = ground (arith, digit)

written-first :
    (sign : Sign) (d : ℕ) (s : List ℕ)
    → isdigit d ≡ true
    → isspace (first (written sign (d ∷ s))) ≡ false
written-first none d s digit = digit-isspace d digit
written-first plus d s digit = refl
written-first minus d s digit = refl

negated : (n r : ℕ) → r < 2 ^ 32 → u32 (r + n) ≡ 0 → u32 (2 ^ 32 - r) ≡ u32 n
negated n r below e = omega (arith, below, e)

opposite-eq : (n r : ℕ) → r < 2 ^ 32 → u32 (r + n) ≡ 0 → r ≡ u32 (2 ^ 32 - u32 n)
opposite-eq n r below e = omega (arith, below, e)

digits_lem :
    (mem : Bytes) (q : ℕ) (d : ℕ) (ds rest : List ℕ) (fuel : ℕ) (finish : ℕ → ℕ) (P : ℕ → Type 0)
    → IsString mem q (d ∷ ds ++ rest)
    → Are isdigit (d ∷ ds)
    → isdigit (first rest) ≡ false
    → length (d ∷ ds) < fuel
    → ((r : ℕ) → r < 2 ^ 32 → u32 (r + decimal 0 (d ∷ ds)) ≡ 0 → P (finish r))
    → Returns P (do value ← digit_loop fuel q 0 mem; ok (finish value))
digits_lem mem q d ds rest fuel finish P t are stop enough keep =
    Returns-bind (λ r. r < 2 ^ 32 × (u32 (r + decimal 0 (d ∷ ds)) ≡ 0)) P (digit_loop fuel q 0 mem)
      (λ r. ok (finish r))
      (digit_loop_lem mem (d ∷ ds) rest q 0 0 fuel t are stop enough (omega arith) refl)
      (λ r k. keep r k.0 k.1)

sign_lem :
    (mem : Bytes) (q : ℕ) (sign : Sign) (d : ℕ) (ds rest : List ℕ) (fuel : ℕ)
    → IsString mem q (written sign (d ∷ ds ++ rest))
    → Are isdigit (d ∷ ds)
    → isdigit (first rest) ≡ false
    → length (d ∷ ds) < fuel
    → Returns (IsValue sign (decimal 0 (d ∷ ds))) (do
      let (negative, digits) = parse_sign q mem
      value ← digit_loop fuel digits 0 mem
      ok (if not negative then u32 (2 ^ 32 - value) else value))
sign_lem mem q none d ds rest fuel t are stop enough = rw (t.0) (
    rw (digit_plus d are.0) (
      rw (digit_minus d are.0) (
        digits_lem mem q d ds rest fuel (λ r. u32 (2 ^ 32 - r)) (IsValue none (decimal 0 (d ∷ ds)))
          t are stop enough (negated (decimal 0 (d ∷ ds))))))
sign_lem mem q plus d ds rest fuel (at, c0, t) are stop enough = rw at (
    digits_lem mem (suc q) d ds rest fuel (λ r. u32 (2 ^ 32 - r))
      (IsValue plus (decimal 0 (d ∷ ds))) t are stop enough (negated (decimal 0 (d ∷ ds))))
sign_lem mem q minus d ds rest fuel (at, c0, t) are stop enough = rw at (
    digits_lem mem (suc q) d ds rest fuel (λ r. r) (IsValue minus (decimal 0 (d ∷ ds))) t are stop
      enough (opposite-eq (decimal 0 (d ∷ ds))))

-- atoi of a string that is white space, a sign or none, at least one digit, and anything that does not
-- begin with a digit, comes to an end and returns the number that the digits write in base ten, with
-- the sign, modulo 2^32.
pub atoi_lem :
    (mem : Bytes) (p : ℕ) (spaces : List ℕ) (sign : Sign) (d : ℕ) (ds rest : List ℕ) (fuel : ℕ)
    → p ≢ 0
    → IsString mem p (spaces ++ written sign (d ∷ ds ++ rest))
    → Are isspace spaces
    → Are isdigit (d ∷ ds)
    → isdigit (first rest) ≡ false
    → length spaces < fuel
    → length (d ∷ ds) < fuel
    → Returns (IsValue sign (decimal 0 (d ∷ ds))) (atoi fuel p mem)
unfolding atoi
atoi_lem mem p spaces sign d ds rest fuel p0 t are digits stop enough long =
    let (ends, behind) =
      space_loop_lem mem spaces (written sign (d ∷ ds ++ rest)) p fuel t are
        (written-first sign d (ds ++ rest) digits.0) enough in
    rw (ne-false p 0 p0)
      (rw ends (sign_lem mem (p + length spaces) sign d ds rest fuel behind digits stop long))
