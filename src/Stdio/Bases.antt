-- ===== src/Stdio/Bases.antt =====
-- The number that a row of digits of lib/stdio.c stands for.
use os_project.Common.{
  ℕ, zero, suc, ◌+◌, ◌-◌, ◌*◌, ◌≤◌, ◌<◌, ◌≡◌, refl, Bool, true, false, not, ◌&&◌, ◌==◌,
  if◌then◌else◌, leb, ==_iff, List, [], ◌∷◌, get_or, arith,
}
use os_project.Stdio.{IntegerBase, base_d, base_o, base_x, base_X}

-- base ^ n
abbrev pub weight : ℕ → ℕ → ℕ
weight base zero = 1
weight base (suc n) = base * weight base n

abbrev pub digit_value : ℕ → ℕ
digit_value ch = if leb ch b'9' then ch - b'0' else (if leb ch b'F' then ch - 55 else ch - 87)

-- The digits, without the commas between groups.
abbrev pub digit_count : List ℕ → ℕ
digit_count [] = 0
digit_count (ch ∷ s) = if ch == b',' then digit_count s else suc (digit_count s)

-- Every digit counts by its place from the right.
abbrev pub number : ℕ → List ℕ → ℕ
number base [] = 0
number base (ch ∷ s) =
    if ch == b','
    then number base s
    else digit_value ch * weight base (digit_count s) + number base s

-- The digits have their values, and none of them is a comma.
pub record IsBase (b : IntegerBase) : Type 0 where
  pub eight : 8 ≤ b.base
  pub no_comma : (d : ℕ) → d < b.base → (get_or b.digits d 0 == b',') ≡ false
  pub values : (d : ℕ) → d < b.base → digit_value (get_or b.digits d 0) ≡ d

unfoldable pub all_below : ℕ → (ℕ → Bool) → Bool
all_below zero p = true
all_below (suc n) p = p n && all_below n p

pub all_below-true : (n : ℕ) (p : ℕ → Bool) (x : ℕ) → all_below n p ≡ true → x < n → p x ≡ true
unfolding all_below
all_below-true zero p x h lt = absurd (omega arith)
all_below-true (suc n) p x h lt = ground (arith, all_below-true n p x)

not-true : (b : Bool) → not b ≡ true → b ≡ false
not-true true h = cc
not-true false h = refl

checked :
    (b : IntegerBase)
    → 8 ≤ b.base
    → all_below b.base (λ d. not (get_or b.digits d 0 == b',')) ≡ true
    → all_below b.base (λ d. digit_value (get_or b.digits d 0) == d) ≡ true
    → IsBase b
checked b eight no_comma values = record {
  eight = eight;
  no_comma = λ d lt. not-true _ (all_below-true b.base _ d no_comma lt);
  values = λ d lt. (==_iff _ d).0 (all_below-true b.base _ d values lt);
}

pub base_d-IsBase : IsBase base_d
unfolding all_below
base_d-IsBase = checked base_d (omega arith) refl refl

pub base_o-IsBase : IsBase base_o
unfolding all_below
base_o-IsBase = checked base_o (omega arith) refl refl

pub base_x-IsBase : IsBase base_x
unfolding all_below
base_x-IsBase = checked base_x (omega arith) refl refl

pub upper-IsBase : IsBase base_X
unfolding all_below
upper-IsBase = checked base_X (omega arith) refl refl
