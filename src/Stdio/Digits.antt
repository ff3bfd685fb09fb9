-- ===== src/Stdio/Digits.antt =====
-- The digits that format_integer of lib/stdio.c collects in its buffer.
use os_project.Common.{
  ℕ, zero, suc, ◌+◌, ◌-◌, ◌*◌, ◌/◌, ◌%◌, ◌≤◌, ◌<◌, ◌≡◌, refl, sym, ◌∙◌, Bool, true, false, ◌&&◌,
  ◌==◌, ltb, Bool-cases, inl, inr, ℕ_discrete, List, ◌++◌, ap, ◌∷◌, length, get_or, ok, arith,
  Returns, Returns-bind, Returns-weaken, min,
}
use mathlib.Core.Path.{subst}
use native.Mathlib.Nat.{div-add-mod, mod-lt, mod-eq_of_lt}
use os_project.Links.Lists.{ne-false}
use os_project.Stdio.{
  IntegerBase, base_d, push, put_comma, digit_loop, zero_loop, no_zero_last, output_dup,
}
use os_project.Ctype.{isdigit}
use os_project.Atoi.Value.{Are}
use os_project.Stdio.Bases.{weight, digit_count, number, IsBase, all_below, all_below-true}

-- Nothing is written behind the buffer.
pub push_lem : (ch : ℕ) (buf : List ℕ) → length buf < 64 → push ch buf ≡ ok (ch ∷ buf)
push_lem ch buf room = ground arith

-- What commas do not change.
pub record Same (base : ℕ) (grouped : Bool) (buf buf' : List ℕ) : Type 0 where
  pub counted : digit_count buf' ≡ digit_count buf
  pub valued : number base buf' ≡ number base buf
  pub longer : length buf' ≤ suc (length buf)
  pub plain : grouped ≡ false → buf' ≡ buf

put_comma_lem :
    (grouped : Bool) (cnt : ℕ) (b : IntegerBase) (buf : List ℕ)
    → length buf < 64
    → Returns (Same b.base grouped buf) (put_comma grouped cnt b buf)
put_comma_lem grouped cnt b buf room =
    elim (Bool-cases (grouped && ltb 0 cnt && cnt % b.group_size == 0)) [
      | inl comma ↦ rw comma (
          rw (push_lem b',' buf room) (record {
            counted = refl;
            valued = refl;
            longer = omega arith;
            plain = λ e. ground (arith, comma, e);
          }))
      | inr none_here ↦
          rw none_here
            (record { counted = refl; valued = refl; longer = omega arith; plain = λ e. refl })
    ]

smaller : (value base n : ℕ) → 8 ≤ base → value < 8 * n → value / base < n
smaller value base n eight h = grind (arith, div-add-mod value base)

regroup :
    (q base w r n n' value : ℕ)
    → value ≡ base * q + r
    → n' ≡ n
    → q * (base * w) + (r * w + n') ≡ value * w + n
regroup q base w r n n' value split same = rw split (grind (arith, same))

last_digit : (value base : ℕ) → 8 ≤ base → value / base ≡ 0 → value < base
last_digit value base eight e =
    let split : base * 0 + value % base ≡ value = rw e at (div-add-mod value base) in
    let left : value % base ≡ value = grind (arith, split) in
    let pos : 0 < base = omega (arith, eight) in
    let below : value % base < base = mod-lt value pos in omega (arith, left, below)

-- Only decimal digits.
abbrev pub IsPlain : IntegerBase → Bool → Type 0
IsPlain b grouped =
    (grouped ≡ false) × ((d : ℕ) → d < b.base → isdigit (get_or b.digits d 0) ≡ true)

pub base_d-IsPlain : IsPlain base_d false
unfolding all_below
base_d-IsPlain =
    (refl, λ d below. all_below-true 10 (λ d. isdigit (get_or base_d.digits d 0)) d refl below)

module _ (b : IntegerBase) (is_base : IsBase b) where
  remainder : (value : ℕ) → value % b.base < b.base
  remainder value = let eight = is_base.eight in grind (arith, eight)

  digit_number :
      (value cnt : ℕ) (grouped : Bool) (buf buf' : List ℕ)
      → digit_count buf ≡ cnt
      → Same b.base grouped buf buf'
      → let ch = get_or b.digits (value % b.base) 0 in
        (digit_count (ch ∷ buf') ≡ suc cnt)
        × (value / b.base * weight b.base (suc cnt) + number b.base (ch ∷ buf')
            ≡ value * weight b.base cnt + number b.base buf)
  digit_number value cnt grouped buf buf' counted same =
      let below = remainder value in
      let places : digit_count buf' ≡ cnt = same.counted ∙ counted in
      let split : value ≡ b.base * (value / b.base) + value % b.base =
        sym (div-add-mod value b.base) in
      rw (is_base.no_comma _ below) (
        rw (is_base.values _ below) (
          rw places (
            refl,
            regroup (value / b.base) b.base (weight b.base cnt) (value % b.base) _ _ value split
                same.valued,
          )))

  -- The digit of a number that is not 0 is not a zero.
  digit-not_zero :
      (value : ℕ) (buf : List ℕ)
      → 0 < value
      → value < b.base
      → no_zero_last (get_or b.digits (value % b.base) 0 ∷ buf) ≡ true
  digit-not_zero value buf pos small =
      let itself : value % b.base ≡ value = mod-eq_of_lt small in
      rw itself (ground (arith, is_base.values value small, pos))

  -- What the loop adds to the buffer.
  pub record Collected (value cnt : ℕ) (grouped : Bool) (buf r : List ℕ) : Type 0 where
    pub valued : number b.base r ≡ value * weight b.base cnt + number b.base buf
    pub short : length r ≤ 44
    pub kept : IsPlain b grouped → Are isdigit buf → Are isdigit r
    pub none : value ≡ 0 → r ≡ buf
    pub leading : 0 < value → no_zero_last r ≡ true

  -- j is the number of octal digits that the value can still have.
  pub digit_loop_lem :
      (fuel value cnt j : ℕ) (grouped : Bool) (buf : List ℕ)
      → digit_count buf ≡ cnt
      → length buf ≤ 2 * cnt
      → cnt + j ≤ 22
      → value < weight 8 j
      → j < fuel
      → Returns (Collected value cnt grouped buf) (digit_loop fuel value cnt grouped b buf)
  unfolding digit_loop
  digit_loop_lem zero value cnt j grouped buf counted short few below enough = absurd (omega arith)
  digit_loop_lem (suc fuel) zero cnt j grouped buf counted short few below enough = record {
    valued = omega arith;
    short = omega (arith, short, few);
    kept = λ plain are. are;
    none = λ e. refl;
    leading = λ pos. absurd (omega (arith, pos));
  }
  digit_loop_lem (suc fuel) (suc v) cnt zero grouped buf counted short few below enough =
      absurd (omega (arith, below))
  digit_loop_lem (suc fuel) (suc v) cnt (suc j) grouped buf counted short few below enough =
      rw (ne-false (suc v) 0 (λ e. omega (arith, e))) (
        Returns-bind (Same b.base grouped buf) _ (put_comma grouped cnt b buf) _
          (put_comma_lem grouped cnt b buf (omega arith))
          (λ buf' same.
            let ch = get_or b.digits (suc v % b.base) 0 in
            let step = digit_number (suc v) cnt grouped buf buf' counted same in
            let more : cnt + 1 ≡ suc cnt = omega arith in
            rw (push_lem ch buf' (omega (arith, same.longer))) (
              rw more (
                Returns-weaken (Collected (suc v / b.base) (suc cnt) grouped (ch ∷ buf')) _ _
                  (λ r k. record {
                    valued = k.valued ∙ step.1;
                    short = k.short;
                    kept = λ plain are. k.kept plain (
                      plain.1 _ (remainder (suc v)),
                      subst (Are isdigit) (sym (same.plain plain.0)) are,
                    );
                    none = λ e. absurd (omega (arith, e));
                    leading = λ pos. elim (ℕ_discrete (suc v / b.base) 0) [
                      | yes last ↦
                          subst (λ (l : List ℕ). no_zero_last l ≡ true) (sym (k.none last))
                            (digit-not_zero (suc v) buf' pos
                              (last_digit (suc v) b.base is_base.eight last))
                      | no more_left ↦ k.leading (omega (arith, more_left))
                    ];
                  })
                  (digit_loop_lem fuel (suc v / b.base) (suc cnt) j grouped (ch ∷ buf') step.0
                    (omega (arith, same.longer, short)) (omega (arith, few))
                    (smaller (suc v) b.base (weight 8 j) is_base.eight below)
                    (omega (arith, enough)))))))

-- Zeros on the left.
pub zero-number :
    (base : ℕ) (buf : List ℕ)
    → (number base (b'0' ∷ buf) ≡ number base buf)
      × (digit_count (b'0' ∷ buf) ≡ suc (digit_count buf))
zero-number base buf = (omega arith, refl)

output_dup-suc :
    (ch n : ℕ) (buf : List ℕ) → output_dup ch n ++ (ch ∷ buf) ≡ output_dup ch (suc n) ++ buf
unfolding output_dup
output_dup-suc ch zero buf = refl
output_dup-suc ch (suc n) buf = ap (λ l. ch ∷ l) (output_dup-suc ch n buf)

output_dup-none : (ch n : ℕ) (buf : List ℕ) → n ≡ 0 → output_dup ch n ++ buf ≡ buf
unfolding output_dup
output_dup-none ch zero buf e = refl
output_dup-none ch (suc n) buf e = absurd (omega (arith, e))

-- What the second loop makes of the buffer.
pub record Padded (base precision : ℕ) (buf r : List ℕ) : Type 0 where
  pub valued : number base r ≡ number base buf
  pub short : length r ≤ 63
  pub reached : min precision 63 ≤ length r
  pub zeros : r ≡ output_dup b'0' (min precision 63 - length buf) ++ buf
  pub longer : length buf ≤ length r
  pub kept : Are isdigit buf → Are isdigit r

pub zero_loop_lem :
    (base fuel precision : ℕ) (buf : List ℕ)
    → length buf ≤ 63
    → 63 - length buf < fuel
    → Returns (Padded base precision buf) (zero_loop fuel precision buf)
unfolding zero_loop
zero_loop_lem base zero precision buf short enough = absurd (omega (arith, enough))
zero_loop_lem base (suc fuel) precision buf short enough =
    elim (Bool-cases (ltb (length buf) precision && ltb (length buf) 63)) [
      | inl more ↦
          let room : length buf < 63 = ground (arith, more) in
          rw more (
            rw (push_lem b'0' buf (omega (arith, room))) (
              Returns-weaken (Padded base precision (b'0' ∷ buf)) (Padded base precision buf)
                (zero_loop fuel precision (b'0' ∷ buf))
                (λ r k. record {
                  valued = k.valued ∙ (zero-number base buf).0;
                  short = k.short;
                  reached = k.reached;
                  zeros =
                      k.zeros
                      ∙ output_dup-suc b'0' (min precision 63 - suc (length buf)) buf
                      ∙ ap (λ n. output_dup b'0' n ++ buf) (ground (arith, more));
                  longer = omega (arith, k.longer);
                  kept = λ are. k.kept (refl, are);
                })
                (zero_loop_lem base fuel precision (b'0' ∷ buf) room
                  (omega (arith, enough, room)))))
      | inr done ↦ rw done (record {
        valued = refl;
        short = short;
        reached = ground (arith, done, short);
        zeros = sym (
            output_dup-none b'0' (min precision 63 - length buf) buf (ground (arith, done, short)));
        longer = omega arith;
        kept = λ are. are;
      })
    ]
