-- ===== src/Bitmap/Range.antt =====
-- bitmap_set_multiple, bitmap_contains, bitmap_all and their kin act on the bits of a range.
use os_project.Common.{
  ℕ, zero, suc, ◌+◌, ◌≤◌, ◌<◌, ◌≡◌, ◌⊎◌, ◌↔◌, inl, inr, refl, ◌∙◌, ap, Bool, true, false, not,
  if◌then◌else◌, arith, ok, ◌>>=◌, ℕ_discrete, Result, same, ◌&&◌, u32, Bool-cases,
}
use os_project.Bitmap.{
  Bitmap, set_loop, bitmap_set_multiple, assert_range, contains_loop, bitmap_contains, bitmap_all,
  count_loop, bitmap_count, bitmap_any, bitmap_none,
}
use os_project.Bitmap.Bits.{bit_of, IsValid, IsWrite}
use os_project.Bitmap.Single.{Writes, bitmap_set_lem, bitmap_test_lem}

-- Every bit of the `n` from `lo` on is `v`.
abbrev pub IsRun : Bitmap → ℕ → ℕ → Bool → Type 0
IsRun b lo n v = (j : ℕ) → lo ≤ j → j < lo + n → bit_of b j ≡ v

-- `c` is `b` with the bits from `lo` up to `hi` made `v`.
pub record IsFill (b c : Bitmap) (lo hi : ℕ) (v : Bool) : Type 0 where
  pub valid : IsValid c
  pub same_size : c.bit_cnt ≡ b.bit_cnt
  pub inside : (j : ℕ) → lo ≤ j → j < hi → bit_of c j ≡ v
  pub outside : (j : ℕ) → (j < lo) ⊎ (hi ≤ j) → bit_of c j ≡ bit_of b j

abbrev pub Fills : Result Bitmap → Bitmap → ℕ → ℕ → Bool → Type 0
Fills r b lo hi v = (c : Bitmap) × (r ≡ ok c) × IsFill b c lo hi v

-- A write at `lo` and a fill behind it are one fill.
IsFill-cons :
    {b c d : Bitmap} {lo hi : ℕ} {v : Bool}
    → lo < hi
    → IsWrite b c lo v
    → IsFill c d (lo + 1) hi v
    → IsFill b d lo hi v
IsFill-cons {lo} h w f = record {
  valid = f.valid;
  same_size = f.same_size ∙ w.same_size;
  inside = λ j p q. ground (arith, f.inside j, f.outside j, w.bit j);
  outside = λ j p. ground (arith, f.outside j, w.bit j);
}

Fills-bind :
    {r : Result Bitmap} {k : Bitmap → Result Bitmap} {b : Bitmap} {lo hi : ℕ} {v : Bool}
    → lo < hi
    → Writes r b lo v
    → ((c : Bitmap) → IsWrite b c lo v → Fills (k c) c (lo + 1) hi v)
    → Fills (r >>= k) b lo hi v
Fills-bind h (c, e, w) next = let (d, ed, f) = next c w in (d, rw e ed, IsFill-cons h w f)

set_loop_lem :
    (left i start : ℕ) (v : Bool) (b : Bitmap) (lo hi : ℕ)
    → IsValid b
    → start + i ≡ lo
    → lo + left ≡ hi
    → hi ≤ b.bit_cnt
    → Fills (set_loop left i start v b) b lo hi v
unfolding set_loop
set_loop_lem zero i start v b lo hi valid es e h = (
  b,
  refl,
  record {
    valid = valid;
    same_size = refl;
    inside = λ j p q. absurd (omega arith);
    outside = λ j p. refl;
  },
)
set_loop_lem (suc left) i start v b lo hi valid es e h =
    let no_wrap : u32 (start + i) ≡ lo = omega (arith, valid.room) in
    rw no_wrap (
      Fills-bind (omega arith) (bitmap_set_lem b lo valid (omega arith) v) (λ c w.
        set_loop_lem left (i + 1) start v c (lo + 1) hi w.valid (omega arith) (omega arith)
          (omega (arith, w.same_size))))

-- A range inside the bitmap passes the guards.
assert_range-ok :
    (b : Bitmap) (start cnt : ℕ)
    → IsValid b
    → start + cnt ≤ b.bit_cnt
    → assert_range b start cnt ≡ ok tt
assert_range-ok b start cnt v h = ground arith

-- bitmap_set_multiple on a range inside a valid bitmap returns, makes every bit of the range `v`,
-- changes no other, and keeps the bitmap valid.
pub bitmap_set_multiple_lem :
    (b : Bitmap) (start cnt : ℕ) (v : Bool)
    → IsValid b
    → start + cnt ≤ b.bit_cnt
    → Fills (bitmap_set_multiple b start cnt v) b start (start + cnt) v
unfolding bitmap_set_multiple
bitmap_set_multiple_lem b start cnt v valid h =
    rw (assert_range-ok b start cnt valid h)
      (set_loop_lem cnt 0 start v b start (start + cnt) valid (omega arith) refl h)

-- Whether every bit of the `n` from `lo` on is `v`, as a reference.
unfoldable pub all_bits : Bitmap → ℕ → ℕ → Bool → Bool
all_bits b lo zero v = true
all_bits b lo (suc n) v = same (bit_of b lo) v && all_bits b (lo + 1) n v

pub all_bits-IsRun : (b : Bitmap) (lo n : ℕ) (v : Bool) → all_bits b lo n v ≡ true → IsRun b lo n v
unfolding all_bits
all_bits-IsRun b lo zero v h j p q = absurd (omega arith)
all_bits-IsRun b lo (suc n) v h j p q = elim (ℕ_discrete lo j) [
  | yes e ↦ ground arith
  | no ne ↦
      let rest : all_bits b (lo + 1) n v ≡ true = ground arith in
      all_bits-IsRun b (lo + 1) n v rest j (omega arith) (omega arith)
]

pub IsRun-all_bits : (b : Bitmap) (lo n : ℕ) (v : Bool) → IsRun b lo n v → all_bits b lo n v ≡ true
unfolding all_bits
IsRun-all_bits b lo zero v h = refl
IsRun-all_bits b lo (suc n) v h =
    ground (arith, h lo, IsRun-all_bits b (lo + 1) n v (λ j p q. h j (omega arith) (omega arith)))

contains_loop_lem :
    (b : Bitmap) (left i start : ℕ) (v : Bool) (lo : ℕ)
    → IsValid b
    → start + i ≡ lo
    → lo + left ≤ b.bit_cnt
    → contains_loop b left i start (not v) ≡ ok (not (all_bits b lo left v))
unfolding contains_loop all_bits
contains_loop_lem b zero i start v lo valid e h = refl
contains_loop_lem b (suc left) i start v lo valid e h =
    let no_wrap : u32 (start + i) ≡ lo = omega (arith, valid.room) in
    rw (no_wrap, bitmap_test_lem b lo valid (omega arith))
      (ground (
        arith,
        contains_loop_lem b left (i + 1) start v (lo + 1) valid (omega arith) (omega arith),
      ))

pub bitmap_contains_lem :
    (b : Bitmap) (start cnt : ℕ) (v : Bool)
    → IsValid b
    → start + cnt ≤ b.bit_cnt
    → bitmap_contains b start cnt (not v) ≡ ok (not (all_bits b start cnt v))
unfolding bitmap_contains
bitmap_contains_lem b start cnt v valid h =
    rw (assert_range-ok b start cnt valid h)
      (contains_loop_lem b cnt 0 start v start valid (omega arith) h)

-- The call returns a Boolean that is true exactly when `P` holds.
abbrev pub Decides : Result Bool → Type 0 → Type 0
Decides r P = (t : Bool) × (r ≡ ok t) × ((t ≡ true) ↔ P)

all_bits_iff :
    (b : Bitmap) (start cnt : ℕ) (v : Bool) → (all_bits b start cnt v ≡ true) ↔ IsRun b start cnt v
all_bits_iff b start cnt v = (all_bits-IsRun b start cnt v, IsRun-all_bits b start cnt v)

-- On a range inside the bitmap, bitmap_all, bitmap_none and bitmap_any return, and answer whether
-- all its bits are on, all are off, not all are off.
pub range_tests :
    (b : Bitmap) (start cnt : ℕ)
    → IsValid b
    → start + cnt ≤ b.bit_cnt
    → Decides (bitmap_all b start cnt) (IsRun b start cnt true)
      × Decides (bitmap_none b start cnt) (IsRun b start cnt false)
      × Decides (bitmap_any b start cnt) (¬ (IsRun b start cnt false))
unfolding bitmap_all bitmap_none bitmap_any
range_tests b start cnt valid h = (
  (all_bits b start cnt true, ground (arith, on), all_bits_iff b start cnt true),
  (all_bits b start cnt false, ground (arith, off), all_bits_iff b start cnt false),
  (not (all_bits b start cnt false), off, (some_on, some_on_of)),
)
  where
    on : bitmap_contains b start cnt false ≡ ok (not (all_bits b start cnt true))
    on = bitmap_contains_lem b start cnt true valid h

    off : bitmap_contains b start cnt true ≡ ok (not (all_bits b start cnt false))
    off = bitmap_contains_lem b start cnt false valid h

    some_on : not (all_bits b start cnt false) ≡ true → ¬ (IsRun b start cnt false)
    some_on t run = let e = IsRun-all_bits b start cnt false run in ground arith

    some_on_of : ¬ (IsRun b start cnt false) → not (all_bits b start cnt false) ≡ true
    some_on_of none_run = elim (Bool-cases (all_bits b start cnt false)) [
      | inl e ↦ absurd (none_run (all_bits-IsRun b start cnt false e))
      | inr e ↦ rw e
    ]

-- How many of the `n` bits from `lo` on are `v`.
pub count_bits : Bitmap → ℕ → ℕ → Bool → ℕ
count_bits b lo zero v = 0
count_bits b lo (suc n) v = (if same (bit_of b lo) v then 1 else 0) + count_bits b (lo + 1) n v

count_loop_lem :
    (b : Bitmap) (left i start : ℕ) (v : Bool) (acc lo : ℕ)
    → IsValid b
    → start + i ≡ lo
    → lo + left ≤ b.bit_cnt
    → acc ≤ lo
    → count_loop b left i start v acc ≡ ok (acc + count_bits b lo left v)
unfolding count_loop count_bits
count_loop_lem b zero i start v acc lo valid e h k = ap ok (omega arith)
count_loop_lem b (suc left) i start v acc lo valid e h k =
    let no_wrap : u32 (start + i) ≡ lo = omega (arith, valid.room) in
    rw (no_wrap, bitmap_test_lem b lo valid (omega arith))
      (elim (Bool-cases (same (bit_of b lo) v)) [
        | inl hit ↦
            rw (hit, one_more)
              (count_loop_lem b left (i + 1) start v (acc + 1) (lo + 1) valid (omega arith)
                  (omega arith) (omega arith)
                ∙ ap ok (omega arith))
        | inr miss ↦ rw miss (
            count_loop_lem b left (i + 1) start v acc (lo + 1) valid (omega arith) (omega arith)
              (omega arith)
            ∙ ap ok (omega arith))
      ])
  where
    one_more : u32 (acc + 1) ≡ acc + 1
    one_more = omega (arith, valid.room)

count_bits_total : (b : Bitmap) (lo n : ℕ) → count_bits b lo n true + count_bits b lo n false ≡ n
unfolding count_bits
count_bits_total b lo zero = refl
count_bits_total b lo (suc n) = ground (arith, count_bits_total b (lo + 1) n)

-- bitmap_count on a range inside the bitmap returns how many of its bits have the value, and the
-- counts for the two values add up to the length of the range.
pub bitmap_count_lem :
    (b : Bitmap) (start cnt : ℕ) (v : Bool)
    → IsValid b
    → start + cnt ≤ b.bit_cnt
    → (bitmap_count b start cnt v ≡ ok (count_bits b start cnt v))
      × (count_bits b start cnt true + count_bits b start cnt false ≡ cnt)
unfolding bitmap_count
bitmap_count_lem b start cnt v valid h = (
  rw (assert_range-ok b start cnt valid h) (
      count_loop_lem b cnt 0 start v 0 start valid (omega arith) h (omega arith)
      ∙ ap ok (omega arith)),
  count_bits_total b start cnt,
)
