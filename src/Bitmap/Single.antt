-- ===== src/Bitmap/Single.antt =====
-- bitmap_set, bitmap_mark, bitmap_reset, bitmap_flip and bitmap_test act on one bit.
use Prim.Native.Nat.{bit_and, bit_or, bit_xor}
use os_project.Common.{
  ℕ, ◌-◌, ◌%◌, ◌^◌, ◌≤◌, ◌<◌, ◌≡◌, Bool, true, false, not, ◌==◌, get_elem?-eq-get_or, arith, ok,
  err, assertion, Result,
}
use os_project.Common.Bits.{
  digit, digit-lt_two, bit_or-lt, bit_and-lt, bit_xor-lt, bit_and-pow, pow-lt, pow_pos,
}
use os_project.Bitmap.{
  Bitmap, elem_idx, bit_mask, bitmap_mark, bitmap_reset, bitmap_flip, bitmap_set, bitmap_test,
}
use os_project.Bitmap.Bits.{
  bit_of, elem_at, IsValid, IsWrite, elem_idx-lt, update_elem_lem, update-IsWrite, or_law, and_law,
  xor_law,
}

-- The call returns a bitmap that differs from `b` in bit `idx` alone, which is `v`.
abbrev pub Writes : Result Bitmap → Bitmap → ℕ → Bool → Type 0
Writes r b idx v = (c : Bitmap) × (r ≡ ok c) × IsWrite b c idx v

module _ (b : Bitmap) (idx : ℕ) (v : IsValid b) (below : idx < b.bit_cnt) where
  abbrev old : ℕ
  old = elem_at b (elem_idx idx)

  mask-lt : bit_mask idx < 2 ^ 32
  mask-lt = pow-lt (idx % 32) 32 (omega arith)

  pub bitmap_mark_lem : Writes (bitmap_mark b idx) b idx true
  unfolding bitmap_mark
  bitmap_mark_lem = (
    _,
    update_elem_lem b idx (λ w. bit_or w (bit_mask idx)) v below,
    update-IsWrite b idx (λ w. bit_or w (bit_mask idx)) v below true
        (bit_or-lt 32 old (bit_mask idx) (v.words (elem_idx idx)) mask-lt)
        (λ k h. or_law old (idx % 32) (omega arith) k),
  )

  pub bitmap_reset_lem : Writes (bitmap_reset b idx) b idx false
  unfolding bitmap_reset
  bitmap_reset_lem = (
    _,
    update_elem_lem b idx (λ w. bit_and w (2 ^ 32 - 1 - bit_mask idx)) v below,
    update-IsWrite b idx (λ w. bit_and w (2 ^ 32 - 1 - bit_mask idx)) v below false
        (bit_and-lt 32 old (2 ^ 32 - 1 - bit_mask idx) (omega arith))
        (λ k h. and_law old (idx % 32) (omega arith) k h),
  )

  pub bitmap_flip_lem : Writes (bitmap_flip b idx) b idx (not (bit_of b idx))
  unfolding bitmap_flip bit_of
  bitmap_flip_lem = (
    _,
    update_elem_lem b idx (λ w. bit_xor w (bit_mask idx)) v below,
    update-IsWrite b idx (λ w. bit_xor w (bit_mask idx)) v below (not (digit old (idx % 32) == 1))
        (bit_xor-lt 32 old (bit_mask idx) (v.words (elem_idx idx)) mask-lt)
        (λ k h. xor_law old (idx % 32) (omega arith) k),
  )

  pub bitmap_set_lem : (value : Bool) → Writes (bitmap_set b idx value) b idx value
  unfolding bitmap_set
  bitmap_set_lem true = let (c, e, w) = bitmap_mark_lem in (c, ground (arith, e), w)
  bitmap_set_lem false = let (c, e, w) = bitmap_reset_lem in (c, ground (arith, e), w)

  pub bitmap_test_lem : bitmap_test b idx ≡ ok (bit_of b idx)
  unfolding bitmap_test bit_of
  bitmap_test_lem = ground (
    arith,
    get_elem?-eq-get_or b.bits (elem_idx idx) 0 (elem_idx-lt v idx below),
    bit_and-pow old (idx % 32),
    pow_pos (idx % 32),
    digit-lt_two old (idx % 32),
  )

-- On a bit inside a valid bitmap, bitmap_mark, bitmap_reset, bitmap_set and bitmap_flip return, change
-- that bit as their names say and no other, and keep the bitmap valid; bitmap_test returns the bit.
-- Past the end bitmap_set and bitmap_test fail their assertion.
pub single_bit :
    (b : Bitmap) (idx : ℕ) (value : Bool)
    → IsValid b
    → (idx < b.bit_cnt
        → Writes (bitmap_mark b idx) b idx true
          × Writes (bitmap_reset b idx) b idx false
          × Writes (bitmap_set b idx value) b idx value
          × Writes (bitmap_flip b idx) b idx (not (bit_of b idx))
          × (bitmap_test b idx ≡ ok (bit_of b idx)))
      × (b.bit_cnt ≤ idx
          → (bitmap_set b idx value ≡ err assertion) × (bitmap_test b idx ≡ err assertion))
unfolding bitmap_set bitmap_test
single_bit b idx value v = (
  (λ below. (
    bitmap_mark_lem b idx v below,
    bitmap_reset_lem b idx v below,
    bitmap_set_lem b idx v below value,
    bitmap_flip_lem b idx v below,
    bitmap_test_lem b idx v below,
  )),
  (λ past. (ground arith, ground arith)),
)
