-- ===== src/Bitmap.antt =====
-- lib/kernel/bitmap.c: an array of bits packed into 32-bit elements (`unsigned long` on the i386).
-- A bitmap is modelled with the elements that `bits` points to; a function that updates `*b`
-- returns the new bitmap.
pub mod Bits
pub mod Single
pub mod Range
pub mod Scan
pub mod Create
pub mod Files
mod Tests
use Prim.Native.Nat.{bit_and, bit_or, bit_xor}
use os_project.Common.{
  ℕ, zero, suc, ◌+◌, ◌-◌, ◌*◌, ◌/◌, ◌%◌, ◌^◌, Bool, true, false, not, List, none, some, get_elem?,
  set, ltb, leb, ◌==◌, same, if◌then◌else◌, Result, ok, err, bad_access, assert, ◌>>=◌, ◌>>◌, u32,
  size_max, div_round_up,
}

-- `struct bitmap`; an element is below 2 ^ 32.
pub record Bitmap : Type 0 where
  pub bit_cnt : ℕ
  pub bits : List ℕ

-- ELEM_BITS
abbrev pub elem_bits : ℕ
elem_bits = 32

-- BITMAP_ERROR, which is SIZE_MAX
abbrev pub bitmap_error : ℕ
bitmap_error = size_max

abbrev pub elem_idx : ℕ → ℕ
elem_idx bit_idx = bit_idx / elem_bits

-- The shift is by less than the width, so no bit is lost.
abbrev pub bit_mask : ℕ → ℕ
bit_mask bit_idx = 2 ^ (bit_idx % elem_bits)

abbrev pub elem_cnt : ℕ → ℕ
elem_cnt bit_cnt = div_round_up bit_cnt elem_bits

abbrev pub byte_cnt : ℕ → ℕ
byte_cnt bit_cnt = u32 (4 * elem_cnt bit_cnt)

abbrev pub bitmap_buf_size : ℕ → ℕ
bitmap_buf_size bit_cnt = u32 (8 + byte_cnt bit_cnt)

abbrev pub bitmap_size : Bitmap → ℕ
bitmap_size b = b.bit_cnt

-- An instruction that updates `b->bits[idx]` in place.
pub update_elem : Bitmap → ℕ → (ℕ → ℕ) → Result Bitmap
update_elem b idx f = elim (get_elem? b.bits idx) [
  | none ↦ err bad_access
  | some w ↦ ok (record b { bits = set b.bits idx (f w) })
]

pub bitmap_mark : Bitmap → ℕ → Result Bitmap
unfolding update_elem
bitmap_mark b bit_idx = update_elem b (elem_idx bit_idx) (λ w. bit_or w (bit_mask bit_idx))

-- `~mask` in 32 bits is 2 ^ 32 - 1 - mask.
pub bitmap_reset : Bitmap → ℕ → Result Bitmap
unfolding update_elem
bitmap_reset b bit_idx =
    update_elem b (elem_idx bit_idx) (λ w. bit_and w (2 ^ 32 - 1 - bit_mask bit_idx))

pub bitmap_flip : Bitmap → ℕ → Result Bitmap
unfolding update_elem
bitmap_flip b bit_idx = update_elem b (elem_idx bit_idx) (λ w. bit_xor w (bit_mask bit_idx))

pub bitmap_set : Bitmap → ℕ → Bool → Result Bitmap
unfolding bitmap_mark bitmap_reset
bitmap_set b idx value = do
  assert (ltb idx b.bit_cnt)
  if value then bitmap_mark b idx else bitmap_reset b idx

pub bitmap_test : Bitmap → ℕ → Result Bool
bitmap_test b idx = do
  assert (ltb idx b.bit_cnt)
  elim (get_elem? b.bits (elem_idx idx)) [
    | none ↦ err bad_access
    | some w ↦ ok (not (bit_and w (bit_mask idx) == 0))
  ]

-- The guards that the functions on a range share; `start + cnt` wraps.
abbrev pub assert_range : Bitmap → ℕ → ℕ → Result (Unit {0})
assert_range b start cnt = do
  assert (leb start b.bit_cnt)
  assert (leb (u32 (start + cnt)) b.bit_cnt)

-- The loop of `bitmap_set_multiple` at index `i`, with `left` rounds to go.
pub set_loop : ℕ → ℕ → ℕ → Bool → Bitmap → Result Bitmap
set_loop zero i start value b = ok b
set_loop (suc left) i start value b = do
  b' ← bitmap_set b (u32 (start + i)) value
  set_loop left (i + 1) start value b'

unfoldable pub bitmap_set_multiple : Bitmap → ℕ → ℕ → Bool → Result Bitmap
unfolding set_loop bitmap_set
bitmap_set_multiple b start cnt value = do assert_range b start cnt; set_loop cnt 0 start value b

pub bitmap_set_all : Bitmap → Bool → Result Bitmap
unfolding bitmap_set_multiple
bitmap_set_all b value = bitmap_set_multiple b 0 (bitmap_size b) value

pub count_loop : Bitmap → ℕ → ℕ → ℕ → Bool → ℕ → Result ℕ
count_loop b zero i start value value_cnt = ok value_cnt
count_loop b (suc left) i start value value_cnt = do
  bit ← bitmap_test b (u32 (start + i))
  count_loop b left (i + 1) start value (if same bit value then u32 (value_cnt + 1) else value_cnt)

pub bitmap_count : Bitmap → ℕ → ℕ → Bool → Result ℕ
unfolding count_loop bitmap_test
bitmap_count b start cnt value = do assert_range b start cnt; count_loop b cnt 0 start value 0

pub contains_loop : Bitmap → ℕ → ℕ → ℕ → Bool → Result Bool
contains_loop b zero i start value = ok false
contains_loop b (suc left) i start value = do
  bit ← bitmap_test b (u32 (start + i))
  let rest = contains_loop b left (i + 1) start value
  if same bit value then ok true else rest

pub bitmap_contains : Bitmap → ℕ → ℕ → Bool → Result Bool
unfolding contains_loop bitmap_test
bitmap_contains b start cnt value = do assert_range b start cnt; contains_loop b cnt 0 start value

pub bitmap_any : Bitmap → ℕ → ℕ → Result Bool
unfolding bitmap_contains
bitmap_any b start cnt = bitmap_contains b start cnt true

pub bitmap_none : Bitmap → ℕ → ℕ → Result Bool
unfolding bitmap_contains
bitmap_none b start cnt = do found ← bitmap_contains b start cnt true; ok (not found)

unfoldable pub bitmap_all : Bitmap → ℕ → ℕ → Result Bool
unfolding bitmap_contains
bitmap_all b start cnt = do found ← bitmap_contains b start cnt false; ok (not found)

-- The `for` of `bitmap_scan`, which runs `last + 1 - start` rounds if it does not return early.
pub scan_loop : Bitmap → ℕ → ℕ → ℕ → Bool → Result ℕ
scan_loop b zero i cnt value = ok bitmap_error
scan_loop b (suc left) i cnt value = do
  found ← bitmap_contains b i cnt (not value)
  let rest = scan_loop b left (i + 1) cnt value
  if not found then ok i else rest

unfoldable pub bitmap_scan : Bitmap → ℕ → ℕ → Bool → Result ℕ
unfolding scan_loop bitmap_contains
bitmap_scan b start cnt value = do
  assert (leb start b.bit_cnt)
  if leb cnt b.bit_cnt
      then scan_loop b (b.bit_cnt - cnt + 1 - start) start cnt value
      else ok bitmap_error

-- The index and the bitmap after the call.
unfoldable pub bitmap_scan_and_flip : Bitmap → ℕ → ℕ → Bool → Result (ℕ × Bitmap)
unfolding bitmap_scan bitmap_set_multiple
bitmap_scan_and_flip b start cnt value = do
  idx ← bitmap_scan b start cnt value
  if idx == bitmap_error
      then ok (idx, b)
      else (do b' ← bitmap_set_multiple b idx cnt (not value); ok (idx, b'))

-- `storage` is what the block holds behind the header, `block_size` its size with the header.
unfoldable pub bitmap_create_in_buf : ℕ → List ℕ → ℕ → Result Bitmap
unfolding bitmap_set_all
bitmap_create_in_buf bit_cnt storage block_size = do
  assert (leb (bitmap_buf_size bit_cnt) block_size)
  bitmap_set_all (record { bit_cnt = bit_cnt; bits = storage }) false
