-- ===== src/Bitmap/Bits.antt =====
-- The abstract view of lib/kernel/bitmap.c: which bits are on, whatever the elements.
use Prim.Native.Nat.{bit_and, bit_or, bit_xor}
use os_project.Common.{
  ℕ, ◌+◌, ◌-◌, ◌%◌, ◌^◌, ◌≤◌, ◌<◌, ◌≡◌, refl, Bool, true, false, not, ◌==◌, length, get_or, set,
  get_or-set_self, get_or-set_ne, length-set, get_elem?-eq-get_or, if◌then◌else◌, arith, ok,
}
use os_project.Common.Bits.{
  digit, digit-bit_and, digit-bit_or, digit-bit_xor, digit-lt_two, digit-pow_self, digit-pow_ne,
  digit-complement, pow-lt,
}
use os_project.Bitmap.{Bitmap, elem_bits, elem_idx, elem_cnt, update_elem}

-- The element at an index (0 past the end).
abbrev pub elem_at : Bitmap → ℕ → ℕ
elem_at b i = get_or b.bits i 0

-- Bit `j` of the bitmap.
unfoldable pub bit_of : Bitmap → ℕ → Bool
bit_of b j = digit (elem_at b (elem_idx j)) (j % elem_bits) == 1

-- The elements are 32-bit words and there are enough of them; `bit_cnt` leaves room for the
-- rounding in `elem_cnt`, so that no `size_t` sum wraps.
pub record IsValid (b : Bitmap) : Type 0 where
  pub room : b.bit_cnt + elem_bits ≤ 2 ^ 32
  pub enough : elem_cnt b.bit_cnt ≤ length b.bits
  pub words : (i : ℕ) → elem_at b i < 2 ^ 32

-- `c` is `b` with bit `idx` made `v`.
pub record IsWrite (b c : Bitmap) (idx : ℕ) (v : Bool) : Type 0 where
  pub valid : IsValid c
  pub same_size : c.bit_cnt ≡ b.bit_cnt
  pub bit : (j : ℕ) → bit_of c j ≡ (if idx == j then v else bit_of b j)

pub elem_idx-lt : {b : Bitmap} → IsValid b → (j : ℕ) → j < b.bit_cnt → elem_idx j < length b.bits
elem_idx-lt v j h = omega arith

-- What an update of the element that holds bit `idx` does to the bits.
module _ (b : Bitmap) (idx : ℕ) (f : ℕ → ℕ) (v : IsValid b) (below : idx < b.bit_cnt) where
  abbrev old : ℕ
  old = elem_at b (elem_idx idx)

  abbrev updated : Bitmap
  updated = record b { bits = set b.bits (elem_idx idx) (f old) }

  pub update_elem_lem : update_elem b (elem_idx idx) f ≡ ok updated
  unfolding update_elem
  update_elem_lem =
      ground (arith, get_elem?-eq-get_or b.bits (elem_idx idx) 0 (elem_idx-lt v idx below))

  elem_at-updated : (i : ℕ) → elem_at updated i ≡ (if elem_idx idx == i then f old else elem_at b i)
  elem_at-updated i = ground (
    arith,
    get_or-set_self b.bits (elem_idx idx) (f old) 0 (elem_idx-lt v idx below),
    get_or-set_ne b.bits (elem_idx idx) i (f old) 0,
  )

  pub update-IsWrite :
      (value : Bool)
      → f old < 2 ^ 32
      → ((k : ℕ)
          → k < elem_bits
          → (digit (f old) k == 1) ≡ (if (idx % elem_bits) == k then value else (digit old k == 1)))
      → IsWrite b updated idx value
  update-IsWrite value fits law = record {
    valid = record {
      room = v.room;
      enough = omega (arith, v.enough, length-set b.bits (elem_idx idx) (f old));
      words = λ i. ground (arith, elem_at-updated i, v.words i, fits);
    };
    same_size = refl;
    bit = λ j. unfold bit_of in ground (arith, elem_at-updated (elem_idx j), law (j % elem_bits));
  }

module _ (w k : ℕ) (h : k < 32) where
  pub or_law :
      (j : ℕ) → (digit (bit_or w (2 ^ k)) j == 1) ≡ (if k == j then true else (digit w j == 1))
  or_law j =
      ground (arith, digit-bit_or w (2 ^ k) j, digit-pow_self k, digit-pow_ne k j, digit-lt_two w j)

  pub and_law :
      (j : ℕ)
      → j < 32
      → (digit (bit_and w (2 ^ 32 - 1 - 2 ^ k)) j == 1)
        ≡ (if k == j then false else (digit w j == 1))
  and_law j below = ground (
    arith,
    digit-bit_and w (2 ^ 32 - 1 - 2 ^ k) j,
    digit-complement 32 (2 ^ k) j (pow-lt k 32 h) below,
    digit-pow_self k,
    digit-pow_ne k j,
    digit-lt_two w j,
  )

  pub xor_law :
      (j : ℕ)
      → (digit (bit_xor w (2 ^ k)) j == 1)
        ≡ (if k == j then not (digit w k == 1) else (digit w j == 1))
  xor_law j =
      ground
        (arith, digit-bit_xor w (2 ^ k) j, digit-pow_self k, digit-pow_ne k j, digit-lt_two w j)
