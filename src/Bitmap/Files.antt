-- ===== src/Bitmap/Files.antt =====
-- The FILESYS part of lib/kernel/bitmap.c. The functions of the file system are arguments: how many
-- bytes were read or written, and the elements in memory after reading.
use Prim.Native.Nat.{bit_and}
use os_project.Common.{
  ℕ, ◌+◌, ◌-◌, ◌*◌, ◌%◌, ◌^◌, ◌≤◌, ◌<◌, ◌≡◌, ◌≢◌, ℕ_discrete, refl, Bool, true, false, ltb, ◌==◌,
  Result, ok, ◌>>=◌, List, length, get_or, set, length-set, get_or-set_self, get_or-set_ne,
  get_elem?-eq-get_or, if◌then◌else◌, arith,
}
use os_project.Common.Bits.{
  digit, digit-bit_and, digit-lt_two, digit-ones_below, digit-ones_above, bit_and-lt, pow-lt,
}
use os_project.Bitmap.{Bitmap, elem_bits, elem_idx, elem_cnt, byte_cnt, update_elem}
use os_project.Bitmap.Bits.{IsValid, elem_at, bit_of}

abbrev pub last_mask : Bitmap → ℕ
last_mask b =
    let last_bits = b.bit_cnt % elem_bits in
    if last_bits == 0 then 2 ^ 32 - 1 else 2 ^ last_bits - 1

abbrev pub bitmap_file_size : Bitmap → ℕ
bitmap_file_size b = byte_cnt b.bit_cnt

unfoldable pub bitmap_read : (ℕ → List ℕ → ℕ × List ℕ) → Bitmap → Result (Bool × Bitmap)
unfolding update_elem
bitmap_read file_read_at b =
    if ltb 0 b.bit_cnt
    then (do
      let size = byte_cnt b.bit_cnt
      let (bytes, bits) = file_read_at size b.bits
      b' ←
          update_elem (record b { bits = bits }) (elem_cnt b.bit_cnt - 1)
            (λ w. bit_and w (last_mask b))
      ok (bytes == size, b'))
    else ok (true, b)

unfoldable pub bitmap_write : (ℕ → List ℕ → ℕ) → Bitmap → Bool
bitmap_write file_write_at b = let size = byte_cnt b.bit_cnt in file_write_at size b.bits == size

-- The mask has the digits of the bits that are used.
digit-last_mask :
    (b : Bitmap) (k : ℕ)
    → k < 32
    → digit (last_mask b) k ≡ (if ltb ((b.bit_cnt + 31) % 32) k then 0 else 1)
digit-last_mask b k below = ground (
  arith,
  digit-ones_below 32 k below,
  digit-ones_below (b.bit_cnt % 32) k,
  digit-ones_above (b.bit_cnt % 32) k,
)

-- What bitmap_read makes of a bitmap and the elements that were read.
pub record IsRead (b c : Bitmap) (bits : List ℕ) : Type 0 where
  pub valid : IsValid c
  pub same_size : c.bit_cnt ≡ b.bit_cnt
  pub used : (j : ℕ) → j < b.bit_cnt → bit_of c j ≡ bit_of (record b { bits = bits }) j
  pub unused : (j : ℕ) → b.bit_cnt ≤ j → j < elem_bits * elem_cnt b.bit_cnt → bit_of c j ≡ false

module _ (b : Bitmap) (bits : List ℕ) (room : b.bit_cnt + elem_bits ≤ 2 ^ 32)
    (some_bits : 0 < b.bit_cnt) (enough : elem_cnt b.bit_cnt ≤ length bits)
    (words : (i : ℕ) → get_or bits i 0 < 2 ^ 32) where
  abbrev last : ℕ
  last = elem_cnt b.bit_cnt - 1

  abbrev masked : ℕ
  masked = bit_and (get_or bits last 0) (last_mask b)

  abbrev read_bits : Bitmap
  read_bits = record b { bits = set bits last masked }

  last-lt : last < length bits
  last-lt = omega (arith, enough, room, some_bits)

  update_last :
      update_elem (record b { bits = bits }) last (λ w. bit_and w (last_mask b)) ≡ ok read_bits
  unfolding update_elem
  update_last = ground (arith, get_elem?-eq-get_or bits last 0 last-lt)

  elem_at-read_bits :
      (i : ℕ) → elem_at read_bits i ≡ (if last == i then masked else get_or bits i 0)
  elem_at-read_bits i =
      ground (arith, get_or-set_self bits last masked 0 last-lt, get_or-set_ne bits last i masked 0)

  last_mask-lt : last_mask b < 2 ^ 32
  last_mask-lt = ground (arith, pow-lt (b.bit_cnt % 32) 32 (omega arith))

  last_bit :
      (j : ℕ)
      → elem_idx j ≡ last
      → bit_of read_bits j
        ≡ (if ltb j b.bit_cnt then bit_of (record b { bits = bits }) j else false)
  unfolding bit_of
  last_bit j e = ground (
    arith,
    e,
    elem_at-read_bits last,
    digit-bit_and (get_or bits last 0) (last_mask b) (j % 32),
    digit-last_mask b (j % 32) (omega arith),
    digit-lt_two (get_or bits last 0) (j % 32),
  )

  other_bit : (j : ℕ) → elem_idx j ≢ last → bit_of read_bits j ≡ bit_of (record b { bits = bits }) j
  unfolding bit_of
  other_bit j ne = ground (arith, ne, elem_at-read_bits (elem_idx j))

  read_bits-IsRead : IsRead b read_bits bits
  read_bits-IsRead = record {
    valid = record {
      room = room;
      enough = omega (arith, enough, length-set bits last masked);
      words = λ i. ground (
        arith,
        elem_at-read_bits i,
        words i,
        bit_and-lt 32 (get_or bits last 0) (last_mask b) last_mask-lt,
      );
    };
    same_size = refl;
    used = λ j below. elim (ℕ_discrete (elem_idx j) last) [
      | yes e ↦ ground (arith, last_bit j e, below)
      | no ne ↦ other_bit j ne
    ];
    unused = λ j above inside.
        ground (arith, last_bit j (omega (arith, above, inside, room, some_bits)), above);
  }

-- bitmap_read of a valid bitmap that is not empty, when the file system leaves words of 32 bits in
-- the place of the elements: it returns a valid bitmap of the same size, whose bits are those that
-- were read, and the unused bits of its last element are off. The answer is true exactly if as many
-- bytes were read as bitmap_file_size says.
pub bitmap_read_lem :
    (b : Bitmap) (file_read_at : ℕ → List ℕ → ℕ × List ℕ)
    → IsValid b
    → 0 < b.bit_cnt
    → elem_cnt b.bit_cnt ≤ length (file_read_at (bitmap_file_size b) b.bits).1
    → ((i : ℕ) → get_or (file_read_at (bitmap_file_size b) b.bits).1 i 0 < 2 ^ 32)
    → (c : Bitmap) × (bitmap_read file_read_at b
        ≡ ok ((file_read_at (bitmap_file_size b) b.bits).0 == bitmap_file_size b, c))
      × IsRead b c (file_read_at (bitmap_file_size b) b.bits).1
unfolding bitmap_read
bitmap_read_lem b file_read_at valid some_bits enough words =
    let (bytes, bits) = file_read_at (bitmap_file_size b) b.bits in
    let more : ltb 0 b.bit_cnt ≡ true = ground (arith, some_bits) in
    (
      read_bits b bits valid.room some_bits enough words,
      rw more (rw (update_last b bits valid.room some_bits enough words) refl),
      read_bits-IsRead b bits valid.room some_bits enough words,
    )
