-- ===== src/Bitmap/Tests.antt =====
-- lib/kernel/bitmap.c on a bitmap of 40 bits, and its theorems there.
use os_project.Common.{
  ℕ, List, Option, some, zero, suc, ◌<◌, ◌^◌, get_or, ◌≡◌, refl, true, false, arith, ok, err,
  assertion, [], ◌∷◌,
}
use os_project.Bitmap.{
  Bitmap, bitmap_error, bitmap_set, bitmap_flip, bitmap_test, bitmap_set_multiple, bitmap_count,
  bitmap_all, bitmap_none, bitmap_any, bitmap_scan, bitmap_scan_and_flip, bitmap_create_in_buf,
}
use os_project.Bitmap.Files.{IsRead, bitmap_read, bitmap_write, bitmap_read_lem}
use os_project.Bitmap.Create.{
  Allocated, IsCreated, bitmap_create, bitmap_destroy, bitmap_create_lem,
}
use os_project.Bitmap.Bits.{IsValid}
use os_project.Bitmap.Range.{IsRun, Decides, range_tests}
use os_project.Bitmap.Scan.{FirstRun, bitmap_scan_lem}

-- Bits 0, 1, 4 and 33 are on.
abbrev sample : Bitmap
sample = record { bit_cnt = 40; bits = 0b10011 ∷ 0b10 ∷ [] }

sample-IsValid : IsValid sample
sample-IsValid = record { room = omega arith; enough = omega arith; words = grind arith }

program : Unit {0}
unfolding bitmap_set bitmap_flip bitmap_test bitmap_set_multiple bitmap_count bitmap_all bitmap_scan
    bitmap_scan_and_flip bitmap_create_in_buf
program = tt

single_bits :
    (bitmap_set sample 35 true ≡ ok (record sample { bits = 0b10011 ∷ 0b1010 ∷ [] }))
    × (bitmap_set sample 4 false ≡ ok (record sample { bits = 0b11 ∷ 0b10 ∷ [] }))
    × (bitmap_set sample 40 true ≡ err assertion)
    × (bitmap_test sample 33 ≡ ok true)
unfolding program
single_bits = (refl, refl, refl, refl)

runs :
    (bitmap_scan sample 0 3 false ≡ ok 5)
    × (bitmap_scan sample 0 2 false ≡ ok 2)
    × (bitmap_scan sample 6 30 false ≡ ok bitmap_error)
    × (bitmap_count sample 0 40 true ≡ ok 4)
    × (bitmap_set_multiple sample 30 4 true ≡ ok (record sample { bits = 0xc000_0013 ∷ 0b11 ∷ [] }))
unfolding program
runs = (refl, refl, refl, refl, refl)

range_tests_example :
    Decides (bitmap_all sample 0 2) (IsRun sample 0 2 true)
    × Decides (bitmap_none sample 0 2) (IsRun sample 0 2 false)
    × Decides (bitmap_any sample 0 2) (¬ (IsRun sample 0 2 false))
range_tests_example = range_tests sample 0 2 sample-IsValid (omega arith)

bitmap_scan_lem_example :
    (r : ℕ) × (bitmap_scan sample 0 3 false ≡ ok r) × FirstRun sample 0 3 false r
bitmap_scan_lem_example = bitmap_scan_lem sample 0 3 false sample-IsValid (omega arith)

dirty_storage : (i : ℕ) → get_or (7 ∷ 9 ∷ []) i 0 < 2 ^ 32
dirty_storage zero = omega arith
dirty_storage (suc zero) = omega arith
dirty_storage (suc (suc i)) = omega arith

bitmap_create_lem_example :
    (b : Option Allocated) × (held' : ℕ) × (bitmap_create 40 true (some (7 ∷ 9 ∷ [])) 3
      ≡ ok (b, held'))
    × IsCreated 40 true (some (7 ∷ 9 ∷ [])) b
    × (bitmap_destroy b held' ≡ 3)
bitmap_create_lem_example =
    bitmap_create_lem 40 true (some (7 ∷ 9 ∷ [])) 3 (omega arith) (omega arith, dirty_storage)

-- A file of ones, of which 8 bytes are there.
abbrev read_ones : ℕ → List ℕ → ℕ × List ℕ
read_ones size bits = (8, 4294967295 ∷ 4294967295 ∷ [])

ones : (i : ℕ) → get_or (4294967295 ∷ 4294967295 ∷ []) i 0 < 2 ^ 32
ones zero = omega arith
ones (suc zero) = omega arith
ones (suc (suc i)) = omega arith

read_run : bitmap_read read_ones sample ≡ ok (true, record sample { bits = 4294967295 ∷ 255 ∷ [] })
unfolding bitmap_read program
read_run = refl

short_write : bitmap_write (λ size bits. 4) sample ≡ false
unfolding bitmap_write
short_write = refl

bitmap_read_lem_example :
    (c : Bitmap) × (bitmap_read read_ones sample ≡ ok (true, c))
    × IsRead sample c (4294967295 ∷ 4294967295 ∷ [])
bitmap_read_lem_example =
    bitmap_read_lem sample read_ones sample-IsValid (omega arith) (omega arith) ones
