-- ===== src/Bitmap/Create.antt =====
-- bitmap_create and bitmap_destroy of lib/kernel/bitmap.c. malloc and free are not modelled here:
-- what malloc answers is an argument, and `held` counts the blocks that are allocated and not yet
-- freed.
use os_project.Common.{
  ℕ, ◌+◌, ◌-◌, ◌≤◌, ◌<◌, ◌^◌, ◌≡◌, inl, inr, refl, ap, Bool, true, false, ◌==◌, if◌then◌else◌,
  arith, ok, Result, ◌>>=◌, Bool-cases, List, [], length, get_or, one_if, Option, none, some,
}
use os_project.Bitmap.{Bitmap, bitmap_set_all, elem_cnt, elem_bits}
use os_project.Bitmap.Bits.{IsValid}
use os_project.Bitmap.Range.{IsRun, bitmap_set_multiple_lem}

-- A bitmap on the heap; `stored` tells whether `bits` is not NULL.
pub record Allocated : Type 0 where
  pub bitmap : Bitmap
  pub stored : Bool

unfoldable clear_new : Bitmap → Bool → ℕ → Result (Option Allocated × ℕ)
unfolding bitmap_set_all
clear_new raw stored held = do
  b ← bitmap_set_all raw false
  ok (some (record { bitmap = b; stored = stored }), held)

-- `header` tells whether the first malloc finds memory, `storage` is what the second one's block
-- holds.
unfoldable pub bitmap_create : ℕ → Bool → Option (List ℕ) → ℕ → Result (Option Allocated × ℕ)
unfolding clear_new
bitmap_create bit_cnt false storage held = ok (none, held)
bitmap_create bit_cnt true (some bits) held =
    clear_new (record { bit_cnt = bit_cnt; bits = bits }) true (held + 2)
bitmap_create bit_cnt true none held =
    let allocated = held + 1 in
    if bit_cnt == 0
    then clear_new (record { bit_cnt = bit_cnt; bits = [] }) false allocated
    else ok (none, allocated - 1)

-- free of NULL does nothing.
abbrev pub bitmap_destroy : Option Allocated → ℕ → ℕ
bitmap_destroy none held = held
bitmap_destroy (some b) held = held - one_if b.stored - 1

-- What the second malloc has to answer: a block with room for the bits, or NULL.
abbrev pub HasRoom : ℕ → Option (List ℕ) → Type 0
HasRoom bit_cnt none = Unit {0}
HasRoom bit_cnt (some bits) =
    (elem_cnt bit_cnt ≤ length bits) × ((i : ℕ) → get_or bits i 0 < 2 ^ 32)

-- NULL for want of memory, or a valid bitmap of bits that are off.
pub data IsCreated (bit_cnt : ℕ) (header : Bool) (storage : Option (List ℕ))
    : Option Allocated → Type 0 where
  no_header : header ≡ false → IsCreated bit_cnt header storage none
  no_storage : 0 < bit_cnt → storage ≡ none → IsCreated bit_cnt header storage none
  made :
      (b : Allocated)
      → IsValid b.bitmap
      → b.bitmap.bit_cnt ≡ bit_cnt
      → IsRun b.bitmap 0 bit_cnt false
      → IsCreated bit_cnt header storage (some b)

clear_new_lem :
    (raw : Bitmap) (stored : Bool) (header : Bool) (storage : Option (List ℕ)) (held n : ℕ)
    → n ≡ held + one_if stored + 1
    → IsValid raw
    → (b : Option Allocated) × (clear_new raw stored n ≡ ok (b, n))
      × IsCreated raw.bit_cnt header storage b
      × (bitmap_destroy b n ≡ held)
unfolding clear_new bitmap_set_all
clear_new_lem raw stored header storage held n counted valid =
    let (c, e, f) = bitmap_set_multiple_lem raw 0 raw.bit_cnt false valid (omega arith) in
    let b : Allocated = record { bitmap = c; stored = stored } in
    (
      some b,
      rw e refl,
      IsCreated.made b f.valid f.same_size (λ j p q. f.inside j p q),
      omega (arith, counted),
    )

-- bitmap_create of fewer than 2 to the 32 minus 31 bits, with any answers of malloc, returns a
-- valid bitmap of that many bits, all off, or NULL, which only happens when a block that it needs
-- was not given. Either way bitmap_destroy of the result leaves as many blocks allocated as there
-- were before.
pub bitmap_create_lem :
    (bit_cnt : ℕ) (header : Bool) (storage : Option (List ℕ)) (held : ℕ)
    → bit_cnt + elem_bits ≤ 2 ^ 32
    → HasRoom bit_cnt storage
    → (b : Option Allocated) × (held' : ℕ) × (bitmap_create bit_cnt header storage held
        ≡ ok (b, held'))
      × IsCreated bit_cnt header storage b
      × (bitmap_destroy b held' ≡ held)
unfolding bitmap_create
bitmap_create_lem bit_cnt false storage held room given =
    (none, held, refl, IsCreated.no_header refl, refl)
bitmap_create_lem bit_cnt true (some bits) held room (enough, words) =
    let raw : Bitmap = record { bit_cnt = bit_cnt; bits = bits } in
    let (b, e, created, freed) =
      clear_new_lem raw true true (some bits) held (held + 2) (omega arith)
        record { room = room; enough = enough; words = words } in
    (b, held + 2, e, created, freed)
bitmap_create_lem bit_cnt true none held room given = elim (Bool-cases (bit_cnt == 0)) [
  | inl e ↦
      let raw : Bitmap = record { bit_cnt = bit_cnt; bits = [] } in
      let valid : IsValid raw = record {
        room = room;
        enough = ground (arith, e);
        words = λ i. omega arith;
      } in
      let (b, f, created, freed) =
        clear_new_lem raw false true none held (held + 1) (omega arith) valid in
      (b, held + 1, rw e f, created, freed)
  | inr e ↦ (
    none,
    held,
    rw e (ap (λ n. ok (none, n)) (omega arith)),
    IsCreated.no_storage (ground (arith, e)) refl,
    refl,
  )
]
