-- ===== src/Partition/Entries.antt =====
-- Which partitions partition_scan of devices/partition.c registers, in terms of the table's numbers.
use os_project.Common.{
  ℕ, zero, suc, ◌+◌, ◌*◌, ◌^◌, ◌≤◌, ◌<◌, ◌≡◌, ◌≢◌, ◌⊎◌, refl, sym, ◌∙◌, Bool, true, false, inl, inr,
  List, [], ◌∷◌, ◌++◌, get_elem?, some, arith, ℕ_discrete, dec_lt, Returns, Returns-weaken,
}
use mathlib.Core.Path.{subst}
use os_project.Hash.Bytes.{AreBytes}
use os_project.Block.{BlockType, kernel, filesys, scratch, swap, foreign, partition, Block, Blocks}
use os_project.Block.Kept.{Kept}
use os_project.Block.Sectors.{IsInside, Place}
use os_project.Partition.{Entry, entry, signature, type_of, partition_scan}
use os_project.Partition.Found.{Added}
use os_project.Partition.Scanned.{is_registered, Passed, IsPlainEntry, le32-lt, scan_tests_lem}

-- The types of Pintos partitions, 0x20 to 0x23; all others are foreign.
pub data HasType : ℕ → BlockType → Type 0 where
  is_kernel : HasType 0x20 kernel
  is_filesys : HasType 0x21 filesys
  is_scratch : HasType 0x22 scratch
  is_swap : HasType 0x23 swap
  is_below : (part_type : ℕ) → part_type < 0x20 → HasType part_type foreign
  is_above : (part_type : ℕ) → 0x23 < part_type → HasType part_type foreign

-- An entry in use, whose sectors all lie on a device of so many sectors.
pub record LiesOn (limit : ℕ) (e : Entry) : Type 0 where
  pub some_sector : 0 < e.size
  pub in_use : e.part_type ≢ 0
  pub ends : e.offset + e.size ≤ limit

-- What an entry of the table of the device b adds to the devices.
pub data Entered (b limit : ℕ) (e : Entry) (blocks blocks' : List Block) : Type 0 where
  added :
      LiesOn limit e
      → (new : Block) → blocks' ≡ blocks ++ (new ∷ [])
      → new.driver ≡ partition b e.offset
      → new.size ≡ e.size
      → HasType e.part_type new.block_type
      → Entered b limit e blocks blocks'
  passed_over : ¬ (LiesOn limit e) → blocks' ≡ blocks → Entered b limit e blocks blocks'

-- The entries from i on, one after the other.
abbrev pub Registered : ℕ → ℕ → List ℕ → ℕ → ℕ → List Block → List Block → Type 0
Registered b limit pt zero i blocks blocks' = blocks' ≡ blocks
Registered b limit pt (suc rounds) i blocks blocks' =
    (between : List Block) × Entered b limit (entry pt i) blocks between
    × Registered b limit pt rounds (suc i) between blocks'

-- An entry that is not used, or that has none of the four types of extended partitions.
pub data LeadsNowhere (e : Entry) : Type 0 where
  unused : (e.size ≡ 0) ⊎ (e.part_type ≡ 0) → LeadsNowhere e
  simple :
      e.part_type ≢ 0x05
      → e.part_type ≢ 0x0f
      → e.part_type ≢ 0x85
      → e.part_type ≢ 0xc5
      → LeadsNowhere e

LeadsNowhere-IsPlainEntry : (e : Entry) → LeadsNowhere e → IsPlainEntry e
LeadsNowhere-IsPlainEntry e (unused (inl none)) = inl (ground (arith, none))
LeadsNowhere-IsPlainEntry e (unused (inr none)) = inl (ground (arith, none))
LeadsNowhere-IsPlainEntry e (simple a b c d) = inr (ground (arith, a, b, c, d))

type_of-HasType : (part_type : ℕ) → HasType part_type (type_of part_type)
type_of-HasType n = elim (ℕ_discrete n 0x20) [
  | yes e ↦ rw e is_kernel
  | no not_kernel ↦ elim (ℕ_discrete n 0x21) [
    | yes e ↦ rw e is_filesys
    | no not_filesys ↦ elim (ℕ_discrete n 0x22) [
      | yes e ↦ rw e is_scratch
      | no not_scratch ↦ elim (ℕ_discrete n 0x23) [
        | yes e ↦ rw e is_swap
        | no not_swap ↦
            let other : foreign ≡ type_of n =
              ground (arith, not_kernel, not_filesys, not_scratch, not_swap) in
            subst (HasType n) other (elim (dec_lt n 0x20) [
              | yes below ↦ is_below n below
              | no above ↦
                  is_above n (omega (arith, above, not_kernel, not_filesys, not_scratch, not_swap))
            ])
      ]
    ]
  ]
]

-- The code's tests on 32 bits, and the sectors.
module _ (limit : ℕ) (e : Entry) (small : e.offset < 2 ^ 32) (small' : e.size < 2 ^ 32) where
  registered-LiesOn : is_registered limit e ≡ true → LiesOn limit e
  registered-LiesOn h = record {
    some_sector = ground (arith, h);
    in_use = λ z. ground (arith, h, z);
    ends = ground (arith, small, small', h);
  }

  LiesOn-registered : limit < 2 ^ 32 → LiesOn limit e → is_registered limit e ≡ true
  LiesOn-registered fits on =
      ground (arith, small, small', fits, on.some_sector, on.in_use, on.ends)

  Added-Entered :
      (b : ℕ) (blocks blocks' : List Block) (test : Bool)
      → limit < 2 ^ 32
      → is_registered limit e ≡ test
      → Added test b e.part_type e.offset e.size blocks blocks'
      → Entered b limit e blocks blocks'
  Added-Entered b blocks blocks' true fits h (new, grown, driven, sized, typed) =
      added (registered-LiesOn h) new grown driven sized
        (subst (HasType e.part_type) (sym typed) (type_of-HasType e.part_type))
  Added-Entered b blocks blocks' false fits h same =
      passed_over (λ on. let no : false ≡ true = sym h ∙ LiesOn-registered fits on in cc) same

Passed-Registered :
    (b limit : ℕ) (pt : List ℕ) (rounds i : ℕ) (blocks blocks' : List Block)
    → limit < 2 ^ 32
    → AreBytes pt
    → Passed b limit pt rounds i blocks blocks'
    → Registered b limit pt rounds i blocks blocks'
Passed-Registered b limit pt zero i blocks blocks' fits bytes same = same
Passed-Registered b limit pt (suc rounds) i blocks blocks' fits bytes (between, first, others) = (
  between,
  Added-Entered limit (entry pt i) (le32-lt pt (446 + 16 * i + 8) bytes)
      (le32-lt pt (446 + 16 * i + 12) bytes) b blocks between (is_registered limit (entry pt i))
      fits refl first,
  Passed-Registered b limit pt rounds (suc i) between blocks' fits bytes others,
)

-- partition_scan of a device that begins with a valid table without extended partitions comes to an
-- end. It registers, in the order of the table, the partitions that have a type and sectors and
-- whose sectors all lie on the device, each with its place, size and type, and no other; and
-- afterwards all partitions still lie inside of the devices that they are on. The types 0x20 to
-- 0x23 are those of Pintos. Memory for nine allocations is enough.
pub partition_scan_lem :
    (fuel : ℕ) (s : Blocks) (b : ℕ) (blk : Block) (d at : ℕ)
    → get_elem? s.all_blocks b ≡ some blk
    → 0 < blk.size
    → IsInside s.all_blocks
    → Place s.all_blocks b 0 d at
    → AreBytes (s.disks d at)
    → signature (s.disks d at) ≡ 0xaa55
    → ((j : ℕ) → j < 4 → LeadsNowhere (entry (s.disks d at) j))
    → 9 ≤ s.spare
    → Returns
        (λ s'.
          IsInside s'.all_blocks
          × (before : List Block) × Kept s.all_blocks before
          × Registered b blk.size (s.disks d at) 4 0 before s'.all_blocks)
        (partition_scan (suc fuel) b s)
partition_scan_lem fuel s b blk d at found some_sector inside place bytes signed plain room =
    Returns-weaken
      (λ s'.
        IsInside s'.all_blocks
        × (before : List Block) × Kept s.all_blocks before
        × Passed b blk.size (s.disks d at) 4 0 before s'.all_blocks)
      _ (partition_scan (suc fuel) b s)
      (λ s' (inside', before, kept, passed). (
        inside',
        before,
        kept,
        Passed-Registered b blk.size (s.disks d at) 4 0 before s'.all_blocks (inside b blk found).0
            bytes passed,
      ))
      (scan_tests_lem fuel s b blk d at found some_sector inside place bytes signed
        (λ j below. LeadsNowhere-IsPlainEntry (entry (s.disks d at) j) (plain j below)) room)
