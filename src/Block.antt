-- ===== src/Block.antt =====
-- devices/block.c: block devices. A block device is its index in all_blocks, from which nothing is
-- removed, and NULL is `none`. `disks` is what the disks behind the IDE driver hold, sector by sector.
use os_project.Common.{
  ℕ, zero, suc, ◌+◌, ◌-◌, Bool, true, false, not, ◌==◌, if◌then◌else◌, ltb, leb, ◌^◌, ◌%◌, u32, u64,
  List, [], ◌∷◌, ◌++◌, length, get_elem?, set, replicate, Option, none, some, Result, ok, err,
  assert, panic, bad_access, out_of_fuel, ◌>>=◌, ◌>>◌,
}
use os_project.Strings.Texts.{order}
use os_project.Strings.Copies.{take}
pub mod Kept
pub mod Sectors
pub mod Writes
mod Tests

pub data BlockType : Type 0 where
  kernel filesys scratch swap raw foreign : BlockType

abbrev pub is_foreign : BlockType → Bool
is_foreign foreign = true
is_foreign _ = false

-- `ops` with `aux`: a disk of the IDE driver by its number, or a partition with its block device and
-- its first sector.
pub data Driver : Type 0 where
  disk : ℕ → Driver
  partition : ℕ → ℕ → Driver

pub record Block : Type 0 where
  pub name : List ℕ
  pub block_type : BlockType
  pub size : ℕ
  pub driver : Driver
  pub read_cnt : ℕ
  pub write_cnt : ℕ

-- The variables of the file and the disks. `spare` counts the mallocs that still find memory.
pub record Blocks : Type 0 where
  pub all_blocks : List Block
  pub block_by_role : List (Option ℕ)
  pub disks : ℕ → ℕ → List ℕ
  pub spare : ℕ

abbrev pub no_blocks : (ℕ → ℕ → List ℕ) → ℕ → Blocks
no_blocks disks spare = record {
  all_blocks = [];
  block_by_role = replicate 4 none;
  disks = disks;
  spare = spare;
}

-- The names in ASCII. The assertion holds of every type.
unfoldable pub block_type_name : BlockType → List ℕ
block_type_name kernel = 107 ∷ 101 ∷ 114 ∷ 110 ∷ 101 ∷ 108 ∷ []
block_type_name filesys = 102 ∷ 105 ∷ 108 ∷ 101 ∷ 115 ∷ 121 ∷ 115 ∷ []
block_type_name scratch = 115 ∷ 99 ∷ 114 ∷ 97 ∷ 116 ∷ 99 ∷ 104 ∷ []
block_type_name swap = 115 ∷ 119 ∷ 97 ∷ 112 ∷ []
block_type_name raw = 114 ∷ 97 ∷ 119 ∷ []
block_type_name foreign = 102 ∷ 111 ∷ 114 ∷ 101 ∷ 105 ∷ 103 ∷ 110 ∷ []

-- A pointer to no device is undefined.
abbrev pub device : Option Block → Result Block
device none = err bad_access
device (some blk) = ok blk

-- The role's number, for the types that are roles.
abbrev pub role : BlockType → Result ℕ
role kernel = ok 0
role filesys = ok 1
role scratch = ok 2
role swap = ok 3
role raw = do assert false; ok 4
role foreign = do assert false; ok 5

abbrev pub by_role : Option (Option ℕ) → Option ℕ
by_role none = none
by_role (some b) = b

unfoldable pub block_get_role : Blocks → BlockType → Result (Option ℕ)
block_get_role s t = do n ← role t; ok (by_role (get_elem? s.block_by_role n))

unfoldable pub block_set_role : Blocks → BlockType → Option ℕ → Result Blocks
block_set_role s t b = do n ← role t; ok (record s { block_by_role = set s.block_by_role n b })

abbrev pub list_elem_to_block : Blocks → ℕ → Option ℕ
list_elem_to_block s n = if n == length s.all_blocks then none else some n

unfoldable pub block_first : Blocks → Option ℕ
block_first s = list_elem_to_block s 0

unfoldable pub block_next : Blocks → ℕ → Option ℕ
block_next s b = list_elem_to_block s (suc b)

-- strcmp returns the order of two names.
unfoldable pub name_loop : List ℕ → List Block → ℕ → Option ℕ
name_loop name [] n = none
name_loop name (blk ∷ blocks) n =
    if order name blk.name == 0 then some n else name_loop name blocks (suc n)

unfoldable pub block_get_by_name : Blocks → List ℕ → Option ℕ
unfolding name_loop
block_get_by_name s name = name_loop name s.all_blocks 0

unfoldable pub check_sector : Block → ℕ → Result (Unit {0})
check_sector blk sector = if leb blk.size sector then err panic else ok tt

abbrev pub count_read : Block → Block
count_read blk = record blk { read_cnt = u64 (blk.read_cnt + 1) }

abbrev pub count_write : Block → Block
count_write blk = record blk { write_cnt = u64 (blk.write_cnt + 1) }

-- The counter is looked up again when the driver has returned.
unfoldable pub update_count : (Block → Block) → Blocks → ℕ → Result Blocks
update_count step s b = do
  blk ← device (get_elem? s.all_blocks b)
  ok (record s { all_blocks = set s.all_blocks b (step blk) })

-- The driver's read of the disk, and partition_read of devices/partition.c. `fuel` bounds the
-- partitions within partitions.
unfoldable pub block_read : ℕ → Blocks → ℕ → ℕ → Result (List ℕ × Blocks)
unfolding check_sector update_count
block_read zero s b sector = err out_of_fuel
block_read (suc fuel) s b sector = do
  blk ← device (get_elem? s.all_blocks b)
  check_sector blk sector
  (buffer, s') ← elim blk.driver [
    | disk d ↦ ok (s.disks d sector, s)
    | partition p start ↦ block_read fuel s p (u32 (start + sector))
  ]
  s'' ← update_count count_read s' b
  ok (buffer, s'')

abbrev pub put_sector : (ℕ → ℕ → List ℕ) → ℕ → ℕ → List ℕ → ℕ → ℕ → List ℕ
put_sector disks d sector buffer d' sector' =
    if d' == d then (if sector' == sector then buffer else disks d' sector') else disks d' sector'

-- Likewise partition_write.
unfoldable pub block_write : ℕ → Blocks → ℕ → ℕ → List ℕ → Result Blocks
unfolding check_sector update_count
block_write zero s b sector buffer = err out_of_fuel
block_write (suc fuel) s b sector buffer = do
  blk ← device (get_elem? s.all_blocks b)
  check_sector blk sector
  assert (not (is_foreign blk.block_type))
  s' ← elim blk.driver [
    | disk d ↦ ok (record s { disks = put_sector s.disks d sector buffer })
    | partition p start ↦ block_write fuel s p (u32 (start + sector)) buffer
  ]
  update_count count_write s' b

abbrev pub malloc : Blocks → Option Blocks
malloc s = elim s.spare [ zero ↦ none | suc n ↦ some (record s { spare = n }) ]

-- The new device's index, and the state.
unfoldable pub block_register : Blocks → List ℕ → BlockType → ℕ → Driver → Result (ℕ × Blocks)
block_register s name t size driver = elim (malloc s) [
  | none ↦ err panic
  | some s' ↦
      let blk : Block = record {
        name = take 15 name;
        block_type = t;
        size = size;
        driver = driver;
        read_cnt = 0;
        write_cnt = 0;
      } in
      ok (length s'.all_blocks, record s' { all_blocks = s'.all_blocks ++ (blk ∷ []) })
]
