-- ===== src/Partition.antt =====
-- devices/partition.c: the partition table of a disk. A sector is the list of its bytes. What the
-- functions print to the console is left out; extra_info is only printed.
use os_project.Common.{
  ℕ, zero, suc, ◌+◌, ◌-◌, ◌*◌, Bool, true, false, not, ◌&&◌, ◌||◌, ◌==◌, if◌then◌else◌, ltb, leb,
  u32, List, [], ◌∷◌, ◌++◌, length, get_elem?, get_or, Option, none, some, Result, ok, err, panic,
  out_of_fuel, ◌>>=◌,
}
use os_project.Block.{
  BlockType, kernel, filesys, scratch, swap, foreign, partition, Block, Blocks, device, block_read,
  block_register, malloc,
}
use os_project.Strings.Copies.{take}
use os_project.Stdio.Printf.{codes, literal, vprintf}
pub mod Names
pub mod Found
pub mod Scanned
pub mod Entries
pub mod Endless
mod Tests

-- A number of two or four bytes, the low one first.
abbrev pub le16 : List ℕ → ℕ → ℕ
le16 pt i = get_or pt i 0 + get_or pt (i + 1) 0 * 256

abbrev pub le32 : List ℕ → ℕ → ℕ
le32 pt i = le16 pt i + le16 pt (i + 2) * 65536

-- The members of `struct partition_table_entry` that are used.
pub record Entry : Type 0 where
  pub part_type : ℕ
  pub offset : ℕ
  pub size : ℕ

-- `pt->partitions[i]` stands behind the loader's 446 bytes.
abbrev pub entry : List ℕ → ℕ → Entry
entry pt i =
    let e = 446 + 16 * i in
    record { part_type = get_or pt (e + 4) 0; offset = le32 pt (e + 8); size = le32 pt (e + 12) }

abbrev pub signature : List ℕ → ℕ
signature pt = le16 pt 510

abbrev pub is_empty_entry : Entry → Bool
is_empty_entry e = e.size == 0 || e.part_type == 0

abbrev pub is_extended : Entry → Bool
is_extended e =
    e.part_type == 0x05 || e.part_type == 0x0f || e.part_type == 0x85 || e.part_type == 0xc5

abbrev pub type_of : ℕ → BlockType
type_of part_type =
    if part_type == 0x20
    then kernel
    else (if part_type == 0x21
        then filesys
        else (if part_type == 0x22 then scratch else (if part_type == 0x23 then swap else foreign)))

-- snprintf with "%s%d" to 16 bytes: the name stands behind the format, from address 5 on.
unfoldable pub part_name : List ℕ → ℕ → Result (List ℕ)
part_name name part_nr = do
  text ← vprintf 20 0 (5 ∷ part_nr ∷ []) (literal (codes "%s%d" ++ (0 ∷ name)))
  ok (take 15 text)

abbrev pub reserve : Option Blocks → Result Blocks
reserve none = err panic
reserve (some s) = ok s

abbrev pub free : Blocks → Blocks
free s = record s { spare = suc s.spare }

abbrev pub outside : ℕ → ℕ → ℕ → Bool
outside limit start size = ltb (u32 (start + size)) start || ltb limit (u32 (start + size))

unfoldable pub found_partition : Blocks → ℕ → ℕ → ℕ → ℕ → ℕ → Result Blocks
found_partition s b part_type start size part_nr = do
  blk ← device (get_elem? s.all_blocks b)
  if leb blk.size start
      then ok s
      else (if outside blk.size start size then ok s else (do
        s' ← reserve (malloc s)
        name ← part_name blk.name part_nr
        (n, s'') ← block_register s' name (type_of part_type) size (partition b start)
        ok s''))

-- The state of the scan: *part_nr and the block devices.
pub record Scan : Type 0 where
  pub part_nr : ℕ
  pub state : Blocks

-- `read` is read_partition_table on another sector.
unfoldable pub parse_entry : (Scan → ℕ → ℕ → Result Scan) → ℕ → ℕ → ℕ → Entry → Scan → Result Scan
unfolding found_partition
parse_entry read b sector primary e r =
    if is_empty_entry e
    then ok r
    else (if is_extended e
        then (if sector == 0
            then read r e.offset e.offset
            else read r (u32 (e.offset + primary)) primary)
        else (do
          let part_nr = u32 (r.part_nr + 1)
          s ← found_partition r.state b e.part_type (u32 (e.offset + sector)) e.size part_nr
          ok (record { part_nr = part_nr; state = s })))

-- `rounds` is 4 - i.
unfoldable pub parse_loop :
    (Scan → ℕ → ℕ → Result Scan) → ℕ → ℕ → ℕ → List ℕ → ℕ → ℕ → Scan → Result Scan
unfolding parse_entry
parse_loop read b sector primary pt zero i r = ok r
parse_loop read b sector primary pt (suc rounds) i r = do
  r' ← parse_entry read b sector primary (entry pt i) r
  parse_loop read b sector primary pt rounds (suc i) r'

-- `fuel` bounds the depth of the recursion. A block device has fewer partitions around it than there
-- are block devices.
unfoldable pub read_partition_table : ℕ → ℕ → Scan → ℕ → ℕ → Result Scan
unfolding parse_loop
read_partition_table zero b r sector primary = err out_of_fuel
read_partition_table (suc fuel) b r sector primary = do
  blk ← device (get_elem? r.state.all_blocks b)
  let rest = (do
    s ← reserve (malloc r.state)
    (pt, s') ← block_read (length s.all_blocks) s b 0
    if not (signature pt == 0xaa55) then ok (record r { state = free s' }) else (do
      r' ←
          parse_loop (λ r' sector' primary'. read_partition_table fuel b r' sector' primary') b
            sector primary pt 4 0 (record r { state = s' })
      ok (record r' { state = free r'.state })))
  if leb blk.size sector then ok r else rest

unfoldable pub partition_scan : ℕ → ℕ → Blocks → Result Blocks
unfolding read_partition_table
partition_scan fuel b s = do
  r ← read_partition_table fuel b (record { part_nr = 0; state = s }) 0 0
  ok r.state
