-- ===== src/Partition/Tests.antt =====
-- devices/partition.c on a disk of a hundred sectors.
use os_project.Common.{
  ℕ, zero, suc, ◌^◌, ◌<◌, ◌≡◌, refl, List, [], ◌∷◌, ◌++◌, replicate, some, arith, inl, Returns, err,
  panic,
}
use mathlib.Core.Path.{subst}
use os_project.Hash.Bytes.{AreBytes}
use os_project.Block.{raw, disk, Block, Blocks, no_blocks}
use os_project.Block.Kept.{Kept}
use os_project.Block.Sectors.{Fits, IsInside, Place}
use os_project.Partition.{entry, partition_scan}
use os_project.Partition.Names.{partition_type_name}
use os_project.Partition.Entries.{LeadsNowhere, simple, unused, Registered, partition_scan_lem}
use os_project.Partition.Endless.{IsExtendedTable, partition_scan-exhausted}

-- An entry with 20 sectors from sector 10 on, and a table that begins with it.
abbrev first_entry : ℕ → List ℕ
first_entry part_type = 0 ∷ 0 ∷ 0 ∷ 0 ∷ part_type ∷ 0 ∷ 0 ∷ 0 ∷ 10 ∷ 0 ∷ 0 ∷ 0 ∷ 20 ∷ 0 ∷ 0 ∷ 0 ∷ []

abbrev table : ℕ → List ℕ
table part_type =
    replicate 446 0 ++ (first_entry part_type ++ (replicate 48 0 ++ (0x55 ∷ 0xaa ∷ [])))

abbrev hda : Block
hda = record {
  name = [];
  block_type = raw;
  size = 100;
  driver = disk 0;
  read_cnt = 0;
  write_cnt = 0;
}

abbrev state : ℕ → Blocks
state part_type = record (no_blocks (λ d sector. table part_type) 9) { all_blocks = hda ∷ [] }

linux : partition_type_name 0x83 ≡ "Linux"
unfolding partition_type_name
linux = refl

some-eq : (a b : Block) → some a ≡ some b → a ≡ b
some-eq a b e = cc

hda-IsInside : IsInside (hda ∷ [])
hda-IsInside zero blk e =
    subst (λ x. (x.size < 2 ^ 32) × Fits (hda ∷ []) 0 x.size x.driver) (some-eq hda blk e)
      (omega arith, tt)
hda-IsInside (suc b) blk e = cc

AreBytes-append : (s t : List ℕ) → AreBytes s → AreBytes t → AreBytes (s ++ t)
AreBytes-append [] t are are' = are'
AreBytes-append (c ∷ s) t (byte, are) are' = (byte, AreBytes-append s t are are')

AreBytes-zeros : (n : ℕ) → AreBytes (replicate n 0)
AreBytes-zeros zero = tt
AreBytes-zeros (suc n) = (omega arith, AreBytes-zeros n)

table-AreBytes : AreBytes (table 0x22)
table-AreBytes =
    AreBytes-append (replicate 446 0) (first_entry 0x22 ++ (replicate 48 0 ++ (0x55 ∷ 0xaa ∷ [])))
      (AreBytes-zeros 446)
      (AreBytes-append (first_entry 0x22) (replicate 48 0 ++ (0x55 ∷ 0xaa ∷ [])) (omega arith)
        (AreBytes-append (replicate 48 0) (0x55 ∷ 0xaa ∷ []) (AreBytes-zeros 48) (omega arith)))

table_plain : (j : ℕ) → j < 4 → LeadsNowhere (entry (table 0x22) j)
table_plain zero below =
    simple (λ e. omega (arith, e)) (λ e. omega (arith, e)) (λ e. omega (arith, e))
      (λ e. omega (arith, e))
table_plain (suc zero) below = unused (inl refl)
table_plain (suc (suc zero)) below = unused (inl refl)
table_plain (suc (suc (suc zero))) below = unused (inl refl)
table_plain (suc (suc (suc (suc j)))) below = absurd (omega (arith, below))

partition_scan_lem_example :
    Returns
      (λ s'.
        IsInside s'.all_blocks
        × (before : List Block) × Kept (hda ∷ []) before
        × Registered 0 100 (table 0x22) 4 0 before s'.all_blocks)
      (partition_scan 1 0 (state 0x22))
partition_scan_lem_example =
    partition_scan_lem 0 (state 0x22) 0 hda 0 0 refl (omega arith) hda-IsInside
      (Place.on_disk hda 0 refl refl) table-AreBytes refl table_plain (omega arith)

extended : IsExtendedTable 100 10 (table 0x05)
extended = record {
  signed = refl;
  full = refl;
  extended = refl;
  offset = refl;
  first_ne = λ e. omega (arith, e);
  first_on = omega arith;
  second_ne = λ e. omega (arith, e);
  second_on = omega arith;
}

partition_scan-exhausted_example : partition_scan 50 0 (state 0x05) ≡ err panic
partition_scan-exhausted_example =
    partition_scan-exhausted 50 (state 0x05) 0 hda 0 0 10 refl hda-IsInside
      (Place.on_disk hda 0 refl refl) extended
