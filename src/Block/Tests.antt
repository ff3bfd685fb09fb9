-- ===== src/Block/Tests.antt =====
-- devices/block.c with a disk of a hundred sectors and a partition of twenty on it.
use os_project.Common.{zero, suc, ◌^◌, ◌<◌, ◌≡◌, refl, [], ◌∷◌, some, arith, ◌>>=◌, Returns}
use mathlib.Core.Path.{subst}
use os_project.Block.{
  raw, scratch, disk, partition, Block, Blocks, no_blocks, block_read, block_write, block_type_name,
  swap,
}
use os_project.Block.Sectors.{Fits, IsInside}
use os_project.Block.Writes.{IsWritable, block_read-block_write}

abbrev hda : Block
hda = record {
  name = [];
  block_type = raw;
  size = 100;
  driver = disk 0;
  read_cnt = 0;
  write_cnt = 0;
}

abbrev hda1 : Block
hda1 = record {
  name = [];
  block_type = scratch;
  size = 20;
  driver = partition 0 10;
  read_cnt = 0;
  write_cnt = 0;
}

abbrev state : Blocks
state = record (no_blocks (λ d sector. []) 0) { all_blocks = hda ∷ hda1 ∷ [] }

some-eq : (a b : Block) → some a ≡ some b → a ≡ b
some-eq a b e = cc

state-IsInside : IsInside state.all_blocks
state-IsInside zero blk e =
    subst (λ x. (x.size < 2 ^ 32) × Fits state.all_blocks 0 x.size x.driver) (some-eq hda blk e)
      (omega arith, tt)
state-IsInside (suc zero) blk e =
    subst (λ x. (x.size < 2 ^ 32) × Fits state.all_blocks 1 x.size x.driver) (some-eq hda1 blk e)
      (omega arith, (omega arith, hda, refl, omega arith))
state-IsInside (suc (suc b)) blk e = cc

hda1-IsWritable : IsWritable state.all_blocks 1
hda1-IsWritable =
    IsWritable.in_partition hda1 0 10 refl refl refl (IsWritable.on_disk hda 0 refl refl refl)

block_read-block_write_example :
    Returns (λ r. r.0 ≡ 7 ∷ []) (block_write 2 state 1 5 (7 ∷ []) >>= λ s'. block_read 2 s' 1 5)
block_read-block_write_example =
    block_read-block_write 2 state 1 hda1 5 (7 ∷ []) (omega arith) state-IsInside hda1-IsWritable
      refl (omega arith)

swap_name : block_type_name swap ≡ 115 ∷ 119 ∷ 97 ∷ 112 ∷ []
unfolding block_type_name
swap_name = refl
