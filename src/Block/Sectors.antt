-- ===== src/Block/Sectors.antt =====
-- Which sector of a disk block_read and block_write of devices/block.c come to.
use os_project.Common.{
  ℕ, zero, suc, ◌+◌, ◌^◌, ◌≤◌, ◌<◌, ◌≡◌, refl, ◌∙◌, u32, List, get_elem?, some, arith, Result, ok,
  ◌>>=◌, Returns, Returns-bind,
}
use os_project.Block.{
  Driver, disk, partition, Block, Blocks, update_count, count_read, check_sector, block_read,
}
use os_project.Block.Kept.{KeepsDevices, KeepsDevices-refl, KeepsDevices-trans, update_count_lem}

-- A partition lies inside of a device that was registered before it.
abbrev pub Fits : List Block → ℕ → ℕ → Driver → Type 0
Fits blocks b size (disk d) = Unit
Fits blocks b size (partition p start) =
    (p < b) × (under : Block) × (get_elem? blocks p ≡ some under) × (start + size ≤ under.size)

abbrev pub IsInside : List Block → Type 0
IsInside blocks =
    (b : ℕ) (blk : Block)
    → get_elem? blocks b ≡ some blk
    → (blk.size < 2 ^ 32) × Fits blocks b blk.size blk.driver

-- The disk and the sector on it, by adding up the first sectors of the partitions.
pub data Place (blocks : List Block) : ℕ → ℕ → ℕ → ℕ → Type 0 where
  on_disk :
      {b sector : ℕ} (blk : Block) (d : ℕ)
      → get_elem? blocks b ≡ some blk
      → blk.driver ≡ disk d
      → Place blocks b sector d sector
  in_partition :
      {b sector d at : ℕ} (blk : Block) (p start : ℕ)
      → get_elem? blocks b ≡ some blk
      → blk.driver ≡ partition p start
      → Place blocks p (start + sector) d at
      → Place blocks b sector d at

pub check_sector_lem :
    (blk : Block) (sector : ℕ) → sector < blk.size → check_sector blk sector ≡ ok tt
unfolding check_sector
check_sector_lem blk sector below = ground (arith, below)

-- What a read returns and keeps.
pub record IsRead (s : Blocks) (b sector : ℕ) (r : List ℕ × Blocks) : Type 0 where
  pub d : ℕ
  pub at : ℕ
  pub place : Place s.all_blocks b sector d at
  pub content : r.0 ≡ s.disks d at
  pub keeps : KeepsDevices s r.1
  pub disks : r.1.disks ≡ s.disks

IsRead-counted :
    (s : Blocks) (b : ℕ) (blk : Block) (d at sector : ℕ) (buffer : List ℕ) (s' : Blocks)
    → get_elem? s.all_blocks b ≡ some blk
    → Place s.all_blocks b sector d at
    → buffer ≡ s.disks d at
    → KeepsDevices s s'
    → s'.disks ≡ s.disks
    → Returns (IsRead s b sector) (do s'' ← update_count count_read s' b; ok (buffer, s''))
IsRead-counted s b blk d at sector buffer s' e place content keeps disks =
    let (blk', e', alike) = keeps.devices b blk e in
    Returns-bind (λ s''. KeepsDevices s' s'' × (s''.disks ≡ s'.disks)) _
      (update_count count_read s' b) _
      (update_count_lem count_read s' b blk'
        (λ x. record { sized = refl; driven = refl; typed = refl; named = refl }) e')
      (λ s'' k. record {
        d = d;
        at = at;
        place = place;
        content = content;
        keeps = KeepsDevices-trans keeps k.0;
        disks = k.1 ∙ disks;
      })

-- Reading a sector below the size of a device, with all partitions inside of the devices that they are
-- on, succeeds: the buffer has what the disk holds at the sector that the first sectors of the
-- partitions add up to, and nothing changes but counters of reads.
pub block_read_lem :
    (fuel : ℕ) (s : Blocks) (b : ℕ) (blk : Block) (sector : ℕ)
    → b < fuel
    → IsInside s.all_blocks
    → get_elem? s.all_blocks b ≡ some blk
    → sector < blk.size
    → Returns (IsRead s b sector) (block_read fuel s b sector)
unfolding block_read
block_read_lem zero s b blk sector enough inside e below = absurd (omega (arith, enough))
block_read_lem (suc fuel) s b blk sector enough inside e below = rw e (
    rw (check_sector_lem blk sector below)
      (by_driver blk.driver refl (inside b blk e).1 (block_read_lem fuel s)))
  where
    by_driver :
        (dr : Driver)
        → blk.driver ≡ dr
        → Fits s.all_blocks b blk.size dr
        → ((p : ℕ) (under : Block) (sector' : ℕ)
            → p < fuel
            → IsInside s.all_blocks
            → get_elem? s.all_blocks p ≡ some under
            → sector' < under.size
            → Returns (IsRead s p sector') (block_read fuel s p sector'))
        → Returns (IsRead s b sector) (
            let call : Result (List ℕ × Blocks) = elim blk.driver [
              | disk d ↦ ok (s.disks d sector, s)
              | partition p start ↦ block_read fuel s p (u32 (start + sector))
            ] in
            call >>= λ r. update_count count_read r.1 b >>= λ s''. ok (r.0, s''))
    by_driver (disk d) is_disk fits rec = rw is_disk (
        IsRead-counted s b blk d sector sector (s.disks d sector) s e (on_disk blk d e is_disk) refl
          (KeepsDevices-refl s) refl)
    by_driver (partition p start) is_partition (earlier, under, under_at, short) rec =
        let (small, under_fits) = inside p under under_at in
        let no_wrap : u32 (start + sector) ≡ start + sector = omega (arith, below, short, small) in
        rw is_partition (
          rw no_wrap (
            Returns-bind (IsRead s p (start + sector)) (IsRead s b sector)
              (block_read fuel s p (start + sector))
              (λ r. update_count count_read r.1 b >>= λ s''. ok (r.0, s''))
              (rec p under (start + sector) (omega (arith, earlier, enough)) inside under_at
                (omega (arith, short, below)))
              (λ r k.
                IsRead-counted s b blk k.d k.at sector r.0 r.1 e
                  (in_partition blk p start e is_partition k.place) k.content k.keeps k.disks)))
