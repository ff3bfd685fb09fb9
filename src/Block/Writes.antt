-- ===== src/Block/Writes.antt =====
-- What block_write of devices/block.c writes, block_read reads.
use mathlib.Core.Path.{subst}
use os_project.Common.{
  ℕ, zero, suc, ◌+◌, ◌<◌, ◌≡◌, refl, sym, ap, ◌∙◌, false, u32, List, [], ◌∷◌, length, get_elem?,
  Option, some, arith, ◌>>=◌, Returns, Returns-bind, Returns-weaken,
}
use os_project.Block.{
  is_foreign, Driver, disk, partition, Block, Blocks, update_count, count_write, block_read,
  block_write, put_sector,
}
use os_project.Block.Kept.{
  Alike, Kept, KeepsDevices, KeepsDevices-refl, KeepsDevices-trans, update_count_lem, get_elem?-lt,
}
use os_project.Block.Sectors.{Fits, IsInside, Place, check_sector_lem, IsRead, block_read_lem}

-- No device on the way to the disk is foreign.
pub data IsWritable (blocks : List Block) : ℕ → Type 0 where
  on_disk :
      {b : ℕ} (blk : Block) (d : ℕ)
      → get_elem? blocks b ≡ some blk
      → is_foreign blk.block_type ≡ false
      → blk.driver ≡ disk d
      → IsWritable blocks b
  in_partition :
      {b : ℕ} (blk : Block) (p start : ℕ)
      → get_elem? blocks b ≡ some blk
      → is_foreign blk.block_type ≡ false
      → blk.driver ≡ partition p start
      → IsWritable blocks p
      → IsWritable blocks b

pub record IsWritten (s : Blocks) (b sector : ℕ) (buffer : List ℕ) (s' : Blocks) : Type 0 where
  pub d : ℕ
  pub at : ℕ
  pub place : Place s.all_blocks b sector d at
  pub disks : s'.disks ≡ put_sector s.disks d at buffer
  pub keeps : KeepsDevices s s'

IsWritten-counted :
    (s : Blocks) (b : ℕ) (blk : Block) (d at sector : ℕ) (buffer : List ℕ) (s' : Blocks)
    → get_elem? s.all_blocks b ≡ some blk
    → Place s.all_blocks b sector d at
    → s'.disks ≡ put_sector s.disks d at buffer
    → KeepsDevices s s'
    → Returns (IsWritten s b sector buffer) (update_count count_write s' b)
IsWritten-counted s b blk d at sector buffer s' e place disks keeps =
    let (blk', e', alike) = keeps.devices b blk e in
    Returns-weaken (λ s''. KeepsDevices s' s'' × (s''.disks ≡ s'.disks)) _
      (update_count count_write s' b)
      (λ s'' k. record {
        d = d;
        at = at;
        place = place;
        disks = k.1 ∙ disks;
        keeps = KeepsDevices-trans keeps k.0;
      })
      (update_count_lem count_write s' b blk'
        (λ x. record { sized = refl; driven = refl; typed = refl; named = refl }) e')

some-eq : (o : Option Block) (a b : Block) → o ≡ some a → o ≡ some b → a ≡ b
some-eq o a b p q = cc

-- Writing a sector likewise changes that sector of the disk alone.
block_write_lem :
    (fuel : ℕ) (s : Blocks) (b : ℕ) (blk : Block) (sector : ℕ) (buffer : List ℕ)
    → b < fuel
    → IsInside s.all_blocks
    → IsWritable s.all_blocks b
    → get_elem? s.all_blocks b ≡ some blk
    → sector < blk.size
    → Returns (IsWritten s b sector buffer) (block_write fuel s b sector buffer)
unfolding block_write
block_write_lem zero s b blk sector buffer enough inside w e below = absurd (omega (arith, enough))
block_write_lem (suc fuel) s b blk sector buffer enough inside (on_disk blk' d e' own is_disk) e
      below =
    let same = some-eq (get_elem? s.all_blocks b) blk blk' e e' in
    rw e (
      rw (check_sector_lem blk sector below) (
        rw (ap (λ x. is_foreign x.block_type) same ∙ own) (
          rw (ap (λ x. x.driver) same ∙ is_disk) (
            IsWritten-counted s b blk d sector sector buffer
              (record s { disks = put_sector s.disks d sector buffer }) e
              (Place.on_disk blk' d e' is_disk) refl
              (record {
                devices = (KeepsDevices-refl s).devices;
                as_many = refl;
                roles = refl;
                as_spare = refl;
              })))))
block_write_lem (suc fuel) s b blk sector buffer enough inside
      (in_partition blk' p start e' own is_partition w) e below =
    let same = some-eq (get_elem? s.all_blocks b) blk blk' e e' in
    let driver = ap (λ x. x.driver) same ∙ is_partition in
    let (earlier, under, under_at, short) =
      subst (Fits s.all_blocks b blk.size) driver (inside b blk e).1 in
    let small = (inside p under under_at).0 in
    let no_wrap : u32 (start + sector) ≡ start + sector = omega (arith, below, short, small) in
    rw e (
      rw (check_sector_lem blk sector below) (
        rw (ap (λ x. is_foreign x.block_type) same ∙ own) (
          rw driver (
            rw no_wrap (
              Returns-bind (IsWritten s p (start + sector) buffer) _
                (block_write fuel s p (start + sector) buffer) _
                (block_write_lem fuel s p under (start + sector) buffer
                  (omega (arith, earlier, enough)) inside w under_at (omega (arith, short, below)))
                (λ s' k.
                  IsWritten-counted s b blk k.d k.at sector buffer s' e
                    (Place.in_partition blk' p start e' is_partition k.place) k.disks k.keeps))))))

get_elem?-some :
    (blocks : List Block) (b : ℕ)
    → b < length blocks
    → (blk : Block) × (get_elem? blocks b ≡ some blk)
get_elem?-some [] b below = absurd (omega arith)
get_elem?-some (blk ∷ blocks) zero below = (blk, refl)
get_elem?-some (blk ∷ blocks) (suc b) below = get_elem?-some blocks b (omega (arith, below))

-- A device afterwards was there before.
kept_back :
    (s s' : Blocks) (b : ℕ) (blk' : Block)
    → KeepsDevices s s'
    → get_elem? s'.all_blocks b ≡ some blk'
    → (blk : Block) × (get_elem? s.all_blocks b ≡ some blk) × Alike blk blk'
kept_back s s' b blk' k e' =
    let below = get_elem?-lt s'.all_blocks b blk' e' in
    let (blk, e) = get_elem?-some s.all_blocks b (omega (arith, below, k.as_many)) in
    let (kept, found, alike) = k.devices b blk e in
    (blk, e, subst (Alike blk) (some-eq (get_elem? s'.all_blocks b) kept blk' found e') alike)

pub Fits-Kept :
    (blocks blocks' : List Block) (b size : ℕ) (dr : Driver)
    → Kept blocks blocks'
    → Fits blocks b size dr
    → Fits blocks' b size dr
Fits-Kept blocks blocks' b size (disk d) k fits = tt
Fits-Kept blocks blocks' b size (partition p start) k (earlier, under, e, short) =
    let (under', e', alike) = k p under e in
    (earlier, under', e', omega (arith, short, alike.sized))

pub IsInside-Kept :
    (s s' : Blocks) → KeepsDevices s s' → IsInside s.all_blocks → IsInside s'.all_blocks
IsInside-Kept s s' k inside b blk' e' =
    let (blk, e, alike) = kept_back s s' b blk' k e' in
    let (small, fits) = inside b blk e in
    (
      omega (arith, small, alike.sized),
      subst (Fits s'.all_blocks b blk'.size) (sym alike.driven) (
          subst (λ n. Fits s'.all_blocks b n blk.driver) (sym alike.sized)
            (Fits-Kept s.all_blocks s'.all_blocks b blk.size blk.driver k.devices fits)),
    )

pub Place-Kept :
    {blocks : List Block} (blocks' : List Block) {b sector d at : ℕ}
    → Kept blocks blocks'
    → Place blocks b sector d at
    → Place blocks' b sector d at
Place-Kept blocks' {b} k (Place.on_disk blk d e is_disk) =
    let (blk', e', alike) = k b blk e in Place.on_disk blk' d e' (alike.driven ∙ is_disk)
Place-Kept blocks' {b} k (Place.in_partition blk p start e is_partition place) =
    let (blk', e', alike) = k b blk e in
    Place.in_partition blk' p start e' (alike.driven ∙ is_partition) (Place-Kept blocks' k place)

driver_eq :
    (o : Option Block) (a b : Block) (dr dr' : Driver)
    → o ≡ some a
    → o ≡ some b
    → a.driver ≡ dr
    → b.driver ≡ dr'
    → dr ≡ dr'
driver_eq o a b dr dr' p q e e' = sym e ∙ ap (λ x. x.driver) (some-eq o a b p q) ∙ e'

pub Place-unique :
    {blocks : List Block} {b sector d at d' at' : ℕ}
    → Place blocks b sector d at
    → Place blocks b sector d' at'
    → (d ≡ d') × (at ≡ at')
Place-unique {blocks} {b} (Place.on_disk blk d e is_disk) (Place.on_disk blk' d' e' is_disk') = (
  ground (arith, driver_eq (get_elem? blocks b) blk blk' (disk d) (disk d') e e' is_disk is_disk'),
  refl,
)
Place-unique {blocks} {b} (Place.on_disk blk d e is_disk)
      (Place.in_partition blk' p start e' is_partition place) =
    absurd (
      ground (
        arith,
        driver_eq (get_elem? blocks b) blk blk' (disk d) (partition p start) e e' is_disk
            is_partition,
      ))
Place-unique {blocks} {b} (Place.in_partition blk p start e is_partition place)
      (Place.on_disk blk' d' e' is_disk) =
    absurd (
      ground (
        arith,
        driver_eq (get_elem? blocks b) blk blk' (partition p start) (disk d') e e' is_partition
            is_disk,
      ))
Place-unique {blocks} {b} {sector} {d} {at} {d'} {at'}
      (Place.in_partition blk p start e is_partition place)
      (Place.in_partition blk' p' start' e' is_partition' place') =
    let same =
      driver_eq (get_elem? blocks b) blk blk' (partition p start) (partition p' start') e e'
        is_partition is_partition' in
    let same_device : p' ≡ p = ground (arith, same) in
    let same_start : start' ≡ start = ground (arith, same) in
    Place-unique place (
      subst (λ x. Place blocks p (x + sector) d' at') same_start
        (subst (λ x. Place blocks x (start' + sector) d' at') same_device place'))

written_back :
    (disks : ℕ → ℕ → List ℕ) (d at d' at' : ℕ) (buffer : List ℕ)
    → d ≡ d'
    → at ≡ at'
    → put_sector disks d at buffer d' at' ≡ buffer
written_back disks d at d' at' buffer same same' = ground (arith, same, same')

-- A sector that block_write has written, to a device that is not foreign and on none that is, is what
-- block_read of the same sector returns afterwards; both succeed, for every sector below the size of
-- the device, if all partitions lie inside of the devices that they are on.
pub block_read-block_write :
    (fuel : ℕ) (s : Blocks) (b : ℕ) (blk : Block) (sector : ℕ) (buffer : List ℕ)
    → b < fuel
    → IsInside s.all_blocks
    → IsWritable s.all_blocks b
    → get_elem? s.all_blocks b ≡ some blk
    → sector < blk.size
    → Returns
        (λ r. r.0 ≡ buffer)
        (block_write fuel s b sector buffer >>= λ s'. block_read fuel s' b sector)
block_read-block_write fuel s b blk sector buffer enough inside w e below =
    Returns-bind (IsWritten s b sector buffer) _ (block_write fuel s b sector buffer) _
      (block_write_lem fuel s b blk sector buffer enough inside w e below)
      (λ s' k.
        let (blk', e', alike) = k.keeps.devices b blk e in
        Returns-weaken (IsRead s' b sector) _ (block_read fuel s' b sector)
          (λ r k'.
            let (same_disk, same_at) =
              Place-unique (Place-Kept s'.all_blocks k.keeps.devices k.place) k'.place in
            k'.content
            ∙ ap (λ f. f k'.d k'.at) k.disks
            ∙ written_back s.disks k.d k.at k'.d k'.at buffer same_disk same_at)
          (block_read_lem fuel s' b blk' sector enough (IsInside-Kept s s' k.keeps inside) e'
            (omega (arith, below, alike.sized))))
