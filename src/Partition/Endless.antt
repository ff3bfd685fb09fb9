-- ===== src/Partition/Endless.antt =====
-- partition_scan of devices/partition.c and extended partitions: read_partition_table reads sector
-- 0 of the device whatever its argument is, so it meets the same entry again.
use os_project.Common.{
  ℕ, zero, suc, ◌+◌, ◌-◌, ◌<◌, ◌≡◌, ◌≢◌, refl, sym, ap, ◌∙◌, true, false, ◌==◌, if◌then◌else◌, leb,
  u32, List, length, get_elem?, none, some, arith, Result, Fault, out_of_fuel, panic, ok, err,
  ◌>>=◌, Returns-ok, ℕ_discrete,
}
use os_project.Links.Lists.{ne-false}
use os_project.Block.{Block, Blocks, malloc, block_read}
use os_project.Block.Kept.{get_elem?-lt}
use os_project.Block.Sectors.{IsInside, Place, IsRead, block_read_lem}
use os_project.Block.Writes.{Place-unique, Place-Kept, IsInside-Kept}
use os_project.Partition.Found.{malloc_lem}
use os_project.Partition.{
  entry, signature, is_empty_entry, is_extended, free, Scan, parse_entry, parse_loop,
  read_partition_table, partition_scan,
}

-- How a recursion without an end stops: at the bound of its depth, or when malloc finds no memory.
abbrev pub exhausted : ℕ → ℕ → Fault
exhausted fuel spare = if leb fuel spare then out_of_fuel else panic

no_memory : (fuel spare : ℕ) → spare ≡ 0 → panic ≡ exhausted (suc fuel) spare
no_memory fuel spare e = ground (arith, e)

no_depth : (spare : ℕ) → out_of_fuel ≡ exhausted zero spare
no_depth spare = ground arith

bind-err {ℓ κ} :
    {A : Type ℓ} {B : Type κ} (first : Result A) (rest : A → Result B) (fault : Fault)
    → first ≡ err fault
    → (first >>= rest) ≡ err fault
bind-err first rest fault e = rw e refl

-- The device b, its first sector and all partitions.
record IsReady (b d at limit : ℕ) (pt : List ℕ) (s : Blocks) : Type 0 where
  blk : Block
  found : get_elem? s.all_blocks b ≡ some blk
  sized : blk.size ≡ limit
  inside : IsInside s.all_blocks
  place : Place s.all_blocks b 0 d at
  table : s.disks d at ≡ pt

-- Reading the table keeps all this.
read_ready :
    (b d at limit : ℕ) (pt : List ℕ) (s : Blocks)
    → IsReady b d at limit pt s
    → 0 < limit
    → (x : List ℕ × Blocks) × (block_read (length s.all_blocks) s b 0 ≡ ok x)
      × (x.0 ≡ pt)
      × IsReady b d at limit pt x.1
      × (x.1.spare ≡ s.spare)
read_ready b d at limit pt s ready some_sector =
    let (x, reads, k) = Returns-ok (IsRead s b 0) (block_read (length s.all_blocks) s b 0) (
      block_read_lem (length s.all_blocks) s b ready.blk 0
        (get_elem?-lt s.all_blocks b ready.blk ready.found) ready.inside ready.found
        (omega (arith, ready.sized, some_sector))) in
    let (blk', found', alike) = k.keeps.devices b ready.blk ready.found in
    let (same_disk, same_at) = Place-unique ready.place k.place in
    (
      x,
      reads,
      k.content
          ∙ ap (λ n. s.disks n k.at) (sym same_disk)
          ∙ ap (s.disks d) (sym same_at)
          ∙ ready.table,
      record {
        blk = blk';
        found = found';
        sized = alike.sized ∙ ready.sized;
        inside = IsInside-Kept s x.1 k.keeps ready.inside;
        place = Place-Kept x.1.all_blocks k.keeps.devices ready.place;
        table = ap (λ f. f d at) k.disks ∙ ready.table;
      },
      k.keeps.as_spare,
    )

malloc_none : (s : Blocks) → s.spare ≡ 0 → malloc s ≡ none
malloc_none s e = ground (arith, e)

-- The first entry is read before the others.
parse_loop-first :
    (read : Scan → ℕ → ℕ → Result Scan) (b sector primary : ℕ) (pt : List ℕ) (r : Scan)
    (fault : Fault)
    → is_empty_entry (entry pt 0) ≡ false
    → is_extended (entry pt 0) ≡ true
    → (if sector == 0
        then read r (entry pt 0).offset (entry pt 0).offset
        else read r (u32 ((entry pt 0).offset + primary)) primary)
      ≡ err fault
    → parse_loop read b sector primary pt 4 0 r ≡ err fault
unfolding parse_loop parse_entry
parse_loop-first read b sector primary pt r fault full extended fails =
    bind-err (parse_entry read b sector primary (entry pt 0) r)
      (λ r'. parse_loop read b sector primary pt 3 1 r') fault (rw full (rw extended fails))

-- The table's first entry is an extended partition at sector o.
pub record IsExtendedTable (limit o : ℕ) (pt : List ℕ) : Type 0 where
  pub signed : signature pt ≡ 0xaa55
  pub full : is_empty_entry (entry pt 0) ≡ false
  pub extended : is_extended (entry pt 0) ≡ true
  pub offset : (entry pt 0).offset ≡ o
  pub first_ne : o ≢ 0
  pub first_on : o < limit
  pub second_ne : u32 (o + o) ≢ 0
  pub second_on : u32 (o + o) < limit

module _ (b d at limit o : ℕ) (pt : List ℕ) where
  -- When the tables that the entry leads to end in this way, so does this one.
  table_exhausted :
      (fuel sector primary : ℕ) (r : Scan)
      → IsExtendedTable limit o pt
      → IsReady b d at limit pt r.state
      → sector < limit
      → ((r' : Scan)
          → IsReady b d at limit pt r'.state
          → (if sector == 0
              then read_partition_table fuel b r' o o
              else read_partition_table fuel b r' (u32 (o + primary)) primary)
            ≡ err (exhausted fuel r'.state.spare))
      → read_partition_table (suc fuel) b r sector primary
        ≡ err (exhausted (suc fuel) r.state.spare)
  unfolding read_partition_table
  table_exhausted fuel sector primary r t ready below deeper =
      let on : leb ready.blk.size sector ≡ false = ground (arith, below, ready.sized) in
      rw ready.found (
        rw on (elim (ℕ_discrete r.state.spare 0) [
          | yes used_up ↦
              rw (malloc_none r.state used_up) (ap err (no_memory fuel r.state.spare used_up))
          | no room ↦
              let s1 : Blocks = record r.state { spare = r.state.spare - 1 } in
              let (x, reads, table, ready', as_spare) =
                read_ready b d at limit pt s1
                  (record {
                    blk = ready.blk;
                    found = ready.found;
                    sized = ready.sized;
                    inside = ready.inside;
                    place = ready.place;
                    table = ready.table;
                  })
                  (omega (arith, below)) in
              let r1 : Scan = record r { state = x.1 } in
              let same : exhausted fuel x.1.spare ≡ exhausted (suc fuel) r.state.spare =
                ground (arith, as_spare, room) in
              rw (malloc_lem r.state (omega (arith, room))) (
                rw reads (
                  rw table (
                    rw t.signed (
                      bind-err
                        (parse_loop
                          (λ r' sector' primary'. read_partition_table fuel b r' sector' primary') b
                          sector primary pt 4 0 r1)
                        (λ r'. ok (record r' { state = free r'.state }))
                        (exhausted (suc fuel) r.state.spare)
                        (parse_loop-first
                          (λ r' sector' primary'. read_partition_table fuel b r' sector' primary') b
                          sector primary pt r1 (exhausted (suc fuel) r.state.spare) t.full
                          t.extended (rw t.offset (deeper r1 ready' ∙ ap err same)))))))
        ]))

  -- In the extended partition.
  deep_exhausted :
      (fuel sector : ℕ) (r : Scan)
      → IsExtendedTable limit o pt
      → IsReady b d at limit pt r.state
      → sector ≢ 0
      → sector < limit
      → read_partition_table fuel b r sector o ≡ err (exhausted fuel r.state.spare)
  unfolding read_partition_table
  deep_exhausted zero sector r t ready ne below = ap err (no_depth r.state.spare)
  deep_exhausted (suc fuel) sector r t ready ne below =
      table_exhausted fuel sector o r t ready below (λ r' ready'.
        rw (ne-false sector 0 ne)
          (deep_exhausted fuel (u32 (o + o)) r' t ready' t.second_ne t.second_on))

-- When the first entry of the device's table is an extended partition that starts at a sector o
-- after the table, and both o and 2 * o, modulo 2^32, are sectors of the device other than 0,
-- partition_scan never comes to a result. Every table that it reads takes one allocation and leads
-- to another table, so it ends at the bound of its depth if there is memory for as many
-- allocations, and else in the panic that there is no memory.
pub partition_scan-exhausted :
    (fuel : ℕ) (s : Blocks) (b : ℕ) (blk : Block) (d at o : ℕ)
    → get_elem? s.all_blocks b ≡ some blk
    → IsInside s.all_blocks
    → Place s.all_blocks b 0 d at
    → IsExtendedTable blk.size o (s.disks d at)
    → partition_scan fuel b s ≡ err (exhausted fuel s.spare)
unfolding partition_scan read_partition_table
partition_scan-exhausted zero s b blk d at o found inside place t = ap err (no_depth s.spare)
partition_scan-exhausted (suc fuel) s b blk d at o found inside place t =
    bind-err (read_partition_table (suc fuel) b (record { part_nr = 0; state = s }) 0 0)
      (λ r. ok r.state) (exhausted (suc fuel) s.spare)
      (table_exhausted b d at blk.size o (s.disks d at) fuel 0 0 (record { part_nr = 0; state = s })
        t
        (record {
          blk = blk;
          found = found;
          sized = refl;
          inside = inside;
          place = place;
          table = refl;
        })
        (omega (arith, t.first_on))
        (λ r' ready'.
          deep_exhausted b d at blk.size o (s.disks d at) fuel o r' t ready' t.first_ne t.first_on))
