-- ===== src/Partition/Scanned.antt =====
-- partition_scan of devices/partition.c on a table without extended partitions.
use mathlib.Core.Path.{subst}
use os_project.Common.{
  ℕ, zero, suc, ◌+◌, ◌-◌, ◌*◌, ◌^◌, ◌≤◌, ◌<◌, ◌≡◌, ◌⊎◌, refl, sym, ap, ◌∙◌, Bool, true, false, not,
  ◌&&◌, leb, u32, Bool-cases, inl, inr, List, [], ◌∷◌, ◌++◌, length, get_elem?, get_or, some, arith,
  Result, ok, Returns, Returns-bind, Returns-weaken,
}
use os_project.Hash.Bytes.{AreBytes}
use os_project.Block.{Driver, disk, partition, Block, Blocks, block_read}
use os_project.Block.Kept.{Kept, get_elem?-lt}
use os_project.Block.Sectors.{Fits, IsInside, Place, IsRead, block_read_lem}
use os_project.Block.Writes.{Place-unique, IsInside-Kept}
use os_project.Partition.{
  Entry, entry, le32, signature, is_empty_entry, is_extended, found_partition, Scan, parse_entry,
  parse_loop, read_partition_table, partition_scan,
}
use os_project.Partition.Found.{on_device, on_device-le, Added, found_partition_lem, malloc_lem}

get_or-lt : (bytes : List ℕ) (i : ℕ) → AreBytes bytes → get_or bytes i 0 < 256
get_or-lt [] i are = omega arith
get_or-lt (c ∷ bytes) zero (byte, are) = byte
get_or-lt (c ∷ bytes) (suc i) (byte, are) = get_or-lt bytes i are

pub le32-lt : (bytes : List ℕ) (i : ℕ) → AreBytes bytes → le32 bytes i < 2 ^ 32
le32-lt bytes i are = omega (
  arith,
  get_or-lt bytes i are,
  get_or-lt bytes (i + 1) are,
  get_or-lt bytes (i + 2) are,
  get_or-lt bytes (i + 2 + 1) are,
)

-- The tests that an entry passes.
abbrev pub is_registered : ℕ → Entry → Bool
is_registered limit e = not (is_empty_entry e) && on_device limit e.offset e.size

-- The devices that the entries from i on add, one after the other.
abbrev pub Passed : ℕ → ℕ → List ℕ → ℕ → ℕ → List Block → List Block → Type 0
Passed b limit pt zero i blocks blocks' = blocks' ≡ blocks
Passed b limit pt (suc rounds) i blocks blocks' =
    (between : List Block) × Added (is_registered limit (entry pt i)) b (entry pt i).part_type
      (entry pt i).offset (entry pt i).size blocks between
    × Passed b limit pt rounds (suc i) between blocks'

-- What an entry leaves.
record EntryDone (b : ℕ) (limit : ℕ) (e : Entry) (r r' : Scan) : Type 0 where
  added :
      Added
        (is_registered limit e)
        b
        e.part_type
        e.offset
        e.size
        r.state.all_blocks
        r'.state.all_blocks
  room : r.state.spare ≤ r'.state.spare + 2
  counted : r'.part_nr < 2 ^ 32

same_offset : (n : ℕ) → n < 2 ^ 32 → u32 (n + 0) ≡ n
same_offset n small = omega (arith, small)

parse_entry_lem :
    (read : Scan → ℕ → ℕ → Result Scan) (b primary : ℕ) (blk : Block) (e : Entry) (r : Scan)
    → get_elem? r.state.all_blocks b ≡ some blk
    → 2 ≤ r.state.spare
    → r.part_nr < 2 ^ 32
    → e.offset < 2 ^ 32
    → (is_empty_entry e ≡ true) ⊎ (is_extended e ≡ false)
    → Returns (EntryDone b blk.size e r) (parse_entry read b 0 primary e r)
unfolding parse_entry
parse_entry_lem read b primary blk e r found room counted small plain =
    elim (Bool-cases (is_empty_entry e)) [
      | inl empty ↦
          rw empty (record { added = rw empty refl; room = omega arith; counted = counted })
      | inr full ↦ elim plain [
        | inl empty ↦ absurd (ground (arith, empty, full))
        | inr simple ↦ rw full (
            rw simple (
              Returns-bind _ _
                (found_partition r.state b e.part_type (u32 (e.offset + 0)) e.size
                  (u32 (r.part_nr + 1)))
                _
                (found_partition_lem r.state b blk e.part_type (u32 (e.offset + 0)) e.size
                  (u32 (r.part_nr + 1)) found room (omega arith))
                (λ s k. record {
                  added = rw full (
                      subst
                        (λ o.
                          Added (on_device blk.size o e.size) b e.part_type o e.size
                            r.state.all_blocks s.all_blocks)
                        (same_offset e.offset small) k.0);
                  room = k.1;
                  counted = omega arith;
                })))
      ]
    ]

get_elem?-append :
    (blocks others : List Block) (i : ℕ) (blk : Block)
    → get_elem? blocks i ≡ some blk
    → get_elem? (blocks ++ others) i ≡ some blk
get_elem?-append [] others i blk e = cc
get_elem?-append (x ∷ blocks) others zero blk e = e
get_elem?-append (x ∷ blocks) others (suc i) blk e = get_elem?-append blocks others i blk e

-- A device of the longer list is an old one or the new one.
get_elem?-snoc :
    (blocks : List Block) (new : Block) (i : ℕ) (blk : Block)
    → get_elem? (blocks ++ (new ∷ [])) i ≡ some blk
    → (get_elem? blocks i ≡ some blk) ⊎ ((i ≡ length blocks) × (new ≡ blk))
get_elem?-snoc [] new zero blk e = inr (refl, cc)
get_elem?-snoc [] new (suc i) blk e = cc
get_elem?-snoc (x ∷ blocks) new zero blk e = inl e
get_elem?-snoc (x ∷ blocks) new (suc i) blk e = elim (get_elem?-snoc blocks new i blk e) [
  | inl old ↦ inl old
  | inr (last, same) ↦ inr (ap suc last, same)
]

Fits-append :
    (blocks others : List Block) (i size : ℕ) (dr : Driver)
    → Fits blocks i size dr
    → Fits (blocks ++ others) i size dr
Fits-append blocks others i size (disk d) fits = tt
Fits-append blocks others i size (partition p start) (earlier, under, e, short) =
    (earlier, under, get_elem?-append blocks others p under e, short)

module _ (b : ℕ) (blk : Block) (part_type start size : ℕ) (small : start < 2 ^ 32)
    (small' : size < 2 ^ 32) where
  -- Adding a partition of a device keeps all partitions inside.
  Added-IsInside :
      (test : Bool) (blocks blocks' : List Block)
      → (test ≡ true → on_device blk.size start size ≡ true)
      → get_elem? blocks b ≡ some blk
      → IsInside blocks
      → Added test b part_type start size blocks blocks'
      → IsInside blocks' × (get_elem? blocks' b ≡ some blk)
  Added-IsInside false blocks blocks' test e inside same =
      (subst IsInside (sym same) inside, ap (λ l. get_elem? l b) same ∙ e)
  Added-IsInside true blocks blocks' test e inside (new, grown, driven, sized, typed) = (
    subst IsInside (sym grown) (λ i blk' e'. elim (get_elem?-snoc blocks new i blk' e') [
      | inl old ↦
          let (below, fits) = inside i blk' old in
          (below, Fits-append blocks (new ∷ []) i blk'.size blk'.driver fits)
      | inr (last, same) ↦
          let size_eq : blk'.size ≡ size = sym (ap (λ x. x.size) same) ∙ sized in
          let driver_eq : blk'.driver ≡ partition b start =
            sym (ap (λ x. x.driver) same) ∙ driven in
          (
            omega (arith, size_eq, small'),
            subst (Fits (blocks ++ (new ∷ [])) i blk'.size) (sym driver_eq) (
              omega (arith, last, get_elem?-lt blocks b blk e),
              blk,
              get_elem?-append blocks (new ∷ []) b blk e,
              omega (arith, size_eq, on_device-le blk.size start size small small' (test refl)),
            ),
          )
    ]),
    ap (λ l. get_elem? l b) grown ∙ get_elem?-append blocks (new ∷ []) b blk e,
  )

-- An entry that leads to no other table.
abbrev pub IsPlainEntry : Entry → Type 0
IsPlainEntry e = (is_empty_entry e ≡ true) ⊎ (is_extended e ≡ false)

registered-on_device :
    (limit : ℕ) (e : Entry) → is_registered limit e ≡ true → on_device limit e.offset e.size ≡ true
registered-on_device limit e h = elim (Bool-cases (is_empty_entry e)) [
  | inl empty ↦ let no : false ≡ true = rw empty at h in cc
  | inr full ↦ rw full at h
]

record LoopDone (b : ℕ) (blk : Block) (pt : List ℕ) (rounds i : ℕ) (r r' : Scan) : Type 0 where
  registered : Passed b blk.size pt rounds i r.state.all_blocks r'.state.all_blocks
  inside : IsInside r'.state.all_blocks

parse_loop_lem :
    (read : Scan → ℕ → ℕ → Result Scan) (b primary : ℕ) (blk : Block) (pt : List ℕ) (rounds i : ℕ)
    (r : Scan)
    → get_elem? r.state.all_blocks b ≡ some blk
    → 2 * rounds ≤ r.state.spare
    → r.part_nr < 2 ^ 32
    → AreBytes pt
    → ((j : ℕ) → j < i + rounds → IsPlainEntry (entry pt j))
    → IsInside r.state.all_blocks
    → Returns (LoopDone b blk pt rounds i r) (parse_loop read b 0 primary pt rounds i r)
unfolding parse_loop
parse_loop_lem read b primary blk pt zero i r found room counted bytes plain inside = record {
  registered = refl;
  inside = inside;
}
parse_loop_lem read b primary blk pt (suc rounds) i r found room counted bytes plain inside =
    let e = entry pt i in
    let small = le32-lt pt (446 + 16 * i + 8) bytes in
    let small' = le32-lt pt (446 + 16 * i + 12) bytes in
    Returns-bind (EntryDone b blk.size e r) _ (parse_entry read b 0 primary e r) _
      (parse_entry_lem read b primary blk e r found (omega (arith, room)) counted small
        (plain i (omega arith)))
      (λ r' k.
        let (inside', found') =
          Added-IsInside b blk e.part_type e.offset e.size small small' (is_registered blk.size e)
            r.state.all_blocks r'.state.all_blocks (registered-on_device blk.size e) found inside
            k.added in
        Returns-weaken (LoopDone b blk pt rounds (suc i) r') _
          (parse_loop read b 0 primary pt rounds (suc i) r')
          (λ r'' k'. record {
            registered = (r'.state.all_blocks, k.added, k'.registered);
            inside = k'.inside;
          })
          (parse_loop_lem read b primary blk pt rounds (suc i) r' found'
            (omega (arith, room, k.room)) k.counted bytes
            (λ j below. plain j (omega (arith, below))) inside'))

-- partition_scan by the tests that its functions make.
pub scan_tests_lem :
    (fuel : ℕ) (s : Blocks) (b : ℕ) (blk : Block) (d at : ℕ)
    → get_elem? s.all_blocks b ≡ some blk
    → 0 < blk.size
    → IsInside s.all_blocks
    → Place s.all_blocks b 0 d at
    → AreBytes (s.disks d at)
    → signature (s.disks d at) ≡ 0xaa55
    → ((j : ℕ) → j < 4 → IsPlainEntry (entry (s.disks d at) j))
    → 9 ≤ s.spare
    → Returns
        (λ s'.
          IsInside s'.all_blocks
          × (before : List Block) × Kept s.all_blocks before
          × Passed b blk.size (s.disks d at) 4 0 before s'.all_blocks)
        (partition_scan (suc fuel) b s)
unfolding partition_scan read_partition_table
scan_tests_lem fuel s b blk d at found some_sector inside place bytes signed plain room =
    let starts : leb blk.size 0 ≡ false = ground (arith, some_sector) in
    let s1 : Blocks = record s { spare = s.spare - 1 } in
    let Done : Blocks → Type 0 = λ s'.
      IsInside s'.all_blocks
      × (before : List Block) × Kept s.all_blocks before
      × Passed b blk.size (s.disks d at) 4 0 before s'.all_blocks in
    rw found (
      rw starts (
        rw (malloc_lem s (omega (arith, room))) (
          Returns-bind (λ r. Done r.state) Done _ (λ r. ok r.state)
            (Returns-bind (IsRead s1 b 0) (λ r. Done r.state)
              (block_read (length s.all_blocks) s1 b 0) _
              (block_read_lem (length s.all_blocks) s1 b blk 0
                (get_elem?-lt s.all_blocks b blk found) inside found some_sector)
              (λ x k.
                let (blk', found', alike) = k.keeps.devices b blk found in
                let (same_disk, same_at) = Place-unique place k.place in
                let table : x.0 ≡ s.disks d at =
                  k.content
                  ∙ ap (λ n. s.disks n k.at) (sym same_disk)
                  ∙ ap (s.disks d) (sym same_at) in
                rw table (
                  rw signed (
                    Returns-bind
                      (LoopDone b blk' (s.disks d at) 4 0 (record { part_nr = 0; state = x.1 }))
                      (λ r. Done r.state) _ _
                      (parse_loop_lem
                        (λ r sector primary. read_partition_table fuel b r sector primary) b 0 blk'
                        (s.disks d at) 4 0 (record { part_nr = 0; state = x.1 }) found'
                        (omega (arith, room, k.keeps.as_spare)) (omega arith) bytes
                        (λ j below. plain j (omega (arith, below)))
                        (IsInside-Kept s1 x.1 k.keeps inside))
                      (λ r' k'. (
                        k'.inside,
                        x.1.all_blocks,
                        k.keeps.devices,
                        subst
                            (λ limit.
                              Passed b limit (s.disks d at) 4 0 x.1.all_blocks r'.state.all_blocks)
                            alike.sized k'.registered,
                      ))))))
            (λ r done. done))))
