-- ===== src/Partition/Found.antt =====
-- found_partition of devices/partition.c registers a partition that lies on its device.
use os_project.Common.{
  ℕ, suc, ◌+◌, ◌-◌, ◌^◌, ◌≤◌, ◌<◌, ◌≡◌, refl, Bool, true, false, not, ◌&&◌, ◌==◌, leb, Bool-cases,
  inl, inr, List, [], ◌∷◌, ◌++◌, length, get_elem?, some, arith, Result, ok, Returns, Returns-bind,
  Returns-ok,
}
use os_project.Block.{BlockType, Driver, partition, Block, Blocks, malloc, block_register}
use os_project.Partition.{type_of, part_name, outside, found_partition}
use os_project.Strings.{Bytes}
use os_project.Strings.Copies.{take}
use os_project.Stdio.{Conversion, base_d, format_integer}
use os_project.Stdio.Printf.{codes, literal, vprintf, print_next, convert}
use os_project.Stdio.Parse.{parse_conversion}
use os_project.Stdio.Bases.{base_d-IsBase}
use os_project.Stdio.Integers.{IsInteger, format_integer_lem}
use os_project.Stdio.RoundTrip.{plain_d, magnitude, magnitude-lt, vprintf_d}

abbrev name_memory : List ℕ → Bytes
name_memory name = literal (codes "%s%d" ++ (0 ∷ name))

parse_s :
    (name : List ℕ) (args : List ℕ)
    → parse_conversion 19 1 args (name_memory name) ≡ ok (plain_d, 1, args)
unfolding parse_conversion
parse_s name args = refl

convert_s :
    (printf : List ℕ → List ℕ → Result (List ℕ)) (p : ℕ) (args : List ℕ) (mem : Bytes)
    → (text : List ℕ) × (convert printf b's' plain_d (p ∷ args) mem ≡ ok (text, args))
unfolding convert
convert_s printf p args mem = (_, refl)

-- One round of vprintf.
print_next_step :
    (printf : List ℕ → List ℕ → Result (List ℕ)) (fuel format format' : ℕ)
    (args args' args'' text : List ℕ) (c : Conversion) (mem : Bytes)
    → mem format ≡ b'%'
    → (mem (suc format) == b'%') ≡ false
    → parse_conversion fuel (suc format) args mem ≡ ok (c, format', args')
    → convert printf (mem format') c args' mem ≡ ok (text, args'')
    → print_next printf fuel format args mem ≡ ok (text, suc format', args'')
unfolding print_next
print_next_step printf fuel format format' args args' args'' text c mem at other parses prints =
    rw at (rw other (rw parses (rw prints refl)))

vprintf_step :
    (fuel format format' : ℕ) (args args' text texts : List ℕ) (mem : Bytes)
    → (mem format == 0) ≡ false
    → print_next (λ f a. vprintf fuel 0 a (literal f)) fuel format args mem
      ≡ ok (text, format', args')
    → vprintf fuel format' args' mem ≡ ok texts
    → vprintf (suc fuel) format args mem ≡ ok (text ++ texts)
unfolding vprintf
vprintf_step fuel format format' args args' text texts mem more first others =
    rw more (rw first (rw others refl))

-- The name of a partition is always printed.
part_name_lem :
    (name : List ℕ) (nr : ℕ) → nr < 2 ^ 32 → Returns (λ text. Unit {0}) (part_name name nr)
unfolding part_name
part_name_lem name nr below =
    let mem = name_memory name in
    let (text, prints, k) =
      Returns-ok (IsInteger (magnitude nr) true (leb (2 ^ 31) nr) base_d plain_d)
        (format_integer (magnitude nr) true (leb (2 ^ 31) nr) base_d plain_d)
        (format_integer_lem (magnitude nr) true (leb (2 ^ 31) nr) base_d plain_d base_d-IsBase
          (magnitude-lt nr below) (omega arith)) in
    let second =
      vprintf_d 17 2 nr mem text below
        (refl, (λ e. omega (arith, e)), (refl, (λ e. omega (arith, e)), refl)) prints in
    let (shown, first) = convert_s (λ f a. vprintf 19 0 a (literal f)) 5 (nr ∷ []) mem in
    let whole =
      vprintf_step 19 0 2 (5 ∷ nr ∷ []) (nr ∷ []) shown (text ++ []) mem refl
        (print_next_step (λ f a. vprintf 19 0 a (literal f)) 19 0 1 (5 ∷ nr ∷ []) (5 ∷ nr ∷ [])
          (nr ∷ []) shown plain_d mem refl refl (parse_s name (5 ∷ nr ∷ [])) first)
        second in
    rw whole tt

-- The partition starts and ends on the device.
abbrev pub on_device : ℕ → ℕ → ℕ → Bool
on_device limit start size = not (leb limit start) && not (outside limit start size)

pub on_device-le :
    (limit start size : ℕ)
    → start < 2 ^ 32
    → size < 2 ^ 32
    → on_device limit start size ≡ true
    → start + size ≤ limit
on_device-le limit start size small small' h = ground (arith, small, small', h)

pub malloc_lem : (s : Blocks) → 0 < s.spare → malloc s ≡ some (record s { spare = s.spare - 1 })
malloc_lem s room = ground (arith, room)

new_block : List ℕ → BlockType → ℕ → Driver → Block
new_block name t size driver = record {
  name = take 15 name;
  block_type = t;
  size = size;
  driver = driver;
  read_cnt = 0;
  write_cnt = 0;
}

block_register_lem :
    (s : Blocks) (name : List ℕ) (t : BlockType) (size : ℕ) (driver : Driver)
    → 0 < s.spare
    → block_register s name t size driver
      ≡ ok (
        length s.all_blocks,
        record s {
          spare = s.spare - 1;
          all_blocks = s.all_blocks ++ (new_block name t size driver ∷ []);
        },
      )
unfolding block_register new_block
block_register_lem s name t size driver room = ground (arith, room)

-- One new device, or none.
abbrev pub Added : Bool → ℕ → ℕ → ℕ → ℕ → List Block → List Block → Type 0
Added true b part_type start size blocks blocks' =
    (new : Block) × (blocks' ≡ blocks ++ (new ∷ []))
    × (new.driver ≡ partition b start)
    × (new.size ≡ size)
    × (new.block_type ≡ type_of part_type)
Added false b part_type start size blocks blocks' = blocks' ≡ blocks

-- With memory for two more allocations, found_partition registers a partition that lies on its device,
-- and no other.
pub found_partition_lem :
    (s : Blocks) (b : ℕ) (blk : Block) (part_type start size nr : ℕ)
    → get_elem? s.all_blocks b ≡ some blk
    → 2 ≤ s.spare
    → nr < 2 ^ 32
    → Returns
        (λ s'.
          Added (on_device blk.size start size) b part_type start size s.all_blocks s'.all_blocks
          × (s.spare ≤ s'.spare + 2)
          × (s'.disks ≡ s.disks))
        (found_partition s b part_type start size nr)
unfolding found_partition new_block
found_partition_lem s b blk part_type start size nr e room below =
    elim (Bool-cases (leb blk.size start)) [
      | inl past ↦ rw e (rw past (refl, omega arith, refl))
      | inr starts ↦ elim (Bool-cases (outside blk.size start size)) [
        | inl past ↦ rw e (rw starts (rw past (refl, omega arith, refl)))
        | inr ends ↦
            let s1 : Blocks = record s { spare = s.spare - 1 } in
            rw e (
              rw starts (
                rw ends (
                  rw (malloc_lem s (omega (arith, room))) (
                    Returns-bind (λ text. Unit {0}) _ (part_name blk.name nr) _
                      (part_name_lem blk.name nr below)
                      (λ name done.
                        rw
                          (block_register_lem s1 name (type_of part_type) size (partition b start)
                            (omega (arith, room)))
                          ((_, refl, refl, refl, refl), omega arith, refl))))))
      ]
    ]
