-- ===== src/Palloc/State.antt =====
-- threads/palloc.h, threads/vaddr.h and the static state of threads/palloc.c. Addresses are numbers
-- below 2 ^ 32, memory is a function from addresses to bytes, and 0 is the null pointer.
use Prim.Native.Nat.{bit_and}
use os_project.Common.{
  ℕ, ◌+◌, ◌/◌, ◌%◌, ◌^◌, Bool, true, false, not, ◌&&◌, ltb, leb, ◌==◌, if◌then◌else◌,
}
use os_project.Bitmap.{Bitmap}
use os_project.Synch.{Lock}

-- PGSIZE
abbrev pub page_size : ℕ
page_size = 2 ^ 12

abbrev pub pg_ofs : ℕ → ℕ
pg_ofs va = va % page_size

abbrev pub pg_no : ℕ → ℕ
pg_no va = va / page_size

-- `struct pool`; the bitmap is not aliased.
pub record Pool : Type 0 where
  pub lock : Lock
  pub used_map : Bitmap
  pub base : ℕ
  pub next_fit_start_idx : ℕ

-- `enum palloc_mode`
pub data Mode : Type 0 where
  first_fit next_fit best_fit buddy : Mode

-- PAL_ASSERT, PAL_ZERO, PAL_USER
abbrev pub pal_assert : ℕ
pal_assert = 1

abbrev pub pal_zero : ℕ
pal_zero = 2

abbrev pub pal_user : ℕ
pal_user = 4

-- The static variables of palloc.c, and memory.
pub record Allocator : Type 0 where
  pub kernel_pool : Pool
  pub user_pool : Pool
  pub current_palloc_mode : Mode
  pub mem : ℕ → ℕ

unfoldable pub palloc_set_mode : Mode → Allocator → Allocator
palloc_set_mode mode a = record a { current_palloc_mode = mode }

abbrev pub memset : ℕ → ℕ → ℕ → (ℕ → ℕ) → ℕ → ℕ
memset p v n mem addr = if leb p addr && ltb addr (p + n) then v else mem addr

-- `flags & flag`
abbrev pub has_flag : ℕ → ℕ → Bool
has_flag flags flag = not (bit_and flags flag == 0)

-- `flags & PAL_USER ? &user_pool : &kernel_pool`, to read and to write.
abbrev pub the_pool : Bool → Allocator → Pool
the_pool true a = a.user_pool
the_pool false a = a.kernel_pool

abbrev pub put_pool : Bool → Pool → Allocator → Allocator
put_pool true p a = record a { user_pool = p }
put_pool false p a = record a { kernel_pool = p }
