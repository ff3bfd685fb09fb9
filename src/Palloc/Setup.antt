-- ===== src/Palloc/Setup.antt =====
-- The initialisation of threads/palloc.c.
use os_project.Common.{
  ℕ, ◌+◌, ◌-◌, ◌*◌, ◌/◌, ◌^◌, List, ltb, if◌then◌else◌, Result, ok, err, assert, panic, ◌>>=◌, ◌>>◌,
  u32, div_round_up,
}
use os_project.Bitmap.{bitmap_create_in_buf, bitmap_buf_size}
use os_project.Synch.{lock_init}
use os_project.Palloc.State.{page_size, Pool, Allocator}

-- The pool at `base` over `storage`, what memory holds behind the bitmap's header.
unfoldable pub init_pool : ℕ → ℕ → List ℕ → Result Pool
unfolding lock_init
init_pool base page_cnt storage = do
  let bm_pages = div_round_up (bitmap_buf_size page_cnt) page_size
  (if ltb page_cnt bm_pages then err panic else ok (tt {0}))
  map ← bitmap_create_in_buf (page_cnt - bm_pages) storage (u32 (bm_pages * page_size))
  ok (record {
    lock = lock_init;
    used_map = map;
    base = u32 (base + u32 (bm_pages * page_size));
    next_fit_start_idx = 0;
  })

-- PHYS_BASE
abbrev pub phys_base : ℕ
phys_base = 0xc000_0000

unfoldable pub ptov : ℕ → Result ℕ
ptov paddr = do assert (ltb paddr phys_base); ok (u32 (paddr + phys_base))

-- `(end - start) / PGSIZE`: the difference of pointers is signed, and is converted to `size_t`.
abbrev pub pages_between : ℕ → ℕ → ℕ
pages_between start end =
    let diff = u32 (end + 2 ^ 32 - start) in
    if ltb diff (2 ^ 31) then diff / page_size else u32 (2 ^ 32 - (2 ^ 32 - diff) / page_size)

-- `init_ram_pages` is set by the loader. The two lists are what memory holds behind the headers of
-- the bitmaps, and `a` is the allocator before the call.
unfoldable pub palloc_init : ℕ → ℕ → List ℕ → List ℕ → Allocator → Result Allocator
unfolding init_pool ptov
palloc_init user_page_limit init_ram_pages kernel_storage user_storage a = do
  free_start ← ptov (1024 * 1024)
  free_end ← ptov (u32 (init_ram_pages * page_size))
  let free_pages = pages_between free_start free_end
  let half = free_pages / 2
  let user_pages = if ltb user_page_limit half then user_page_limit else half
  let kernel_pages = free_pages - user_pages
  kernel_pool ← init_pool free_start kernel_pages kernel_storage
  user_pool ← init_pool (u32 (free_start + u32 (kernel_pages * page_size))) user_pages user_storage
  ok (record a { kernel_pool = kernel_pool; user_pool = user_pool })
