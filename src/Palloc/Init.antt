-- ===== src/Palloc/Init.antt =====
-- init_pool and palloc_init set up pools whose pages are all free.
use os_project.Common.{
  ℕ, ◌+◌, ◌-◌, ◌*◌, ◌/◌, ◌%◌, ◌^◌, ◌≤◌, ◌<◌, ◌≡◌, refl, true, false, if◌then◌else◌, arith, ok, err,
  panic, List, length, get_or, u32, ltb, div_round_up, min,
}
use os_project.Bitmap.{elem_cnt, bitmap_buf_size}
use os_project.Bitmap.Range.{IsRun}
use os_project.Bitmap.Scan.{bitmap_create_in_buf_lem}
use os_project.Synch.{lock_init}
use os_project.Synch.Locks.{lock_init-IsFree}
use os_project.Palloc.State.{Pool, Allocator, page_size}
use os_project.Palloc.Setup.{phys_base, ptov, pages_between, init_pool, palloc_init}
use os_project.Palloc.Get.{IsReady, IsAllocator}

-- The words that memory holds where the bitmap goes.
pub record IsStorage (storage : List ℕ) (page_cnt : ℕ) : Type 0 where
  pub long : elem_cnt page_cnt ≤ length storage
  pub words : (i : ℕ) → get_or storage i 0 < 2 ^ 32

-- The pages that the bitmap takes.
abbrev pub bm_pages : ℕ → ℕ
bm_pages page_cnt = div_round_up (bitmap_buf_size page_cnt) page_size

-- A pool made of the `page_cnt` pages at `base`.
pub record IsNewPool (base page_cnt : ℕ) (p : Pool) : Type 0 where
  pub ready : IsReady p
  pub size : p.used_map.bit_cnt + bm_pages page_cnt ≡ page_cnt
  pub start : p.base ≡ base + page_size * bm_pages page_cnt
  pub free : IsRun p.used_map 0 p.used_map.bit_cnt false

-- One page or more always hold their own bitmap.
bm_pages-le : (page_cnt : ℕ) → 0 < page_cnt → page_cnt < 2 ^ 20 → bm_pages page_cnt ≤ page_cnt
bm_pages-le page_cnt pos small = omega arith

buf_size_mono : (k n : ℕ) → k ≤ n → n < 2 ^ 20 → bitmap_buf_size k ≤ bitmap_buf_size n
buf_size_mono k n le small = omega arith

-- The pages of the bitmap hold it, also for fewer bits.
bm_pages-hold : (k n : ℕ) → k ≤ n → n < 2 ^ 20 → bitmap_buf_size k ≤ u32 (bm_pages n * page_size)
bm_pages-hold k n le small = omega (arith, buf_size_mono k n le small)

-- init_pool over at least one whole page of the address space returns a pool that is ready, whose
-- pages are all free, and which loses to its bitmap exactly the pages that the bitmap needs; over
-- no page it panics.
pub init_pool_lem :
    (base page_cnt : ℕ) (storage : List ℕ)
    → base % page_size ≡ 0
    → 0 < base
    → base + page_size * page_cnt < 2 ^ 32
    → IsStorage storage page_cnt
    → (0 < page_cnt
        → (p : Pool) × (init_pool base page_cnt storage ≡ ok p) × IsNewPool base page_cnt p)
      × (page_cnt ≡ 0 → init_pool base page_cnt storage ≡ err panic)
unfolding init_pool
init_pool_lem base page_cnt storage aligned real ends s = (made, empty)
  where
    empty : page_cnt ≡ 0 → init_pool base page_cnt storage ≡ err panic
    empty e = let short : ltb page_cnt (bm_pages page_cnt) ≡ true = ground arith in rw short

    made :
        0 < page_cnt
        → (p : Pool) × (init_pool base page_cnt storage ≡ ok p) × IsNewPool base page_cnt p
    made pos =
        let bm = bm_pages page_cnt in
        let le : bm ≤ page_cnt = bm_pages-le page_cnt pos (omega arith) in
        let enough : ltb page_cnt bm ≡ false = ground arith in
        let (map, e, valid, size, free) =
          bitmap_create_in_buf_lem (page_cnt - bm) storage (u32 (bm * page_size)) (omega arith)
            (bm_pages-hold (page_cnt - bm) page_cnt (omega arith) (omega arith))
            (omega (arith, s.long)) s.words in
        let end : u32 (base + u32 (bm * page_size)) ≡ base + page_size * bm = omega arith in
        (
          record {
            lock = lock_init;
            used_map = map;
            base = base + page_size * bm;
            next_fit_start_idx = 0;
          },
          rw (enough, e, end),
          record {
            ready = record {
              pool = record { valid = valid; cursor = omega arith };
              lock = lock_init-IsFree;
              aligned = omega arith;
              not_null = omega arith;
              ends = omega (arith, size);
            };
            size = omega (arith, size);
            start = refl;
            free = λ j p q. free j p (omega (arith, size));
          },
        )

-- The 1 MB below the free memory, in pages.
abbrev pub low_pages : ℕ
low_pages = 256

IsStorage-fewer :
    {storage : List ℕ} {n : ℕ} (k : ℕ)
    → k ≤ n
    → n < 2 ^ 20
    → IsStorage storage n
    → IsStorage storage k
IsStorage-fewer k le small s = record { long = omega (arith, s.long); words = s.words }

ptov_of_ram :
    (ram : ℕ) → ram < 2 ^ 18 → ptov (u32 (ram * page_size)) ≡ ok (phys_base + ram * page_size)
unfolding ptov
ptov_of_ram ram small = ground arith

abbrev free_start : ℕ
free_start = phys_base + page_size * low_pages

-- How palloc_init splits the free pages, and the pools that it makes.
palloc_init_split :
    (limit ram user kernel : ℕ) (ks us : List ℕ) (a : Allocator) (kp up : Pool)
    → low_pages ≤ ram
    → ram < 2 ^ 18
    → user ≡ min limit ((ram - low_pages) / 2)
    → kernel ≡ ram - low_pages - user
    → init_pool free_start kernel ks ≡ ok kp
    → init_pool (free_start + page_size * kernel) user us ≡ ok up
    → palloc_init limit ram ks us a ≡ ok (record a { kernel_pool = kp; user_pool = up })
unfolding palloc_init ptov
palloc_init_split limit ram user kernel ks us a kp up enough small eu ek mk mu =
    let free_pages : pages_between free_start (phys_base + ram * page_size) ≡ ram - low_pages =
      ground arith in
    let share : (if ltb limit ((ram - low_pages) / 2) then limit else (ram - low_pages) / 2)
        ≡ user =
      ground arith in
    let behind : u32 (free_start + u32 (kernel * page_size)) ≡ free_start + page_size * kernel =
      omega arith in
    rw (ptov_of_ram ram small, free_pages, share, ← ek, behind, mk, mu)

-- palloc_init, on a machine with two free pages or more and less than 1 GB of memory, and with room
-- for a user page, returns an allocator that is ready. The pools share the free memory: the user
-- pool gets half of it or the limit, whichever is less, and all pages are free.
pub palloc_init_lem :
    (limit ram : ℕ) (kernel_storage user_storage : List ℕ) (a : Allocator)
    → low_pages + 2 ≤ ram
    → ram < 2 ^ 18
    → 0 < limit
    → IsStorage kernel_storage ram
    → IsStorage user_storage ram
    → let user_pages = min limit ((ram - low_pages) / 2) in
      let kernel_pages = ram - low_pages - user_pages in
      let start = phys_base + page_size * low_pages in
      (b : Allocator) × (palloc_init limit ram kernel_storage user_storage a ≡ ok b)
      × IsAllocator b
      × IsNewPool start kernel_pages b.kernel_pool
      × IsNewPool (start + page_size * kernel_pages) user_pages b.user_pool
      × (b.current_palloc_mode ≡ a.current_palloc_mode)
palloc_init_lem limit ram kernel_storage user_storage a enough small pos ks us =
    let user = min limit ((ram - low_pages) / 2) in
    let kernel = ram - low_pages - user in
    let (kp, ek, knew) =
      (init_pool_lem free_start kernel kernel_storage (omega arith) (omega arith) (omega arith)
          (IsStorage-fewer kernel (omega arith) (omega arith) ks)).0
        (omega arith) in
    let (up, eu, unew) =
      (init_pool_lem (free_start + page_size * kernel) user user_storage (omega arith) (omega arith)
          (omega arith) (IsStorage-fewer user (omega arith) (omega arith) us)).0
        (omega arith) in
    (
      record a { kernel_pool = kp; user_pool = up },
      palloc_init_split limit ram user kernel kernel_storage user_storage a kp up (omega arith)
          small refl refl ek eu,
      record {
        kernel = knew.ready;
        user = unew.ready;
        apart = omega (arith, knew.start, knew.size, unew.start);
      },
      knew,
      unew,
      refl,
    )
