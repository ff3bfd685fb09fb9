-- ===== src/Palloc/Alloc.antt =====
-- Getting and freeing pages, of threads/palloc.c. `cur` is the running thread.
use os_project.Common.{
  ℕ, zero, suc, ◌+◌, ◌-◌, ◌*◌, ◌^◌, Bool, false, ◌&&◌, ◌||◌, ltb, leb, ◌==◌, if◌then◌else◌, Result,
  ok, err, assert, panic, reached, out_of_fuel, ◌>>=◌, ◌>>◌, u32,
}
use os_project.Bitmap.{
  Bitmap, bitmap_error, bitmap_size, bitmap_test, bitmap_set_multiple, bitmap_all,
}
use os_project.Synch.{lock_acquire_now, lock_release}
use os_project.Palloc.State.{
  page_size, pg_ofs, pg_no, Pool, Mode, pal_assert, pal_zero, pal_user, Allocator, memset, has_flag,
  the_pool, put_pool,
}
use os_project.Palloc.Search.{Found, find_fit}

-- The part of `palloc_get_multiple` under the pool's lock, for the thread `cur`.
unfoldable pub get_from_pool : ℕ → Mode → Pool → ℕ → Found
unfolding find_fit lock_acquire_now lock_release
get_from_pool cur mode pool page_cnt = do
  taken ← lock_acquire_now cur pool.lock
  (page_idx, pool') ← find_fit mode (record pool { lock = taken }) page_cnt
  (woken, freed) ← lock_release cur pool'.lock
  ok (page_idx, record pool' { lock = freed })

-- What follows the search: the address, and memory zeroed on demand.
abbrev pub finish_get : ℕ → ℕ → ℕ → Pool → (ℕ → ℕ) → Result (ℕ × (ℕ → ℕ))
finish_get flags page_cnt page_idx pool mem =
    let pages =
      if page_idx == bitmap_error then 0 else u32 (pool.base + u32 (page_size * page_idx)) in
    if pages == 0
    then (if has_flag flags pal_assert then err panic else ok (0, mem))
    else ok (
      pages,
      if has_flag flags pal_zero then memset pages 0 (u32 (page_size * page_cnt)) mem else mem,
    )

-- The address of the pages (0 for NULL), and the allocator.
unfoldable pub palloc_get_multiple : ℕ → ℕ → ℕ → Allocator → Result (ℕ × Allocator)
unfolding get_from_pool
palloc_get_multiple cur flags page_cnt a =
    let user = has_flag flags pal_user in
    if page_cnt == 0 then ok (0, a) else (do
      (page_idx, pool) ← get_from_pool cur a.current_palloc_mode (the_pool user a) page_cnt
      (pages, mem) ← finish_get flags page_cnt page_idx pool a.mem
      ok (pages, put_pool user pool (record a { mem = mem })))

unfoldable pub palloc_get_page : ℕ → ℕ → Allocator → Result (ℕ × Allocator)
unfolding palloc_get_multiple
palloc_get_page cur flags a = palloc_get_multiple cur flags 1 a

unfoldable pub page_from_pool : Pool → ℕ → Bool
page_from_pool pool page =
    let start_page = pg_no pool.base in
    let end_page = start_page + bitmap_size pool.used_map in
    leb start_page (pg_no page) && ltb (pg_no page) end_page

-- The part of `palloc_free_multiple` under the pool's lock.
unfoldable pub free_to_pool : ℕ → Pool → ℕ → ℕ → Result Pool
unfolding lock_acquire_now lock_release bitmap_all bitmap_set_multiple
free_to_pool cur pool page_idx page_cnt = do
  taken ← lock_acquire_now cur pool.lock
  all_used ← bitmap_all pool.used_map page_idx page_cnt
  assert all_used
  map ← bitmap_set_multiple pool.used_map page_idx page_cnt false
  (woken, freed) ← lock_release cur taken
  ok (record pool { lock = freed; used_map = map })

abbrev pub page_index : Pool → ℕ → ℕ
page_index pool page = u32 (pg_no page + 2 ^ 32 - pg_no pool.base)

-- The kernel is built without NDEBUG: freed memory is filled with 0xcc.
unfoldable pub palloc_free_multiple : ℕ → ℕ → ℕ → Allocator → Result Allocator
unfolding page_from_pool free_to_pool
palloc_free_multiple cur pages page_cnt a = do
  assert (pg_ofs pages == 0)
  let mem = memset pages 0xcc (u32 (page_size * page_cnt)) a.mem
  if pages == 0 || page_cnt == 0
      then ok a
      else if page_from_pool a.kernel_pool pages
      then (do
        pool ← free_to_pool cur a.kernel_pool (page_index a.kernel_pool pages) page_cnt
        ok (record a { kernel_pool = pool; mem = mem }))
      else if page_from_pool a.user_pool pages
      then (do
        pool ← free_to_pool cur a.user_pool (page_index a.user_pool pages) page_cnt
        ok (record a { user_pool = pool; mem = mem }))
      else err reached

unfoldable pub palloc_free_page : ℕ → ℕ → Allocator → Result Allocator
unfolding palloc_free_multiple
palloc_free_page cur page a = palloc_free_multiple cur page 1 a

unfoldable pub palloc_get_page_index : ℕ → Allocator → ℕ
unfolding page_from_pool
palloc_get_page_index page a =
    if page_from_pool a.kernel_pool page
    then page_index a.kernel_pool page
    else if page_from_pool a.user_pool page
    then page_index a.user_pool page
    else 0

-- The loop of `buddy_system_free`. Its index meets the end of the bitmap after at most one round for
-- each bit, and one more if it wraps.
unfoldable pub extend_used : ℕ → Bitmap → ℕ → ℕ → Result ℕ
extend_used zero map page_idx page_cnt = err out_of_fuel
extend_used (suc fuel) map page_idx page_cnt =
    let next = u32 (page_idx + page_cnt) in
    if ltb next (bitmap_size map)
    then (do
      used ← bitmap_test map next
      let rest = extend_used fuel map page_idx (u32 (page_cnt + 1))
      if used then rest else ok page_cnt)
    else ok page_cnt

unfoldable pub buddy_system_free : ℕ → Pool → ℕ → Result Pool
unfolding extend_used lock_acquire_now lock_release bitmap_all bitmap_set_multiple
buddy_system_free cur pool pages =
    let page_idx = page_index pool pages in
    let map = pool.used_map in
    if pages == 0 then ok pool else (do
      taken ← lock_acquire_now cur pool.lock
      page_cnt ← extend_used (bitmap_size map + 2) map page_idx 1
      all_used ← bitmap_all map page_idx page_cnt
      assert all_used
      map' ← bitmap_set_multiple map page_idx page_cnt false
      (woken, freed) ← lock_release cur taken
      ok (record pool { lock = freed; used_map = map' }))
