-- ===== src/Palloc/Search.antt =====
-- The searches for contiguous pages of threads/palloc.c.
use os_project.Common.{
  ℕ, zero, suc, ◌+◌, ◌-◌, true, false, ◌&&◌, ltb, leb, ◌==◌, if◌then◌else◌, Result, ok, err,
  out_of_fuel, ◌>>=◌, u32, size_max,
}
use os_project.Bitmap.{
  Bitmap, bitmap_error, bitmap_size, bitmap_test, bitmap_set_multiple, bitmap_scan,
  bitmap_scan_and_flip,
}
use os_project.Palloc.State.{Pool, Mode}

-- Each search returns the index it found and the pool.
abbrev pub Found : Type 0
Found = Result (ℕ × Pool)

unfoldable pub find_first_fit : Pool → ℕ → Found
find_first_fit pool page_cnt = do
  (page_idx, map) ← bitmap_scan_and_flip pool.used_map 0 page_cnt false
  ok (page_idx, record pool { used_map = map })

-- The index is marked used, and the next search starts behind it.
abbrev pub claim_next : Pool → ℕ → ℕ → Found
claim_next pool page_idx page_cnt = if page_idx == bitmap_error then ok (page_idx, pool) else (do
  map ← bitmap_set_multiple pool.used_map page_idx page_cnt true
  let next_start = u32 (page_idx + page_cnt)
  ok (
    page_idx,
    record pool {
      used_map = map;
      next_fit_start_idx = if leb (bitmap_size pool.used_map) next_start then 0 else next_start;
    },
  ))

unfoldable pub find_next_fit : Pool → ℕ → Found
find_next_fit pool page_cnt = do
  first ← bitmap_scan pool.used_map pool.next_fit_start_idx page_cnt false
  page_idx ← if first == bitmap_error then bitmap_scan pool.used_map 0 page_cnt false else ok first
  claim_next pool page_idx page_cnt

-- The inner loop of `find_best_fit`, with `bitmap_size - current_idx` rounds to go.
unfoldable pub count_free : Bitmap → ℕ → ℕ → ℕ → Result ℕ
count_free map zero current_idx free_cnt = ok free_cnt
count_free map (suc left) current_idx free_cnt = do
  used ← bitmap_test map current_idx
  let rest = count_free map left (current_idx + 1) (free_cnt + 1)
  if used then ok free_cnt else rest

-- The outer loop: `best_idx` when it ends. One round of fuel is used for each run of free pages.
unfoldable pub best_loop : ℕ → Bitmap → ℕ → ℕ → ℕ → ℕ → Result ℕ
best_loop zero map page_cnt idx best_idx best_size = err out_of_fuel
best_loop (suc fuel) map page_cnt idx best_idx best_size =
    if ltb idx (bitmap_size map)
    then (do
      free_start ← bitmap_scan map idx 1 false
      if free_start == bitmap_error then ok best_idx else (do
        free_cnt ← count_free map (bitmap_size map - free_start) free_start 0
        let better = leb page_cnt free_cnt && ltb free_cnt best_size
        let best_idx' = if better then free_start else best_idx
        let best_size' = if better then free_cnt else best_size
        let rest = best_loop fuel map page_cnt (u32 (free_start + free_cnt)) best_idx' best_size'
        if better && free_cnt == page_cnt then ok best_idx' else rest))
    else ok best_idx

unfoldable pub find_best_fit : Pool → ℕ → Found
unfolding best_loop count_free
find_best_fit pool page_cnt = do
  best_idx ←
      best_loop (bitmap_size pool.used_map + 1) pool.used_map page_cnt 0 bitmap_error size_max
  if best_idx == bitmap_error then ok (best_idx, pool) else (do
    map ← bitmap_set_multiple pool.used_map best_idx page_cnt true
    ok (best_idx, record pool { used_map = map }))

-- The `switch` of `palloc_get_multiple`; the buddy mode is still first fit.
unfoldable pub find_fit : Mode → Pool → ℕ → Found
unfolding find_first_fit find_next_fit find_best_fit
find_fit Mode.first_fit pool page_cnt = find_first_fit pool page_cnt
find_fit Mode.next_fit pool page_cnt = find_next_fit pool page_cnt
find_fit Mode.best_fit pool page_cnt = find_best_fit pool page_cnt
find_fit Mode.buddy pool page_cnt = find_first_fit pool page_cnt
