-- ===== src/Links/Order.antt =====
-- The functions of lib/kernel/list.c that compare elements: they take the caller's `less` on two
-- elements' addresses, AUX with it.
use os_project.Common.{
  ℕ, zero, suc, ◌+◌, Bool, true, false, not, ◌&&◌, ◌||◌, ◌==◌, if◌then◌else◌, ltb, Result, ok, err,
  out_of_fuel, assert, ◌>>=◌, ◌>>◌, u32, Option, none, some,
}
use os_project.Links.{
  Links, Ends, list_begin, list_next, list_prev, list_empty, list_insert, list_splice, list_remove,
  list_push_back,
}

-- A duplicate goes to the end of the other list, if there is one.
unfoldable pub keep_duplicate : Option Ends → ℕ → Links → Result Links
keep_duplicate none next h = ok h
keep_duplicate (some duplicates) next h = list_push_back duplicates next h

module _ (less : ℕ → ℕ → Bool) where
  unfoldable pub sorted_loop : ℕ → ℕ → ℕ → Links → Result Bool
  sorted_loop zero a b h = err out_of_fuel
  sorted_loop (suc fuel) a b h = do
    a' ← list_next a h
    if a' == b
        then ok true
        else (do p ← list_prev a' h; if less a' p then ok false else sorted_loop fuel a' b h)

  unfoldable pub is_sorted : ℕ → ℕ → ℕ → Links → Result Bool
  unfolding sorted_loop
  is_sorted fuel a b h = if a == b then ok true else sorted_loop fuel a b h

  unfoldable pub run_loop : ℕ → ℕ → ℕ → Links → Result ℕ
  run_loop zero a b h = err out_of_fuel
  run_loop (suc fuel) a b h = do
    a' ← list_next a h
    if a' == b
        then ok a'
        else (do p ← list_prev a' h; if less a' p then ok a' else run_loop fuel a' b h)

  unfoldable pub find_end_of_run : ℕ → ℕ → ℕ → Links → Result ℕ
  unfolding run_loop
  find_end_of_run fuel a b h = do
    assert (not (a == 0))
    assert (not (b == 0))
    assert (not (a == b))
    run_loop fuel a b h

  unfoldable pub merge_loop : ℕ → ℕ → ℕ → ℕ → Links → Result Links
  merge_loop zero a0 a1b0 b1 h = err out_of_fuel
  merge_loop (suc fuel) a0 a1b0 b1 h =
      if a0 == a1b0 || a1b0 == b1
      then ok h
      else (if not (less a1b0 a0)
          then (do a0' ← list_next a0 h; merge_loop fuel a0' a1b0 b1 h)
          else (do
            a1b0' ← list_next a1b0 h
            moved ← list_prev a1b0' h
            h' ← list_splice a0 moved a1b0' h
            merge_loop fuel a0 a1b0' b1 h'))

  unfoldable pub inplace_merge : ℕ → ℕ → ℕ → ℕ → Links → Result Links
  inplace_merge fuel a0 a1b0 b1 h = do
    assert (not (a0 == 0))
    assert (not (a1b0 == 0))
    assert (not (b1 == 0))
    left ← is_sorted fuel a0 a1b0 h
    assert left
    right ← is_sorted fuel a1b0 b1 h
    assert right
    merge_loop fuel a0 a1b0 b1 h

  -- One pass over the list. `rounds` is the fuel of the loops inside.
  unfoldable pub pass_loop : ℕ → ℕ → ℕ → ℕ → ℕ → Links → Result (ℕ × Links)
  pass_loop rounds zero end a0 output_run_cnt h = err out_of_fuel
  pass_loop rounds (suc fuel) end a0 output_run_cnt h =
      if a0 == end then ok (output_run_cnt, h) else (do
        a1b0 ← find_end_of_run rounds a0 end h
        if a1b0 == end then ok (u32 (output_run_cnt + 1), h) else (do
          b1 ← find_end_of_run rounds a1b0 end h
          h' ← inplace_merge rounds a0 a1b0 b1 h
          pass_loop rounds fuel end b1 (u32 (output_run_cnt + 1)) h'))

  unfoldable pub sort_loop : ℕ → ℕ → Ends → Links → Result Links
  sort_loop rounds zero l h = err out_of_fuel
  sort_loop rounds (suc fuel) l h = do
    (output_run_cnt, h') ← pass_loop rounds rounds l.tail (list_begin l h) 0 h
    if ltb 1 output_run_cnt then sort_loop rounds fuel l h' else ok h'

  unfoldable pub list_sort : ℕ → Ends → Links → Result Links
  list_sort fuel l h = do
    h' ← sort_loop fuel fuel l h
    sorted ← is_sorted fuel (list_begin l h') l.tail h'
    assert sorted
    ok h'

  -- The element before which list_insert_ordered inserts.
  unfoldable pub place_loop : ℕ → ℕ → ℕ → ℕ → Links → Result ℕ
  place_loop zero end elem e h = err out_of_fuel
  place_loop (suc fuel) end elem e h =
      if e == end
      then ok e
      else (if less elem e then ok e else (do e' ← list_next e h; place_loop fuel end elem e' h))

  unfoldable pub list_insert_ordered : ℕ → Ends → ℕ → Links → Result Links
  list_insert_ordered fuel l elem h = do
    assert (not (elem == 0))
    e ← place_loop fuel l.tail elem (list_begin l h) h
    list_insert e elem h

  unfoldable pub unique_loop : ℕ → Ends → Option Ends → ℕ → Links → Result Links
  unique_loop zero l duplicates elem h = err out_of_fuel
  unique_loop (suc fuel) l duplicates elem h = do
    next ← list_next elem h
    if next == l.tail
        then ok h
        else (if not (less elem next) && not (less next elem)
            then (do
              (after, h1) ← list_remove next h
              h2 ← keep_duplicate duplicates next h1
              unique_loop fuel l duplicates elem h2)
            else unique_loop fuel l duplicates next h)

  unfoldable pub list_unique : ℕ → Ends → Option Ends → Links → Result Links
  list_unique fuel l duplicates h =
      if list_empty l h then ok h else unique_loop fuel l duplicates (list_begin l h) h

  unfoldable pub max_loop : ℕ → ℕ → ℕ → ℕ → Links → Result ℕ
  max_loop zero end max e h = err out_of_fuel
  max_loop (suc fuel) end max e h = if e == end then ok max else (do
    let max' = if less max e then e else max
    e' ← list_next e h
    max_loop fuel end max' e' h)

  unfoldable pub list_max : ℕ → Ends → Links → Result ℕ
  list_max fuel l h =
      if list_begin l h == l.tail
      then ok (list_begin l h)
      else (do e ← list_next (list_begin l h) h; max_loop fuel l.tail (list_begin l h) e h)

  unfoldable pub min_loop : ℕ → ℕ → ℕ → ℕ → Links → Result ℕ
  min_loop zero end min e h = err out_of_fuel
  min_loop (suc fuel) end min e h = if e == end then ok min else (do
    let min' = if less e min then e else min
    e' ← list_next e h
    min_loop fuel end min' e' h)

  unfoldable pub list_min : ℕ → Ends → Links → Result ℕ
  list_min fuel l h =
      if list_begin l h == l.tail
      then ok (list_begin l h)
      else (do e ← list_next (list_begin l h) h; min_loop fuel l.tail (list_begin l h) e h)
