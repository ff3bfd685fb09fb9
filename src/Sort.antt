-- ===== src/Sort.antt =====
-- The heap sort of lib/stdlib.c. An element is an item of a list, not its bytes; indexes in the heap
-- start at 1. `compare` gives the sign of the C function's result.
use Prim.Native.Nat.{Ordering}
use os_project.Common.{
  ℕ, zero, suc, ◌+◌, ◌-◌, ◌*◌, ◌/◌, Bool, true, false, List, get_elem?, set, leb, ◌==◌,
  if◌then◌else◌, Result, ok, err, out_of_fuel, ◌>>=◌, u32,
}
use os_project.Search.{read, compare_thunk}
pub mod Permutes
pub mod Heap
pub mod Floated
pub mod Sorted
pub mod Tests

unfoldable pub do_swap {ℓ} : {A : Type ℓ} → List A → ℕ → ℕ → Result (List A)
do_swap array a_idx b_idx = do
  a ← read (get_elem? array (a_idx - 1))
  b ← read (get_elem? array (b_idx - 1))
  ok (set (set array (a_idx - 1) b) (b_idx - 1) a)

abbrev pub is_more : Ordering → Bool
is_more Ordering.lt = false
is_more Ordering.eq = false
is_more Ordering.gt = true

-- `do_compare (...) > 0`
unfoldable pub do_compare_more {ℓ} :
    {A : Type ℓ} → (A → A → Ordering) → List A → ℕ → ℕ → Result Bool
do_compare_more compare array a_idx b_idx = do
  a ← read (get_elem? array (a_idx - 1))
  b ← read (get_elem? array (b_idx - 1))
  ok (is_more (compare a b))

-- `if (child <= cnt && do_compare (child, max) > 0) max = child`
unfoldable pub larger {ℓ} : {A : Type ℓ} → (A → A → Ordering) → List A → ℕ → ℕ → ℕ → Result ℕ
unfolding do_compare_more
larger compare array cnt child max =
    if leb child cnt
    then (do more ← do_compare_more compare array child max; ok (if more then child else max))
    else ok max

-- One round of fuel for each level of the heap that is visited.
unfoldable pub heapify {ℓ} :
    {A : Type ℓ} → (A → A → Ordering) → ℕ → List A → ℕ → ℕ → Result (List A)
heapify compare zero array i cnt = err out_of_fuel
heapify compare (suc fuel) array i cnt = do
  left_max ← larger compare array cnt (u32 (2 * i)) i
  max ← larger compare array cnt (u32 (2 * i + 1)) left_max
  if max == i
      then ok array
      else (do swapped ← do_swap array i max; heapify compare fuel swapped max cnt)

-- `for (i = cnt / 2; i > 0; i--)`
unfoldable pub build_loop {ℓ} : {A : Type ℓ} → (A → A → Ordering) → ℕ → ℕ → List A → Result (List A)
build_loop compare cnt zero array = ok array
build_loop compare cnt (suc i) array = do
  heap ← heapify compare (cnt + 1) array (suc i) cnt
  build_loop compare cnt i heap

-- `for (i = cnt; i > 1; i--)`, where `left` is i - 1.
unfoldable pub sort_loop {ℓ} : {A : Type ℓ} → (A → A → Ordering) → ℕ → List A → Result (List A)
sort_loop compare zero array = ok array
sort_loop compare (suc left) array = do
  swapped ← do_swap array 1 (suc left + 1)
  heap ← heapify compare (suc left + 1) swapped 1 (suc left)
  sort_loop compare left heap

unfoldable pub sort {ℓ} : {A : Type ℓ} → (A → A → Ordering) → List A → ℕ → Result (List A)
unfolding build_loop sort_loop
sort compare array cnt = do
  heap ← build_loop compare cnt (cnt / 2) array
  sort_loop compare (cnt - 1) heap

unfoldable pub qsort {ℓ} : {A : Type ℓ} → List A → ℕ → (A → A → Ordering) → Result (List A)
unfolding sort
qsort array cnt compare = sort (λ a b. compare_thunk a b compare) array cnt
