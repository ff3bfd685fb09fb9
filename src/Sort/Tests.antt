-- ===== src/Sort/Tests.antt =====
-- Runs of the heap sort of lib/stdlib.c.
use Prim.Native.Nat.{Ordering, compare}
use os_project.Common.{
  ℕ, List, ltb, if◌then◌else◌, Bool-cases, inl, inr, ◌≡◌, refl, [], ◌∷◌, ok, arith,
}
use os_project.Sort.Heap.{IsOrder}
use os_project.Sort.Permutes.{Permuted}
use os_project.Sort.Sorted.{IsSortedFrom, sort-IsSortedFrom}
use os_project.Sort.{is_more}
use os_project.Sort.{do_swap, do_compare_more, larger, heapify, build_loop, sort_loop, sort, qsort}

sort_run : sort compare (5 ∷ 2 ∷ 9 ∷ 1 ∷ 5 ∷ []) 5 ≡ ok (1 ∷ 2 ∷ 5 ∷ 5 ∷ 9 ∷ [])
unfolding sort build_loop sort_loop heapify larger do_compare_more do_swap
sort_run = refl

qsort_run : qsort (3 ∷ 1 ∷ 2 ∷ []) 3 compare ≡ ok (1 ∷ 2 ∷ 3 ∷ [])
unfolding qsort sort build_loop sort_loop heapify larger do_compare_more do_swap
qsort_run = refl

-- A caller's function to compare two numbers.
abbrev compare_value : ℕ → ℕ → Ordering
compare_value x y = if ltb y x then Ordering.gt else if ltb x y then Ordering.lt else Ordering.eq

more-lt : (x y : ℕ) → is_more (compare_value x y) ≡ ltb y x
more-lt x y = elim (Bool-cases (ltb y x)) [
  | inl e ↦ rw e refl
  | inr e ↦ elim (Bool-cases (ltb x y)) [ inl f ↦ rw (e, f) refl | inr f ↦ rw (e, f) refl ]
]

compare_value-IsOrder : IsOrder compare_value
compare_value-IsOrder = record {
  flip = λ x y. rw (more-lt x y, more-lt y x) (λ e. ground (arith, e));
  trans = λ x y z. rw (more-lt x y, more-lt y z, more-lt x z) (λ e f. ground (arith, e, f));
}

sort-IsSortedFrom_example :
    (ys : List ℕ) × (sort compare_value (5 ∷ 2 ∷ 9 ∷ []) 3 ≡ ok ys)
    × IsSortedFrom 0 compare_value compare_value-IsOrder 1 ys
    × Permuted (5 ∷ 2 ∷ 9 ∷ []) ys
sort-IsSortedFrom_example =
    sort-IsSortedFrom 0 compare_value compare_value-IsOrder (5 ∷ 2 ∷ 9 ∷ []) (omega arith)
