-- ===== src/Sort/Sorted.antt =====
-- The heap sort of lib/stdlib.c leaves the array in order. Indexes start at 1.
use mathlib.Core.Path.{subst}
use Prim.Native.Nat.{Ordering}
use os_project.Common.{
  ℕ, zero, suc, ◌+◌, ◌-◌, ◌/◌, ◌^◌, ◌≤◌, ◌<◌, ◌≡◌, refl, ap, ◌∙◌, arith, List, [], ◌∷◌, length, ok,
  ℕ_discrete, dec_le,
}
use os_project.Sort.Floated.{heapify-IsHeap}
use os_project.Sort.Permutes.{Permuted, sort_lem}
use os_project.Sort.{build_loop, sort_loop, sort}
use os_project.Sort.Heap.{
  IsOrder, element, Swapped, do_swap-Swapped, Le, Le-refl, IsHeap, IsAlmostHeap, Sifted,
  Sifted-trans, Swapped-Sifted,
}

module _ {ℓ} {A : Type ℓ} (d : A) (compare : A → A → Ordering) (order : IsOrder compare) where
  -- Each element behind the first n is not less than any element before it.
  abbrev pub IsSortedFrom : ℕ → List A → Type 0
  IsSortedFrom n xs =
      (a b : ℕ)
      → 0 < a
      → a < b
      → n < b
      → b ≤ length xs
      → Le d compare order (element d xs a) (element d xs b)

  -- The root of a heap is its largest element.
  root_largest :
      (fuel : ℕ) (xs : List A) (cnt : ℕ)
      → IsHeap d compare order xs 1 cnt
      → (c : ℕ) → c < fuel
      → 0 < c
      → c ≤ cnt
      → Le d compare order (element d xs c) (element d xs 1)
  root_largest zero xs cnt heap c h pos below = absurd (omega (arith, h))
  root_largest (suc fuel) xs cnt heap c h pos below = elim (ℕ_discrete c 1) [
    | yes e ↦ rw e (Le-refl d compare order (element d xs 1))
    | no more ↦
        order.trans (element d xs c) (element d xs (c / 2)) (element d xs 1)
          (heap c (omega (arith, pos, more)) below (omega (arith, pos, more)))
          (root_largest fuel xs cnt heap (c / 2) (omega (arith, h, pos)) (omega (arith, pos, more))
            (omega (arith, below)))
  ]

  build_loop-IsHeap :
      (cnt i : ℕ) (xs : List A)
      → i ≤ cnt
      → cnt ≤ length xs
      → cnt < 2 ^ 31
      → IsHeap d compare order xs (suc i) cnt
      → (ys : List A) × (build_loop compare cnt i xs ≡ ok ys)
        × IsHeap d compare order ys 1 cnt
        × (length ys ≡ length xs)
  unfolding build_loop
  build_loop-IsHeap cnt zero xs le inside small heap = (xs, refl, heap, refl)
  build_loop-IsHeap cnt (suc i) xs le inside small heap =
      let (ys, e, next, s) =
        heapify-IsHeap d compare order (cnt + 1) xs (suc i) (suc i) cnt (omega arith) (omega arith)
          le inside small (omega arith)
          record {
            others = λ c two below low apart. heap c two below (omega (arith, low, apart));
            above = λ c below under two low. absurd (omega (arith, low));
          } in
      let (zs, f, done, len) =
        build_loop-IsHeap cnt i ys (omega (arith, le)) (omega (arith, inside, s.as_long)) small
          next in
      (zs, rw e f, done, len ∙ s.as_long)

  Sifted-suc :
      (n : ℕ) (xs ys : List A)
      → Sifted d compare order n xs ys
      → Sifted d compare order (n + 1) xs ys
  Sifted-suc n xs ys s = record {
    as_long = s.as_long;
    outside = λ c h. s.outside c (omega (arith, h));
    bounded = λ x h c pos below. elim (dec_le c n) [
      | yes le ↦ s.bounded x (λ c' pos' below'. h c' pos' (omega (arith, below'))) c pos le
      | no more ↦ rw (s.outside c (omega (arith, more))) (h c pos below)
    ];
  }

  -- What is sorted behind the heap stays so when the heap's elements move.
  Sifted-IsSortedFrom :
      (n : ℕ) (xs ys : List A)
      → Sifted d compare order n xs ys
      → IsSortedFrom n xs
      → IsSortedFrom n ys
  Sifted-IsSortedFrom n xs ys s sorted = λ a b pos less behind inside.
      let inside' : b ≤ length xs = omega (arith, inside, s.as_long) in
      rw (s.outside b behind) (elim (dec_le a n) [
        | yes le ↦
            s.bounded (element d xs b)
              (λ c pos' below. sorted c b pos' (omega (arith, below, behind)) behind inside') a pos
              le
        | no more ↦ rw (s.outside a (omega (arith, more))) (sorted a b pos less behind inside')
      ])

  -- After the root went behind the heap, only the new root may be out of place.
  swap_root-IsAlmostHeap :
      (xs ys : List A) (n : ℕ)
      → IsHeap d compare order xs 1 (n + 1)
      → Swapped d xs ys 1 (n + 1)
      → IsAlmostHeap d compare order ys 1 n 1
  swap_root-IsAlmostHeap xs ys n heap s = record {
    others = λ c two below low apart.
        rw
          (s.elsewhere c (omega (arith, two)) (λ e. omega (arith, e, two))
            (λ e. omega (arith, e, below)))
          (rw (s.elsewhere (c / 2) low apart (λ e. omega (arith, e, below)))
            (heap c two (omega (arith, below)) low));
    above = λ c below under two low. absurd (omega (arith, two));
  }

  -- One round: the heap loses its largest element to the sorted part.
  round-IsSortedFrom :
      (xs ys zs : List A) (n : ℕ)
      → 0 < n
      → IsHeap d compare order xs 1 (n + 1)
      → IsSortedFrom (n + 1) xs
      → Swapped d xs ys 1 (n + 1)
      → Sifted d compare order n ys zs
      → IsSortedFrom n zs
  round-IsSortedFrom xs ys zs n pos heap sorted s sifted = λ a b a_pos less behind inside.
      let moved =
        Swapped-Sifted d compare order (n + 1) 1 (n + 1) xs ys (omega arith) (omega (arith, pos))
          (omega arith) s in
      elim (ℕ_discrete b (n + 1)) [
        | yes e ↦
            let last : element d zs b ≡ element d xs 1 =
              sifted.outside b behind ∙ ap (element d ys) e ∙ s.at_second in
            rw last (
              sifted.bounded (element d xs 1)
                (λ c c_pos below.
                  moved.bounded (element d xs 1)
                    (λ k k_pos k_in.
                      root_largest (k + 1) xs (n + 1) heap k (omega arith) k_pos k_in)
                    c c_pos (omega (arith, below)))
                a a_pos (omega (arith, e, less)))
        | no other ↦
            Sifted-IsSortedFrom (n + 1) xs zs
              (Sifted-trans d compare order moved (Sifted-suc n ys zs sifted)) sorted a b a_pos less
              (omega (arith, other, behind)) inside
      ]

  sort_loop-IsSortedFrom :
      (left : ℕ) (xs : List A)
      → left < length xs
      → left < 2 ^ 31
      → IsHeap d compare order xs 1 (left + 1)
      → IsSortedFrom (left + 1) xs
      → (ys : List A) × (sort_loop compare left xs ≡ ok ys) × IsSortedFrom 1 ys
  unfolding sort_loop
  sort_loop-IsSortedFrom zero xs inside small heap sorted = (xs, refl, sorted)
  sort_loop-IsSortedFrom (suc left) xs inside small heap sorted =
      let (ys, swaps, s) =
        do_swap-Swapped d xs 1 (suc left + 1) (omega arith) (omega arith) (omega (arith, inside)) in
      let (zs, floats, next, sifted) =
        heapify-IsHeap d compare order (suc left + 1) ys 1 1 (suc left) (omega arith) (omega arith)
          (omega arith) (omega (arith, s.as_long, inside)) small (omega arith)
          (swap_root-IsAlmostHeap xs ys (suc left) heap s) in
      let (ws, e, done) =
        sort_loop-IsSortedFrom left zs (omega (arith, sifted.as_long, s.as_long, inside))
          (omega (arith, small)) (λ c two below. next c two (omega (arith, below)))
          (λ a b a_pos less behind.
            round-IsSortedFrom xs ys zs (suc left) (omega arith) heap sorted s sifted a b a_pos less
              (omega (arith, behind))) in
      (ws, rw swaps (rw floats e), done)

  sort_calls-IsSortedFrom :
      (xs : List A)
      → length xs < 2 ^ 31
      → (ys : List A) × (sort compare xs (length xs) ≡ ok ys) × IsSortedFrom 1 ys
  unfolding sort build_loop sort_loop
  sort_calls-IsSortedFrom [] small =
      ([], refl, λ a b pos less behind inside. absurd (omega (arith, behind, inside)))
  sort_calls-IsSortedFrom (x ∷ xs) small =
      let cnt = suc (length xs) in
      let (ys, e, heap, len) =
        build_loop-IsHeap cnt (cnt / 2) (x ∷ xs) (omega arith) (omega arith) small
          (λ c two below low. absurd (omega (arith, below, low))) in
      let (zs, f, done) =
        sort_loop-IsSortedFrom (cnt - 1) ys (omega (arith, len)) (omega (arith, small))
          (λ c two below. heap c two (omega (arith, below)))
          (λ a b pos less behind inside. absurd (omega (arith, behind, inside, len))) in
      (zs, rw e f, done)

  -- sort of all elements of an array of fewer than 2 ^ 31, by a compare that orders them, returns
  -- with the same elements, each as often, none behind one that is more than it.
  pub sort-IsSortedFrom :
      (xs : List A)
      → length xs < 2 ^ 31
      → (ys : List A) × (sort compare xs (length xs) ≡ ok ys) × IsSortedFrom 1 ys × Permuted xs ys
  sort-IsSortedFrom xs small =
      let (ys, e, sorted) = sort_calls-IsSortedFrom xs small in
      let (zs, f, permuted) = sort_lem compare xs small in
      let same : zs ≡ ys = cc (e, f) in (ys, e, sorted, subst (λ ws. Permuted xs ws) same permuted)
