-- ===== src/Sort/Floated.antt =====
-- heapify of lib/stdlib.c makes a heap. Indexes start at 1.
use mathlib.Core.Path.{subst}
use Prim.Native.Nat.{Ordering}
use os_project.Common.{
  ℕ, zero, suc, ◌+◌, ◌*◌, ◌/◌, ◌^◌, ◌≤◌, ◌<◌, ◌≡◌, ◌⊎◌, inl, inr, refl, sym, ap, ◌∙◌, arith, List,
  length, ◌==◌, ok, ◌>>=◌, if◌then◌else◌, u32, ℕ_discrete,
}
use os_project.Links.Lists.{ne-false, same-true}
use os_project.Sort.{do_swap, larger, heapify}
use os_project.Sort.Heap.{
  IsOrder, element, Swapped, do_swap-Swapped, Le, IsLarger, larger-IsLarger, IsHeap, IsAlmostHeap,
  Sifted, Sifted-trans, Swapped-Sifted,
}

module _ {ℓ} {A : Type ℓ} (d : A) (compare : A → A → Ordering) (order : IsOrder compare) where
  -- One round of the loop keeps what is needed of the next.
  swap-IsAlmostHeap :
      (xs ys : List A) (lo cnt i n : ℕ)
      → 0 < i
      → lo ≤ i
      → n / 2 ≡ i
      → n ≤ cnt
      → IsAlmostHeap d compare order xs lo cnt i
      → ((c : ℕ) → c ≤ cnt → c / 2 ≡ i → Le d compare order (element d xs c) (element d xs n))
      → Le d compare order (element d xs i) (element d xs n)
      → Swapped d xs ys i n
      → IsAlmostHeap d compare order ys lo cnt n
  swap-IsAlmostHeap xs ys lo cnt i n pos low child inside almost largest root s = record {
    others = λ c two below lo_c c_n. elim (ℕ_discrete (c / 2) i) [
      | yes under ↦ rw under (
          rw s.at_first (elim (ℕ_discrete c n) [
            | yes e ↦ rw e (rw s.at_second root)
            | no other ↦
                rw (s.elsewhere c (omega (arith, two)) (λ e. omega (arith, e, under, pos)) other)
                  (largest c below under)
          ]))
      | no not_under ↦ elim (ℕ_discrete c i) [
        | yes e ↦
            let parent : element d ys (c / 2) ≡ element d xs (c / 2) =
              s.elsewhere (c / 2) (omega (arith, two)) not_under c_n in
            rw parent (
              rw e (
                rw s.at_first
                  (almost.above n inside child (omega (arith, e, two)) (omega (arith, e, lo_c)))))
        | no c_i ↦
            let parent : element d ys (c / 2) ≡ element d xs (c / 2) =
              s.elsewhere (c / 2) (omega (arith, two)) not_under c_n in
            rw parent (
              rw
                (s.elsewhere c (omega (arith, two)) c_i
                  (λ e. not_under (ap (λ (k : ℕ). k / 2) e ∙ child)))
                (almost.others c two below lo_c not_under))
      ]
    ];
    above = λ c below c_n two lo_n. rw child (
        rw s.at_first (
          rw
            (s.elsewhere c (omega (arith, c_n, two)) (λ e. omega (arith, e, c_n, child, pos))
              (λ e. omega (arith, e, c_n, two)))
            (subst (λ (k : ℕ). Le d compare order (element d xs c) (element d xs k)) c_n
              (almost.others c (omega (arith, c_n, two)) below (omega (arith, c_n, child, low))
                (λ e. omega (arith, e, c_n, child, pos))))));
  }

  -- The largest of an element and its children.
  record IsLargest (xs : List A) (cnt i n : ℕ) : Type ℓ where
    which : (n ≡ i) ⊎ ((n / 2 ≡ i) × (i < n))
    below : n ≤ cnt
    root : Le d compare order (element d xs i) (element d xs n)
    children : (c : ℕ) → c ≤ cnt → c / 2 ≡ i → Le d compare order (element d xs c) (element d xs n)

  two_children : (c i : ℕ) → c / 2 ≡ i → (c ≡ 2 * i) ⊎ (c ≡ 2 * i + 1)
  two_children c i e = elim (ℕ_discrete c (2 * i)) [
    | yes even ↦ inl even
    | no odd ↦ inr (omega (arith, e, odd))
  ]

  second-IsLargest :
      (xs : List A) (cnt i m n : ℕ)
      → 0 < i
      → i ≤ cnt
      → IsLarger d compare order xs cnt (2 * i) i m
      → IsLarger d compare order xs cnt (2 * i + 1) m n
      → IsLargest xs cnt i n
  second-IsLargest xs cnt i m n pos le l r = record {
    which = elim r.which [
      | inl e ↦ elim l.which [
        | inl e' ↦ inl (e ∙ e')
        | inr (e', h) ↦ inr (omega (arith, e, e'), omega (arith, e, e', pos))
      ]
      | inr (e, h) ↦ inr (omega (arith, e), omega (arith, e))
    ];
    below = elim r.which [
      | inl e ↦ elim l.which [
        | inl e' ↦ omega (arith, e, e', le)
        | inr (e', h) ↦ omega (arith, e, e', h)
      ]
      | inr (e, h) ↦ omega (arith, e, h)
    ];
    root = order.trans (element d xs i) (element d xs m) (element d xs n) l.first_le r.first_le;
    children = λ c c_in under. elim (two_children c i under) [
      | inl e ↦
          order.trans (element d xs c) (element d xs m) (element d xs n)
            (subst (λ (k : ℕ). Le d compare order (element d xs k) (element d xs m)) (sym e)
              (l.second_le (omega (arith, e, c_in))))
            r.first_le
      | inr e ↦
          subst (λ (k : ℕ). Le d compare order (element d xs k) (element d xs n)) (sym e)
            (r.second_le (omega (arith, e, c_in)))
    ];
  }

  larger-lt :
      (xs : List A) (cnt i m : ℕ)
      → 0 < i
      → i ≤ cnt
      → IsLarger d compare order xs cnt (2 * i) i m
      → (0 < m) × (m ≤ cnt)
  larger-lt xs cnt i m pos le l = elim l.which [
    | inl e ↦ (omega (arith, e, pos), omega (arith, e, le))
    | inr (e, h) ↦ (omega (arith, e, pos), omega (arith, e, h))
  ]

  -- The two tests of a round.
  both_tests :
      (xs : List A) (cnt i : ℕ)
      → 0 < i
      → i ≤ cnt
      → cnt ≤ length xs
      → cnt < 2 ^ 31
      → (m n : ℕ) × (larger compare xs cnt (u32 (2 * i)) i ≡ ok m)
        × (larger compare xs cnt (u32 (2 * i + 1)) m ≡ ok n)
        × IsLargest xs cnt i n
  both_tests xs cnt i pos le inside small =
      let left : 2 * i ≡ u32 (2 * i) = omega (arith, le, small) in
      let right : 2 * i + 1 ≡ u32 (2 * i + 1) = omega (arith, le, small) in
      let (m, e, l) =
        larger-IsLarger d compare order xs cnt (2 * i) i inside (omega (arith, pos)) pos le in
      let (m_pos, m_in) = larger-lt xs cnt i m pos le l in
      let (n, f, r) =
        larger-IsLarger d compare order xs cnt (2 * i + 1) m inside (omega arith) m_pos m_in in
      (
        m,
        n,
        subst (λ (k : ℕ). larger compare xs cnt k i ≡ ok m) left e,
        subst (λ (k : ℕ). larger compare xs cnt k m ≡ ok n) right f,
        second-IsLargest xs cnt i m n pos le l r,
      )

  heapify_round :
      (fuel : ℕ) (xs : List A) (i m n cnt : ℕ)
      → larger compare xs cnt (u32 (2 * i)) i ≡ ok m
      → larger compare xs cnt (u32 (2 * i + 1)) m ≡ ok n
      → heapify compare (suc fuel) xs i cnt
        ≡ (if n == i then ok xs else (do_swap xs i n >>= λ ys. heapify compare fuel ys n cnt))
  unfolding heapify
  heapify_round fuel xs i m n cnt e f = rw (e, f) refl

  -- heapify of an element whose children are heaps makes a heap of it and of all that was one.
  pub heapify-IsHeap :
      (fuel : ℕ) (xs : List A) (lo i cnt : ℕ)
      → 0 < i
      → lo ≤ i
      → i ≤ cnt
      → cnt ≤ length xs
      → cnt < 2 ^ 31
      → cnt < i + fuel
      → IsAlmostHeap d compare order xs lo cnt i
      → (ys : List A) × (heapify compare fuel xs i cnt ≡ ok ys)
        × IsHeap d compare order ys lo cnt
        × Sifted d compare order cnt xs ys
  heapify-IsHeap zero xs lo i cnt pos low le inside small enough almost =
      absurd (omega (arith, le, enough))
  heapify-IsHeap (suc fuel) xs lo i cnt pos low le inside small enough almost =
      let (m, n, e, f, top) = both_tests xs cnt i pos le inside small in
      elim top.which [
        | inl same ↦ (
          xs,
          heapify_round fuel xs i m n cnt e f ∙ rw same (rw (same-true i) refl),
          λ c two below lo_c. elim (ℕ_discrete (c / 2) i) [
            | yes under ↦
                subst (λ (k : ℕ). Le d compare order (element d xs c) (element d xs k))
                  (same ∙ sym under) (top.children c below under)
            | no other ↦ almost.others c two below lo_c other
          ],
          record { as_long = refl; outside = λ c h. refl; bounded = λ x h. h },
        )
        | inr (child, later) ↦
            let (ys, swaps, s) =
              do_swap-Swapped d xs i n pos later (omega (arith, top.below, inside)) in
            let (zs, floats, heap, sifted) =
              heapify-IsHeap fuel ys lo n cnt (omega (arith, later)) (omega (arith, later, low))
                top.below (omega (arith, s.as_long, inside)) small (omega (arith, later, enough))
                (swap-IsAlmostHeap xs ys lo cnt i n pos low child top.below almost top.children
                  top.root s) in
            (
              zs,
              heapify_round fuel xs i m n cnt e f
                  ∙ rw (ne-false n i (λ z. omega (arith, z, later))) (rw swaps floats),
              heap,
              Sifted-trans d compare order
                  (Swapped-Sifted d compare order cnt i n xs ys pos later top.below s) sifted,
            )
      ]
