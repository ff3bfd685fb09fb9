-- ===== src/Links/Sorted.antt =====
-- list_sort of lib/kernel/list.c sorts: it comes to an end, and its last assertion holds.
use mathlib.Core.List.{append-nil}
use mathlib.Core.Path.{subst}
use os_project.Common.{
  ℕ, zero, suc, ◌≤◌, ◌<◌, ◌≡◌, refl, sym, ◌∙◌, List, [], ◌∷◌, arith, count, length, ok, true, false,
  Bool, Returns, Returns-bind, Returns-weaken, Bool-cases, inl, inr, ltb, ltb→lt,
}
use os_project.Links.{Links, Ends}
use os_project.Links.Chain.{Chain-uncons, front_or}
use os_project.Links.Lists.{IsList, same-true}
use os_project.Links.Merge.{runs, runs-le}
use os_project.Links.Order.{is_sorted, pass_loop, sort_loop, list_sort}
use os_project.Links.Runs.{is_sorted_lem}
use os_project.Links.Passes.{Passed, pass_loop_lem}

-- The list holds the elements xs in an order in which none is less than the one before it.
pub record IsSortedList (less : ℕ → ℕ → Bool) (l : Ends) (xs : List ℕ) (h : Links) : Type 0 where
  pub elements : List ℕ
  pub list : IsList h l elements
  pub same : (t : ℕ) → count t elements ≡ count t xs
  pub size : length elements ≡ length xs
  pub ordered : runs less elements ≤ 1

module _ (less : ℕ → ℕ → Bool) (asym : (a b : ℕ) → less a b ≡ true → less b a ≡ false)
    (l : Ends) where
  sort_loop_lem :
      (h : Links) (xs : List ℕ) (fuel rounds : ℕ)
      → IsList h l xs
      → runs less xs < fuel
      → length xs < rounds
      → length xs < 0xffff_ffff
      → Returns (IsSortedList less l xs) (sort_loop less rounds fuel l h)
  unfolding sort_loop
  sort_loop_lem h xs zero rounds s enough inner short = let no : ⊥ = omega arith in elim no [ ]
  sort_loop_lem h xs (suc fuel) rounds s enough inner short =
      rw (Chain-uncons h l.head xs l.tail s.chain).0 (
        Returns-bind (Passed less l [] xs 0) (IsSortedList less l xs)
          (pass_loop less rounds rounds l.tail (front_or xs l.tail) 0 h) _
          (pass_loop_lem less rounds rounds l asym h [] xs 0 s inner inner (omega arith))
          (λ r p.
            let cnt : r.0 ≡ p.rounds = omega (arith, p.counted, p.halved, runs-le less xs) in
            elim (Bool-cases (ltb 1 r.0)) [
              | inl more ↦ rw more (
                  let two = ltb→lt 1 r.0 more in
                  Returns-weaken (IsSortedList less l p.others) (IsSortedList less l xs)
                    (sort_loop less rounds fuel l r.1)
                    (λ h' i. record {
                      elements = i.elements;
                      list = i.list;
                      same = λ t. i.same t ∙ p.same t;
                      size = i.size ∙ p.size;
                      ordered = i.ordered;
                    })
                    (sort_loop_lem r.1 p.others fuel rounds p.list
                      (omega (arith, two, cnt, p.halved, p.left, enough))
                      (omega (arith, p.size, inner)) (omega (arith, p.size, short))))
              | inr done ↦ rw done (
                  let few : r.0 ≤ 1 = ground (arith, done) in
                  record {
                    elements = p.others;
                    list = p.list;
                    same = p.same;
                    size = p.size;
                    ordered = omega (arith, few, cnt, p.left);
                  })
            ]))

  -- The last assertion of list_sort holds.
  sorted_lem :
      (h : Links) (xs : List ℕ) (fuel : ℕ)
      → IsList h l xs
      → runs less xs ≤ 1
      → length xs < fuel
      → is_sorted less fuel (h.next l.head) l.tail h ≡ ok true
  unfolding is_sorted
  sorted_lem h [] fuel s ordered enough = rw s.chain.0 (rw (same-true l.tail) refl)
  sorted_lem h (x ∷ xs) fuel s ordered enough = rw s.chain.0 (
      is_sorted_lem less h l [] x xs [] fuel
        (subst (λ us. IsList h l (x ∷ us)) (sym (append-nil xs)) s) (omega (arith, ordered))
        (omega (arith, enough)))

  -- list_sort of a list of less than 2 to the 32 minus 1 elements comes to an end with its assertions
  -- met, when no two elements are less than each other. The list then holds the same elements, each as
  -- often, and none is less than the one before it. Of each loop's rounds, one more than there are
  -- elements is enough.
  pub list_sort-IsSortedList :
      (h : Links) (xs : List ℕ) (fuel : ℕ)
      → IsList h l xs
      → length xs < fuel
      → length xs < 0xffff_ffff
      → Returns (IsSortedList less l xs) (list_sort less fuel l h)
  unfolding list_sort
  list_sort-IsSortedList h xs fuel s enough short =
      Returns-bind (IsSortedList less l xs) (IsSortedList less l xs) (sort_loop less fuel fuel l h)
        _ (sort_loop_lem h xs fuel fuel s (omega (arith, runs-le less xs)) enough short)
        (λ h' i.
          rw (sorted_lem h' i.elements fuel i.list i.ordered (omega (arith, i.size, enough))) i)
