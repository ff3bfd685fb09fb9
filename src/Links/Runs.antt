-- ===== src/Links/Runs.antt =====
-- list_sort of lib/kernel/list.c: a run is found in a list, and two runs of it are merged.
use mathlib.Core.Path.{subst}
use mathlib.Core.List.{append_assoc}
use os_project.Common.{
  ℕ, ◌+◌, ◌<◌, ◌≡◌, ◌≢◌, sym, List, [], ◌∷◌, ◌++◌, arith, count, count-append, length, ok, true,
  Bool, Returns,
}
use os_project.Links.{Links, Ends}
use os_project.Links.Chain.{front_or, count_self, count-front_or}
use os_project.Links.Lists.{IsList, count-halves, not_null, ne-false}
use os_project.Links.Walk.{Walk, IsList-Walk, Walk-drop, Walk-take, last_or}
use os_project.Links.Merge.{descents_from, merge, after_run}
use os_project.Links.Order.{is_sorted, find_end_of_run, inplace_merge}
use os_project.Links.Sort.{sorted_loop_lem, run_loop_lem, merge_loop_lem}

-- A part of a list is walked to its end.
part-Walk :
    (h : Links) (l : Ends) (us xs vs : List ℕ)
    → IsList h l (us ++ (xs ++ vs))
    → Walk h (last_or l.head us) xs (front_or vs l.tail)
part-Walk h l us xs vs s =
    let m = front_or vs l.tail in
    Walk-take h (last_or l.head us) xs vs l.tail
      (λ a o e.
        let here = subst (λ u. 0 < count u xs) e o in
        omega (
          arith,
          s.once m,
          here,
          count-front_or vs l.tail,
          count-halves m l us (xs ++ vs),
          count-append m xs vs,
          count-append m vs (l.tail ∷ []),
        ))
      (Walk-drop h l.head us (xs ++ vs) l.tail (IsList-Walk h l (us ++ (xs ++ vs)) s))

-- The place at which a part begins is not NULL.
part-not_null :
    (h : Links) (l : Ends) (us xs : List ℕ) → IsList h l (us ++ xs) → front_or xs l.tail ≢ 0
part-not_null h l us xs s =
    let m = front_or xs l.tail in
    not_null l (us ++ xs) m s.once (
      omega
        (arith, count-front_or xs l.tail, count-halves m l us xs, count-append m xs (l.tail ∷ [])))

module _ (less : ℕ → ℕ → Bool) where
  pub is_sorted_lem :
      (h : Links) (l : Ends) (us : List ℕ) (x : ℕ) (xs vs : List ℕ) (fuel : ℕ)
      → IsList h l (us ++ (x ∷ (xs ++ vs)))
      → descents_from less x xs ≡ 0
      → length xs < fuel
      → is_sorted less fuel x (front_or vs l.tail) h ≡ ok true
  unfolding is_sorted
  is_sorted_lem h l us x xs vs fuel s d enough =
      let w = part-Walk h l us (x ∷ xs) vs s in
      rw (ne-false x (front_or vs l.tail) w.0)
        (sorted_loop_lem less h (last_or l.head us) x xs (front_or vs l.tail) fuel w d enough)

  pub find_end_of_run_lem :
      (h : Links) (l : Ends) (us : List ℕ) (x : ℕ) (xs : List ℕ) (fuel : ℕ)
      → IsList h l (us ++ (x ∷ xs))
      → length xs < fuel
      → find_end_of_run less fuel x l.tail h ≡ ok (front_or (after_run less x xs) l.tail)
  unfolding find_end_of_run
  find_end_of_run_lem h l us x xs fuel s enough =
      let w = Walk-drop h l.head us (x ∷ xs) l.tail (IsList-Walk h l (us ++ (x ∷ xs)) s) in
      let tail0 =
        not_null l (us ++ (x ∷ xs)) l.tail s.once (
          omega
            (arith, count-append l.tail (us ++ (x ∷ xs)) (l.tail ∷ []), count_self l.tail [])) in
      rw (ne-false x 0 (part-not_null h l us (x ∷ xs) s)) (
        rw (ne-false l.tail 0 tail0) (
          rw (ne-false x l.tail w.0)
            (run_loop_lem less h (last_or l.head us) x xs l.tail fuel w enough)))

  pub inplace_merge_lem :
      (h : Links) (l : Ends) (us : List ℕ) (a : ℕ) (ls : List ℕ) (b : ℕ) (rs vs : List ℕ) (fuel : ℕ)
      → IsList h l (us ++ (a ∷ (ls ++ (b ∷ (rs ++ vs)))))
      → descents_from less a ls ≡ 0
      → descents_from less b rs ≡ 0
      → 2 + length ls + length rs < fuel
      → Returns
          (λ h'. IsList h' l (us ++ (merge less (a ∷ ls) (b ∷ rs) ++ vs)))
          (inplace_merge less fuel a b (front_or vs l.tail) h)
  unfolding inplace_merge
  inplace_merge_lem h l us a ls b rs vs fuel s dl dr enough =
      let Q = λ (h' : Links). IsList h' l (us ++ (merge less (a ∷ ls) (b ∷ rs) ++ vs)) in
      let at_b = subst (IsList h l) (sym (append_assoc us (a ∷ ls) (b ∷ (rs ++ vs)))) s in
      rw (ne-false a 0 (part-not_null h l us (a ∷ (ls ++ (b ∷ (rs ++ vs)))) s)) (
        rw (ne-false b 0 (part-not_null h l (us ++ (a ∷ ls)) (b ∷ (rs ++ vs)) at_b)) (
          rw
            (ne-false (front_or vs l.tail) 0 (
              part-not_null h l ((us ++ (a ∷ ls)) ++ (b ∷ rs)) vs
                (subst (IsList h l) (sym (append_assoc (us ++ (a ∷ ls)) (b ∷ rs) vs)) at_b)))
            (rw (is_sorted_lem h l us a ls (b ∷ (rs ++ vs)) fuel s dl (omega arith)) (
              rw (is_sorted_lem h l (us ++ (a ∷ ls)) b rs vs fuel at_b dr (omega arith))
                (merge_loop_lem less h l us (a ∷ ls) (b ∷ rs) vs fuel s (omega (arith, enough)))))))
