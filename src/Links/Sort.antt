-- ===== src/Links/Sort.antt =====
-- The loops of list_sort in lib/kernel/list.c: a run is found, and two runs are merged.
use mathlib.Core.Path.{subst}
use mathlib.Core.List.{append_assoc}
use os_project.Common.{
  ℕ, zero, suc, ◌+◌, ◌<◌, ◌≡◌, ◌≢◌, refl, sym, ap, ◌∙◌, List, [], ◌∷◌, ◌++◌, ◌==◌, arith,
  count-append, length, ok, true, false, Bool, ◌||◌, Returns, Returns-bind, Returns-weaken,
  Bool-cases, inl, inr,
}
use os_project.Links.{Links, Ends, list_splice, list_prev, list_next}
use os_project.Links.Chain.{front_or, count_self, count-ne, count-front_or}
use os_project.Links.Lists.{IsList, count-halves, ne-false, same-true, IsList-shift, IsList-unshift}
use os_project.Links.Walk.{Walk, prev-IsList, next-IsList, front_or-append}
use os_project.Links.Splice.{move-IsList}
use os_project.Links.Merge.{one_if-zero, descents_from, merge, after_run}
use os_project.Links.Order.{sorted_loop, run_loop, merge_loop}

module _ (less : ℕ → ℕ → Bool) where
  pub sorted_loop_lem :
      (h : Links) (p y : ℕ) (ys : List ℕ) (q fuel : ℕ)
      → Walk h p (y ∷ ys) q
      → descents_from less y ys ≡ 0
      → length ys < fuel
      → sorted_loop less fuel y q h ≡ ok true
  unfolding sorted_loop
  sorted_loop_lem h p y ys q zero w d enough = let no : ⊥ = omega arith in elim no [ ]
  sorted_loop_lem h p y [] q (suc fuel) (other, nx, pv, w) d enough = rw nx (rw (same-true q) refl)
  sorted_loop_lem h p y (z ∷ zs) q (suc fuel) (other, nx, pv, (z_q, nz, pz, w)) d enough = rw nx (
      rw (ne-false z q z_q) (
        rw pz (
          rw (one_if-zero (less z y) (omega (arith, d)))
            (sorted_loop_lem h y z zs q fuel (z_q, nz, pz, w) (omega (arith, d)) (omega arith)))))

  pub run_loop_lem :
      (h : Links) (p y : ℕ) (ys : List ℕ) (q fuel : ℕ)
      → Walk h p (y ∷ ys) q
      → length ys < fuel
      → run_loop less fuel y q h ≡ ok (front_or (after_run less y ys) q)
  unfolding run_loop
  run_loop_lem h p y ys q zero w enough = let no : ⊥ = omega arith in elim no [ ]
  run_loop_lem h p y [] q (suc fuel) (other, nx, pv, w) enough = rw nx (rw (same-true q) refl)
  run_loop_lem h p y (z ∷ zs) q (suc fuel) (other, nx, pv, (z_q, nz, pz, w)) enough = rw nx (
      rw (ne-false z q z_q) (
        rw pz (elim (Bool-cases (less z y)) [
          | inl falls ↦ rw falls refl
          | inr rises ↦ rw rises (run_loop_lem h y z zs q fuel (z_q, nz, pz, w) (omega arith))
        ])))

  or_true : (b : Bool) → (b || true) ≡ true
  or_true true = refl
  or_true false = refl

  -- Two adjacent ranges that both have elements are apart, and the second is not at its end.
  module _ (h : Links) (l : Ends) (us : List ℕ) (a : ℕ) (ls : List ℕ) (b : ℕ) (rs vs : List ℕ)
      (s : IsList h l (us ++ (a ∷ (ls ++ (b ∷ (rs ++ vs)))))) where
    front-ne-front : a ≢ b
    front-ne-front =
        count-ne a b (ls ++ (b ∷ (rs ++ vs)))
          (omega (arith, s.once b, count-halves b l us (a ∷ (ls ++ (b ∷ (rs ++ vs))))))
          (omega (arith, count-append b ls (b ∷ (rs ++ vs)), count_self b []))

    front-ne-end : b ≢ front_or vs l.tail
    front-ne-end =
        let m = front_or vs l.tail in
        count-ne b m (vs ++ (l.tail ∷ []))
          (omega (
            arith,
            s.once m,
            count-halves m l us (a ∷ (ls ++ (b ∷ (rs ++ vs)))),
            count-append m ls (b ∷ (rs ++ vs)),
            count-append m rs vs,
            count-append m vs (l.tail ∷ []),
          ))
          (count-front_or vs l.tail)

    at_b : IsList h l ((us ++ (a ∷ ls)) ++ (b ∷ (rs ++ vs)))
    at_b = subst (IsList h l) (sym (append_assoc us (a ∷ ls) (b ∷ (rs ++ vs)))) s

    next_b : list_next b h ≡ ok (front_or rs (front_or vs l.tail))
    next_b =
        next-IsList h l (us ++ (a ∷ ls)) b (rs ++ vs) at_b ∙ ap ok (front_or-append rs vs l.tail)

    prev_b : list_prev (front_or rs (front_or vs l.tail)) h ≡ ok b
    prev_b =
        ap (λ m. list_prev m h) (sym (front_or-append rs vs l.tail))
        ∙ prev-IsList h l (us ++ (a ∷ ls)) b (rs ++ vs) at_b

    next_a : list_next a h ≡ ok (front_or ls b)
    next_a =
        next-IsList h l us a (ls ++ (b ∷ (rs ++ vs))) s
        ∙ ap ok (front_or-append ls (b ∷ (rs ++ vs)) l.tail)

    moved :
        Returns
          (λ h'. IsList h' l (us ++ (b ∷ (a ∷ (ls ++ (rs ++ vs))))))
          (list_splice a b (front_or rs (front_or vs l.tail)) h)
    moved =
        subst
          (λ m.
            Returns (λ h'. IsList h' l (us ++ (b ∷ (a ∷ (ls ++ (rs ++ vs))))))
              (list_splice a b m h))
          (front_or-append rs vs l.tail) (move-IsList h l us a ls b (rs ++ vs) s)

  pub merge_loop_lem :
      (h : Links) (l : Ends) (us ls rs vs : List ℕ) (fuel : ℕ)
      → IsList h l (us ++ (ls ++ (rs ++ vs)))
      → length ls + length rs < fuel
      → Returns
          (λ h'. IsList h' l (us ++ (merge less ls rs ++ vs)))
          (merge_loop less fuel
            (front_or ls (front_or rs (front_or vs l.tail)))
            (front_or rs (front_or vs l.tail))
            (front_or vs l.tail)
            h)
  unfolding merge_loop
  merge_loop_lem h l us ls rs vs zero s enough = let no : ⊥ = omega arith in elim no [ ]
  merge_loop_lem h l us [] rs vs (suc fuel) s enough =
      rw (same-true (front_or rs (front_or vs l.tail))) s
  merge_loop_lem h l us (a ∷ ls) [] vs (suc fuel) s enough =
      rw (same-true (front_or vs l.tail)) (rw (or_true (a == front_or vs l.tail)) s)
  merge_loop_lem h l us (a ∷ ls) (b ∷ rs) vs (suc fuel) s enough =
      let m = front_or vs l.tail in
      let left = merge less (a ∷ ls) rs ++ vs in
      let right = merge less ls (b ∷ rs) ++ vs in
      rw (ne-false a b (front-ne-front h l us a ls b rs vs s)) (
        rw (ne-false b (front_or vs l.tail) (front-ne-end h l us a ls b rs vs s))
          (elim (Bool-cases (less b a)) [
            | inl first ↦ rw first (
                rw (next_b h l us a ls b rs vs s) (
                  rw (prev_b h l us a ls b rs vs s) (
                    Returns-bind (λ h'. IsList h' l (us ++ (b ∷ (a ∷ (ls ++ (rs ++ vs))))))
                      (λ g. IsList g l (us ++ (b ∷ left))) (list_splice a b (front_or rs m) h) _
                      (moved h l us a ls b rs vs s)
                      (λ h' i.
                        Returns-weaken (λ g. IsList g l ((us ++ (b ∷ [])) ++ left))
                          (λ g. IsList g l (us ++ (b ∷ left)))
                          (merge_loop less fuel a (front_or rs m) m h')
                          (λ g j. IsList-unshift g l us b left j)
                          (merge_loop_lem h' l (us ++ (b ∷ [])) (a ∷ ls) rs vs fuel
                            (IsList-shift h' l us b (a ∷ (ls ++ (rs ++ vs))) i)
                            (omega (arith, enough)))))))
            | inr second ↦ rw second (
                rw (next_a h l us a ls b rs vs s) (
                  Returns-weaken (λ g. IsList g l ((us ++ (a ∷ [])) ++ right))
                    (λ g. IsList g l (us ++ (a ∷ right)))
                    (merge_loop less fuel (front_or ls b) b m h)
                    (λ g j. IsList-unshift g l us a right j)
                    (merge_loop_lem h l (us ++ (a ∷ [])) ls (b ∷ rs) vs fuel
                      (IsList-shift h l us a (ls ++ (b ∷ (rs ++ vs))) s) (omega (arith, enough)))))
          ]))
