-- ===== src/Links/Exchange.antt =====
-- The loop of list_reverse in lib/kernel/list.c exchanges the two links of each element.
use mathlib.Core.Path.{subst}
use os_project.Common.{
  ℕ, zero, suc, ◌≤◌, ◌<◌, ◌≡◌, ◌≢◌, refl, sym, ◌∙◌, List, [], ◌∷◌, ◌++◌, arith, count, count-append,
  length, Returns, Returns-weaken, Returns-bind, inl, inr, ◌⊎◌, ℕ_discrete,
}
use os_project.Links.{Links, reverse_loop, swap_links}
use os_project.Links.Chain.{Chain-uncons, Rest, Rest-frame, count-ne, front_or, count_self}
use os_project.Links.Lists.{ne-false, same-true}

-- The links of the elements xs are exchanged, and no others.
pub record Exchanged (h : Links) (xs : List ℕ) (h' : Links) : Type 0 where
  pub next_in : (a : ℕ) → 0 < count a xs → h'.next a ≡ h.prev a
  pub prev_in : (a : ℕ) → 0 < count a xs → h'.prev a ≡ h.next a
  pub next_out : (a : ℕ) → count a xs ≡ 0 → h'.next a ≡ h.next a
  pub prev_out : (a : ℕ) → count a xs ≡ 0 → h'.prev a ≡ h.prev a

count-either :
    (a x : ℕ) (xs : List ℕ)
    → count x xs ≡ 0
    → 0 < count a (x ∷ xs)
    → (0 < count a (x ∷ []) × (count a xs ≡ 0)) ⊎ ((count a (x ∷ []) ≡ 0) × 0 < count a xs)
count-either a x xs out o = elim (ℕ_discrete x a) [
  | yes same ↦
      inl (subst (λ u. (0 < count u (x ∷ [])) × (count u xs ≡ 0)) same (count_self x [], out))
  | no other ↦ inr (
      let none : count a (x ∷ []) ≡ 0 = rw (ne-false x a other) refl in
      (none, omega (arith, o, none)))
]

Exchanged-cons :
    (h h1 h' : Links) (x : ℕ) (xs : List ℕ)
    → count x xs ≡ 0
    → Exchanged h (x ∷ []) h1
    → Exchanged h1 xs h'
    → Exchanged h (x ∷ xs) h'
Exchanged-cons h h1 h' x xs out i j = record {
  next_in = λ a o. elim (count-either a x xs out o) [
    | inl (here, rest) ↦ j.next_out a rest ∙ i.next_in a here
    | inr (here, rest) ↦ j.next_in a rest ∙ i.prev_out a here
  ];
  prev_in = λ a o. elim (count-either a x xs out o) [
    | inl (here, rest) ↦ j.prev_out a rest ∙ i.prev_in a here
    | inr (here, rest) ↦ j.prev_in a rest ∙ i.next_out a here
  ];
  next_out = λ a o. j.next_out a (omega (arith, o)) ∙ i.next_out a (omega (arith, o));
  prev_out = λ a o. j.prev_out a (omega (arith, o)) ∙ i.prev_out a (omega (arith, o));
}

swap_links_lem : (h : Links) (x : ℕ) → x ≢ 0 → Returns (Exchanged h (x ∷ [])) (swap_links x h)
swap_links_lem h x x0 = rw (ne-false x 0 x0) (record {
  next_in = λ a o. ground arith;
  prev_in = λ a o. ground arith;
  next_out = λ a o. ground arith;
  prev_out = λ a o. ground arith;
})

pub reverse_loop_lem :
    (h : Links) (xs : List ℕ) (q fuel : ℕ)
    → Rest h xs q
    → ((t : ℕ) → count t (0 ∷ (xs ++ (q ∷ []))) ≤ 1)
    → length xs < fuel
    → Returns (λ h'. Exchanged h xs h') (reverse_loop fuel q (front_or xs q) h)
unfolding reverse_loop
reverse_loop_lem h xs q zero r once enough = let no : ⊥ = omega arith in elim no [ ]
reverse_loop_lem h [] q (suc fuel) r once enough = rw (same-true q) (record {
  next_in = λ a o. let no : ⊥ = omega (arith, o) in elim no [ ];
  prev_in = λ a o. let no : ⊥ = omega (arith, o) in elim no [ ];
  next_out = λ a o. refl;
  prev_out = λ a o. refl;
})
reverse_loop_lem h (x ∷ xs) q (suc fuel) r once enough =
    let x_q : x ≢ q = λ e.
      count-ne x q (xs ++ (q ∷ [])) (omega (arith, once q))
        (omega (arith, count-append q xs (q ∷ []), count_self q [])) e in
    rw (ne-false x q x_q) (
      Returns-bind (Exchanged h (x ∷ [])) (Exchanged h (x ∷ xs)) (swap_links x h) _
        (swap_links_lem h x (λ e.
          count-ne 0 x (x ∷ (xs ++ (q ∷ []))) (once x) (count_self x (xs ++ (q ∷ []))) (sym e)))
        (λ h1 i.
          let r1 : Rest h1 xs q =
            Rest-frame h h1 xs q
              (λ a o. i.next_out a (omega (arith, o, once a, count-append a xs (q ∷ []))))
              (λ a o n. i.prev_out a (omega (arith, o, once a, count-append a xs (q ∷ []))))
              (λ t. omega (arith, once t)) (Chain-uncons h x xs q r).1 in
          let next = i.prev_in x (count_self x []) ∙ (Chain-uncons h x xs q r).0 in
          rw next (
            Returns-weaken (Exchanged h1 xs) (Exchanged h (x ∷ xs))
              (reverse_loop fuel q (front_or xs q) h1)
              (λ h' j.
                Exchanged-cons h h1 h' x xs
                  (omega (arith, once x, count_self x [], count-append x xs (q ∷ []))) i j)
              (reverse_loop_lem h1 xs q fuel r1 (λ t. omega (arith, once t)) (omega arith)))))
