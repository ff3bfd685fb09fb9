-- ===== src/Links/Ordered.antt =====
-- list_insert_ordered of lib/kernel/list.c inserts at the first place that keeps the order.
use mathlib.Core.Path.{subst}
use os_project.Common.{
  ℕ, zero, suc, ◌<◌, ◌≡◌, refl, sym, ap, List, [], ◌∷◌, ◌++◌, ◌==◌, arith, length, ok, not, true,
  false, Bool, Bool-cases, inl, inr, if◌then◌else◌, Returns, Returns-assert, Returns-weaken,
}
use os_project.Links.{Links, Ends}
use os_project.Links.Order.{list_insert_ordered, place_loop}
use os_project.Links.Chain.{Chain-uncons, front_or, count_self}
use os_project.Links.Lists.{IsList, Fresh, Fresh-ne, ne-false, same-true}
use os_project.Links.Walk.{Walk, IsList-Walk}
use os_project.Links.Insert.{list_insert-IsList}

module _ (less : ℕ → ℕ → Bool) where
  -- The elements before the first one that is greater than e, and the others.
  abbrev pub no_greater : ℕ → List ℕ → List ℕ
  no_greater e [] = []
  no_greater e (y ∷ ys) = if less e y then [] else (y ∷ no_greater e ys)

  abbrev pub from_greater : ℕ → List ℕ → List ℕ
  from_greater e [] = []
  from_greater e (y ∷ ys) = if less e y then (y ∷ ys) else from_greater e ys

  -- No element is less than the one before it.
  abbrev pub Sorted : List ℕ → Type 0
  Sorted [] = Unit
  Sorted (x ∷ []) = Unit
  Sorted (x ∷ (y ∷ ys)) = (less y x ≡ false) × Sorted (y ∷ ys)

  halves : (e : ℕ) (xs : List ℕ) → no_greater e xs ++ from_greater e xs ≡ xs
  halves e [] = refl
  halves e (y ∷ ys) = elim (Bool-cases (less e y)) [
    | inl greater ↦ rw greater refl
    | inr other ↦ rw other (ap (λ us. y ∷ us) (halves e ys))
  ]

  place_loop_lem :
      (h : Links) (p : ℕ) (xs : List ℕ) (q fuel e : ℕ)
      → Walk h p xs q
      → length xs < fuel
      → place_loop less fuel q e (front_or xs q) h ≡ ok (front_or (from_greater e xs) q)
  unfolding place_loop
  place_loop_lem h p xs q zero e w enough = let no : ⊥ = omega arith in elim no [ ]
  place_loop_lem h p [] q (suc fuel) e w enough = rw (same-true q) refl
  place_loop_lem h p (x ∷ xs) q (suc fuel) e (other, nx, pv, w) enough =
      rw (ne-false x q other) (elim (Bool-cases (less e x)) [
        | inl greater ↦ rw greater refl
        | inr not_greater ↦ rw not_greater (rw nx (place_loop_lem h x xs q fuel e w (omega arith)))
      ])

  -- list_insert_ordered puts a new element before the first one that is greater, or at the end: it
  -- comes to an end and the list holds the elements up to there, the new one, and the others.
  pub list_insert_ordered-IsList :
      (h : Links) (l : Ends) (xs : List ℕ) (e fuel : ℕ)
      → IsList h l xs
      → Fresh e l xs
      → length xs < fuel
      → Returns
          (λ h'. IsList h' l (no_greater e xs ++ (e ∷ from_greater e xs)))
          (list_insert_ordered less fuel l e h)
  unfolding list_insert_ordered
  list_insert_ordered-IsList h l xs e fuel s f enough =
      let Q = λ (h' : Links). IsList h' l (no_greater e xs ++ (e ∷ from_greater e xs)) in
      Returns-assert Q (not (e == 0)) _
        (rw
          (ne-false e 0 (λ same.
            Fresh-ne l xs e 0 f (count_self 0 (l.head ∷ (xs ++ (l.tail ∷ [])))) (sym same)))
          refl)
        (rw (Chain-uncons h l.head xs l.tail s.chain).0 (
          rw (place_loop_lem h l.head xs l.tail fuel e (IsList-Walk h l xs s) enough) (
            list_insert-IsList h l (no_greater e xs) (from_greater e xs) e
              (subst (IsList h l) (sym (halves e xs)) s)
              (subst (Fresh e l) (sym (halves e xs)) f))))

  insertion_behind :
      (e p : ℕ) (xs : List ℕ)
      → ((a b : ℕ) → less a b ≡ true → less b a ≡ false)
      → less e p ≡ false
      → Sorted (p ∷ xs)
      → Sorted (p ∷ (no_greater e xs ++ (e ∷ from_greater e xs)))
  insertion_behind e p [] asym behind s = (behind, tt)
  insertion_behind e p (x ∷ xs) asym behind (first, s) = elim (Bool-cases (less e x)) [
    | inl greater ↦ rw greater (behind, (asym e x greater, s))
    | inr other ↦ rw other (first, insertion_behind e x xs asym other s)
  ]

  -- An ordered insertion keeps a sorted sequence sorted, if no two elements are less than each other.
  pub insertion-Sorted :
      (e : ℕ) (xs : List ℕ)
      → ((a b : ℕ) → less a b ≡ true → less b a ≡ false)
      → Sorted xs
      → Sorted (no_greater e xs ++ (e ∷ from_greater e xs))
  insertion-Sorted e [] asym s = tt
  insertion-Sorted e (x ∷ xs) asym s = elim (Bool-cases (less e x)) [
    | inl greater ↦ rw greater (asym e x greater, s)
    | inr other ↦ rw other (insertion_behind e x xs asym other s)
  ]

  -- list_insert_ordered of a new element into a sorted list comes to an end, and the list is sorted: it
  -- holds the elements before the first one that is greater, the new one, and the others. No two
  -- elements may be less than each other.
  pub list_insert_ordered-Sorted :
      (h : Links) (l : Ends) (xs : List ℕ) (e fuel : ℕ)
      → ((a b : ℕ) → less a b ≡ true → less b a ≡ false)
      → IsList h l xs
      → Fresh e l xs
      → Sorted xs
      → length xs < fuel
      → Returns
          (λ h'.
            IsList h' l (no_greater e xs ++ (e ∷ from_greater e xs))
            × Sorted (no_greater e xs ++ (e ∷ from_greater e xs)))
          (list_insert_ordered less fuel l e h)
  list_insert_ordered-Sorted h l xs e fuel asym s f sorted enough =
      Returns-weaken (λ h'. IsList h' l (no_greater e xs ++ (e ∷ from_greater e xs)))
        (λ h'.
          IsList h' l (no_greater e xs ++ (e ∷ from_greater e xs))
          × Sorted (no_greater e xs ++ (e ∷ from_greater e xs)))
        (list_insert_ordered less fuel l e h) (λ h' i. (i, insertion-Sorted e xs asym sorted))
        (list_insert_ordered-IsList h l xs e fuel s f enough)
