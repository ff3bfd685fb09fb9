-- ===== src/Links/Unique.antt =====
-- list_unique of lib/kernel/list.c keeps the first of adjacent equal elements.
use os_project.Common.{
  ℕ, zero, suc, ◌<◌, ◌≡◌, List, [], ◌∷◌, ◌++◌, arith, length, not, ◌&&◌, Bool, Bool-cases, inl, inr,
  if◌then◌else◌, Returns, Returns-bind, Returns-weaken, none,
}
use os_project.Links.{Links, Ends, list_remove}
use os_project.Links.Order.{list_unique, unique_loop, keep_duplicate}
use os_project.Links.Chain.{front_or}
use os_project.Links.Lists.{IsList, IsList-shift, IsList-unshift, ne-false, same-true}
use os_project.Links.Walk.{next-IsList, not_end}
use os_project.Links.Remove.{list_remove-IsList}

module _ (less : ℕ → ℕ → Bool) where
  -- What is left of the elements behind x, which is kept.
  abbrev pub unique_from : ℕ → List ℕ → List ℕ
  unique_from x [] = []
  unique_from x (y ∷ ys) =
      if not (less x y) && not (less y x) then unique_from x ys else (y ∷ unique_from y ys)

  unique_loop_lem :
      (h : Links) (l : Ends) (xs : List ℕ) (x : ℕ) (ys : List ℕ) (fuel : ℕ)
      → IsList h l (xs ++ (x ∷ ys))
      → length ys < fuel
      → Returns
          (λ h'. IsList h' l (xs ++ (x ∷ unique_from x ys)))
          (unique_loop less fuel l none x h)
  unfolding unique_loop keep_duplicate
  unique_loop_lem h l xs x ys zero s enough = let no : ⊥ = omega arith in elim no [ ]
  unique_loop_lem h l xs x [] (suc fuel) s enough =
      rw (next-IsList h l xs x [] s) (rw (same-true l.tail) s)
  unique_loop_lem h l xs x (y ∷ ys) (suc fuel) s enough =
      let s' = IsList-shift h l xs x (y ∷ ys) s in
      let Taken =
        λ (r : ℕ × Links). (r.0 ≡ front_or ys l.tail) × IsList r.1 l ((xs ++ (x ∷ [])) ++ ys) in
      rw (next-IsList h l xs x (y ∷ ys) s) (
        rw (ne-false y l.tail (not_end h l (xs ++ (x ∷ [])) y ys s'))
          (elim (Bool-cases (not (less x y) && not (less y x))) [
            | inl same ↦ rw same (
                Returns-bind Taken (λ h'. IsList h' l (xs ++ (x ∷ unique_from x ys)))
                  (list_remove y h) _ (list_remove-IsList h l (xs ++ (x ∷ [])) ys y s')
                  (λ r i.
                    unique_loop_lem r.1 l xs x ys fuel (IsList-unshift r.1 l xs x ys i.1)
                      (omega arith)))
            | inr other ↦ rw other (
                Returns-weaken (λ h'. IsList h' l ((xs ++ (x ∷ [])) ++ (y ∷ unique_from y ys)))
                  (λ h'. IsList h' l (xs ++ (x ∷ (y ∷ unique_from y ys))))
                  (unique_loop less fuel l none y h)
                  (λ h' i. IsList-unshift h' l xs x (y ∷ unique_from y ys) i)
                  (unique_loop_lem h l (xs ++ (x ∷ [])) y ys fuel s' (omega arith)))
          ]))

  -- list_unique of a list that has an element, with no list for the duplicates, comes to an end, and
  -- the list keeps the first element and each that differs from the one last kept before it.
  pub list_unique-IsList :
      (h : Links) (l : Ends) (x : ℕ) (xs : List ℕ) (fuel : ℕ)
      → IsList h l (x ∷ xs)
      → length xs < fuel
      → Returns (λ h'. IsList h' l (x ∷ unique_from x xs)) (list_unique less fuel l none h)
  unfolding list_unique
  list_unique-IsList h l x xs fuel s enough =
      rw s.chain.0
        (rw (ne-false x l.tail (not_end h l [] x xs s)) (unique_loop_lem h l [] x xs fuel s enough))
