-- ===== src/Links/Tests.antt =====
-- The lists of lib/kernel/list.c on a list of three elements.
use os_project.Common.{
  true, false, ℕ, ◌≡◌, refl, [], ◌∷◌, ◌==◌, arith, ok, ◌>>=◌, if◌then◌else◌, Returns, ltb,
}
use os_project.Links.{Links, Ends, list_next, list_prev, list_splice, list_insert, list_reverse}
use os_project.Links.Order.{
  sort_loop, pass_loop, find_end_of_run, run_loop, inplace_merge, merge_loop, is_sorted,
  sorted_loop, list_sort,
}
use os_project.Links.Lists.{IsList}
use os_project.Links.Insert.{list_insert-IsList}
use os_project.Links.Reverse.{list_reverse-IsList}
use os_project.Links.Extreme.{IsStrictWeak}
use os_project.Links.Sorted.{list_sort-IsSortedList, IsSortedList}

abbrev ends : Ends
ends = record { head = 1; tail = 2 }

-- The elements 10, 30 and 20.
abbrev links : Links
links = record {
  next = λ a.
      if a == 1
      then 10
      else (if a == 10 then 30 else (if a == 30 then 20 else (if a == 20 then 2 else 0)));
  prev = λ a.
      if a == 2
      then 20
      else (if a == 20 then 30 else (if a == 30 then 10 else (if a == 10 then 1 else 0)));
}

links-IsList : IsList links ends (10 ∷ 30 ∷ 20 ∷ [])
links-IsList = record {
  chain = (refl, refl, (refl, refl, (refl, refl, (refl, refl))));
  once = λ t. ground arith;
  first = refl;
  last = refl;
}

ltb_asym : (a b : ℕ) → ltb a b ≡ true → ltb b a ≡ false
ltb_asym a b t = ground (arith, t)

ltb-IsStrictWeak : IsStrictWeak ltb
ltb-IsStrictWeak = record { asym = ltb_asym; coarse = λ a b c u v. ground (arith, u, v) }

list_insert-IsList_example :
    Returns (λ h'. IsList h' ends (10 ∷ 15 ∷ 30 ∷ 20 ∷ [])) (list_insert 30 15 links)
list_insert-IsList_example =
    list_insert-IsList links ends (10 ∷ []) (30 ∷ 20 ∷ []) 15 links-IsList refl

list_reverse-IsList_example :
    Returns (λ h'. IsList h' ends (20 ∷ 30 ∷ 10 ∷ [])) (list_reverse 4 ends links)
list_reverse-IsList_example =
    list_reverse-IsList links ends (10 ∷ 30 ∷ 20 ∷ []) 4 links-IsList (omega arith)

-- The elements 10 and 20.
abbrev sorted_links : Links
sorted_links = record {
  next = λ a. if a == 1 then 10 else (if a == 10 then 20 else (if a == 20 then 2 else 0));
  prev = λ a. if a == 2 then 20 else (if a == 20 then 10 else (if a == 10 then 1 else 0));
}

sorted_links-IsList : IsList sorted_links ends (10 ∷ 20 ∷ [])
sorted_links-IsList = record {
  chain = (refl, refl, (refl, refl, (refl, refl)));
  once = λ t. ground arith;
  first = refl;
  last = refl;
}

list_sort-IsSortedList_example :
    Returns (IsSortedList ltb ends (10 ∷ 30 ∷ 20 ∷ [])) (list_sort ltb 4 ends links)
list_sort-IsSortedList_example =
    list_sort-IsSortedList ltb ltb_asym ends links (10 ∷ 30 ∷ 20 ∷ []) 4 links-IsList (omega arith)
      (omega arith)

sort_test : (list_sort ltb 4 ends links >>= (λ h'. ok (h'.next 10))) ≡ ok 20
unfolding list_sort sort_loop pass_loop find_end_of_run run_loop inplace_merge merge_loop is_sorted
    sorted_loop list_next list_prev list_splice
sort_test = refl
