-- ===== src/Links/Splice.antt =====
-- list_splice of lib/kernel/list.c, used to move one element to a place further to the front.
use mathlib.Core.Path.{subst}
use mathlib.Core.List.{append_assoc}
use os_project.Common.{
  ℕ, ◌≡◌, ◌≢◌, refl, sym, List, [], ◌∷◌, ◌++◌, ◌==◌, arith, count-append, Result, ok, not, true,
  false, Bool, ◌||◌, ◌>>=◌, ◌>>◌, assert, Returns, Returns-bind, Returns-assert,
}
use os_project.Links.{
  Links, Ends, list_remove, list_insert, list_splice, list_prev, is_interior, is_tail, set_next,
  set_prev,
}
use os_project.Links.Chain.{front_or, count_self, count-ne, count-front_or}
use os_project.Links.Lists.{IsList, Fresh, count-halves, ne-false}
use os_project.Links.Walk.{prev-IsList, interior-IsList}
use os_project.Links.Insert.{list_insert-IsList}
use os_project.Links.Remove.{list_remove-IsList}

Returns-asserted :
    {A : Type 0} (P : A → Type 0) (b : Bool) (rest : Result A)
    → Returns P (assert b >> rest)
    → Returns P rest
Returns-asserted P true rest r = r
Returns-asserted P false rest r = elim r [ ]

Returns-passed :
    {A B : Type 0} (P : B → Type 0) (b : Bool) (rest : Result A) (then_ : A → Result B)
    → Returns P ((assert b >> rest) >>= then_)
    → Returns P (rest >>= then_)
Returns-passed P true rest then_ r = r
Returns-passed P false rest then_ r = elim r [ ]

-- The links after list_remove, and after list_insert.
abbrev taken : Links → ℕ → Links
taken h e = let h1 = set_next h (h.prev e) (h.next e) in set_prev h1 (h1.next e) (h1.prev e)

abbrev placed : Links → ℕ → ℕ → Links
placed h before e =
    let h2 = set_next (set_prev h e (h.prev before)) e before in
    set_prev (set_next h2 (h2.prev before) e) before e

insert_done :
    (P : Links → Type 0) (h : Links) (before e : ℕ)
    → Returns P (list_insert before e h)
    → P (placed h before e)
unfolding list_insert
insert_done P h before e r = Returns-asserted P (not (e == 0)) (ok (placed h before e)) (
    Returns-asserted P (is_interior h before || is_tail h before)
      (do assert (not (e == 0)); ok (placed h before e)) r)

remove_done :
    (P : Links → Type 0) (h : Links) (before e : ℕ)
    → Returns P (list_remove e h >>= (λ r. list_insert before e r.1))
    → Returns P (list_insert before e (taken h e))
unfolding list_remove
remove_done P h before e r =
    Returns-passed P (is_interior h e) (ok ((taken h e).next e, taken h e))
      (λ r. list_insert before e r.1) r

-- Moving one element is taking it out and putting it in.
splice_one :
    (P : Links → Type 0) (h : Links) (before e after : ℕ)
    → (is_interior h before || is_tail h before) ≡ true
    → e ≢ after
    → list_prev after h ≡ ok e
    → is_interior h e ≡ true
    → Returns P (list_remove e h >>= (λ r. list_insert before e r.1))
    → Returns P (list_splice before e after h)
unfolding list_splice
splice_one P h before e after place other last inside moved =
    Returns-assert P (is_interior h before || is_tail h before) _ place (
      rw (ne-false e after other) (
        rw last (
          Returns-assert P (is_interior h e) _ inside (
            Returns-assert P (is_interior h e) _ inside
              (insert_done P (taken h e) before e (remove_done P h before e moved))))))

-- The element b, behind a in the list, is moved before a.
pub move-IsList :
    (h : Links) (l : Ends) (us : List ℕ) (a : ℕ) (ls : List ℕ) (b : ℕ) (rs : List ℕ)
    → IsList h l (us ++ (a ∷ (ls ++ (b ∷ rs))))
    → Returns
        (λ h'. IsList h' l (us ++ (b ∷ (a ∷ (ls ++ rs)))))
        (list_splice a b (front_or rs l.tail) h)
move-IsList h l us a ls b rs s =
    let After = λ (h' : Links). IsList h' l (us ++ (b ∷ (a ∷ (ls ++ rs)))) in
    let Taken =
      λ (r : ℕ × Links). (r.0 ≡ front_or rs l.tail) × IsList r.1 l ((us ++ (a ∷ ls)) ++ rs) in
    let at_b = subst (IsList h l) (sym (append_assoc us (a ∷ ls) (b ∷ rs))) s in
    let fresh : Fresh b l (us ++ (a ∷ (ls ++ rs))) = omega (
      arith,
      s.once b,
      count-halves b l us (a ∷ (ls ++ (b ∷ rs))),
      count-halves b l us (a ∷ (ls ++ rs)),
      count-append b ls (b ∷ rs),
      count-append b ls rs,
      count_self b [],
    ) in
    let m = front_or rs l.tail in
    splice_one After h a b (front_or rs l.tail)
      (rw (interior-IsList h l us a (ls ++ (b ∷ rs)) s) refl)
      (count-ne b m (rs ++ (l.tail ∷ []))
        (omega (
          arith,
          at_b.once m,
          count-halves m l (us ++ (a ∷ ls)) (b ∷ rs),
          count-append m rs (l.tail ∷ []),
        ))
        (count-front_or rs l.tail))
      (prev-IsList h l (us ++ (a ∷ ls)) b rs at_b) (interior-IsList h l (us ++ (a ∷ ls)) b rs at_b)
      (Returns-bind Taken After (list_remove b h) (λ r. list_insert a b r.1)
        (list_remove-IsList h l (us ++ (a ∷ ls)) rs b at_b)
        (λ r i.
          list_insert-IsList r.1 l us (a ∷ (ls ++ rs)) b
            (subst (IsList r.1 l) (append_assoc us (a ∷ ls) rs) i.1) fresh))
