-- ===== src/Links/Passes.antt =====
-- list_sort of lib/kernel/list.c: the passes over the list, and what they come to.
use mathlib.Core.Path.{subst}
use mathlib.Core.List.{append_assoc}
use os_project.Common.{
  ℕ, zero, suc, ◌+◌, ◌*◌, ◌≤◌, ◌<◌, ◌≡◌, refl, sym, ap, ◌∙◌, List, [], ◌∷◌, ◌++◌, ◌==◌, arith,
  count, count-append, length, length-append, Result, ok, true, false, Bool, ◌>>=◌, if◌then◌else◌,
  Returns, Returns-bind, Returns-weaken, u32,
}
use os_project.Links.{Links, Ends}
use os_project.Links.Chain.{front_or}
use os_project.Links.Lists.{IsList, ne-false, same-true}
use os_project.Links.Walk.{not_end}
use os_project.Links.Merge.{
  descents_from, runs, merge, run_of, after_run, run_split, descents_from-run, runs-after_run,
  runs-append, runs-merge, count-merge, length-merge,
}
use os_project.Links.Order.{find_end_of_run, inplace_merge, pass_loop}
use os_project.Links.Runs.{find_end_of_run_lem, inplace_merge_lem}

module _ (less : ℕ → ℕ → Bool) where
  -- What a pass does with the elements xs: they are put in another order, with half as many runs, and
  -- the runs that it counts are at least those that are left.
  pub record Passed (l : Ends) (us xs : List ℕ) (cnt : ℕ) (r : ℕ × Links) : Type 0 where
    pub others : List ℕ
    pub rounds : ℕ
    pub list : IsList r.1 l (us ++ others)
    pub same : (t : ℕ) → count t others ≡ count t xs
    pub size : length others ≡ length xs
    pub counted : r.0 ≡ u32 (cnt + rounds)
    pub halved : rounds * 2 ≤ runs less xs + 1
    pub left : runs less others ≤ rounds

  module _ (asym : (a b : ℕ) → less a b ≡ true → less b a ≡ false) (l : Ends) (us : List ℕ) (x : ℕ)
      (ls : List ℕ) (y : ℕ) (rs vs : List ℕ) (cnt : ℕ) (xs : List ℕ)
      (split : xs ≡ x ∷ (ls ++ (y ∷ (rs ++ vs)))) (sorted : descents_from less x ls ≡ 0)
      (sorted' : descents_from less y rs ≡ 0) (parted : runs less xs ≡ 2 + runs less vs) where
    -- A round, and the rounds after it.
    Passed-cons :
        (r : ℕ × Links)
        → Passed l (us ++ merge less (x ∷ ls) (y ∷ rs)) vs (u32 (cnt + 1)) r
        → Passed l us xs cnt r
    Passed-cons r p =
        let merged = merge less (x ∷ ls) (y ∷ rs) in
        record {
          others = merged ++ p.others;
          rounds = suc p.rounds;
          list = subst (IsList r.1 l) (append_assoc us merged p.others) p.list;
          same = λ t. omega (
            arith,
            count-append t merged p.others,
            count-merge less t (x ∷ ls) (y ∷ rs),
            p.same t,
            ap (λ us. count t us) split,
            count-append t ls (y ∷ (rs ++ vs)),
            count-append t rs vs,
          );
          size = omega (
            arith,
            length-append merged p.others,
            length-merge less (x ∷ ls) (y ∷ rs),
            p.size,
            ap (λ us. length us) split,
            length-append ls (y ∷ (rs ++ vs)),
            length-append rs vs,
          );
          counted = p.counted ∙ omega arith;
          halved = omega (arith, p.halved, parted);
          left = omega (
            arith,
            p.left,
            runs-append less merged p.others,
            runs-merge less x ls y rs asym sorted sorted',
          );
        }

  -- A pass over what is left of the list, with so much fuel.
  abbrev PassesWith : ℕ → ℕ → Ends → Type 0
  PassesWith fuel rounds l =
      (h : Links) (us xs : List ℕ) (cnt : ℕ)
      → IsList h l (us ++ xs)
      → length xs < fuel
      → length xs < rounds
      → cnt < 0x1_0000_0000
      → Returns (Passed l us xs cnt) (pass_loop less rounds fuel l.tail (front_or xs l.tail) cnt h)

  -- A round, once the end of the first run is known.
  abbrev round : ℕ → ℕ → Ends → ℕ → ℕ → ℕ → Links → Result (ℕ × Links)
  round fuel rounds l a0 a1b0 cnt h = if a1b0 == l.tail then ok (u32 (cnt + 1), h) else (do
    b1 ← find_end_of_run less rounds a1b0 l.tail h
    h' ← inplace_merge less rounds a0 a1b0 b1 h
    pass_loop less rounds fuel l.tail b1 (u32 (cnt + 1)) h')

  module _ (asym : (a b : ℕ) → less a b ≡ true → less b a ≡ false) (l : Ends) (fuel rounds : ℕ)
      (next_rounds : PassesWith fuel rounds l) (h : Links) (us : List ℕ) (x : ℕ) (xs : List ℕ)
      (cnt : ℕ) (s : IsList h l (us ++ (x ∷ xs))) (enough : length xs < fuel)
      (inner : suc (length xs) < rounds) (cnt_u32 : cnt < 0x1_0000_0000) where
    one_run : after_run less x xs ≡ [] → Passed l us (x ∷ xs) cnt (u32 (cnt + 1), h)
    one_run e = record {
      others = x ∷ xs;
      rounds = 1;
      list = s;
      same = λ t. refl;
      size = refl;
      counted = refl;
      halved = omega arith;
      left = omega (arith, runs-after_run less x xs, ap (runs less) e);
    }

    two_runs :
        (ls : List ℕ) (y : ℕ) (rs vs : List ℕ)
        → xs ≡ ls ++ (y ∷ (rs ++ vs))
        → descents_from less x ls ≡ 0
        → descents_from less y rs ≡ 0
        → descents_from less x xs ≡ 1 + runs less vs
        → Returns (Passed l us (x ∷ xs) cnt) (
            inplace_merge less rounds x y (front_or vs l.tail) h
            >>= (λ h'. pass_loop less rounds fuel l.tail (front_or vs l.tail) (u32 (cnt + 1)) h'))
    two_runs ls y rs vs split dx dy parted =
        let merged = merge less (x ∷ ls) (y ∷ rs) in
        let size : length xs ≡ length ls + suc (length rs + length vs) = omega (
          arith,
          ap (λ us. length us) split,
          length-append ls (y ∷ (rs ++ vs)),
          length-append rs vs,
        ) in
        Returns-bind (λ h'. IsList h' l (us ++ (merged ++ vs))) (Passed l us (x ∷ xs) cnt)
          (inplace_merge less rounds x y (front_or vs l.tail) h) _
          (inplace_merge_lem less h l us x ls y rs vs rounds
            (subst (λ ws. IsList h l (us ++ (x ∷ ws))) split s) dx dy (omega (arith, size)))
          (λ h' i.
            Returns-weaken (Passed l (us ++ merged) vs (u32 (cnt + 1))) (Passed l us (x ∷ xs) cnt)
              (pass_loop less rounds fuel l.tail (front_or vs l.tail) (u32 (cnt + 1)) h')
              (Passed-cons asym l us x ls y rs vs cnt (x ∷ xs) (ap (λ ws. x ∷ ws) split) dx dy
                (omega (arith, parted)))
              (next_rounds h' (us ++ merged) vs (u32 (cnt + 1))
                (subst (IsList h' l) (sym (append_assoc us merged vs)) i) (omega (arith, size))
                (omega (arith, size)) (omega arith)))

    round_lem :
        (rest : List ℕ)
        → after_run less x xs ≡ rest
        → Returns (Passed l us (x ∷ xs) cnt) (round fuel rounds l x (front_or rest l.tail) cnt h)
    round_lem [] e = rw (same-true l.tail) (one_run e)
    round_lem (y ∷ ys) e =
        let ls = run_of less x xs in
        let split = subst (λ ws. xs ≡ ls ++ ws) e (sym (run_split less x xs)) in
        let at_y =
          subst (IsList h l) (sym (append_assoc us (x ∷ ls) (y ∷ ys)))
            (subst (λ ws. IsList h l (us ++ (x ∷ ws))) split s) in
        let few : length ys < rounds =
          omega (arith, ap (λ us. length us) split, length-append ls (y ∷ ys)) in
        rw (ne-false y l.tail (not_end h l (us ++ (x ∷ ls)) y ys at_y)) (
          rw (find_end_of_run_lem less h l (us ++ (x ∷ ls)) y ys rounds at_y few) (
            two_runs ls y (run_of less y ys) (after_run less y ys)
              (split ∙ ap (λ ws. ls ++ (y ∷ ws)) (sym (run_split less y ys)))
              (descents_from-run less x xs) (descents_from-run less y ys)
              (omega
                (arith, runs-after_run less x xs, ap (runs less) e, runs-after_run less y ys))))

  pub pass_loop_lem :
      (fuel rounds : ℕ) (l : Ends)
      → ((a b : ℕ) → less a b ≡ true → less b a ≡ false)
      → PassesWith fuel rounds l
  unfolding pass_loop
  pass_loop_lem zero rounds l asym h us xs cnt s enough inner c =
      let no : ⊥ = omega arith in elim no [ ]
  pass_loop_lem (suc fuel) rounds l asym h us [] cnt s enough inner c =
      rw (same-true l.tail) (record {
        others = [];
        rounds = 0;
        list = s;
        same = λ t. refl;
        size = refl;
        counted = omega (arith, c);
        halved = omega arith;
        left = omega arith;
      })
  pass_loop_lem (suc fuel) rounds l asym h us (x ∷ xs) cnt s enough inner c =
      rw (ne-false x l.tail (not_end h l us x xs s)) (
        rw (find_end_of_run_lem less h l us x xs rounds s (omega arith)) (
          round_lem asym l fuel rounds (pass_loop_lem fuel rounds l asym) h us x xs cnt s
            (omega arith) (omega arith) c (after_run less x xs) refl))
