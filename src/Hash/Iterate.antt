-- ===== src/Hash/Iterate.antt =====
-- Going through the elements of a table of lib/kernel/hash.c.
use mathlib.Core.List.{append_assoc, append-nil}
use os_project.Common.{
  ℕ, zero, suc, ◌+◌, ◌-◌, ◌≤◌, ◌<◌, ◌≡◌, refl, sym, ap, ◌∙◌, true, false, if◌then◌else◌, leb, List,
  [], ◌∷◌, ◌++◌, length, Option, none, some, Result, ok, err, assertion, out_of_fuel, ◌>>=◌, arith,
  Returns,
}
use os_project.Hash.{Table, act_all, apply_loop, hash_apply}
use os_project.Hash.Elements.{elements, gather, from_bucket}

-- `struct hash_iterator`. The element is a place in its bucket: `rest` are the elements behind it. It is
-- the bucket's head before the first call of hash_next, and then `cur` is `none`, as at the end.
pub record Iterator : Type 0 where
  pub bucket : ℕ
  pub rest : List ℕ
  pub cur : Option ℕ

unfoldable pub hash_first : Table → Iterator
hash_first h = record { bucket = 0; rest = h.buckets 0; cur = none }

-- The loop of hash_next, at a place before the elements `rest`.
unfoldable pub next_loop : ℕ → Table → ℕ → List ℕ → Result (Option ℕ × Iterator)
next_loop fuel h bucket (elem ∷ rest) =
    ok (some elem, record { bucket = bucket; rest = rest; cur = some elem })
next_loop zero h bucket [] = err out_of_fuel
next_loop (suc fuel) h bucket [] =
    if leb h.bucket_cnt (suc bucket)
    then ok (none, record { bucket = suc bucket; rest = []; cur = none })
    else next_loop fuel h (suc bucket) (h.buckets (suc bucket))

-- At the end, the element is NULL, and list_next asserts that it is not.
unfoldable pub hash_next : ℕ → Table → Iterator → Result (Option ℕ × Iterator)
hash_next fuel h i =
    if leb h.bucket_cnt i.bucket then err assertion else next_loop fuel h i.bucket i.rest

-- The elements behind the iterator's place, n buckets behind its own.
abbrev ahead : ℕ → Table → ℕ → List ℕ → List ℕ
ahead n h bucket rest = rest ++ from_bucket n (suc bucket) h.buckets

-- What hash_next does when `todo` is ahead.
abbrev Stepped : Table → List ℕ → Option ℕ → Iterator → Type 0
Stepped h todo none i = todo ≡ []
Stepped h todo (some x) i =
    (n : ℕ) × (i.bucket + suc n ≡ h.bucket_cnt) × (todo ≡ x ∷ ahead n h i.bucket i.rest)

next_loop_lem :
    (fuel n : ℕ) (h : Table) (bucket : ℕ) (rest : List ℕ)
    → bucket + suc n ≡ h.bucket_cnt
    → n < fuel
    → Returns (λ r. Stepped h (ahead n h bucket rest) r.0 r.1) (next_loop fuel h bucket rest)
unfolding next_loop
next_loop_lem fuel n h bucket (x ∷ rest) last enough = (n, last, refl)
next_loop_lem zero n h bucket [] last enough = let no : ⊥ = omega arith in elim no [ ]
next_loop_lem (suc fuel) zero h bucket [] last enough =
    let done : leb h.bucket_cnt (suc bucket) ≡ true = ground (arith, last) in rw done refl
next_loop_lem (suc fuel) (suc n) h bucket [] last enough =
    let more : leb h.bucket_cnt (suc bucket) ≡ false = ground (arith, last) in
    rw more (
      next_loop_lem fuel n h (suc bucket) (h.buckets (suc bucket)) (omega (arith, last))
        (omega arith))

abbrev pub go_on : Option ℕ → Result (List ℕ) → Result (List ℕ)
go_on none later = ok []
go_on (some x) later = do xs ← later; ok (x ∷ xs)

-- The loop `while (hash_next (&i))`, which notes the elements.
unfoldable pub visit : ℕ → ℕ → Table → Iterator → Result (List ℕ)
visit zero fuel h i = err out_of_fuel
visit (suc rounds) fuel h i = do
  (found, i') ← hash_next fuel h i
  go_on found (visit rounds fuel h i')

Returns-bind_eq :
    {A B : Type 0} (P : A → Type 0) (call : Result A) (k : A → Result B) (v : Result B)
    → Returns P call
    → ((a : A) → P a → k a ≡ v)
    → (call >>= k) ≡ v
Returns-bind_eq P (ok a) k v r e = e a r
Returns-bind_eq P (err fault) k v r e = elim r [ ]

-- One round, when the rounds behind it find what is ahead.
visit_step :
    (h : Table) (todo : List ℕ) (i : Iterator) (later : Result (List ℕ)) (found : Option ℕ)
    → Stepped h todo found i
    → ((n : ℕ)
        → i.bucket + suc n ≡ h.bucket_cnt
        → length (ahead n h i.bucket i.rest) < length todo
        → later ≡ ok (ahead n h i.bucket i.rest))
    → go_on found later ≡ ok todo
visit_step h todo i later none st rest = ap ok (sym st)
visit_step h todo i later (some x) (n, last, e) rest =
    rw (rest n last (omega (arith, ap (λ us. length us) e))) (ap ok (sym e))

visit_lem :
    (rounds fuel n : ℕ) (h : Table) (i : Iterator)
    → i.bucket + suc n ≡ h.bucket_cnt
    → h.bucket_cnt ≤ fuel
    → length (ahead n h i.bucket i.rest) < rounds
    → visit rounds fuel h i ≡ ok (ahead n h i.bucket i.rest)
unfolding visit hash_next
visit_lem zero fuel n h i last enough long = let no : ⊥ = omega arith in elim no [ ]
visit_lem (suc rounds) fuel n h i last enough long =
    let not_ended : leb h.bucket_cnt i.bucket ≡ false = ground (arith, last) in
    rw not_ended (
      Returns-bind_eq (λ r. Stepped h (ahead n h i.bucket i.rest) r.0 r.1)
        (next_loop fuel h i.bucket i.rest) (λ r. go_on r.0 (visit rounds fuel h r.1))
        (ok (ahead n h i.bucket i.rest))
        (next_loop_lem fuel n h i.bucket i.rest last (omega (arith, last, enough)))
        (λ r st.
          visit_step h (ahead n h i.bucket i.rest) r.1 (visit rounds fuel h r.1) r.0 st
            (λ n' last' less.
              visit_lem rounds fuel n' h r.1 last' enough (omega (arith, less, long)))))

from_bucket-gather : (n i : ℕ) (f : ℕ → List ℕ) → gather i f ++ from_bucket n i f ≡ gather (i + n) f
from_bucket-gather zero i f =
    let e : i ≡ i + 0 = omega arith in append-nil (gather i f) ∙ ap (λ k. gather k f) e
from_bucket-gather (suc n) i f =
    let e : suc i + n ≡ i + suc n = omega arith in
    sym (append_assoc (gather i f) (f i) (from_bucket n (suc i) f))
    ∙ from_bucket-gather n (suc i) f
    ∙ ap (λ k. gather k f) e

-- The loop that the comment at hash_first shows comes to an end and meets the elements of the table,
-- each as often as it is there, if the table has a bucket; the loop inside hash_next has as many rounds
-- as there are buckets.
pub hash_next_lem :
    (h : Table)
    → 0 < h.bucket_cnt
    → visit (suc (length (elements h))) h.bucket_cnt h (hash_first h) ≡ ok (elements h)
unfolding hash_first
hash_next_lem h some_bucket =
    let n = h.bucket_cnt - 1 in
    let all : ahead n h 0 (h.buckets 0) ≡ elements h =
      let e : 0 + suc n ≡ h.bucket_cnt = omega (arith, some_bucket) in
      from_bucket-gather (suc n) 0 h.buckets ∙ ap (λ k. gather k h.buckets) e in
    visit_lem (suc (length (elements h))) h.bucket_cnt n h (hash_first h)
      (omega (arith, some_bucket)) (omega arith) (omega (arith, ap (λ us. length us) all))
    ∙ ap ok all

act_all-append :
    {State : Type 0} (action : ℕ → State → State) (xs ys : List ℕ) (s : State)
    → act_all action (xs ++ ys) s ≡ act_all action ys (act_all action xs s)
act_all-append action [] ys s = refl
act_all-append action (x ∷ xs) ys s = act_all-append action xs ys (action x s)

pub apply_loop_lem :
    {State : Type 0} (rounds i : ℕ) (h : Table) (action : ℕ → State → State) (s : State)
    → apply_loop rounds i h action s ≡ act_all action (from_bucket rounds i h.buckets) s
unfolding apply_loop
apply_loop_lem zero i h action s = refl
apply_loop_lem (suc rounds) i h action s =
    apply_loop_lem rounds (suc i) h action (act_all action (h.buckets i) s)
    ∙ sym (act_all-append action (h.buckets i) (from_bucket rounds (suc i) h.buckets) s)

pub apply_all_lem :
    {State : Type 0} (h : Table) (action : ℕ → State → State) (s : State)
    → apply_loop h.bucket_cnt 0 h action s ≡ act_all action (elements h) s
apply_all_lem h action s =
    let e : 0 + h.bucket_cnt ≡ h.bucket_cnt = omega arith in
    apply_loop_lem h.bucket_cnt 0 h action s
    ∙ ap (λ us. act_all action us s)
        (from_bucket-gather h.bucket_cnt 0 h.buckets ∙ ap (λ k. gather k h.buckets) e)

-- hash_apply calls the action on the elements of the table, one after the other.
pub hash_apply_lem :
    {State : Type 0} (h : Table) (action : ℕ → State → State) (s : State)
    → hash_apply h action s ≡ act_all action (elements h) s
unfolding hash_apply
hash_apply_lem h action s = apply_all_lem h action s
