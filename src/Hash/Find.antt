-- ===== src/Hash/Find.antt =====
-- Hash tables of lib/kernel/hash.c: what a table is, and what hash_find finds.
use mathlib.Core.Path.{subst}
use os_project.Common.{
  ℕ, ◌+◌, ◌^◌, ◌≤◌, ◌<◌, ◌≡◌, refl, sym, ap, ◌∙◌, Bool, true, false, if◌then◌else◌, ltb, List, [],
  ◌∷◌, Option, none, some, Result, ok, err, u32, count, length, arith, Bool-cases, inl, inr,
  Returns,
}
use Prim.Native.Nat.{bit_and}
use os_project.Common.Bits.{bit_and-lt, pow_pos, pow-lt}
use os_project.Links.Chain.{count_self}
use os_project.Links.Extreme.{among}
use os_project.Hash.{Table, find_bucket, are_equal, find_elem, hash_find}
use os_project.Hash.Elements.{elements, count-gather, count-bucket}

-- What the caller's functions promise: equality, by `less` in neither direction, is an equivalence,
-- and equal elements have the same hash value.
pub record IsKeyed (hash : ℕ → ℕ) (less : ℕ → ℕ → Bool) : Type 0 where
  pub irrefl : (a : ℕ) → less a a ≡ false
  pub trans :
      (a b c : ℕ)
      → are_equal less a b ≡ true
      → are_equal less b c ≡ true
      → are_equal less a c ≡ true
  pub respects : (a b : ℕ) → are_equal less a b ≡ true → hash a ≡ hash b

lt→ltb : (a b : ℕ) → a < b → ltb a b ≡ true
lt→ltb a b below = ground (arith, below)

abbrev value_or : ℕ → Result ℕ → ℕ
value_or d (ok a) = a
value_or d (err fault) = d

pub ok_injective : (a b : ℕ) → ok a ≡ ok b → a ≡ b
ok_injective a b e = ap (value_or a) e

module _ (hash : ℕ → ℕ) (less : ℕ → ℕ → Bool) where
  -- The bucket count is a power of 2, at least 4, and every element is in its bucket.
  pub record IsPlaced (h : Table) : Type 0 where
    pub digits : ℕ
    pub power : h.bucket_cnt ≡ 2 ^ digits
    pub few : digits < 32
    pub four : 2 ≤ digits
    pub placed :
        (i t : ℕ) → i < h.bucket_cnt → 0 < count t (h.buckets i) → find_bucket hash h t ≡ ok i

  -- A hash table: its elements are counted, and no two of them are equal.
  pub record IsTable (h : Table) : Type 0 where
    pub layout : IsPlaced h
    pub counted : h.elem_cnt ≡ length (elements h)
    pub once : (t : ℕ) → count t (elements h) ≤ 1
    pub apart :
        (a b : ℕ)
        → 0 < count a (elements h)
        → 0 < count b (elements h)
        → are_equal less a b ≡ true
        → a ≡ b

  -- The bucket of an element is one of the table, if the bucket count is a power of 2.
  pub find_bucket_lem :
      (h : Table) (digits e : ℕ)
      → h.bucket_cnt ≡ 2 ^ digits
      → digits < 32
      → (i : ℕ) × (i < h.bucket_cnt) × (find_bucket hash h e ≡ ok i)
  unfolding find_bucket
  find_bucket_lem h digits e power few =
      let mask = u32 (h.bucket_cnt + 0xffff_ffff) in
      let all : h.bucket_cnt < 2 ^ 32 = omega (arith, power, pow-lt digits 32 few) in
      let in_mask : mask < 2 ^ digits = omega (arith, power, all, pow_pos digits) in
      let below : bit_and (hash e) mask < h.bucket_cnt =
        omega (arith, power, bit_and-lt digits (hash e) mask in_mask) in
      (bit_and (hash e) mask, below, rw (lt→ltb (bit_and (hash e) mask) h.bucket_cnt below) refl)

  -- What a search for e among the elements xs answers.
  abbrev pub IsFound : List ℕ → ℕ → Option ℕ → Type 0
  IsFound xs e none = (a : ℕ) → 0 < count a xs → are_equal less a e ≡ false
  IsFound xs e (some x) = (0 < count x xs) × (are_equal less x e ≡ true)

  IsFound-skip :
      (x : ℕ) (xs : List ℕ) (e : ℕ) (found : Option ℕ)
      → are_equal less x e ≡ false
      → IsFound xs e found
      → IsFound (x ∷ xs) e found
  IsFound-skip x xs e none other r = λ a i. elim (among a x xs i) [
    | inl same ↦ subst (λ u. are_equal less u e ≡ false) same other
    | inr j ↦ r a j
  ]
  IsFound-skip x xs e (some y) other (inside, equal) = (omega (arith, inside), equal)

  pub find_elem_lem : (xs : List ℕ) (e : ℕ) → IsFound xs e (find_elem less xs e)
  find_elem_lem [] e = λ a i. let no : ⊥ = omega (arith, i) in elim no [ ]
  find_elem_lem (x ∷ xs) e = elim (Bool-cases (are_equal less x e)) [
    | inl equal ↦
        subst (λ b. IsFound (x ∷ xs) e (if b then some x else find_elem less xs e)) (sym equal)
          (count_self x xs, equal)
    | inr other ↦
        subst (λ b. IsFound (x ∷ xs) e (if b then some x else find_elem less xs e)) (sym other)
          (IsFound-skip x xs e (find_elem less xs e) other (find_elem_lem xs e))
  ]

  same_bucket :
      (h : Table) (a b : ℕ) → hash a ≡ hash b → find_bucket hash h a ≡ find_bucket hash h b
  unfolding find_bucket
  same_bucket h a b e = rw e refl

  -- Only the element's bucket can hold an equal one.
  pub IsFound-elements :
      (h : Table) (e i : ℕ) (found : Option ℕ)
      → IsKeyed hash less
      → IsPlaced h
      → i < h.bucket_cnt
      → find_bucket hash h e ≡ ok i
      → IsFound (h.buckets i) e found
      → IsFound (elements h) e found
  IsFound-elements h e i none keyed p below at r = λ a inside.
      elim (Bool-cases (are_equal less a e)) [
        | inl equal ↦
            let (j, below_j, here) = count-gather h.bucket_cnt h.buckets a inside in
            let same = ok_injective j i (
              sym (p.placed j a below_j here)
              ∙ same_bucket h a e (keyed.respects a e equal)
              ∙ at) in
            r a (subst (λ k. 0 < count a (h.buckets k)) same here)
        | inr other ↦ other
      ]
  IsFound-elements h e i (some x) keyed p below at (inside, equal) =
      (omega (arith, inside, count-bucket h.bucket_cnt i h.buckets x below), equal)

  -- hash_find returns an element of the table that is equal to the given one, or NULL if there is none.
  pub hash_find_lem :
      (h : Table) (e : ℕ)
      → IsKeyed hash less
      → IsTable h
      → Returns (IsFound (elements h) e) (hash_find hash less h e)
  unfolding hash_find
  hash_find_lem h e keyed t =
      let (i, below, at) = find_bucket_lem h t.layout.digits e t.layout.power t.layout.few in
      rw at (IsFound-elements h e i _ keyed t.layout below at (find_elem_lem (h.buckets i) e))
