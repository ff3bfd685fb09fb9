-- ===== src/Hash/Delete.antt =====
-- hash_delete and hash_replace of lib/kernel/hash.c take an element out of the table.
use os_project.Common.{
  ℕ, ◌+◌, ◌<◌, ◌≡◌, ◌≢◌, refl, sym, ap, ◌∙◌, Bool, ◌==◌, u32, count, one_if, count-append, length,
  length-append, arith, ℕ_discrete,
}
use os_project.Links.Lists.{ne-false}
use os_project.Hash.{Table, find_bucket, remove, remove_elem}
use os_project.Hash.Elements.{
  elements, gather, gather-put, gather_same, put, count-gather, remove_absent, count-remove,
  count-remove_le, length-remove, equal-true,
}
use os_project.Hash.Find.{IsTable, IsPlaced, ok_injective}

module _ (hash : ℕ → ℕ) (less : ℕ → ℕ → Bool) (h : Table) (e : ℕ) (t : IsTable hash less h)
    (inside : 0 < count e (elements h)) where
  bucket : (i : ℕ) × (i < h.bucket_cnt) × (0 < count e (h.buckets i))
  bucket = count-gather h.bucket_cnt h.buckets e inside

  -- The element is in no other bucket.
  elsewhere_none : (j : ℕ) → j < h.bucket_cnt → j ≢ bucket.0 → count e (h.buckets j) ≡ 0
  elsewhere_none j below other = elim (ℕ_discrete (count e (h.buckets j)) 0) [
    | yes nowhere ↦ nowhere
    | no somewhere ↦
        let there = t.layout.placed j e below (omega (arith, somewhere)) in
        let here = t.layout.placed bucket.0 e bucket.1 bucket.2 in
        let no : ⊥ = other (ok_injective j bucket.0 (sym there ∙ here)) in elim no [ ]
  ]

  removed_once :
      gather h.bucket_cnt (λ j. remove e (h.buckets j))
      ≡ gather h.bucket_cnt (put h.buckets bucket.0 (remove e (h.buckets bucket.0)))
  removed_once = gather_same h.bucket_cnt _ _ (λ j below. elim (ℕ_discrete j bucket.0) [
    | yes here ↦ rw (equal-true j bucket.0 here) (ap (λ k. remove e (h.buckets k)) here)
    | no other ↦
        rw (ne-false j bucket.0 other)
          (remove_absent e (h.buckets j) (elsewhere_none j below other))
  ])

  pub remove_elem-counts :
      (u : ℕ) → count u (elements (remove_elem h e)) + one_if (e == u) ≡ count u (elements h)
  unfolding remove_elem
  remove_elem-counts u = omega (
    arith,
    ap (λ us. count u us) removed_once,
    gather-put (λ us. count u us) (count-append u) h.bucket_cnt bucket.0 h.buckets
        (remove e (h.buckets bucket.0)) bucket.1,
    count-remove u e (h.buckets bucket.0) bucket.2,
  )

  pub remove_elem-length : length (elements (remove_elem h e)) + 1 ≡ length (elements h)
  unfolding remove_elem
  remove_elem-length = omega (
    arith,
    ap (λ us. length us) removed_once,
    gather-put (λ us. length us) length-append h.bucket_cnt bucket.0 h.buckets
        (remove e (h.buckets bucket.0)) bucket.1,
    length-remove e (h.buckets bucket.0) bucket.2,
  )

  pub remove_elem-bucket_cnt : (remove_elem h e).bucket_cnt ≡ h.bucket_cnt
  unfolding remove_elem
  remove_elem-bucket_cnt = refl

  pub remove_elem-find_bucket :
      (x : ℕ) → find_bucket hash (remove_elem h e) x ≡ find_bucket hash h x
  unfolding remove_elem find_bucket
  remove_elem-find_bucket x = refl

  remove_elem-IsPlaced : IsPlaced hash less (remove_elem h e)
  unfolding remove_elem find_bucket
  remove_elem-IsPlaced = record {
    digits = t.layout.digits;
    power = t.layout.power;
    few = t.layout.few;
    four = t.layout.four;
    placed = λ i x below there.
        t.layout.placed i x below (omega (arith, there, count-remove_le x e (h.buckets i)));
  }

  remove_elem-cnt : (remove_elem h e).elem_cnt ≡ u32 (h.elem_cnt + 0xffff_ffff)
  unfolding remove_elem
  remove_elem-cnt = refl

  pub remove_elem-IsTable :
      length (elements h) < 0x1_0000_0000 → IsTable hash less (remove_elem h e)
  remove_elem-IsTable short = record {
    layout = remove_elem-IsPlaced;
    counted = remove_elem-cnt ∙ omega (arith, t.counted, remove_elem-length, short);
    once = λ u. omega (arith, t.once u, remove_elem-counts u);
    apart = λ a b i j.
        t.apart a b (omega (arith, i, remove_elem-counts a))
          (omega (arith, j, remove_elem-counts b));
  }
