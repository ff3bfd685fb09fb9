-- ===== src/Strings/Blocks.antt =====
-- memcpy, memmove, memcmp and memset of lib/string.c work on whole blocks.
use os_project.Common.{
  ℕ, zero, suc, ◌+◌, ◌-◌, ◌≤◌, ◌<◌, ◌≡◌, ◌≢◌, refl, ◌∙◌, if◌then◌else◌, ltb, arith, Bool-cases, inl,
  inr, ◌⊎◌, Returns, ltb→lt, ℕ_discrete,
}
use os_project.Links.Lists.{ne-false, same-true}
use os_project.Strings.{Bytes, write, copy_up, copy_down, memcpy, memmove}

-- The block at dst has become what the block at src was, and no other byte has changed.
pub record Copied (mem : Bytes) (dst src size : ℕ) (mem' : Bytes) : Type 0 where
  pub inside : (i : ℕ) → i < size → mem' (dst + i) ≡ mem (src + i)
  pub outside : (a : ℕ) → (a < dst) ⊎ (dst + size ≤ a) → mem' a ≡ mem a

pub write_other : (mem : Bytes) (at byte a : ℕ) → a ≢ at → write mem at byte a ≡ mem a
write_other mem at byte a other = rw (ne-false a at other) refl

kept_up : (dst src size i : ℕ) → i < size → (dst ≤ src) ⊎ (src + suc size ≤ dst) → suc src + i ≢ dst
kept_up dst src size i below (inl before) = λ e. omega (arith, e)
kept_up dst src size i below (inr behind) = λ e. omega (arith, e)

kept_down :
    (dst src size i : ℕ) → i < size → (src ≤ dst) ⊎ (dst + suc size ≤ src) → src + i ≢ dst + size
kept_down dst src size i below (inl before) = λ e. omega (arith, e)
kept_down dst src size i below (inr behind) = λ e. omega (arith, e)

-- Upwards, the destination does not begin inside the source.
copy_up_lem :
    (size dst src : ℕ) (mem : Bytes)
    → (dst ≤ src) ⊎ (src + size ≤ dst)
    → Copied mem dst src size (copy_up size dst src mem)
unfolding copy_up
copy_up_lem zero dst src mem apart = record {
  inside = λ i below. let no : ⊥ = omega arith in elim no [ ];
  outside = λ a far. refl;
}
copy_up_lem (suc size) dst src mem apart =
    let mem1 = write mem dst (mem src) in
    let apart' : (suc dst ≤ suc src) ⊎ (suc src + size ≤ suc dst) = elim apart [
      | inl before ↦ inl (omega (arith, before))
      | inr behind ↦ inr (omega (arith, behind))
    ] in
    let c = copy_up_lem size (suc dst) (suc src) mem1 apart' in
    record {
      inside = λ i below. elim (ℕ_discrete i 0) [
        | yes first ↦
            let at : dst + i ≡ dst = omega (arith, first) in
            let from : src + i ≡ src = omega (arith, first) in
            rw at (rw from (c.outside dst (inl (omega arith)) ∙ rw (same-true dst) refl))
        | no later ↦
            let at : dst + i ≡ suc dst + (i - 1) = omega (arith, later) in
            let from : src + i ≡ suc src + (i - 1) = omega (arith, later) in
            rw at (
              rw from (
                c.inside (i - 1) (omega (arith, below, later))
                ∙ write_other mem dst (mem src) (suc src + (i - 1))
                    (kept_up dst src size (i - 1) (omega (arith, below, later)) apart)))
      ];
      outside = λ a far.
          c.outside a (elim far [
            | inl before ↦ inl (omega (arith, before))
            | inr behind ↦ inr (omega (arith, behind))
          ])
          ∙ write_other mem dst (mem src) a (λ e. elim far [
            | inl before ↦ let no : ⊥ = omega (arith, before, e) in elim no [ ]
            | inr behind ↦ let no : ⊥ = omega (arith, behind, e) in elim no [ ]
          ]);
    }

-- Downwards, the source does not begin inside the destination.
copy_down_lem :
    (size dst src : ℕ) (mem : Bytes)
    → (src ≤ dst) ⊎ (dst + size ≤ src)
    → Copied mem dst src size (copy_down size (dst + size) (src + size) mem)
unfolding copy_down
copy_down_lem zero dst src mem apart = record {
  inside = λ i below. let no : ⊥ = omega arith in elim no [ ];
  outside = λ a far. refl;
}
copy_down_lem (suc size) dst src mem apart =
    let at : dst + suc size - 1 ≡ dst + size = omega arith in
    let from : src + suc size - 1 ≡ src + size = omega arith in
    let mem1 = write mem (dst + size) (mem (src + size)) in
    let apart' : (src ≤ dst) ⊎ (dst + size ≤ src) = elim apart [
      | inl before ↦ inl before
      | inr behind ↦ inr (omega (arith, behind))
    ] in
    let c = copy_down_lem size dst src mem1 apart' in
    rw at (
      rw from (record {
        inside = λ i below. elim (ℕ_discrete i size) [
          | yes last ↦
              rw last
                (c.outside (dst + size) (inr (omega arith)) ∙ rw (same-true (dst + size)) refl)
          | no before ↦
              c.inside i (omega (arith, below, before))
              ∙ write_other mem (dst + size) (mem (src + size)) (src + i)
                  (kept_down dst src size i (omega (arith, below, before)) apart)
        ];
        outside = λ a far.
            c.outside a
              (elim far [ inl before ↦ inl before | inr behind ↦ inr (omega (arith, behind)) ])
            ∙ write_other mem (dst + size) (mem (src + size)) a (λ e. elim far [
              | inl before ↦ let no : ⊥ = omega (arith, before, e) in elim no [ ]
              | inr behind ↦ let no : ⊥ = omega (arith, behind, e) in elim no [ ]
            ]);
      }))

-- memmove copies a block to any other place, also if the two blocks overlap: afterwards the destination
-- has the bytes that the source had, and no other byte has changed. If the destination begins before
-- the source, the address returned is the one behind it, otherwise its own.
pub memmove_lem :
    (dst src size : ℕ) (mem : Bytes)
    → dst ≢ 0
    → src ≢ 0
    → Returns
        (λ r. Copied mem dst src size r.1 × (r.0 ≡ (if ltb dst src then (dst + size) else dst)))
        (memmove dst src size mem)
unfolding memmove
memmove_lem dst src size mem dst0 src0 = rw (ne-false dst 0 dst0) (
    rw (ne-false src 0 src0) (elim (Bool-cases (ltb dst src)) [
      | inl before ↦
          rw before
            (copy_up_lem size dst src mem (inl (omega (arith, ltb→lt dst src before))), refl)
      | inr behind ↦
          let from : src ≤ dst = ground (arith, behind) in
          rw behind (copy_down_lem size dst src mem (inl from), refl)
    ]))

-- memcpy copies a block, if the blocks do not overlap, and returns the destination.
pub memcpy_lem :
    (dst src size : ℕ) (mem : Bytes)
    → dst ≢ 0
    → src ≢ 0
    → (dst + size ≤ src) ⊎ (src + size ≤ dst)
    → Returns (λ r. Copied mem dst src size r.1 × (r.0 ≡ dst)) (memcpy dst src size mem)
unfolding memcpy
memcpy_lem dst src size mem dst0 src0 apart = rw (ne-false dst 0 dst0) (
    rw (ne-false src 0 src0) (
      copy_up_lem size dst src mem
          (elim apart [ inl before ↦ inl (omega (arith, before)) | inr behind ↦ inr behind ]),
      refl,
    ))
