-- ===== src/Block/Kept.antt =====
-- Reading and writing in devices/block.c changes nothing of a device but its counters.
use mathlib.Core.Path.{subst}
use os_project.Common.{
  ℕ, zero, suc, ◌<◌, ◌≡◌, ◌≢◌, refl, ap, ◌∙◌, List, [], ◌∷◌, length, length-set, get_elem?, set,
  Option, some, arith, Returns, ℕ_discrete,
}
use os_project.Block.{Block, Blocks, update_count}

-- Two states of a device.
pub record Alike (blk blk' : Block) : Type 0 where
  pub sized : blk'.size ≡ blk.size
  pub driven : blk'.driver ≡ blk.driver
  pub typed : blk'.block_type ≡ blk.block_type
  pub named : blk'.name ≡ blk.name

-- The same devices.
abbrev pub Kept : List Block → List Block → Type 0
Kept blocks blocks' =
    (b : ℕ) (blk : Block)
    → get_elem? blocks b ≡ some blk
    → (blk' : Block) × (get_elem? blocks' b ≡ some blk') × Alike blk blk'

pub Alike-refl : (blk : Block) → Alike blk blk
Alike-refl blk = record { sized = refl; driven = refl; typed = refl; named = refl }

pub Alike-trans : {blk blk' blk'' : Block} → Alike blk blk' → Alike blk' blk'' → Alike blk blk''
Alike-trans a a' = record {
  sized = a'.sized ∙ a.sized;
  driven = a'.driven ∙ a.driven;
  typed = a'.typed ∙ a.typed;
  named = a'.named ∙ a.named;
}

pub Kept-refl : (blocks : List Block) → Kept blocks blocks
Kept-refl blocks b blk e = (blk, e, Alike-refl blk)

pub Kept-trans : (xs ys zs : List Block) → Kept xs ys → Kept ys zs → Kept xs zs
Kept-trans xs ys zs k k' b blk e =
    let (blk', e', a) = k b blk e in
    let (blk'', e'', a') = k' b blk' e' in (blk'', e'', Alike-trans a a')

get_elem?-set_self {ℓ} :
    {A : Type ℓ} (xs : List A) (i : ℕ) (v x : A)
    → get_elem? xs i ≡ some x
    → get_elem? (set xs i v) i ≡ some v
get_elem?-set_self [] i v x e = cc
get_elem?-set_self (y ∷ xs) zero v x e = refl
get_elem?-set_self (y ∷ xs) (suc i) v x e = get_elem?-set_self xs i v x e

get_elem?-set_ne {ℓ} :
    {A : Type ℓ} (xs : List A) (i j : ℕ) (v : A) → i ≢ j → get_elem? (set xs i v) j ≡ get_elem? xs j
get_elem?-set_ne [] i j v ne = refl
get_elem?-set_ne (x ∷ xs) zero zero v ne = absurd (ne refl)
get_elem?-set_ne (x ∷ xs) zero (suc j) v ne = refl
get_elem?-set_ne (x ∷ xs) (suc i) zero v ne = refl
get_elem?-set_ne (x ∷ xs) (suc i) (suc j) v ne = get_elem?-set_ne xs i j v (λ e. ne (ap suc e))

pub get_elem?-lt {ℓ} :
    {A : Type ℓ} (xs : List A) (i : ℕ) (x : A) → get_elem? xs i ≡ some x → i < length xs
get_elem?-lt [] i x e = cc
get_elem?-lt (y ∷ xs) zero x e = omega arith
get_elem?-lt (y ∷ xs) (suc i) x e = omega (arith, get_elem?-lt xs i x e)

some-eq {ℓ} : {A : Type ℓ} (o : Option A) (a b : A) → o ≡ some a → o ≡ some b → a ≡ b
some-eq o a b p q = cc

set-Kept :
    (blocks : List Block) (b : ℕ) (blk : Block) (step : Block → Block)
    → get_elem? blocks b ≡ some blk
    → Alike blk (step blk)
    → Kept blocks (set blocks b (step blk))
set-Kept blocks b blk step e alike b' blk' e' = elim (ℕ_discrete b b') [
  | yes here ↦
      let same : blk ≡ blk' =
        some-eq (get_elem? blocks b) blk blk' e (ap (get_elem? blocks) here ∙ e') in
      (
        step blk,
        subst (λ n. get_elem? (set blocks b (step blk)) n ≡ some (step blk)) here
            (get_elem?-set_self blocks b (step blk) blk e),
        subst (λ x. Alike x (step blk)) same alike,
      )
  | no other ↦ (blk', get_elem?-set_ne blocks b b' (step blk) other ∙ e', Alike-refl blk')
]

-- What a call leaves: the same devices, and all else but the disks.
pub record KeepsDevices (s s' : Blocks) : Type 0 where
  pub devices : Kept s.all_blocks s'.all_blocks
  pub as_many : length s'.all_blocks ≡ length s.all_blocks
  pub roles : s'.block_by_role ≡ s.block_by_role
  pub as_spare : s'.spare ≡ s.spare

pub KeepsDevices-trans :
    {s s' s'' : Blocks} → KeepsDevices s s' → KeepsDevices s' s'' → KeepsDevices s s''
KeepsDevices-trans {s} {s'} {s''} k k' = record {
  devices = Kept-trans s.all_blocks s'.all_blocks s''.all_blocks k.devices k'.devices;
  as_many = k'.as_many ∙ k.as_many;
  roles = k'.roles ∙ k.roles;
  as_spare = k'.as_spare ∙ k.as_spare;
}

pub KeepsDevices-refl : (s : Blocks) → KeepsDevices s s
KeepsDevices-refl s = record {
  devices = Kept-refl s.all_blocks;
  as_many = refl;
  roles = refl;
  as_spare = refl;
}

pub update_count_lem :
    (step : Block → Block) (s : Blocks) (b : ℕ) (blk : Block)
    → ((x : Block) → Alike x (step x))
    → get_elem? s.all_blocks b ≡ some blk
    → Returns (λ s'. KeepsDevices s s' × (s'.disks ≡ s.disks)) (update_count step s b)
unfolding update_count
update_count_lem step s b blk alike e = rw e (
  record {
    devices = set-Kept s.all_blocks b blk step e (alike blk);
    as_many = length-set s.all_blocks b (step blk);
    roles = refl;
    as_spare = refl;
  },
  refl,
)
