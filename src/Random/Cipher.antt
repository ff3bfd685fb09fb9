-- ===== src/Random/Cipher.antt =====
-- The generator of lib/random.c is the cipher RC4, written here with a table of 256 bytes as a
-- function.
use os_project.Common.{
  ℕ, zero, suc, ◌+◌, ◌/◌, ◌%◌, ◌^◌, ◌<◌, ◌≡◌, sym, ◌∙◌, arith, true, ◌==◌, if◌then◌else◌, List, [],
  ◌∷◌, length, get_or, set, length-set, get_or-set_self, get_or-set_ne, ℕ_discrete,
}
use mathlib.Core.Path.{subst}
use os_project.Random.{Rc4, swap_byte}
use os_project.Random.Swaps.{length-swap_byte}

-- A table with two places exchanged.
abbrev pub exchange : (ℕ → ℕ) → ℕ → ℕ → ℕ → ℕ
exchange f a b k = if k == b then f a else (if k == a then f b else f k)

-- The key scheduling after n of its 256 rounds: the table and j.
unfoldable pub scheduled : (ℕ → ℕ) → ℕ → (ℕ → ℕ) × ℕ
scheduled key zero = (λ k. k, 0)
scheduled key (suc n) =
    let (f, j) = scheduled key n in let j' = (j + (f n + key n)) % 256 in (exchange f n j', j')

-- The key of four bytes, the low one first, over and over.
abbrev pub key_byte : ℕ → ℕ → ℕ
key_byte seed n = seed / 256 ^ (n % 4) % 256

pub record Cipher : Type 0 where
  pub table : ℕ → ℕ
  pub i : ℕ
  pub j : ℕ

abbrev pub start : ℕ → Cipher
start seed = record { table = (scheduled (key_byte seed) 256).0; i = 0; j = 0 }

abbrev pub advance : Cipher → Cipher
advance c =
    let i = (c.i + 1) % 256 in
    let j = (c.j + c.table i) % 256 in record { table = exchange c.table i j; i = i; j = j }

abbrev pub output : Cipher → ℕ
output c = c.table ((c.table c.i + c.table c.j) % 256)

abbrev pub keystream : ℕ → Cipher → List ℕ
keystream zero c = []
keystream (suc n) c = output (advance c) ∷ keystream n (advance c)

abbrev pub after : ℕ → Cipher → Cipher
after zero c = c
after (suc n) c = after n (advance c)

-- The 256 bytes of the array are those of the table.
pub record Holds (s : List ℕ) (f : ℕ → ℕ) : Type 0 where
  pub full : length s ≡ 256
  pub same : (k : ℕ) → k < 256 → get_or s k 0 ≡ f k

-- The static variables, once they are set up, are the state of the cipher.
pub record Represents (r : Rc4) (c : Cipher) : Type 0 where
  pub holds : Holds r.s c.table
  pub at_i : r.s_i ≡ c.i
  pub at_j : r.s_j ≡ c.j
  pub inited : r.inited ≡ true

pub swap_byte-exchange :
    (s : List ℕ) (f : ℕ → ℕ) (a b : ℕ)
    → Holds s f
    → a < 256
    → b < 256
    → Holds (swap_byte s a b) (exchange f a b)
swap_byte-exchange s f a b h a_in b_in =
    let once = set s a (get_or s b 0) in
    let len : length once ≡ length s = length-set s a (get_or s b 0) in
    record {
      full = length-swap_byte s a b ∙ h.full;
      same = λ k below. elim (ℕ_discrete k b) [
        | yes e ↦ rw e (
            get_or-set_self once b (get_or s a 0) 0 (omega (arith, b_in, len, h.full))
            ∙ h.same a a_in
            ∙ ground arith)
        | no not_b ↦
            get_or-set_ne once b k (get_or s a 0) 0 (λ z. not_b (sym z)) ∙ elim (ℕ_discrete k a) [
              | yes e ↦
                  subst (λ (x : ℕ). get_or (set s a (get_or s b 0)) x 0 ≡ exchange f a b x) (sym e)
                    (get_or-set_self s a (get_or s b 0) 0 (omega (arith, a_in, h.full))
                      ∙ h.same b b_in
                      ∙ ground (arith, e, not_b))
              | no not_a ↦
                  get_or-set_ne s a k (get_or s b 0) 0 (λ z. not_a (sym z))
                  ∙ h.same k below
                  ∙ ground (arith, not_a, not_b)
            ]
      ];
    }
