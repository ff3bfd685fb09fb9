-- ===== src/Hash/Bytes.antt =====
-- The hash functions of lib/kernel/hash.c on bytes, strings and integers.
use os_project.Common.{
  ℕ, ◌*◌, ◌/◌, ◌%◌, ◌^◌, ◌<◌, ◌≡◌, refl, ◌==◌, if◌then◌else◌, List, [], ◌∷◌, ◌++◌, Result, ok, err,
  bad_access, count, arith, u32,
}
use Prim.Native.Nat.{bit_xor}
use os_project.Common.Bits.{bit_xor-lt}
use os_project.Links.Lists.{ne-false}

abbrev pub fnv_32_prime : ℕ
fnv_32_prime = 16777619

abbrev pub fnv_32_basis : ℕ
fnv_32_basis = 2166136261

abbrev pub hash_step : ℕ → ℕ → ℕ
hash_step hash byte = bit_xor (u32 (hash * fnv_32_prime)) byte

unfoldable pub bytes_loop : ℕ → List ℕ → ℕ
bytes_loop hash [] = hash
bytes_loop hash (byte ∷ buf) = bytes_loop (hash_step hash byte) buf

-- The buffer is its bytes.
unfoldable pub hash_bytes : List ℕ → ℕ
hash_bytes buf = bytes_loop fnv_32_basis buf

unfoldable pub string_loop : ℕ → List ℕ → Result ℕ
string_loop hash [] = err bad_access
string_loop hash (char ∷ s) = if char == 0 then ok hash else string_loop (hash_step hash char) s

-- The string is the bytes from its first one on, the NUL and what is behind it among them.
unfoldable pub hash_string : List ℕ → Result ℕ
hash_string s = string_loop fnv_32_basis s

unfoldable pub hash_int : ℕ → ℕ
hash_int i = hash_bytes (i % 256 ∷ i / 256 % 256 ∷ i / 65536 % 256 ∷ i / 16777216 % 256 ∷ [])

abbrev pub AreBytes : List ℕ → Type 0
AreBytes [] = Unit
AreBytes (byte ∷ buf) = (byte < 256) × AreBytes buf

nul_counts : (char : ℕ) (s : List ℕ) → char ≡ 0 → 0 < count 0 (char ∷ s)
nul_counts char s nul = rw nul (ground arith)

string_loop_lem :
    (hash : ℕ) (s rest : List ℕ)
    → count 0 s ≡ 0
    → string_loop hash (s ++ (0 ∷ rest)) ≡ ok (bytes_loop hash s)
unfolding string_loop bytes_loop
string_loop_lem hash [] rest no_nul = refl
string_loop_lem hash (char ∷ s) rest no_nul =
    rw (ne-false char 0 (λ nul. omega (arith, no_nul, nul_counts char s nul)))
      (string_loop_lem (hash_step hash char) s rest (omega (arith, no_nul)))

bytes_loop-lt :
    (hash : ℕ) (buf : List ℕ) → hash < 2 ^ 32 → AreBytes buf → bytes_loop hash buf < 2 ^ 32
unfolding bytes_loop
bytes_loop-lt hash [] small bytes = small
bytes_loop-lt hash (byte ∷ buf) small (byte_small, bytes) =
    bytes_loop-lt (hash_step hash byte) buf
      (bit_xor-lt 32 (u32 (hash * fnv_32_prime)) byte (omega arith) (omega (arith, byte_small)))
      bytes

-- hash_string of a string hashes the bytes before its NUL, as hash_bytes does, to a number of 32 bits.
pub hash_string_lem :
    (s rest : List ℕ)
    → AreBytes s
    → count 0 s ≡ 0
    → (hash_string (s ++ (0 ∷ rest)) ≡ ok (hash_bytes s)) × hash_bytes s < 2 ^ 32
unfolding hash_string hash_bytes
hash_string_lem s rest bytes no_nul =
    (string_loop_lem fnv_32_basis s rest no_nul, bytes_loop-lt fnv_32_basis s (omega arith) bytes)
