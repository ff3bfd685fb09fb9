-- ===== src/Stdio/Snprintf.antt =====
-- vsnprintf of lib/stdio.c prints to memory. The format and the strings printed are read from the memory
-- before the call: as in C, the buffer must not overlap them.
use os_project.Common.{ℕ, ◌+◌, ◌-◌, if◌then◌else◌, ltb, List, [], ◌∷◌, Result, ok, ◌>>=◌, u32}
use os_project.Strings.{Bytes, write}
use os_project.Stdio.{less_int}
use os_project.Stdio.Printf.{vprintf}

-- `memory` is the kernel's.
pub record VsnprintfAux : Type 0 where
  pub p : ℕ
  pub len : ℕ
  pub max_len : ℕ
  pub memory : Bytes

unfoldable pub vsnprintf_helper : ℕ → VsnprintfAux → VsnprintfAux
vsnprintf_helper ch aux =
    if less_int aux.len aux.max_len
    then record aux { len = u32 (aux.len + 1); p = aux.p + 1; memory = write aux.memory aux.p ch }
    else record aux { len = u32 (aux.len + 1) }

-- The calls of `output` in their order.
unfoldable pub output_all : List ℕ → VsnprintfAux → VsnprintfAux
unfolding vsnprintf_helper
output_all [] aux = aux
output_all (ch ∷ text) aux = output_all text (vsnprintf_helper ch aux)

-- The `int` returned, and memory.
unfoldable pub vsnprintf : ℕ → ℕ → ℕ → ℕ → List ℕ → Bytes → Result (ℕ × Bytes)
vsnprintf fuel buffer buf_size format args mem = do
  let max_len = if ltb 0 buf_size then buf_size - 1 else 0
  text ← vprintf fuel format args mem
  let aux = output_all text (record { p = buffer; len = 0; max_len = max_len; memory = mem })
  ok (aux.len, if ltb 0 buf_size then write aux.memory aux.p 0 else aux.memory)
