-- ===== src/Ctype/Classes.antt =====
-- How the classes of characters of lib/ctype.h divide ASCII.
use os_project.Common.{ℕ, ◌+◌, ◌≡◌, true, ◌==◌, one_if, arith}
use os_project.Ctype.{iscntrl, isalnum, ispunct, isascii, tolower, toupper}

-- Every ASCII character is of exactly one of four classes: a control character, the blank, a letter or
-- digit, or punctuation.
pub classes :
    (c : ℕ)
    → isascii c ≡ true
    → one_if (iscntrl c) + one_if (c == 32) + one_if (isalnum c) + one_if (ispunct c) ≡ 1
classes c ascii = ground (arith, ascii)

-- Folding the case twice is the same as the second fold alone.
pub toupper-tolower : (c : ℕ) → toupper (tolower c) ≡ toupper c
toupper-tolower c = ground arith
