-- ===== src/Strings.antt =====
-- The string functions of libs/stdlib/mos_string.c that only read. A pointer is the list of the bytes
-- from it to the end of its array, and a read beyond that is `none`.
pub mod Laws
use mos_moody_hunter.Base.{
  ℕ, zero, suc, ◌-◌, Bool, not, Option, none, some, List, [], ◌∷◌, leb, ◌==◌, if◌then◌else◌, ◌>>=◌,
}

-- A signed result: `pos n` is `n`, `negsuc n` is `-(n + 1)`.
pub data ℤ : Type 0 where
  pos negsuc : ℕ → ℤ

-- The difference of two bytes as an `int`.
unfoldable pub difference : ℕ → ℕ → ℤ
difference a b = if leb b a then pos (a - b) else negsuc (b - a - 1)

unfoldable pub strlen : List ℕ → Option ℕ
strlen [] = none
strlen (c ∷ str) =
    let rest = strlen str in if c == 0 then some 0 else (rest >>= λ len. some (suc len))

-- The bound is tested before the byte is read.
unfoldable pub strnlen : List ℕ → ℕ → Option ℕ
strnlen str zero = some 0
strnlen [] (suc n) = none
strnlen (c ∷ str) (suc n) =
    let rest = strnlen str n in if c == 0 then some 0 else (rest >>= λ len. some (suc len))

unfoldable pub strncmp : List ℕ → List ℕ → ℕ → Option ℤ
unfolding difference
strncmp str1 str2 zero = some (pos 0)
strncmp [] str2 (suc n) = none
strncmp (c1 ∷ str1) [] (suc n) = none
strncmp (c1 ∷ str1) (c2 ∷ str2) (suc n) =
    let rest = strncmp str1 str2 n in
    if not (c1 == c2) then some (difference c1 c2) else if c1 == 0 then some (pos 0) else rest

unfoldable pub memcmp : List ℕ → List ℕ → ℕ → Option ℤ
unfolding difference
memcmp s1 s2 zero = some (pos 0)
memcmp [] s2 (suc n) = none
memcmp (p1 ∷ s1) [] (suc n) = none
memcmp (p1 ∷ s1) (p2 ∷ s2) (suc n) =
    let rest = memcmp s1 s2 n in if not (p1 == p2) then some (difference p1 p2) else rest
