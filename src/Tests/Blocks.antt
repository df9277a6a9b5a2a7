-- ===== src/Tests/Blocks.antt =====
-- The copies and fills of libs/stdlib/mos_string.c on short arrays.
use mos_moody_hunter.Base.{ℕ, ◌+◌, ◌≡◌, refl, some, none, List, [], ◌∷◌, tabulate, arith}
use mos_moody_hunter.Memory.{copy, memcpy, memmove, memset, copied}
use mos_moody_hunter.Memory.Memcpy.{memcpy-eq-copy}
use mos_moody_hunter.Memory.Memmove.{memmove-eq-copy}

abbrev five : List ℕ
five = 1 ∷ 2 ∷ 3 ∷ 4 ∷ 5 ∷ []

-- Forty bytes: one block of four longs and one long.
abbrev forty : List ℕ
forty = tabulate 40 (λ k. k + 1)

abbrev zeroes : List ℕ
zeroes = tabulate 40 (λ k. 0)

memcpy_of_all : memcpy 4096 8192 zeroes 0 forty 0 40 ≡ some forty
unfolding memcpy copy copied
memcpy_of_all = refl

memmove_up : memmove five 1 0 3 ≡ some (1 ∷ 1 ∷ 2 ∷ 3 ∷ 5 ∷ [])
unfolding memmove
memmove_up = refl

memmove_out : memmove five 3 0 3 ≡ none
unfolding memmove
memmove_out = refl

memset_low_byte : memset five 1 (256 + 7) 2 ≡ some (1 ∷ 7 ∷ 7 ∷ 4 ∷ 5 ∷ [])
unfolding memset
memset_low_byte = refl

memcpy-eq-copy_example : memcpy 4096 8192 zeroes 0 forty 0 40 ≡ copy zeroes 0 forty 0 40
memcpy-eq-copy_example = memcpy-eq-copy 4096 8192 zeroes 0 forty 0 40 (omega arith) (omega arith)

memmove-eq-copy_example : memmove five 1 0 3 ≡ copy five 1 five 0 3
memmove-eq-copy_example = memmove-eq-copy five 1 0 3 (omega arith) (omega arith)
