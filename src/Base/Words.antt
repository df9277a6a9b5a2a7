-- ===== src/Base/Words.antt =====
-- `size_t` and `uintptr_t` arithmetic: 64 bits, wrapping (kernel/include/public/mos/types.h).
use mathlib.Core.Bool.{Bool, not}
use mathlib.Core.Option.{Option, none, some}
use mos_moody_hunter.Base.Tests.{◌==◌, if◌then◌else◌}
use Prim.Native.Nat.{ℕ, ◌+◌, ◌-◌, ◌*◌, ◌%◌, ◌^◌, bit_and}

abbrev pub add64 : ℕ → ℕ → ℕ
add64 a b = (a + b) % 2 ^ 64

-- `b` is a 64-bit value.
abbrev pub sub64 : ℕ → ℕ → ℕ
sub64 a b = (a + 2 ^ 64 - b) % 2 ^ 64

-- `a % b`, which traps at `b == 0`.
abbrev pub rem : ℕ → ℕ → Option ℕ
rem a b = if b == 0 then none else some (a % b)

abbrev pub mul64 : ℕ → ℕ → ℕ
mul64 a b = a * b % 2 ^ 64

-- Whether a flag, one bit, is set.
abbrev pub has_flag : ℕ → ℕ → Bool
has_flag flags flag = not (bit_and flags flag == 0)

-- `MOS_PAGE_SIZE`
abbrev pub page_size : ℕ
page_size = 4096

-- `ALIGN_UP_TO_PAGE` and `ALIGN_DOWN_TO_PAGE`
unfoldable pub align_up_to_page : ℕ → ℕ
align_up_to_page size = bit_and (add64 size (page_size - 1)) (2 ^ 64 - 1 - (page_size - 1))

unfoldable pub align_down_to_page : ℕ → ℕ
align_down_to_page address = bit_and address (2 ^ 64 - 1 - (page_size - 1))
