-- ===== src/Bitmap.antt =====
-- kernel/lib/structures/bitmap.c and its header: a set of small numbers, one bit each, in lines of
-- 32 bits. `none` is an access outside of the array or a shift by 32 bits or more, which C leaves
-- undefined.
pub mod Bit
pub mod Scan
pub mod Find
pub mod Mask
pub mod Range
use Prim.Native.Nat.{bit_and, bit_or}
use mos_moody_hunter.Base.{
  ℕ, zero, suc, ◌+◌, ◌-◌, ◌*◌, ◌/◌, ◌%◌, ◌^◌, Bool, true, false, not, ◌&&◌, ◌||◌, Option, none,
  some, List, [], ◌∷◌, ◌++◌, get_elem?, replicate, drop, length, ltb, leb, ◌==◌, if◌then◌else◌,
  ◌>>=◌, add64, sub64,
}
use mos_moody_hunter.Memory.{store}

-- `BITMAP_LINE_BITS`
abbrev pub line_bits : ℕ
line_bits = 32

-- `~0` of a line
abbrev pub full_line : ℕ
full_line = 2 ^ 32 - 1

-- `~x` of a line
abbrev pub complement : ℕ → ℕ
complement x = full_line - x

-- `BITMAP_LINE_COUNT(size)`
unfoldable pub line_count : ℕ → ℕ
line_count size = bit_and (add64 size (line_bits - 1)) (2 ^ 64 - 1 - (line_bits - 1)) / line_bits

-- `x << n` of a line
unfoldable pub shift_left : ℕ → ℕ → Option ℕ
shift_left x n = if ltb n line_bits then some (x * 2 ^ n % 2 ^ 32) else none

unfoldable pub zero_lines : List ℕ → ℕ → Option (List ℕ)
zero_lines lines nlines =
    if leb nlines (length lines) then some (replicate nlines 0 ++ drop nlines lines) else none

-- `alloc` is what `kmalloc` returns.
unfoldable pub create : ℕ → Option (List ℕ) → Option (List ℕ)
create size alloc = alloc >>= λ lines. zero_lines lines (line_count size)

unfoldable pub get : List ℕ → ℕ → ℕ → Option Bool
get lines nlines index =
    let line = index / line_bits in
    let bit = index % line_bits in
    if leb nlines line then some false else (do
      word ← get_elem? lines line
      mask ← shift_left 1 bit
      some (not (bit_and word mask == 0)))

-- The result of a change, and the lines after it.
unfoldable pub set_bit : List ℕ → ℕ → ℕ → Option (Bool × List ℕ)
set_bit lines nlines index =
    let line = index / line_bits in
    let bit = index % line_bits in
    if leb nlines line then some (false, lines) else (do
      original ← get lines nlines index
      word ← get_elem? lines line
      mask ← shift_left 1 bit
      lines' ← store lines line (bit_or word mask)
      some (not original, lines'))

unfoldable pub clear : List ℕ → ℕ → ℕ → Option (Bool × List ℕ)
clear lines nlines index =
    let line = index / line_bits in
    let bit = index % line_bits in
    if leb nlines line then some (false, lines) else (do
      original ← get lines nlines index
      word ← get_elem? lines line
      mask ← shift_left 1 bit
      lines' ← store lines line (bit_and word (complement mask))
      some (original, lines'))

-- The variables of `bitmap_find_first_free_n`.
pub record Search : Type 0 where
  pub starting_line : ℕ
  pub starting_bit : ℕ
  pub free_bits : ℕ

-- The inner loop over the bits of one line, `left` of them to go.
unfoldable pub scan_bits : ℕ → ℕ → ℕ → ℕ → ℕ → ℕ → Search → Option Search
scan_bits line nlines line_i n_bits bit zero s = some s
scan_bits line nlines line_i n_bits bit (suc left) s = elim (leb n_bits s.free_bits) [
  | true ↦ some s
  | false ↦ do
    used ← get (line ∷ []) nlines bit
    scan_bits line nlines line_i n_bits (bit + 1) left (
        if used
        then record { starting_line = line_i; starting_bit = bit + 1; free_bits = 0 }
        else record s { free_bits = s.free_bits + 1 })
]

-- The outer loop over the lines, on fuel. `-1` is the largest `size_t`.
unfoldable pub scan_lines : ℕ → List ℕ → ℕ → ℕ → ℕ → Search → Option ℕ
scan_lines zero lines nlines n_bits line_i s = none
scan_lines (suc fuel) lines nlines n_bits line_i s = elim (ltb s.free_bits n_bits) [
  | false ↦ some (s.starting_line * line_bits + s.starting_bit)
  | true ↦ elim (leb nlines line_i) [
    | true ↦ some (2 ^ 64 - 1)
    | false ↦ do
      line ← get_elem? lines line_i
      elim (line == 0) [
        | true ↦
            scan_lines fuel lines nlines n_bits (line_i + 1)
              (record s { free_bits = s.free_bits + line_bits })
        | false ↦ elim (line == full_line) [
          | true ↦
              scan_lines fuel lines nlines n_bits (line_i + 1)
                (record { starting_line = line_i + 1; starting_bit = 0; free_bits = 0 })
          | false ↦ do
            s' ← scan_bits line nlines line_i n_bits 0 line_bits s
            scan_lines fuel lines nlines n_bits (line_i + 1) s'
        ]
      ]
  ]
]

unfoldable pub find_first_free_n : List ℕ → ℕ → ℕ → ℕ → Option ℕ
find_first_free_n lines nlines begin_bit n_bits =
    scan_lines (nlines + 2) lines nlines n_bits (begin_bit / line_bits) (record {
      starting_line = begin_bit / line_bits;
      starting_bit = begin_bit % line_bits;
      free_bits = 0;
    })

-- `line |= mask` or `line &= ~mask`
abbrev pub apply_mask : ℕ → ℕ → Bool → ℕ
apply_mask line mask value = if value then bit_or line mask else bit_and line (complement mask)

-- `((bitmap_line_t) 1 << n) - 1`
unfoldable pub ones : ℕ → Option ℕ
ones n = do power ← shift_left 1 n; some (power - 1)

-- `for (i = start_line + 1; i < end_line; i++)`, with `left` rounds to go.
unfoldable pub fill_lines : List ℕ → ℕ → ℕ → Bool → Option (List ℕ)
fill_lines lines i zero value = some lines
fill_lines lines i (suc left) value = do
  lines' ← store lines i (if value then full_line else 0)
  fill_lines lines' (i + 1) left value

unfoldable pub set_range : List ℕ → ℕ → ℕ → ℕ → Bool → Option (List ℕ)
set_range lines nlines start_bit end_bit value =
    let start_line = start_bit / line_bits in
    let start_bit_in_line = start_bit % line_bits in
    let end_line = end_bit / line_bits in
    let end_bit_in_line = end_bit % line_bits in
    if leb nlines start_line || leb nlines end_line
    then some lines
    else if start_line == end_line
    then (do
      line ← get_elem? lines start_line
      low ← ones (add64 (sub64 end_bit_in_line start_bit_in_line) 1)
      mask ← shift_left low start_bit_in_line
      store lines start_line (apply_mask line mask value))
    else (do
      line ← get_elem? lines start_line
      low ← ones (line_bits - start_bit_in_line)
      mask ← shift_left low start_bit_in_line
      lines' ← store lines start_line (apply_mask line mask value)
      lines'' ← fill_lines lines' (start_line + 1) (end_line - (start_line + 1)) value
      last ← get_elem? lines'' end_line
      last_mask ← ones (end_bit_in_line + 1)
      store lines'' end_line (apply_mask last last_mask value))
