-- ===== src/Memory.antt =====
-- The block copies of libs/stdlib/mos_string.c that the data structures call: memcpy, memmove,
-- memset and memzero over byte arrays. An array is the list of its bytes, a pointer into it an
-- array with an index, and an access outside of the array is `none`.
pub mod Copy
pub mod Advance
pub mod Memcpy
pub mod Fill
pub mod Memmove
use mos_moody_hunter.Base.{
  ℕ, zero, suc, ◌+◌, ◌-◌, ◌%◌, Bool, not, ◌&&◌, true, false, Option, none, some, List, ◌++◌, length,
  get_elem?, set, take, drop, ltb, leb, ◌==◌, if◌then◌else◌, ◌>>=◌,
}

-- What a copy of `n` bytes from `src[j]` on to `dst[i]` on does to `dst`.
unfoldable pub copied : List ℕ → ℕ → List ℕ → ℕ → ℕ → List ℕ
copied dst i src j n = take i dst ++ (take n (drop j src) ++ drop (i + n) dst)

unfoldable pub copy : List ℕ → ℕ → List ℕ → ℕ → ℕ → Option (List ℕ)
copy dst i src j n =
    if leb (i + n) (length dst) && leb (j + n) (length src)
    then some (copied dst i src j n)
    else none

-- `d[i] = b`
unfoldable pub store : List ℕ → ℕ → ℕ → Option (List ℕ)
store d i b = if ltb i (length d) then some (set d i b) else none

-- `while (n--) *dst++ = *src++;`
unfoldable pub copy_bytes : List ℕ → ℕ → List ℕ → ℕ → ℕ → Option (List ℕ)
unfolding store
copy_bytes dst i src j zero = some dst
copy_bytes dst i src j (suc n) = do
  b ← get_elem? src j
  dst' ← store dst i b
  copy_bytes dst' (i + 1) src (j + 1) n

-- `sizeof(long)`
abbrev pub little_block_size : ℕ
little_block_size = 8

abbrev pub big_block_size : ℕ
big_block_size = 32

-- `*aligned_dst++ = *aligned_src++` on longs: the eight bytes are read, then written.
unfoldable pub copy_word : List ℕ → ℕ → List ℕ → ℕ → Option (List ℕ)
copy_word dst i src j =
    if leb (j + 8) (length src) then copy dst i (take 8 (drop j src)) 0 8 else none

-- Where a loop stops: the array, both indices and the bytes left.
pub record Cursor : Type 0 where
  pub dst : List ℕ
  pub to : ℕ
  pub from : ℕ
  pub left : ℕ

-- `while (n >= BIGBLOCKSIZE)`, on fuel.
unfoldable pub copy_big : ℕ → List ℕ → Cursor → Option Cursor
unfolding copy_word
copy_big zero src c = none
copy_big (suc fuel) src c = elim (leb big_block_size c.left) [
  | true ↦ do
    d₁ ← copy_word c.dst c.to src c.from
    d₂ ← copy_word d₁ (c.to + 8) src (c.from + 8)
    d₃ ← copy_word d₂ (c.to + 16) src (c.from + 16)
    d₄ ← copy_word d₃ (c.to + 24) src (c.from + 24)
    copy_big fuel src (record { dst = d₄; to = c.to + 32; from = c.from + 32; left = c.left - 32 })
  | false ↦ some c
]

-- `while (n >= LITTLEBLOCKSIZE)`, on fuel.
unfoldable pub copy_little : ℕ → List ℕ → Cursor → Option Cursor
unfolding copy_word
copy_little zero src c = none
copy_little (suc fuel) src c = elim (leb little_block_size c.left) [
  | true ↦ do
    d ← copy_word c.dst c.to src c.from
    copy_little fuel src (record { dst = d; to = c.to + 8; from = c.from + 8; left = c.left - 8 })
  | false ↦ some c
]

-- `!UNALIGNED(src, dst)`: both addresses are multiples of `sizeof(long)`.
abbrev pub both_aligned : ℕ → ℕ → Bool
both_aligned x y = (x % 8 == 0) && (y % 8 == 0)

-- `memcpy`; `dst_addr` and `src_addr` are the addresses of `dst[i]` and `src[j]`.
unfoldable pub memcpy : ℕ → ℕ → List ℕ → ℕ → List ℕ → ℕ → ℕ → Option (List ℕ)
unfolding copy_big copy_little copy_bytes
memcpy dst_addr src_addr dst i src j n =
    if not (ltb n big_block_size) && both_aligned src_addr dst_addr
    then (do
      c₁ ← copy_big (n + 1) src (record { dst = dst; to = i; from = j; left = n })
      c₂ ← copy_little (n + 1) src c₁
      copy_bytes c₂.dst c₂.to src c₂.from c₂.left)
    else copy_bytes dst i src j n

-- `memmove` inside one array: `while (length--) *dst++ = *src++;`
unfoldable pub move_forwards : List ℕ → ℕ → ℕ → ℕ → Option (List ℕ)
unfolding store
move_forwards mem dst src zero = some mem
move_forwards mem dst src (suc n) = do
  b ← get_elem? mem src
  mem' ← store mem dst b
  move_forwards mem' (dst + 1) (src + 1) n

-- `while (length--) *--dst = *--src;`, from pointers past the end.
unfoldable pub move_backwards : List ℕ → ℕ → ℕ → ℕ → Option (List ℕ)
unfolding store
move_backwards mem dst src zero = some mem
move_backwards mem dst src (suc n) = do
  b ← get_elem? mem (src + n)
  mem' ← store mem (dst + n) b
  move_backwards mem' dst src n

unfoldable pub memmove : List ℕ → ℕ → ℕ → ℕ → Option (List ℕ)
unfolding move_forwards move_backwards
memmove mem dst src n =
    if ltb src dst && ltb dst (src + n)
    then move_backwards mem dst src n
    else move_forwards mem dst src n

-- `for (i = 0; i < n; i++) d[i] = c;`, from index `i` on; the store keeps the low byte of `c`.
unfoldable pub memset : List ℕ → ℕ → ℕ → ℕ → Option (List ℕ)
unfolding store
memset d i c zero = some d
memset d i c (suc n) = do d' ← store d i (c % 256); memset d' (i + 1) c n

-- The first loop of `memzero` on fuel: eight bytes at a time. It returns what is left to do.
unfoldable pub zero_words : ℕ → List ℕ → ℕ → ℕ → Option (List ℕ × ℕ × ℕ)
unfolding memset
zero_words zero d i n = none
zero_words (suc fuel) d i n = elim (leb 8 n) [
  | true ↦ do d' ← memset d i 0 8; zero_words fuel d' (i + 8) (n - 8)
  | false ↦ some (d, i, n)
]

unfoldable pub memzero : List ℕ → ℕ → ℕ → Option (List ℕ)
unfolding zero_words memset
memzero d i n = do (d', i', n') ← zero_words (n + 1) d i n; memset d' i' 0 n'
