-- ===== src/Bitmap/Mask.antt =====
-- The masks of `bitmap_set_range`, and the change of one line or of whole lines.
use mos_moody_hunter.Base.{
  ℕ, zero, suc, ◌+◌, ◌-◌, ◌*◌, ◌/◌, ◌%◌, ◌^◌, ◌≤◌, ◌<◌, ◌≡◌, refl, ◌∙◌, Bool, true, false, ◌&&◌,
  some, List, get_or, set, ltb, leb, ◌==◌, if◌then◌else◌, ◌>>=◌, Returns, arith, bit, bit-lt,
  bit-ones, bit-shl, bit-mod, bit-bit_and, bit-bit_or, bit-complement, bit_of_lt, lt_of_bit,
  length-set, get_or-set, zero-bit,
}
use mos_moody_hunter.Memory.Advance.{store-eq-some}
use mos_moody_hunter.Bitmap.{full_line, complement, apply_mask, ones, fill_lines}
use mos_moody_hunter.Bitmap.Bit.{used, IsValid, shift_left-one}

abbrev pub to_bit : Bool → ℕ
to_bit true = 1
to_bit false = 0

-- `((1 << n) - 1) << s`
abbrev pub mask_of : ℕ → ℕ → ℕ
mask_of n s = (2 ^ n - 1) * 2 ^ s % 2 ^ 32

pub ones-eq-some : (n : ℕ) → n < 32 → ones n ≡ some (2 ^ n - 1)
unfolding ones
ones-eq-some n h = rw (shift_left-one n h) refl

pub mask_of-bit :
    (n s k : ℕ) → s + n ≤ 32 → bit (mask_of n s) k ≡ (if leb s k && ltb k (s + n) then 1 else 0)
mask_of-bit n s k h =
    ground (arith, bit-mod 32 ((2 ^ n - 1) * 2 ^ s) k, bit-shl s (2 ^ n - 1) k, bit-ones n (k - s))

-- The masked bits take the value, the others of the line stay.
pub apply_mask-bit :
    (line mask : ℕ) (value : Bool) (k : ℕ)
    → line < 2 ^ 32
    → mask < 2 ^ 32
    → bit (apply_mask line mask value) k ≡ (if bit mask k == 1 then to_bit value else bit line k)
apply_mask-bit line mask true k small small' =
    ground (arith, bit-bit_or line mask k, bit-lt line k, bit-lt mask k)
apply_mask-bit line mask false k small small' = ground (
  arith,
  bit-bit_and line (complement mask) k,
  bit-complement 32 mask k small',
  bit-lt line k,
  bit-lt mask k,
  bit_of_lt 32 line k small,
  bit_of_lt 32 mask k small',
)

pub apply_mask-lt :
    (line mask : ℕ) (value : Bool)
    → line < 2 ^ 32
    → mask < 2 ^ 32
    → apply_mask line mask value < 2 ^ 32
apply_mask-lt line mask value small small' = lt_of_bit 32 (apply_mask line mask value) λ k h.
    ground (
      arith,
      apply_mask-bit line mask value k small small',
      bit_of_lt 32 line k small,
      bit_of_lt 32 mask k small',
    )

-- The numbers from `lo` up to but not including `hi` take the value, all others stay.
pub record RangeSet (lines : List ℕ) (nlines lo hi : ℕ) (value : Bool) (lines' : List ℕ)
    : Type 0 where
  pub reads :
      (j : ℕ) → used lines' j ≡ (if leb lo j && ltb j hi then to_bit value else used lines j)
  pub valid : IsValid lines' nlines

pub RangeSet-add :
    (lines : List ℕ) (nlines lo mid hi : ℕ) (value : Bool) (lines' lines'' : List ℕ)
    → lo ≤ mid
    → mid ≤ hi
    → RangeSet lines nlines lo mid value lines'
    → RangeSet lines' nlines mid hi value lines''
    → RangeSet lines nlines lo hi value lines''
RangeSet-add lines nlines lo mid hi value lines' lines'' h h' a b = record {
  reads = λ j. ground (arith, a.reads j, b.reads j);
  valid = b.valid;
}

-- One line written so that the bits from `s` up to `s + n` take the value.
pub line_RangeSet :
    (lines : List ℕ) (nlines line_i s n : ℕ) (value : Bool) (word : ℕ)
    → IsValid lines nlines
    → line_i < nlines
    → s + n ≤ 32
    → word < 2 ^ 32
    → ((k : ℕ)
        → bit word k
          ≡ (if leb s k && ltb k (s + n) then to_bit value else bit (get_or lines line_i 0) k))
    → RangeSet lines nlines (line_i * 32 + s) (line_i * 32 + s + n) value (set lines line_i word)
unfolding used
line_RangeSet lines nlines line_i s n value word v inside fits small digits = record {
  reads = λ j.
      ground
        (arith, get_or-set lines line_i (j / 32) word 0 (omega (arith, v.width)), digits (j % 32));
  valid = record {
    width = length-set lines line_i word ∙ v.width;
    words =
        λ i. ground (arith, get_or-set lines line_i i word 0 (omega (arith, v.width)), v.words i);
  };
}

-- The read, the mask and the write of one line of the range.
abbrev pub masked_line : List ℕ → ℕ → ℕ → ℕ → Bool → List ℕ
masked_line lines line_i s n value =
    set lines line_i (apply_mask (get_or lines line_i 0) (mask_of n s) value)

pub masked_line-RangeSet :
    (lines : List ℕ) (nlines line_i s n : ℕ) (value : Bool)
    → IsValid lines nlines
    → line_i < nlines
    → s + n ≤ 32
    → RangeSet lines nlines
        (line_i * 32 + s)
        (line_i * 32 + s + n)
        value
        (masked_line lines line_i s n value)
masked_line-RangeSet lines nlines line_i s n value v inside fits =
    let small : mask_of n s < 2 ^ 32 = omega arith in
    line_RangeSet lines nlines line_i s n value _ v inside fits
      (apply_mask-lt (get_or lines line_i 0) (mask_of n s) value (v.words line_i) small)
      (λ k. ground (
        arith,
        apply_mask-bit (get_or lines line_i 0) (mask_of n s) value k (v.words line_i) small,
        mask_of-bit n s k fits,
      ))

pub fill_lines-RangeSet :
    (lines : List ℕ) (nlines i left : ℕ) (value : Bool)
    → IsValid lines nlines
    → i + left ≤ nlines
    → Returns
        (fill_lines lines i left value)
        (RangeSet lines nlines (i * 32) ((i + left) * 32) value)
unfolding fill_lines
fill_lines-RangeSet lines nlines i zero value v fits =
    (lines, refl, record { reads = λ j. ground arith; valid = v })
fill_lines-RangeSet lines nlines i (suc left) value v fits =
    let word = if value then full_line else 0 in
    let here =
      line_RangeSet lines nlines i 0 32 value word v (omega arith) (omega arith) (word-lt value)
        (λ k. word-bit value k (get_or lines i 0) (v.words i)) in
    let (lines', run, rest) =
      fill_lines-RangeSet (set lines i word) nlines (i + 1) left value here.valid (omega arith) in
    (
      lines',
      rw (store-eq-some lines i word (omega (arith, v.width)), ◌>>=◌) run,
      record { reads = λ j. ground (arith, here.reads j, rest.reads j); valid = rest.valid },
    )
  where
    word-lt : (value : Bool) → (if value then full_line else 0) < 2 ^ 32
    word-lt true = omega arith
    word-lt false = omega arith

    word-bit :
        (value : Bool) (k old : ℕ)
        → old < 2 ^ 32
        → bit (if value then full_line else 0) k
          ≡ (if leb 0 k && ltb k (0 + 32) then to_bit value else bit old k)
    word-bit true k old small = ground (arith, bit-ones 32 k, bit_of_lt 32 old k small)
    word-bit false k old small = ground (arith, zero-bit k, bit_of_lt 32 old k small)
