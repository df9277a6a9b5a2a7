-- ===== src/Bitmap/Range.antt =====
-- `bitmap_set_range`: which bits it changes, and the ranges for which a shift is undefined.
use native.Mathlib.Nat.{pow-le-pow_right}
use mos_moody_hunter.Base.{
  ℕ, ◌+◌, ◌-◌, ◌*◌, ◌/◌, ◌%◌, ◌^◌, ◌≤◌, ◌<◌, ◌≡◌, ◌⊎◌, Bool, true, false, ◌||◌, none, List, get_or,
  length, ltb, leb, ◌==◌, if◌then◌else◌, ◌>>=◌, Returns, arith, add64, sub64, get_elem?-eq-get_or,
  inl, inr,
}
use mos_moody_hunter.Memory.Advance.{store-eq-some}
use mos_moody_hunter.Bitmap.{shift_left, apply_mask, ones, set_range}
use mos_moody_hunter.Bitmap.Bit.{IsValid}
use mos_moody_hunter.Bitmap.Mask.{
  mask_of, ones-eq-some, RangeSet, masked_line, masked_line-RangeSet, fill_lines-RangeSet,
}

module _ (lines : List ℕ) (nlines start_bit end_bit : ℕ) (value : Bool) where
  -- Both ends in one line, which is not the whole line.
  set_range-RangeSet_one :
      IsValid lines nlines
      → start_bit ≤ end_bit
      → end_bit < nlines * 32
      → start_bit / 32 ≡ end_bit / 32
      → end_bit - start_bit < 31
      → Returns
          (set_range lines nlines start_bit end_bit value)
          (RangeSet lines nlines start_bit (end_bit + 1) value)
  unfolding set_range shift_left
  set_range-RangeSet_one v order inside one part =
      let s = start_bit % 32 in
      let n = end_bit - start_bit + 1 in
      let done =
        masked_line-RangeSet lines nlines (start_bit / 32) s n value v (omega arith)
          (omega arith) in
      (
        masked_line lines (start_bit / 32) s n value,
        rw
            (
              in_range,
              if◌then◌else◌,
              same_line,
              if◌then◌else◌,
              get_elem?-eq-get_or lines (start_bit / 32) 0 (omega (arith, v.width)),
              ◌>>=◌,
              width,
              ones-eq-some n (omega arith),
              ◌>>=◌,
              low,
              if◌then◌else◌,
              ◌>>=◌,
            )
            (store-eq-some lines (start_bit / 32) _ (omega (arith, v.width))),
        record { reads = λ j. ground (arith, done.reads j); valid = done.valid },
      )
    where
      in_range : leb nlines (start_bit / 32) || leb nlines (end_bit / 32) ≡ false
      in_range = ground arith

      same_line : (start_bit / 32 == end_bit / 32) ≡ true
      same_line = ground arith

      width : add64 (sub64 (end_bit % 32) (start_bit % 32)) 1 ≡ end_bit - start_bit + 1
      width = omega arith

      low : ltb (start_bit % 32) 32 ≡ true
      low = ground arith

  -- The ends in two lines.
  set_range-RangeSet_many :
      IsValid lines nlines
      → start_bit ≤ end_bit
      → end_bit < nlines * 32
      → start_bit / 32 < end_bit / 32
      → 0 < start_bit % 32
      → end_bit % 32 < 31
      → Returns
          (set_range lines nlines start_bit end_bit value)
          (RangeSet lines nlines start_bit (end_bit + 1) value)
  unfolding set_range shift_left
  set_range-RangeSet_many v order inside apart first_part last_part =
      let a = start_bit / 32 in
      let b = end_bit / 32 in
      let s = start_bit % 32 in
      let e = end_bit % 32 in
      let first =
        masked_line-RangeSet lines nlines a s (32 - s) value v (omega arith) (omega arith) in
      let lines' = masked_line lines a s (32 - s) value in
      let (lines'', run, middle) =
        fill_lines-RangeSet lines' nlines (a + 1) (b - (a + 1)) value first.valid (omega arith) in
      let last =
        masked_line-RangeSet lines'' nlines b 0 (e + 1) value middle.valid (omega arith)
          (omega arith) in
      let last_mask : mask_of (e + 1) 0 ≡ 2 ^ (e + 1) - 1 =
        let small : 2 ^ (e + 1) ≤ 2 ^ 31 =
          pow-le-pow_right {n = 2} (omega arith) {j = 31} (omega arith) in
        omega arith in
      (
        masked_line lines'' b 0 (e + 1) value,
        rw
            (
              in_range,
              if◌then◌else◌,
              same_line,
              if◌then◌else◌,
              get_elem?-eq-get_or lines a 0 (omega (arith, v.width)),
              ◌>>=◌,
              ones-eq-some (32 - s) (omega arith),
              ◌>>=◌,
              low,
              if◌then◌else◌,
              ◌>>=◌,
              store-eq-some lines a (apply_mask (get_or lines a 0) (mask_of (32 - s) s) value)
                  (omega (arith, v.width)),
              ◌>>=◌,
              run,
              ◌>>=◌,
              get_elem?-eq-get_or lines'' b 0 (omega (arith, middle.valid.width)),
              ◌>>=◌,
              ones-eq-some (e + 1) (omega arith),
              ◌>>=◌,
              last_mask,
            )
            (store-eq-some lines'' b _ (omega (arith, middle.valid.width))),
        record {
          reads = λ j. ground (arith, first.reads j, middle.reads j, last.reads j);
          valid = last.valid;
        },
      )
    where
      in_range : leb nlines (start_bit / 32) || leb nlines (end_bit / 32) ≡ false
      in_range = ground arith

      same_line : (start_bit / 32 == end_bit / 32) ≡ false
      same_line = ground arith

      low : ltb (start_bit % 32) 32 ≡ true
      low = ground arith

-- A range whose shifts are all by less than 32 bits: inside one line less than the line, and over
-- several lines with its first bit not the first of a line and its last bit not the last of one.
abbrev pub IsShiftable : ℕ → ℕ → Type 0
IsShiftable start_bit end_bit =
    ((start_bit / 32 ≡ end_bit / 32) × (end_bit - start_bit < 31))
    ⊎ ((start_bit / 32 < end_bit / 32) × (0 < start_bit % 32) × (end_bit % 32 < 31))

-- `bitmap_set_range` on a valid bitmap and a range inside it whose masks need no shift by 32 bits (in
-- one line and shorter than it, or over several lines with its first bit not the first of a line and
-- its last bit not the last of one) does not fault, gives exactly the bits from
-- `start_bit` to `end_bit` the value, and keeps the invariant.
pub set_range-RangeSet :
    (lines : List ℕ) (nlines start_bit end_bit : ℕ) (value : Bool)
    → IsValid lines nlines
    → start_bit ≤ end_bit
    → end_bit < nlines * 32
    → IsShiftable start_bit end_bit
    → Returns
        (set_range lines nlines start_bit end_bit value)
        (RangeSet lines nlines start_bit (end_bit + 1) value)
set_range-RangeSet lines nlines start_bit end_bit value v order inside (inl (one, part)) =
    set_range-RangeSet_one lines nlines start_bit end_bit value v order inside one part
set_range-RangeSet lines nlines start_bit end_bit value v order inside (inr (apart, first, last)) =
    set_range-RangeSet_many lines nlines start_bit end_bit value v order inside apart first last

-- A range inside the bitmap that starts at the first bit of a line and holds all of that line runs
-- into the shift by 32 bits, whatever the lines hold and whichever value they are to get.
pub set_range_undefined :
    (lines : List ℕ) (nlines start_bit end_bit : ℕ) (value : Bool)
    → length lines ≡ nlines
    → start_bit % 32 ≡ 0
    → start_bit + 31 ≤ end_bit
    → end_bit < nlines * 32
    → set_range lines nlines start_bit end_bit value ≡ none
unfolding set_range ones shift_left
set_range_undefined lines nlines start_bit end_bit value width first order inside =
    ground (arith, get_elem?-eq-get_or lines (start_bit / 32) 0)
