-- ===== src/Tests/Bits.antt =====
-- Bitmaps of two and three lines.
use mos_moody_hunter.Base.{
  ℕ, zero, suc, ◌-◌, ◌^◌, ◌≡◌, ◌<◌, refl, Returns, true, some, none, List, [], ◌∷◌, inr, get_or,
  arith,
}
use mos_moody_hunter.Bitmap.{
  get, scan_bits, scan_lines, shift_left, ones, fill_lines, find_first_free_n, set_range,
}
use mos_moody_hunter.Bitmap.Bit.{IsValid}
use mos_moody_hunter.Bitmap.Find.{
  IsFirstRun, FindsFirst, find_first_free_n-FindsFirst, find_first_free_n_overruns,
}
use mos_moody_hunter.Bitmap.Mask.{RangeSet}
use mos_moody_hunter.Bitmap.Range.{set_range-RangeSet, set_range_undefined}

-- The first line is full, the second has its lowest four bits used.
abbrev some_used : List ℕ
some_used = (2 ^ 32 - 1) ∷ 15 ∷ 0 ∷ []

some_used-IsValid : IsValid some_used 3
some_used-IsValid = record { width = refl; words = words }
  where
    words : (i : ℕ) → get_or some_used i 0 < 2 ^ 32
    words zero = omega arith
    words (suc zero) = omega arith
    words (suc (suc zero)) = omega arith
    words (suc (suc (suc i))) = omega arith

find_three : find_first_free_n some_used 3 0 3 ≡ some 36
unfolding find_first_free_n scan_lines scan_bits get shift_left
find_three = refl

set_range_across : set_range some_used 3 36 65 true ≡ some ((2 ^ 32 - 1) ∷ (2 ^ 32 - 1) ∷ 3 ∷ [])
unfolding set_range ones shift_left fill_lines mos_moody_hunter.Memory.store
set_range_across = refl

find_first_free_n_example : Returns (find_first_free_n some_used 3 0 3) (FindsFirst some_used 3 0 3)
find_first_free_n_example =
    find_first_free_n-FindsFirst some_used 3 0 3 some_used-IsValid (omega arith) refl

find_first_free_n_overruns_example :
    (find_first_free_n some_used 3 70 30 ≡ some 70) × ¬ IsFirstRun some_used 3 70 30 70
find_first_free_n_overruns_example =
    find_first_free_n_overruns some_used 2 70 30 refl (omega arith) (omega arith) (omega arith)

set_range_example : Returns (set_range some_used 3 36 65 true) (RangeSet some_used 3 36 66 true)
set_range_example =
    set_range-RangeSet some_used 3 36 65 true some_used-IsValid (omega arith) (omega arith)
      (inr (omega arith))

set_range_undefined_example : set_range some_used 3 32 70 true ≡ none
set_range_undefined_example =
    set_range_undefined some_used 3 32 70 true refl refl (omega arith) (omega arith)
