-- ===== src/Bitmap/Bit.antt =====
-- A bitmap as a set of numbers, and the operations on one bit.
use Prim.Native.Nat.{bit_and, bit_or}
use native.Mathlib.Nat.{pow-le-pow_right}
use mos_moody_hunter.Base.{
  ℕ, zero, suc, ◌*◌, ◌/◌, ◌%◌, ◌^◌, ◌≤◌, ◌<◌, ◌≡◌, refl, ◌∙◌, false, not, some, List, [], ◌∷◌,
  get_or, set, length, leb, ◌==◌, if◌then◌else◌, ◌>>=◌, Returns, arith, bit, bit-lt, bit_ext,
  zero-bit, bit-bit_and, bit-bit_or, bit-pow, pow-pos, bit-complement, lt_of_bit, bit_of_lt,
  length-set, get_or-set, get_elem?-eq-get_or, Bool-cases, inl, inr,
}
use mos_moody_hunter.Memory.Advance.{store-eq-some}
use mos_moody_hunter.Bitmap.{complement, shift_left, get, set_bit, clear}

-- Whether the number `i` is in the set: 1 or 0.
unfoldable pub used : List ℕ → ℕ → ℕ
used lines i = bit (get_or lines (i / 32) 0) (i % 32)

pub record IsValid (lines : List ℕ) (nlines : ℕ) : Type 0 where
  pub width : length lines ≡ nlines
  pub words : (i : ℕ) → get_or lines i 0 < 2 ^ 32

pub used-lt : (lines : List ℕ) (i : ℕ) → used lines i < 2
unfolding used
used-lt lines i = bit-lt (get_or lines (i / 32) 0) (i % 32)

pub get_or_beyond : (lines : List ℕ) (i : ℕ) → length lines ≤ i → get_or lines i 0 ≡ 0
get_or_beyond [] i h = refl
get_or_beyond (x ∷ lines) zero h = absurd (omega arith)
get_or_beyond (x ∷ lines) (suc i) h = get_or_beyond lines i (omega arith)

pub used_beyond : (lines : List ℕ) (i : ℕ) → length lines * 32 ≤ i → used lines i ≡ 0
unfolding used
used_beyond lines i h = rw (get_or_beyond lines (i / 32) (omega arith)) (zero-bit (i % 32))

pub shift_left-one : (b : ℕ) → b < 32 → shift_left 1 b ≡ some (2 ^ b)
unfolding shift_left
shift_left-one b h =
    let small : 2 ^ b ≤ 2 ^ 31 = pow-le-pow_right {n = 2} (omega arith) {j = 31} (omega arith) in
    ground (arith, small)

pub bit_and-pow : (w b : ℕ) → bit_and w (2 ^ b) ≡ (if bit w b == 1 then 2 ^ b else 0)
bit_and-pow w b = elim (Bool-cases (bit w b == 1)) [
  | inl e ↦ rw e (bit_ext _ _ λ k. ground (arith, bit-bit_and w (2 ^ b) k, bit-pow b k, bit-lt w k))
  | inr e ↦ rw e (
      bit_ext _ _ λ k.
        ground (arith, bit-bit_and w (2 ^ b) k, bit-pow b k, bit-lt w k, bit-lt w b, zero-bit k))
]

pub get-used :
    (lines : List ℕ) (nlines index : ℕ)
    → (nlines ≤ index / 32 → length lines ≤ index / 32)
    → (length lines ≤ index / 32 → nlines ≤ index / 32)
    → get lines nlines index ≡ some (used lines index == 1)
unfolding get used
get-used lines nlines index beyond within = ground (
  arith,
  get_or_beyond lines (index / 32),
  zero-bit (index % 32),
  get_elem?-eq-get_or lines (index / 32) 0,
  shift_left-one (index % 32) (omega arith),
  bit_and-pow (get_or lines (index / 32) 0) (index % 32),
  pow-pos (index % 32),
)

-- The set with `value` for the number `index`, all others as they were.
pub record Changed (lines : List ℕ) (nlines index value : ℕ) (lines' : List ℕ) : Type 0 where
  pub reads : (j : ℕ) → used lines' j ≡ (if j == index then value else used lines j)
  pub valid : IsValid lines' nlines

-- A word written to the line of `index`.
write_word :
    {lines : List ℕ} {nlines : ℕ} (index word value : ℕ)
    → IsValid lines nlines
    → index < nlines * 32
    → ((k : ℕ)
        → bit word k ≡ (if k == index % 32 then value else bit (get_or lines (index / 32) 0) k))
    → word < 2 ^ 32
    → Changed lines nlines index value (set lines (index / 32) word)
unfolding used
write_word {lines} {nlines} index word value v inside digits small = record {
  reads = λ j. ground (
    arith,
    get_or-set lines (index / 32) (j / 32) word 0 (omega (arith, v.width)),
    digits (j % 32),
  );
  valid = record {
    width = length-set lines (index / 32) word ∙ v.width;
    words = λ i.
        ground (arith, get_or-set lines (index / 32) i word 0 (omega (arith, v.width)), v.words i);
  };
}

module _ (lines : List ℕ) (nlines index : ℕ) (v : IsValid lines nlines) where
  line_word : ℕ
  line_word = get_or lines (index / 32) 0

  with_bit : ℕ
  unfolding line_word
  with_bit = bit_or line_word (2 ^ (index % 32))

  without_bit : ℕ
  unfolding line_word
  without_bit = bit_and line_word (complement (2 ^ (index % 32)))

  mask-lt : 2 ^ (index % 32) < 2 ^ 32
  mask-lt =
      let small : 2 ^ (index % 32) ≤ 2 ^ 31 =
        pow-le-pow_right {n = 2} (omega arith) {j = 31} (omega arith) in
      omega arith

  with_bit-bit : (k : ℕ) → bit with_bit k ≡ (if k == index % 32 then 1 else bit line_word k)
  unfolding with_bit
  with_bit-bit k =
      ground (
        arith,
        bit-bit_or line_word (2 ^ (index % 32)) k,
        bit-pow (index % 32) k,
        bit-lt line_word k,
      )

  without_bit-bit : (k : ℕ) → bit without_bit k ≡ (if k == index % 32 then 0 else bit line_word k)
  unfolding without_bit
  without_bit-bit k = ground (
    arith,
    bit-bit_and line_word (complement (2 ^ (index % 32))) k,
    bit-complement 32 (2 ^ (index % 32)) k mask-lt,
    bit-pow (index % 32) k,
    bit-lt line_word k,
    bit_of_lt 32 line_word k (v.words (index / 32)),
  )

  with_bit-lt : with_bit < 2 ^ 32
  unfolding line_word
  with_bit-lt =
      lt_of_bit 32 with_bit
        λ k h. ground (arith, with_bit-bit k, bit_of_lt 32 line_word k (v.words (index / 32)))

  without_bit-lt : without_bit < 2 ^ 32
  unfolding line_word
  without_bit-lt =
      lt_of_bit 32 without_bit
        λ k h. ground (arith, without_bit-bit k, bit_of_lt 32 line_word k (v.words (index / 32)))

  -- `bitmap_set` adds a number inside a valid bitmap to the set, changes no other and says whether it
  -- was new.
  pub set_bit-Changed :
      index < nlines * 32
      → Returns
          (set_bit lines nlines index)
          (λ r. (r.0 ≡ not (used lines index == 1)) × Changed lines nlines index 1 r.1)
  unfolding set_bit with_bit
  set_bit-Changed inside = (
    (not (used lines index == 1), set lines (index / 32) with_bit),
    rw
        (
          inside_line,
          if◌then◌else◌,
          get-used lines nlines index (omega (arith, v.width)) (omega (arith, v.width)),
          ◌>>=◌,
          get_elem?-eq-get_or lines (index / 32) 0 (omega (arith, v.width)),
          ◌>>=◌,
          shift_left-one (index % 32) (omega arith),
          ◌>>=◌,
          store-eq-some lines (index / 32) with_bit (omega (arith, v.width)),
        )
        refl,
    (refl, write_word index with_bit 1 v inside with_bit-bit with_bit-lt),
  )
    where
      inside_line : leb nlines (index / 32) ≡ false
      inside_line = ground arith

  -- `bitmap_clear` takes a number inside a valid bitmap out of the set, changes no other and says
  -- whether it was there.
  pub clear-Changed :
      index < nlines * 32
      → Returns
          (clear lines nlines index)
          (λ r. (r.0 ≡ (used lines index == 1)) × Changed lines nlines index 0 r.1)
  unfolding clear without_bit
  clear-Changed inside = (
    ((used lines index == 1), set lines (index / 32) without_bit),
    rw
        (
          inside_line,
          if◌then◌else◌,
          get-used lines nlines index (omega (arith, v.width)) (omega (arith, v.width)),
          ◌>>=◌,
          get_elem?-eq-get_or lines (index / 32) 0 (omega (arith, v.width)),
          ◌>>=◌,
          shift_left-one (index % 32) (omega arith),
          ◌>>=◌,
          store-eq-some lines (index / 32) without_bit (omega (arith, v.width)),
        )
        refl,
    (refl, write_word index without_bit 0 v inside without_bit-bit without_bit-lt),
  )
    where
      inside_line : leb nlines (index / 32) ≡ false
      inside_line = ground arith

-- Outside of the bitmap both operations change nothing and return false.
pub set_bit_outside :
    (lines : List ℕ) (nlines index : ℕ)
    → nlines * 32 ≤ index
    → (set_bit lines nlines index ≡ some (false, lines))
      × (clear lines nlines index ≡ some (false, lines))
unfolding set_bit clear
set_bit_outside lines nlines index h = (ground arith, ground arith)
