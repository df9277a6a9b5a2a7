-- ===== src/Memory/Copy.antt =====
-- `Memory.copy` read index by index, and taken in two parts.
use mos_moody_hunter.Base.{
  ℕ, ◌+◌, ◌-◌, ◌≤◌, ◌<◌, ◌≡◌, sym, set, length-set, get_or-set, take_all, ap, ◌∙◌, ◌&&◌, some, List,
  ◌++◌, length, get_or, take, drop, ltb, leb, if◌then◌else◌, arith, length-append, length-take,
  length-drop, get_or-append, get_or-take, get_or-drop, get_or_ext,
}
use mos_moody_hunter.Memory.{copied, copy}

module _ (dst : List ℕ) (i : ℕ) (src : List ℕ) (j n : ℕ) where
  module _ (fits : i + n ≤ length dst) (has : j + n ≤ length src) where
    pub copy-eq-some : copy dst i src j n ≡ some (copied dst i src j n)
    unfolding copy
    copy-eq-some = ground arith

    pub length-copied : length (copied dst i src j n) ≡ length dst
    unfolding copied
    length-copied = omega (
      arith,
      length-append (take i dst) (take n (drop j src) ++ drop (i + n) dst),
      length-append (take n (drop j src)) (drop (i + n) dst),
      length-take i dst,
      length-take n (drop j src),
      length-drop j src,
      length-drop (i + n) dst,
    )

    -- The bytes of the range come from the source, all others stay.
    pub get_or-copied :
        (k : ℕ)
        → get_or (copied dst i src j n) k 0
          ≡ (if leb i k && ltb k (i + n) then get_or src (j + (k - i)) 0 else get_or dst k 0)
    unfolding copied
    get_or-copied k = ground (
      arith,
      get_or-append (take i dst) (take n (drop j src) ++ drop (i + n) dst) k 0,
      get_or-append (take n (drop j src)) (drop (i + n) dst) (k - i) 0,
      length-take i dst,
      length-take n (drop j src),
      length-drop j src,
      get_or-take i dst k 0,
      get_or-take n (drop j src) (k - i) 0,
      get_or-drop j src (k - i) 0,
      get_or-drop (i + n) dst (k - i - n) 0,
      ap (λ m. get_or dst m 0) (same_index k),
    )
      where
        same_index : (k : ℕ) → (if ltb k (i + n) then k else i + n + (k - i - n)) ≡ k
        same_index k = ground arith

-- A copy of `m + n` bytes is one of `m` bytes followed by one of `n`.
pub copied-add :
    (dst : List ℕ) (i : ℕ) (src : List ℕ) (j m n : ℕ)
    → i + (m + n) ≤ length dst
    → j + (m + n) ≤ length src
    → copied (copied dst i src j m) (i + m) src (j + m) n ≡ copied dst i src j (m + n)
copied-add dst i src j m n fits has =
    get_or_ext _ _ 0 (whole ∙ sym (length-copied dst i src j (m + n) fits has)) λ k h. ground (
      arith,
      get_or-copied (copied dst i src j m) (i + m) src (j + m) n (omega (arith, half)) (omega arith)
          k,
      get_or-copied dst i src j m (omega arith) (omega arith) k,
      get_or-copied dst i src j (m + n) fits has k,
    )
  where
    half : length (copied dst i src j m) ≡ length dst
    half = length-copied dst i src j m (omega arith) (omega arith)

    whole : length (copied (copied dst i src j m) (i + m) src (j + m) n) ≡ length dst
    whole =
        length-copied (copied dst i src j m) (i + m) src (j + m) n (omega (arith, half))
          (omega arith)
        ∙ half

pub copied-zero :
    (dst : List ℕ) (i : ℕ) (src : List ℕ) (j : ℕ)
    → i ≤ length dst
    → j ≤ length src
    → copied dst i src j 0 ≡ dst
copied-zero dst i src j fits has =
    get_or_ext _ _ 0 (length-copied dst i src j 0 (omega arith) (omega arith))
      λ k h. ground (arith, get_or-copied dst i src j 0 (omega arith) (omega arith) k)

pub copied-one :
    (dst : List ℕ) (i : ℕ) (src : List ℕ) (j : ℕ)
    → i < length dst
    → j < length src
    → copied dst i src j 1 ≡ set dst i (get_or src j 0)
copied-one dst i src j fits has =
    get_or_ext _ _ 0
      (length-copied dst i src j 1 (omega arith) (omega arith)
        ∙ sym (length-set dst i (get_or src j 0)))
      λ k h. ground (
        arith,
        get_or-copied dst i src j 1 (omega arith) (omega arith) k,
        get_or-set dst i k (get_or src j 0) 0,
      )

-- The source may be cut to the bytes that are copied.
pub copied-take-drop :
    (dst : List ℕ) (i : ℕ) (src : List ℕ) (j n : ℕ)
    → copied dst i (take n (drop j src)) 0 n ≡ copied dst i src j n
unfolding copied
copied-take-drop dst i src j n =
    rw (take_all (take n (drop j src)) n (omega (arith, length-take n (drop j src))))

pub copied_front :
    (dst src : List ℕ) (j n : ℕ) → copied dst 0 src j n ≡ take n (drop j src) ++ drop n dst
unfolding copied
copied_front dst src j n = ap (λ m. take n (drop j src) ++ drop m dst) (omega arith)
