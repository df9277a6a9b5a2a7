-- ===== src/Strings/Laws.antt =====
-- Lengths and comparisons of strings by their text, the bytes before the first zero.
use mos_moody_hunter.Base.{
  ℕ, zero, suc, ◌≤◌, ◌≡◌, ◌≢◌, ◌↔◌, refl, ap, ◌∙◌, Returns, false, some, List, [], ◌∷◌, ◌++◌,
  length, take, min, ◌==◌, if◌then◌else◌, arith, Bool-cases, inl, inr,
}
use mos_moody_hunter.Strings.{pos, difference, strlen, strnlen, strncmp, memcmp}

-- No byte of a text is zero.
abbrev pub IsText : List ℕ → Type 0
IsText [] = Unit {0}
IsText (c ∷ text) = (c ≢ 0) × IsText text

-- `strlen` of a text with a zero behind it is the length of the text, and `strnlen` is the smaller of
-- this and its bound, whatever stands behind the zero.
pub strlen_lem :
    (text rest : List ℕ) (n : ℕ)
    → IsText text
    → (strlen (text ++ 0 ∷ rest) ≡ some (length text))
      × (strnlen (text ++ 0 ∷ rest) n ≡ some (min n (length text)))
unfolding strlen strnlen
strlen_lem [] rest zero t = (refl, refl)
strlen_lem [] rest (suc n) t = (refl, ap some (omega arith))
strlen_lem (c ∷ text) rest zero t =
    (ground (arith, t.0, (strlen_lem text rest zero t.1).0), ap some (omega arith))
strlen_lem (c ∷ text) rest (suc n) t =
    let (all, bounded) = strlen_lem text rest n t.1 in
    (ground (arith, t.0, all), ground (arith, t.0, bounded))

difference_zero : (a b : ℕ) → (difference a b ≡ pos 0) → a ≡ b
unfolding difference
difference_zero a b e = ground (arith, e)

differ : (a b : ℕ) → (a == b) ≡ false → a ≢ b
differ a b h e = ground (arith, h, e)

-- `memcmp` of the first `n` bytes of two arrays that have as many stays inside both, and gives 0 exactly
-- if these bytes are the same.
pub memcmp-eq-zero_iff :
    (s1 s2 : List ℕ) (n : ℕ)
    → n ≤ length s1
    → n ≤ length s2
    → Returns (memcmp s1 s2 n) (λ z. (z ≡ pos 0) ↔ (take n s1 ≡ take n s2))
unfolding memcmp
memcmp-eq-zero_iff s1 s2 zero has has' = (pos 0, refl, (λ e. refl, λ e. refl))
memcmp-eq-zero_iff [] s2 (suc n) has has' = absurd (omega arith)
memcmp-eq-zero_iff (a ∷ s1) [] (suc n) has has' = absurd (omega arith)
memcmp-eq-zero_iff (a ∷ s1) (b ∷ s2) (suc n) has has' =
    let (z, run, zero_iff) = memcmp-eq-zero_iff s1 s2 n (omega arith) (omega arith) in
    elim (Bool-cases (a == b)) [
      | inl same ↦
          let e : a ≡ b = ground (arith, same) in
          (
            z,
            rw (same, if◌then◌else◌, run) refl,
            (λ h. ap (λ k. k ∷ take n s1) e ∙ ap (◌∷◌ b) (zero_iff.0 h), λ h. zero_iff.1 (cc)),
          )
      | inr other ↦ (
        difference a b,
        rw (other, if◌then◌else◌) refl,
        (
          λ h. absurd (ground (arith, other, difference_zero a b h)),
          λ h. absurd (differ a b other (cc)),
        ),
      )
    ]

-- `strncmp` of two texts with a zero behind each of them reads no byte beyond these zeros, and gives 0
-- exactly if the first `n` bytes of the texts, or all where a text has fewer, are the same.
pub strncmp-eq-zero_iff :
    (text1 rest1 text2 rest2 : List ℕ) (n : ℕ)
    → IsText text1
    → IsText text2
    → Returns
        (strncmp (text1 ++ 0 ∷ rest1) (text2 ++ 0 ∷ rest2) n)
        (λ z. (z ≡ pos 0) ↔ (take n text1 ≡ take n text2))
unfolding strncmp
strncmp-eq-zero_iff text1 rest1 text2 rest2 zero t t' = (pos 0, refl, (λ e. refl, λ e. refl))
strncmp-eq-zero_iff [] rest1 [] rest2 (suc n) t t' = (pos 0, refl, (λ e. refl, λ e. refl))
strncmp-eq-zero_iff [] rest1 (b ∷ text2) rest2 (suc n) t t' = (
  difference 0 b,
  ground (arith, t'.0),
  (λ h. absurd (t'.0 (ground (arith, difference_zero 0 b h))), λ h. absurd (cc)),
)
strncmp-eq-zero_iff (a ∷ text1) rest1 [] rest2 (suc n) t t' = (
  difference a 0,
  ground (arith, t.0),
  (λ h. absurd (t.0 (ground (arith, difference_zero a 0 h))), λ h. absurd (cc)),
)
strncmp-eq-zero_iff (a ∷ text1) rest1 (b ∷ text2) rest2 (suc n) t t' =
    let (z, run, zero_iff) = strncmp-eq-zero_iff text1 rest1 text2 rest2 n t.1 t'.1 in
    elim (Bool-cases (a == b)) [
      | inl same ↦
          let e : a ≡ b = ground (arith, same) in
          let some_byte : (a == 0) ≡ false = ground (arith, t.0) in
          (
            z,
            rw (same, some_byte, if◌then◌else◌, run) refl,
            (λ h. ap (λ k. k ∷ take n text1) e ∙ ap (◌∷◌ b) (zero_iff.0 h), λ h. zero_iff.1 (cc)),
          )
      | inr other ↦ (
        difference a b,
        rw (other, if◌then◌else◌) refl,
        (
          λ h. absurd (differ a b other (difference_zero a b h)),
          λ h. absurd (differ a b other (cc)),
        ),
      )
    ]
