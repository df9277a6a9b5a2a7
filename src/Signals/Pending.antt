-- ===== src/Signals/Pending.antt =====
-- The pending signals of a thread: which one is next, that none is there twice, and that each comes up.
use mos_moody_hunter.Base.{
  ℕ, zero, suc, ◌<◌, ◌≡◌, ◌⊎◌, inl, inr, refl, ap, ◌∙◌, Bool, true, false, ◌||◌, some, List, [],
  ◌∷◌, ◌++◌, if◌then◌else◌, get_elem?, length, arith, Bool-cases, Returns,
}
use mos_moody_hunter.Signals.{is_pending, add_pending, signal_get_next_pending}

abbrev pub IsMasked : List Bool → ℕ → Type 0
IsMasked masks s = get_elem? masks s ≡ some true

abbrev pub AllMasked : List Bool → List ℕ → Type 0
AllMasked masks [] = Unit {0}
AllMasked masks (s ∷ ss) = IsMasked masks s × AllMasked masks ss

-- Real signals: not 0, and with a place in the arrays of `nsig` entries.
abbrev pub InRange : ℕ → List ℕ → Type 0
InRange nsig [] = Unit {0}
InRange nsig (s ∷ ss) = (0 < s) × (s < nsig) × InRange nsig ss

-- No signal is there twice.
abbrev pub IsDistinct : List ℕ → Type 0
IsDistinct [] = Unit {0}
IsDistinct (s ∷ ss) = (is_pending s ss ≡ false) × IsDistinct ss

-- The first signal that is not masked is taken out, or there is none.
abbrev pub IsNext : List Bool → List ℕ → ℕ × List ℕ → Type 0
IsNext masks pending (signal, rest) =
    ((signal ≡ 0) × (rest ≡ pending) × AllMasked masks pending)
    ⊎ ((0 < signal)
        × (get_elem? masks signal ≡ some false)
        × ((xs : List ℕ) × (ys : List ℕ) × (pending ≡ xs ++ signal ∷ ys)
            × (rest ≡ xs ++ ys)
            × AllMasked masks xs))

pub get_elem?_inside :
    {A : Type 0} (xs : List A) (i : ℕ) → i < length xs → (a : A) × (get_elem? xs i ≡ some a)
get_elem?_inside [] i h = absurd (ground arith)
get_elem?_inside (x ∷ xs) zero h = (x, refl)
get_elem?_inside (x ∷ xs) (suc i) h = get_elem?_inside xs i (omega arith)

IsNext-cons :
    (masks : List Bool) (s : ℕ) (ss : List ℕ) (r : ℕ × List ℕ)
    → IsMasked masks s
    → IsNext masks ss r
    → IsNext masks (s ∷ ss) (r.0, s ∷ r.1)
IsNext-cons masks s ss r m (inl p) = inl (p.0, ap (◌∷◌ s) p.1, (m, p.2))
IsNext-cons masks s ss r m (inr p) =
    let (xs, ys, e, e', a) = p.2 in
    inr (p.0, p.1, (s ∷ xs, ys, ap (◌∷◌ s) e, ap (◌∷◌ s) e', (m, a)))

-- For pending signals that are in the range of the masks, `signal_get_next_pending` takes out the first
-- that is not masked, whose number it returns, and keeps the others in order; if all are masked
-- it returns 0 and takes none.
pub signal_get_next_pending-IsNext :
    (masks : List Bool) (pending : List ℕ)
    → InRange (length masks) pending
    → Returns (signal_get_next_pending masks pending) (IsNext masks pending)
unfolding signal_get_next_pending
signal_get_next_pending-IsNext masks [] h = ((0, []), refl, inl (refl, refl, tt))
signal_get_next_pending-IsNext masks (s ∷ ss) h =
    let (b, e) = get_elem?_inside masks s h.1 in
    elim (Bool-cases b) [
      | inl on ↦
          let m : IsMasked masks s = e ∙ ap some on in
          let (r, e', p) = signal_get_next_pending-IsNext masks ss h.2 in
          let run : signal_get_next_pending masks (s ∷ ss) ≡ some (r.0, s ∷ r.1) =
            rw (m, e') refl in
          ((r.0, s ∷ r.1), run, IsNext-cons masks s ss r m p)
      | inr off ↦
          let m : get_elem? masks s ≡ some false = e ∙ ap some off in
          let run : signal_get_next_pending masks (s ∷ ss) ≡ some (s, ss) = rw m refl in
          ((s, ss), run, inr (h.0, m, ([], ss, refl, refl, tt)))
    ]

is_pending-append :
    (a : ℕ) (xs ys : List ℕ) → is_pending a (xs ++ ys) ≡ (is_pending a xs || is_pending a ys)
unfolding is_pending
is_pending-append a [] ys = refl
is_pending-append a (x ∷ xs) ys = ground (arith, is_pending-append a xs ys)

IsDistinct-snoc :
    (s : ℕ) (xs : List ℕ) → IsDistinct xs → is_pending s xs ≡ false → IsDistinct (xs ++ s ∷ [])
unfolding is_pending
IsDistinct-snoc s [] d h = (refl, tt)
IsDistinct-snoc s (x ∷ xs) d h =
    let e = is_pending-append x xs (s ∷ []) in
    (ground (arith, e, d.0), IsDistinct-snoc s xs d.1 (ground arith))

pub add_pending-IsDistinct : (s : ℕ) (xs : List ℕ) → IsDistinct xs → IsDistinct (add_pending s xs)
add_pending-IsDistinct s xs d = elim (Bool-cases (is_pending s xs)) [
  | inl there ↦ rw (there, if◌then◌else◌) d
  | inr new ↦ rw (new, if◌then◌else◌) (IsDistinct-snoc s xs d new)
]

InRange-snoc :
    (nsig s : ℕ) (xs : List ℕ) → InRange nsig xs → 0 < s → s < nsig → InRange nsig (xs ++ s ∷ [])
InRange-snoc nsig s [] r h h' = (h, h', tt)
InRange-snoc nsig s (x ∷ xs) r h h' = (r.0, r.1, InRange-snoc nsig s xs r.2 h h')

pub add_pending-InRange :
    (nsig s : ℕ) (xs : List ℕ)
    → InRange nsig xs
    → 0 < s
    → s < nsig
    → InRange nsig (add_pending s xs)
add_pending-InRange nsig s xs r h h' = elim (Bool-cases (is_pending s xs)) [
  | inl there ↦ rw (there, if◌then◌else◌) r
  | inr new ↦ rw (new, if◌then◌else◌) (InRange-snoc nsig s xs r h h')
]

IsDistinct-without : (s : ℕ) (xs ys : List ℕ) → IsDistinct (xs ++ s ∷ ys) → IsDistinct (xs ++ ys)
unfolding is_pending
IsDistinct-without s [] ys d = d.1
IsDistinct-without s (x ∷ xs) ys d =
    let e = is_pending-append x xs (s ∷ ys) in
    let e' = is_pending-append x xs ys in
    (ground (arith, e, e', d.0), IsDistinct-without s xs ys d.1)

InRange-without :
    (nsig s : ℕ) (xs ys : List ℕ) → InRange nsig (xs ++ s ∷ ys) → InRange nsig (xs ++ ys)
InRange-without nsig s [] ys r = r.2
InRange-without nsig s (x ∷ xs) ys r = (r.0, r.1, InRange-without nsig s xs ys r.2)

pub IsNext-IsDistinct :
    (masks : List Bool) (pending : List ℕ) (r : ℕ × List ℕ)
    → IsNext masks pending r
    → IsDistinct pending
    → IsDistinct r.1
IsNext-IsDistinct masks pending r (inl p) d = rw p.1 d
IsNext-IsDistinct masks pending r (inr p) d =
    let (xs, ys, e, e', a) = p.2 in rw e' (IsDistinct-without r.0 xs ys (rw e at d))

pub IsNext-InRange :
    (masks : List Bool) (pending : List ℕ) (nsig : ℕ) (r : ℕ × List ℕ)
    → IsNext masks pending r
    → InRange nsig pending
    → InRange nsig r.1
IsNext-InRange masks pending nsig r (inl p) h = rw p.1 h
IsNext-InRange masks pending nsig r (inr p) h =
    let (xs, ys, e, e', a) = p.2 in rw e' (InRange-without nsig r.0 xs ys (rw e at h))
