-- ===== src/Signals/Turn.antt =====
-- Each signal that is not masked comes up, in turn.
use mos_moody_hunter.Base.{
  ℕ, zero, suc, ◌≡◌, ◌⊎◌, inl, inr, refl, ap, ◌∙◌, Bool, true, false, Option, some, List, [], ◌∷◌,
  ◌++◌, ◌>>=◌, get_elem?, length, arith, Bool-cases, Returns,
}
use mos_moody_hunter.Signals.{is_pending, signal_get_next_pending}
use mos_moody_hunter.Signals.Pending.{
  InRange, get_elem?_inside, signal_get_next_pending-IsNext, IsNext-InRange,
}

-- The signals that `n` calls of `signal_get_next_pending` return, the first to the last.
abbrev pub serve : ℕ → List Bool → List ℕ → Option (List ℕ)
serve zero masks pending = some []
serve (suc n) masks pending = do
  (signal, rest) ← signal_get_next_pending masks pending
  later ← serve n masks rest
  some (signal ∷ later)

-- The next signal is `s` or one of those before it.
next_before :
    (masks : List Bool) (xs : List ℕ) (s : ℕ) (ys : List ℕ)
    → InRange (length masks) (xs ++ s ∷ ys)
    → get_elem? masks s ≡ some false
    → Returns (signal_get_next_pending masks (xs ++ s ∷ ys)) (λ (n, rest).
      InRange (length masks) rest
      × ((n ≡ s) ⊎ ((xs' : List ℕ) × (rest ≡ xs' ++ s ∷ ys) × (suc (length xs') ≡ length xs))))
unfolding signal_get_next_pending
next_before masks [] s ys h off = ((s, ys), rw off refl, (h.2, inl refl))
next_before masks (x ∷ xs) s ys h off =
    let (b, e) = get_elem?_inside masks x h.1 in
    elim (Bool-cases b) [
      | inl on ↦
          let m : get_elem? masks x ≡ some true = e ∙ ap some on in
          let (r, e', p) = next_before masks xs s ys h.2 off in
          let run : signal_get_next_pending masks (x ∷ xs ++ s ∷ ys) ≡ some (r.0, x ∷ r.1) =
            rw (m, e') refl in
          (
            (r.0, x ∷ r.1),
            run,
            (
              (h.0, h.1, p.0),
              elim p.1 [
                | inl here ↦ inl here
                | inr (xs', q, n) ↦ inr (x ∷ xs', ap (◌∷◌ x) q, ap suc n)
              ],
            ),
          )
      | inr free ↦
          let m : get_elem? masks x ≡ some false = e ∙ ap some free in
          let run : signal_get_next_pending masks (x ∷ xs ++ s ∷ ys) ≡ some (x, xs ++ s ∷ ys) =
            rw m refl in
          ((x, xs ++ s ∷ ys), run, (h.2, inr (xs, refl, refl)))
    ]

serve-Returns :
    (n : ℕ) (masks : List Bool) (pending : List ℕ)
    → InRange (length masks) pending
    → Returns (serve n masks pending) (λ out. Unit {0})
serve-Returns zero masks pending h = ([], refl, tt)
serve-Returns (suc n) masks pending h =
    let (r, e, p) = signal_get_next_pending-IsNext masks pending h in
    let (out, e', u) =
      serve-Returns n masks r.1 (IsNext-InRange masks pending (length masks) r p h) in
    rw (e, e') (r.0 ∷ out, refl, tt)

serve_step :
    (n : ℕ) (masks : List Bool) (xs : List ℕ) (s : ℕ) (ys : List ℕ)
    → InRange (length masks) (xs ++ s ∷ ys)
    → get_elem? masks s ≡ some false
    → ((xs' : List ℕ)
        → InRange (length masks) (xs' ++ s ∷ ys)
        → suc (length xs') ≡ length xs
        → Returns (serve n masks (xs' ++ s ∷ ys)) (λ out. is_pending s out ≡ true))
    → Returns (serve (suc n) masks (xs ++ s ∷ ys)) (λ out. is_pending s out ≡ true)
unfolding is_pending
serve_step n masks xs s ys h off later =
    let (r, e, p) = next_before masks xs s ys h off in
    elim p.1 [
      | inl here ↦
          let (out, e', u) = serve-Returns n masks r.1 p.0 in
          rw (e, e') (r.0 ∷ out, refl, ground arith)
      | inr (xs', q, len) ↦
          let (out, e', u) = later xs' (rw q at p.0) len in
          rw (e, q, e') (r.0 ∷ out, refl, ground (arith, u))
    ]

-- A pending signal `s` that is not masked, with the signals `xs` before it, is returned by one of the next
-- `length xs + 1` calls of `signal_get_next_pending`, as long as the masks stay as they are and all pending
-- signals are in their range; none of the calls faults.
pub serve-is_pending :
    (n : ℕ) (masks : List Bool) (xs : List ℕ) (s : ℕ) (ys : List ℕ)
    → InRange (length masks) (xs ++ s ∷ ys)
    → get_elem? masks s ≡ some false
    → n ≡ length xs
    → Returns (serve (suc n) masks (xs ++ s ∷ ys)) (λ out. is_pending s out ≡ true)
serve-is_pending zero masks xs s ys h off k =
    serve_step zero masks xs s ys h off (λ xs' h' len. absurd (omega arith))
serve-is_pending (suc n) masks xs s ys h off k =
    serve_step (suc n) masks xs s ys h off
      (λ xs' h' len. serve-is_pending n masks xs' s ys h' off (omega arith))
