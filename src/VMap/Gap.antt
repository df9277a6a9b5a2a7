-- ===== src/VMap/Gap.antt =====
-- The search for a free range of addresses among the maps (kernel/mm/paging/paging.c).
use mos_moody_hunter.Base.{
  ℕ, ◌*◌, ◌%◌, ◌^◌, ◌≤◌, ◌<◌, ◌≡◌, ◌⊎◌, Bool, true, false, Option, none, some, List, [], ◌∷◌, ltb,
  leb, if◌then◌else◌, arith, page_size, leb→le, Bool-cases, inl, inr,
}
use mos_moody_hunter.VMap.{VMap, end_of}
use mos_moody_hunter.VMap.Space.{kernel_start, range_end, overlaps, exact_free, next_free}
use mos_moody_hunter.VMap.Layout.{
  top_of, top, IsRegion, IsLayout, IsFree, end_of-eq-top, IsFree-below,
}

-- The addresses that the flags allow: the hint itself, or any from the hint on.
abbrev pub Candidate : Bool → ℕ → ℕ → Type 0
Candidate exact base b = if exact then b ≡ base else base ≤ b

-- The result of a search among the candidates: the first at which the range is free, or none if there
-- is none below the kernel.
abbrev pub Placed : List VMap → ℕ → ℕ → Bool → Option ℕ → Type 0
Placed ms n_pages base exact (some a) =
    Candidate exact base a
    × IsFree a n_pages ms
    × (top_of a n_pages ≤ kernel_start)
    × ((b : ℕ) → Candidate exact base b → b < a → ¬ IsFree b n_pages ms)
Placed ms n_pages base exact none =
    (b : ℕ) → Candidate exact base b → top_of b n_pages ≤ kernel_start → ¬ IsFree b n_pages ms

module _ (n_pages : ℕ) (some_pages : 0 < n_pages) (small : n_pages * page_size < 2 ^ 47) where
  range_end-eq-top_of : (a : ℕ) → a ≤ kernel_start → range_end a n_pages ≡ top_of a n_pages
  range_end-eq-top_of a low = omega arith

  -- The search behind the first map, from `retry'` on, finds the first place from `retry` on.
  Placed-behind :
      (m : VMap) (ms : List VMap) (retry retry' : ℕ) (r : Option ℕ)
      → retry ≤ retry'
      → top m ≤ retry'
      → ((b : ℕ) → retry ≤ b → b < retry' → ¬ IsFree b n_pages (m ∷ ms))
      → Placed ms n_pages retry' false r
      → Placed (m ∷ ms) n_pages retry false r
  Placed-behind m ms retry retry' none up above blocked p = λ b h h' f.
      elim (Bool-cases (ltb b retry')) [
        | inl lt ↦ blocked b h (ground (arith, lt)) f
        | inr ge ↦ p b (ground (arith, ge)) h' f.1
      ]
  Placed-behind m ms retry retry' (some a) up above blocked p = (
    omega (arith, p.0),
    (inr (omega (arith, p.0)), p.1),
    p.2,
    λ b h lt f. elim (Bool-cases (ltb b retry')) [
      | inl lt' ↦ blocked b h (ground (arith, lt')) f
      | inr ge ↦ p.3 b (ground (arith, ge)) lt f.1
    ],
  )

  -- The place before the first map.
  Placed-before :
      (lo : ℕ) (m : VMap) (ms : List VMap) (retry retry' : ℕ)
      → IsLayout lo (m ∷ ms)
      → retry ≤ retry'
      → top_of retry' n_pages ≤ m.vaddr
      → ((b : ℕ) → retry ≤ b → b < retry' → ¬ IsFree b n_pages (m ∷ ms))
      → Placed (m ∷ ms) n_pages retry false (some retry')
  Placed-before lo m ms retry retry' l up below blocked = (
    up,
    (inl below, IsFree-below retry' n_pages (top m) ms (omega (arith, l.1)) l.2),
    omega (arith, l.1),
    λ b h lt f. blocked b h lt f,
  )

  overlaps→ :
      (m : VMap) (a : ℕ)
      → IsRegion m
      → a ≤ kernel_start
      → overlaps m a n_pages ≡ true
      → (m.vaddr < top_of a n_pages) × (a < top m)
  overlaps→ m a r low h =
      let e = range_end-eq-top_of a low in let e' = end_of-eq-top m r in ground (arith, e, e', h)

  apart→ :
      (m : VMap) (a : ℕ)
      → IsRegion m
      → a ≤ kernel_start
      → overlaps m a n_pages ≡ false
      → (top_of a n_pages ≤ m.vaddr) ⊎ (top m ≤ a)
  apart→ m a r low h =
      let e = range_end-eq-top_of a low in
      let e' = end_of-eq-top m r in
      elim (Bool-cases (ltb a (end_of m))) [
        | inl lt ↦ inl (ground (arith, e, e', lt, h))
        | inr ge ↦ inr (ground (arith, e', ge))
      ]

  Placed-if :
      (lo : ℕ) (m : VMap) (ms : List VMap) (retry retry' : ℕ) (later : Option ℕ)
      → IsLayout lo (m ∷ ms)
      → retry ≤ retry'
      → retry' ≤ kernel_start
      → ((top_of retry' n_pages ≤ m.vaddr) ⊎ (top m ≤ retry'))
      → ((b : ℕ) → retry ≤ b → b < retry' → ¬ IsFree b n_pages (m ∷ ms))
      → Placed ms n_pages retry' false later
      → Placed
          (m ∷ ms)
          n_pages
          retry
          false
          (if leb (range_end retry' n_pages) m.vaddr then some retry' else later)
  Placed-if lo m ms retry retry' later l up low side blocked p =
      let e = range_end-eq-top_of retry' low in
      elim (Bool-cases (leb (range_end retry' n_pages) m.vaddr)) [
        | inl before ↦
            rw (before, if◌then◌else◌)
              (Placed-before lo m ms retry retry' l up (omega (arith, leb→le _ _ before, e))
                blocked)
        | inr behind ↦
            rw (behind, if◌then◌else◌)
              (Placed-behind m ms retry retry' later up (ground (arith, behind, e, side)) blocked p)
      ]

  pub next_free-Placed :
      (lo : ℕ) (ms : List VMap) (retry : ℕ)
      → IsLayout lo ms
      → retry ≤ kernel_start
      → Placed ms n_pages retry false (next_free ms retry n_pages)
  unfolding next_free
  next_free-Placed lo [] retry l low =
      elim (Bool-cases (leb (range_end retry n_pages) kernel_start)) [
        | inl fits ↦
            rw (fits, if◌then◌else◌)
              (omega arith, tt, ground (arith, fits), λ b h h' f. omega arith)
        | inr over ↦ rw (over, if◌then◌else◌) (λ b h h' f. ground (arith, over))
      ]
  next_free-Placed lo (m ∷ ms) retry l low =
      elim (Bool-cases (ltb kernel_start (range_end retry n_pages))) [
        | inl over ↦ rw (over, if◌then◌else◌) (λ b h h' f. ground (arith, over))
        | inr fits ↦ elim (Bool-cases (overlaps m retry n_pages)) [
          | inl hit ↦
              let e = end_of-eq-top m l.1 in
              let o = overlaps→ m retry l.1 low hit in
              rw (fits, hit, if◌then◌else◌)
                (Placed-if lo m ms retry (end_of m) (next_free ms (end_of m) n_pages) l
                  (omega (arith, e, o)) (omega (arith, e, l.1)) (inr (omega (arith, e)))
                  (λ b h lt f. ground (arith, e, o, lt, h, f.0))
                  (next_free-Placed (top m) ms (end_of m) l.2 (omega (arith, e, l.1))))
          | inr miss ↦
              rw (fits, miss, if◌then◌else◌)
                (Placed-if lo m ms retry retry (next_free ms retry n_pages) l (omega arith) low
                  (apart→ m retry l.1 low miss) (λ b h lt f. omega arith)
                  (next_free-Placed (top m) ms retry l.2 low))
        ]
      ]

  pub exact_free-IsFree :
      (lo : ℕ) (ms : List VMap) (a : ℕ)
      → IsLayout lo ms
      → a ≤ kernel_start
      → exact_free ms a n_pages ≡ true
      → IsFree a n_pages ms
  unfolding exact_free
  exact_free-IsFree lo [] a l low h = tt
  exact_free-IsFree lo (m ∷ ms) a l low h = elim (Bool-cases (overlaps m a n_pages)) [
    | inl hit ↦ ground (arith, hit)
    | inr miss ↦ (
      apart→ m a l.1 low miss,
      exact_free-IsFree (top m) ms a l.2 low (rw (miss, if◌then◌else◌) at h),
    )
  ]

  pub exact_free-taken :
      (lo : ℕ) (ms : List VMap) (a : ℕ)
      → IsLayout lo ms
      → a ≤ kernel_start
      → exact_free ms a n_pages ≡ false
      → ¬ IsFree a n_pages ms
  unfolding exact_free
  exact_free-taken lo [] a l low h f = cc
  exact_free-taken lo (m ∷ ms) a l low h f = elim (Bool-cases (overlaps m a n_pages)) [
    | inl hit ↦ let o = overlaps→ m a l.1 low hit in omega arith
    | inr miss ↦ exact_free-taken (top m) ms a l.2 low (rw (miss, if◌then◌else◌) at h) f.1
  ]

  -- Every place that the search tries begins a page.
  pub next_free-aligned :
      (lo : ℕ) (ms : List VMap) (retry a : ℕ)
      → IsLayout lo ms
      → retry % page_size ≡ 0
      → next_free ms retry n_pages ≡ some a
      → a % page_size ≡ 0
  unfolding next_free
  next_free-aligned lo [] retry a l h e = ground arith
  next_free-aligned lo (m ∷ ms) retry a l h e = elim (Bool-cases (overlaps m retry n_pages)) [
    | inl hit ↦
        let t = end_of-eq-top m l.1 in
        let u : end_of m % page_size ≡ 0 = omega (arith, t, l.1) in
        let ih = next_free-aligned (top m) ms (end_of m) a l.2 u in ground (arith, hit, ih)
    | inr miss ↦ let ih = next_free-aligned (top m) ms retry a l.2 h in ground (arith, miss, ih)
  ]
