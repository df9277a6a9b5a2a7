-- ===== src/Bitmap/Scan.antt =====
-- The inner loop of `bitmap_find_first_free_n`, and what its search has found so far.
use mos_moody_hunter.Base.{
  ℕ, zero, suc, ◌+◌, ◌-◌, ◌*◌, ◌/◌, ◌%◌, ◌≤◌, ◌<◌, ◌≡◌, ◌⊎◌, refl, ◌∙◌, some, List, [], ◌∷◌, get_or,
  ltb, leb, ◌==◌, ◌>>=◌, Returns, arith, bit, bit-lt, Bool-cases, inl, inr,
}
use mos_moody_hunter.Bitmap.{get, Search, scan_bits}
use mos_moody_hunter.Bitmap.Bit.{used, IsValid, get-used}

-- A run of `n` numbers from `p` on is spoilt by a number in the set.
abbrev pub IsSpoilt : List ℕ → ℕ → ℕ → Type 0
IsSpoilt lines n p = (k : ℕ) × (k < n) × (used lines (p + k) ≡ 1)

-- `target_starting_line * BITMAP_LINE_BITS + target_starting_bit`
abbrev pub start_of : Search → ℕ
start_of s = s.starting_line * 32 + s.starting_bit

module _ (lines : List ℕ) where
  pub used_line :
      (line_i b : ℕ) → b < 32 → used lines (line_i * 32 + b) ≡ bit (get_or lines line_i 0) b
  unfolding used
  used_line line_i b h =
      let line : (line_i * 32 + b) / 32 ≡ line_i = omega arith in
      let place : (line_i * 32 + b) % 32 ≡ b = omega arith in rw (line, place) refl

  pub get_line :
      (line_i b nlines : ℕ)
      → b < 32
      → 0 < nlines
      → get (get_or lines line_i 0 ∷ []) nlines b ≡ some (bit (get_or lines line_i 0) b == 1)
  unfolding used
  get_line line_i b nlines h some_line =
      let line : b / 32 ≡ 0 = omega arith in
      let place : b % 32 ≡ b = omega arith in
      get-used (get_or lines line_i 0 ∷ []) nlines b (omega arith) (omega arith)
      ∙ rw (line, place) refl

module _ (lines : List ℕ) (nlines begin n : ℕ) where
  -- All bits below `pos` have been looked at; the free run that is under way starts at `start_of s`.
  pub record Progress (pos : ℕ) (s : Search) : Type 0 where
    pub run : start_of s + s.free_bits ≡ pos
    pub free : (k : ℕ) → k < s.free_bits → used lines (start_of s + k) ≡ 0
    pub from : begin ≤ start_of s
    pub spoilt : (p : ℕ) → begin ≤ p → p < start_of s → IsSpoilt lines n p
    pub inside : (s.free_bits ≡ 0) ⊎ (pos ≤ nlines * 32)

  module _ (v : IsValid lines nlines) where
    -- More free bits.
    pub advance :
        (m pos : ℕ) (s : Search)
        → Progress pos s
        → pos + m ≤ nlines * 32
        → ((k : ℕ) → k < m → used lines (pos + k) ≡ 0)
        → Progress (pos + m) (record s { free_bits = s.free_bits + m })
    advance m pos s p fits zeros = record {
      run = omega (arith, p.run);
      free = λ k h. elim (Bool-cases (ltb k s.free_bits)) [
        | inl old ↦ p.free k (ground arith)
        | inr new ↦
            let same : start_of s + k ≡ pos + (k - s.free_bits) = ground (arith, p.run) in
            rw same (zeros (k - s.free_bits) (ground arith))
      ];
      from = p.from;
      spoilt = p.spoilt;
      inside = inr fits;
    }

    -- A used bit at `pos + k`: the run starts anew behind it.
    pub restart :
        (q pos : ℕ) (s s' : Search)
        → Progress pos s
        → s.free_bits < n
        → pos ≤ q
        → ((k : ℕ) → pos ≤ k → k ≤ q → used lines k ≡ 1)
        → start_of s' ≡ q + 1
        → s'.free_bits ≡ 0
        → Progress (q + 1) s'
    restart q pos s s' p more order taken start' free' = record {
      run = omega (arith, start', free');
      free = λ k h. absurd (omega (arith, free'));
      from = omega (arith, start', p.from, p.run);
      spoilt = λ r h h'. elim (Bool-cases (ltb r (start_of s))) [
        | inl old ↦ p.spoilt r h (ground arith)
        | inr new ↦ elim (Bool-cases (ltb r pos)) [
          | inl before ↦
              let same : r + (pos - r) ≡ pos = ground arith in
              (pos - r, ground (arith, p.run), rw same (taken pos (omega arith) order))
          | inr after ↦
              let same : r + 0 ≡ r = omega arith in
              (0, omega arith, rw same (taken r (ground arith) (omega (arith, start'))))
        ]
      ];
      inside = inl free';
    }

    -- The inner loop ends at a long enough run, or has looked at the whole line.
    pub scan_bits-Progress :
        (line_i b left : ℕ) (s : Search)
        → line_i < nlines
        → b + left ≡ 32
        → Progress (line_i * 32 + b) s
        → Returns
            (scan_bits (get_or lines line_i 0) nlines line_i n b left s)
            λ s'. (pos : ℕ) × Progress pos s' × ((n ≤ s'.free_bits) ⊎ (pos ≡ (line_i + 1) * 32))
    unfolding scan_bits
    scan_bits-Progress line_i b zero s inside e p =
        (s, refl, (line_i * 32 + b, p, inr (omega arith)))
    scan_bits-Progress line_i b (suc left) s inside e p = elim (Bool-cases (leb n s.free_bits)) [
      | inl enough ↦ (s, rw (enough, scan_bits), (line_i * 32 + b, p, inl (ground arith)))
      | inr more ↦ elim (Bool-cases (bit (get_or lines line_i 0) b == 1)) [
        | inl taken ↦
            let next : Search = record {
              starting_line = line_i;
              starting_bit = b + 1;
              free_bits = 0;
            } in
            let p' =
              restart (line_i * 32 + b) (line_i * 32 + b) s next p (ground arith) (omega arith)
                (λ k h h'.
                  let same : k ≡ line_i * 32 + b = omega arith in
                  rw (same, used_line lines line_i b (omega arith)) (ground arith))
                (omega arith) refl in
            let (s', run, rest) = scan_bits-Progress line_i (b + 1) left next inside (omega arith) (
              let same : line_i * 32 + (b + 1) ≡ line_i * 32 + b + 1 = omega arith in rw same p') in
            (
              s',
              rw
                  (
                    more,
                    scan_bits,
                    get_line lines line_i b nlines (omega arith) (omega arith),
                    ◌>>=◌,
                    taken,
                  )
                  run,
              rest,
            )
        | inr free ↦
            let p' = advance 1 (line_i * 32 + b) s p (omega arith) (λ k h.
              let same : line_i * 32 + b + k ≡ line_i * 32 + b = omega arith in
              rw (same, used_line lines line_i b (omega arith))
                (ground (arith, bit-lt (get_or lines line_i 0) b))) in
            let (s', run, rest) =
              scan_bits-Progress line_i (b + 1) left (record s { free_bits = s.free_bits + 1 })
                inside (omega arith)
                (let same : line_i * 32 + (b + 1) ≡ line_i * 32 + b + 1 = omega arith in
                  rw same p') in
            (
              s',
              rw
                  (
                    more,
                    scan_bits,
                    get_line lines line_i b nlines (omega arith) (omega arith),
                    ◌>>=◌,
                    free,
                  )
                  run,
              rest,
            )
      ]
    ]
