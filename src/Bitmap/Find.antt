-- ===== src/Bitmap/Find.antt =====
-- `bitmap_find_first_free_n` finds the first free run, when the search begins at a line.
use mos_moody_hunter.Base.{
  ℕ, zero, suc, ◌+◌, ◌-◌, ◌*◌, ◌/◌, ◌%◌, ◌^◌, ◌≤◌, ◌<◌, ◌≡◌, ◌⊎◌, refl, ◌∙◌, some, List, get_or,
  ltb, leb, ◌==◌, ◌>>=◌, Returns, arith, zero-bit, bit-ones, get_elem?, get_elem?-eq-get_or,
  Bool-cases, ==_iff, inl, inr,
}
use mos_moody_hunter.Bitmap.{full_line, Search, scan_lines, find_first_free_n}
use mos_moody_hunter.Bitmap.Bit.{used, IsValid}
use mos_moody_hunter.Bitmap.Scan.{
  advance, restart, scan_bits-Progress, IsSpoilt, used_line, Progress,
}

-- What a search from `begin` for `n` free numbers returns: the first free run inside the bitmap, or
-- `-1` where there is none.
abbrev pub IsFirstRun : List ℕ → ℕ → ℕ → ℕ → ℕ → Type 0
IsFirstRun lines nlines begin n r =
    (begin ≤ r)
    × (r + n ≤ nlines * 32)
    × ((k : ℕ) → k < n → used lines (r + k) ≡ 0)
    × ((p : ℕ) → begin ≤ p → p < r → IsSpoilt lines n p)

abbrev pub IsFull : List ℕ → ℕ → ℕ → ℕ → Type 0
IsFull lines nlines begin n = (p : ℕ) → begin ≤ p → p + n ≤ nlines * 32 → IsSpoilt lines n p

abbrev pub FindsFirst : List ℕ → ℕ → ℕ → ℕ → ℕ → Type 0
FindsFirst lines nlines begin n r =
    IsFirstRun lines nlines begin n r ⊎ ((r ≡ 2 ^ 64 - 1) × IsFull lines nlines begin n)

module _ (lines : List ℕ) (nlines begin n : ℕ) (v : IsValid lines nlines) (some_bits : 0 < n) where
  found :
      (pos : ℕ) (s : Search)
      → Progress lines nlines begin n pos s
      → n ≤ s.free_bits
      → IsFirstRun lines nlines begin n (s.starting_line * 32 + s.starting_bit)
  found pos s p enough =
      (p.from, omega (arith, p.run, p.inside), λ k h. p.free k (omega arith), p.spoilt)

  exhausted :
      (pos : ℕ) (s : Search)
      → Progress lines nlines begin n pos s
      → s.free_bits < n
      → nlines * 32 ≤ pos
      → IsFull lines nlines begin n
  exhausted pos s p more past q h fits = p.spoilt q h (omega (arith, p.run))

  full_word :
      (k line_i : ℕ)
      → line_i * 32 ≤ k
      → k ≤ line_i * 32 + 31
      → get_or lines line_i 0 ≡ full_line
      → used lines k ≡ 1
  full_word k line_i h h' e =
      let same : k ≡ line_i * 32 + (k - line_i * 32) = omega arith in
      rw same (
        used_line lines line_i (k - line_i * 32) (omega arith)
        ∙ rw e (bit-ones 32 (k - line_i * 32) ∙ ground arith))

  empty_word :
      (k line_i : ℕ)
      → line_i * 32 ≤ k
      → k ≤ line_i * 32 + 31
      → get_or lines line_i 0 ≡ 0
      → used lines k ≡ 0
  empty_word k line_i h h' e =
      let same : k ≡ line_i * 32 + (k - line_i * 32) = omega arith in
      rw same
        (used_line lines line_i (k - line_i * 32) (omega arith) ∙ rw e (zero-bit (k - line_i * 32)))

  scan_lines-FindsFirst :
      (fuel line_i pos : ℕ) (s : Search)
      → nlines - line_i < fuel
      → Progress lines nlines begin n pos s
      → (n ≤ s.free_bits) ⊎ (pos ≡ line_i * 32)
      → Returns (scan_lines fuel lines nlines n line_i s) (FindsFirst lines nlines begin n)
  unfolding scan_lines
  scan_lines-FindsFirst zero line_i pos s enough p at = absurd (omega arith)
  scan_lines-FindsFirst (suc fuel) line_i pos s enough p at =
      elim (Bool-cases (ltb s.free_bits n)) [
        | inr done ↦ (
          s.starting_line * 32 + s.starting_bit,
          rw (done, scan_lines) refl,
          inl (found pos s p (ground arith)),
        )
        | inl more ↦
            let few : s.free_bits < n = ground arith in
            let here : pos ≡ line_i * 32 = omega arith in
            elim (Bool-cases (leb nlines line_i)) [
              | inl past ↦ (
                2 ^ 64 - 1,
                rw (more, past, scan_lines) refl,
                inr (refl, exhausted pos s p few (ground arith)),
              )
              | inr in_range ↦
                  let inside : line_i < nlines = ground arith in
                  let word = get_elem?-eq-get_or lines line_i 0 (omega (arith, v.width)) in
                  elim (Bool-cases (get_or lines line_i 0 == 0)) [
                    | inl empty ↦
                        let (r, run, f) =
                          scan_lines-FindsFirst fuel (line_i + 1) (pos + 32)
                            (record s { free_bits = s.free_bits + 32 }) (omega arith)
                            (advance lines nlines begin n v 32 pos s p (omega arith) (λ k h.
                              empty_word (pos + k) line_i (omega arith) (omega arith)
                                ((==_iff (get_or lines line_i 0) 0).0 empty)))
                            (inr (omega arith)) in
                        (r, rw (more, in_range, scan_lines, word, ◌>>=◌, empty) run, f)
                    | inr some_used ↦ elim (Bool-cases (get_or lines line_i 0 == full_line)) [
                      | inl full ↦
                          let next : Search = record {
                            starting_line = line_i + 1;
                            starting_bit = 0;
                            free_bits = 0;
                          } in
                          let p' =
                            restart lines nlines begin n v (line_i * 32 + 31) pos s next p few
                              (omega arith)
                              (λ k h h'.
                                full_word k line_i (omega arith) h'
                                  ((==_iff (get_or lines line_i 0) full_line).0 full))
                              (omega arith) refl in
                          let (r, run, f) =
                            scan_lines-FindsFirst fuel (line_i + 1) (line_i * 32 + 31 + 1) next
                              (omega arith) p' (inr (omega arith)) in
                          (r, rw (more, in_range, scan_lines, word, ◌>>=◌, some_used, full) run, f)
                      | inr mixed ↦
                          let (s', scan, (pos', p', at')) =
                            scan_bits-Progress lines nlines begin n v line_i 0 32 s inside refl
                              (let same : line_i * 32 + 0 ≡ pos = omega arith in rw same p) in
                          let (r, run, f) =
                            scan_lines-FindsFirst fuel (line_i + 1) pos' s' (omega arith) p' at' in
                          (
                            r,
                            rw
                                (
                                  more, in_range, scan_lines, word, ◌>>=◌, some_used, mixed, scan,
                                  ◌>>=◌,
                                )
                                run,
                            f,
                          )
                    ]
                  ]
            ]
      ]

-- A search in a valid bitmap for at least one bit that begins at the first bit of a line does not fault
-- and its loop ends: it returns the first run of `n` free bits from there on inside the bitmap, or `-1`
-- if every such run has a used bit.
pub find_first_free_n-FindsFirst :
    (lines : List ℕ) (nlines begin n : ℕ)
    → IsValid lines nlines
    → 0 < n
    → begin % 32 ≡ 0
    → Returns (find_first_free_n lines nlines begin n) (FindsFirst lines nlines begin n)
unfolding find_first_free_n
find_first_free_n-FindsFirst lines nlines begin n v some_bits aligned =
    scan_lines-FindsFirst lines nlines begin n v some_bits (nlines + 2) (begin / 32) begin _
      (omega arith)
      (record {
        run = omega arith;
        free = λ k h. absurd (omega arith);
        from = omega arith;
        spoilt = λ p h h'. absurd (omega arith);
        inside = inl refl;
      })
      (inr (omega arith))

-- A whole line is counted when the search comes to an empty one.
scan_empty :
    (fuel : ℕ) (lines : List ℕ) (last bit n : ℕ)
    → get_elem? lines last ≡ some 0
    → n ≤ 32
    → 0 < n
    → scan_lines
        (suc (suc fuel))
        lines
        (suc last)
        n
        last
        (record { starting_line = last; starting_bit = bit; free_bits = 0 })
      ≡ some (last * 32 + bit)
unfolding scan_lines
scan_empty fuel lines last bit n empty few pos = ground (arith, empty)

-- A search that begins inside the last line, for more bits than are left there but no more than a line
-- holds: if that line has no used bit, the search returns its start, whatever the other lines hold,
-- though the run of `n` bits there is not inside the bitmap.
pub find_first_free_n_overruns :
    (lines : List ℕ) (last begin n : ℕ)
    → get_elem? lines last ≡ some 0
    → begin / 32 ≡ last
    → n ≤ 32
    → suc last * 32 < begin + n
    → (find_first_free_n lines (suc last) begin n ≡ some begin)
      × ¬ IsFirstRun lines (suc last) begin n begin
unfolding find_first_free_n
find_first_free_n_overruns lines last begin n empty line few over =
    let fuel : suc last + 2 ≡ suc (suc (suc last)) = omega arith in
    let start : last * 32 + begin % 32 ≡ begin = omega (arith, line) in
    let scan = scan_empty (suc last) lines last (begin % 32) n empty few (omega arith) in
    (rw (fuel, line, scan, start) refl, λ run. omega (arith, run.1))
