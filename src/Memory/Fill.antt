-- ===== src/Memory/Fill.antt =====
-- `memzero` and `memset` fill their range and nothing else.
use mos_moody_hunter.Base.{
  ℕ, zero, suc, ◌+◌, ◌-◌, ◌%◌, ◌≤◌, ◌<◌, ◌≡◌, refl, ◌∙◌, Returns, ◌&&◌, inl, inr, List, length,
  get_or, set, ltb, leb, if◌then◌else◌, ◌>>=◌, arith, length-set, get_or-set, Bool-cases, leb→le,
}
use mos_moody_hunter.Memory.{memset, zero_words, memzero}
use mos_moody_hunter.Memory.Advance.{store-eq-some}

-- `new` is `old` with the low byte of `c` at all `n` places from index `i` on.
pub record Filled (c : ℕ) (old : List ℕ) (i n : ℕ) (new : List ℕ) : Type 0 where
  pub same : length new ≡ length old
  pub reads :
      (k : ℕ) → get_or new k 0 ≡ (if leb i k && ltb k (i + n) then c % 256 else get_or old k 0)

-- `memset` stays inside the array and fills exactly its range.
pub memset-Filled :
    (c : ℕ) (d : List ℕ) (i n : ℕ) → i + n ≤ length d → Returns (memset d i c n) (Filled c d i n)
unfolding memset
memset-Filled c d i zero fits = (d, refl, record { same = refl; reads = λ k. ground arith })
memset-Filled c d i (suc n) fits =
    let (new, run, f) =
      memset-Filled c (set d i (c % 256)) (i + 1) n (omega (arith, length-set d i (c % 256))) in
    (
      new,
      rw (store-eq-some d i (c % 256) (omega arith), ◌>>=◌) run,
      record {
        same = f.same ∙ length-set d i (c % 256);
        reads = λ k. ground (arith, f.reads k, get_or-set d i k (c % 256) 0);
      },
    )

Filled-add :
    (old mid new : List ℕ) (i m n : ℕ)
    → Filled 0 old i m mid
    → Filled 0 mid (i + m) n new
    → Filled 0 old i (m + n) new
Filled-add old mid new i m n f g = record {
  same = g.same ∙ f.same;
  reads = λ k. ground (arith, g.reads k, f.reads k);
}

zero_words-Filled :
    (fuel : ℕ) (d : List ℕ) (i n : ℕ)
    → i + n ≤ length d
    → n < fuel
    → Returns
        (zero_words fuel d i n)
        λ r. (m : ℕ) × Filled 0 d i m r.0 × (r.1 ≡ i + m) × (r.2 + m ≡ n)
unfolding zero_words
zero_words-Filled zero d i n fits h = absurd (omega arith)
zero_words-Filled (suc fuel) d i n fits h = elim (Bool-cases (leb 8 n)) [
  | inr done ↦ (
    (d, i, n),
    rw (done, zero_words),
    (0, record { same = refl; reads = λ k. ground arith }, omega arith, omega arith),
  )
  | inl more ↦
      let big : 8 ≤ n = leb→le 8 n more in
      let (d', fill, f) = memset-Filled 0 d i 8 (omega arith) in
      let ((d'', i', n'), run, (m, g, e, l)) =
        zero_words-Filled fuel d' (i + 8) (n - 8) (omega (arith, f.same)) (omega arith) in
      (
        (d'', i', n'),
        rw (more, zero_words, fill, ◌>>=◌) run,
        (8 + m, Filled-add d d' d'' i 8 m f g, omega arith, omega arith),
      )
]

-- `memzero` of a range inside an array does not leave it and zeroes exactly the range: its loop over
-- eight bytes at a time, on fuel `n + 1`, ends.
pub memzero-Filled :
    (d : List ℕ) (i n : ℕ) → i + n ≤ length d → Returns (memzero d i n) (Filled 0 d i n)
unfolding memzero
memzero-Filled d i n fits =
    let ((d', i', n'), words, (m, f, e, l)) = zero_words-Filled (n + 1) d i n fits (omega arith) in
    let (new, bytes, g) = memset-Filled 0 d' i' n' (omega (arith, f.same)) in
    (
      new,
      rw (words, ◌>>=◌) bytes,
      record { same = g.same ∙ f.same; reads = λ k. ground (arith, f.reads k, g.reads k) },
    )
