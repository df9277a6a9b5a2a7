-- ===== src/Memory/Memmove.antt =====
-- `memmove` copies what the source range held before, however the ranges overlap.
use mos_moody_hunter.Base.{
  ℕ, zero, suc, ◌+◌, ◌-◌, ◌≤◌, ◌≡◌, refl, ap, ◌∙◌, sym, Returns, ◌&&◌, ◌⊎◌, inl, inr, some, Option,
  List, length, get_or, set, ltb, leb, if◌then◌else◌, ◌>>=◌, arith, length-set, get_or-set,
  get_elem?-eq-get_or, Bool-cases, get_or_ext,
}
use mos_moody_hunter.Memory.{copy, move_forwards, move_backwards, memmove}
use mos_moody_hunter.Memory.Copy.{copy-eq-some, length-copied, get_or-copied}
use mos_moody_hunter.Memory.Advance.{store-eq-some}

-- `new` is `old` with the range at `dst` overwritten by what `old` held at `src`.
record Moved (old : List ℕ) (dst src n : ℕ) (new : List ℕ) : Type 0 where
  same : length new ≡ length old
  reads :
      (k : ℕ)
      → get_or new k 0
        ≡ (if leb dst k && ltb k (dst + n) then get_or old (src + (k - dst)) 0 else get_or old k 0)

move_forwards-Moved :
    (mem : List ℕ) (dst src n : ℕ)
    → dst + n ≤ length mem
    → src + n ≤ length mem
    → (dst ≤ src) ⊎ (src + n ≤ dst)
    → Returns (move_forwards mem dst src n) (Moved mem dst src n)
unfolding move_forwards
move_forwards-Moved mem dst src zero fits has apart =
    (mem, refl, record { same = refl; reads = λ k. ground arith })
move_forwards-Moved mem dst src (suc n) fits has apart =
    let b = get_or mem src 0 in
    let (new, run, m) =
      move_forwards-Moved (set mem dst b) (dst + 1) (src + 1) n
        (omega (arith, length-set mem dst b)) (omega (arith, length-set mem dst b)) (omega arith) in
    (
      new,
      rw
          (
            get_elem?-eq-get_or mem src 0 (omega arith),
            ◌>>=◌,
            store-eq-some mem dst b (omega arith),
            ◌>>=◌,
          )
          run,
      record {
        same = m.same ∙ length-set mem dst b;
        reads = λ k. ground (
          arith,
          m.reads k,
          get_or-set mem dst k b 0,
          get_or-set mem dst (src + 1 + (k - (dst + 1))) b 0,
        );
      },
    )

move_backwards-Moved :
    (mem : List ℕ) (dst src n : ℕ)
    → dst + n ≤ length mem
    → src + n ≤ length mem
    → src ≤ dst
    → Returns (move_backwards mem dst src n) (Moved mem dst src n)
unfolding move_backwards
move_backwards-Moved mem dst src zero fits has order =
    (mem, refl, record { same = refl; reads = λ k. ground arith })
move_backwards-Moved mem dst src (suc n) fits has order =
    let b = get_or mem (src + n) 0 in
    let (new, run, m) =
      move_backwards-Moved (set mem (dst + n) b) dst src n
        (omega (arith, length-set mem (dst + n) b)) (omega (arith, length-set mem (dst + n) b))
        order in
    (
      new,
      rw
          (
            get_elem?-eq-get_or mem (src + n) 0 (omega arith),
            ◌>>=◌,
            store-eq-some mem (dst + n) b (omega arith),
            ◌>>=◌,
          )
          run,
      record {
        same = m.same ∙ length-set mem (dst + n) b;
        reads = λ k. ground (
          arith,
          m.reads k,
          get_or-set mem (dst + n) k b 0,
          get_or-set mem (dst + n) (src + (k - dst)) b 0,
        );
      },
    )

-- For any two ranges inside one array, however they overlap, `memmove` does not leave the array and
-- is the plain copy out of the array as it was before the call.
pub memmove-eq-copy :
    (mem : List ℕ) (dst src n : ℕ)
    → dst + n ≤ length mem
    → src + n ≤ length mem
    → memmove mem dst src n ≡ copy mem dst mem src n
unfolding memmove
memmove-eq-copy mem dst src n fits has = elim (Bool-cases (ltb src dst && ltb dst (src + n))) [
  | inl overlap ↦ rw overlap (agree (move_backwards-Moved mem dst src n fits has (ground arith)))
  | inr other ↦ rw other (agree (move_forwards-Moved mem dst src n fits has (ground arith)))
]
  where
    agree : {r : Option (List ℕ)} → Returns r (Moved mem dst src n) → r ≡ copy mem dst mem src n
    agree (new, run, m) =
        run
        ∙ ap some (
            get_or_ext _ _ 0 (m.same ∙ sym (length-copied mem dst mem src n fits has))
              λ k h. m.reads k ∙ sym (get_or-copied mem dst mem src n fits has k))
        ∙ sym (copy-eq-some mem dst mem src n fits has)
