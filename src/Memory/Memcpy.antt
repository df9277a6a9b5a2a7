-- ===== src/Memory/Memcpy.antt =====
-- `memcpy` is the plain copy at any alignment.
use mos_moody_hunter.Base.{
  ℕ, zero, suc, ◌+◌, ◌-◌, ◌≤◌, ◌<◌, ◌≡◌, refl, ap, ◌∙◌, sym, Returns, not, ◌&&◌, inl, inr, some,
  List, length, ltb, leb, if◌then◌else◌, ◌>>=◌, arith, Bool-cases, leb→le,
}
use mos_moody_hunter.Memory.{
  copied, copy, copy_word, Cursor, copy_big, memcpy, both_aligned, big_block_size,
}
use mos_moody_hunter.Memory.Copy.{copy-eq-some, length-copied, copied-add}
use mos_moody_hunter.Memory.Advance.{
  copy_bytes-eq-copied, copy_word-eq-copied, Advanced, InRange, advance_none, advance_add,
  Advanced-InRange, copy_little-Advanced,
}

-- Four longs in a row are one copy of 32 bytes.
module _ (src : List ℕ) (c : Cursor) (r : InRange src c) (big : 32 ≤ c.left) where
  words : ℕ → List ℕ
  words m = copied c.dst c.to src c.from m

  word_after :
      (m : ℕ) → m + 8 ≤ 32 → copy_word (words m) (c.to + m) src (c.from + m) ≡ some (words (m + 8))
  unfolding words
  word_after m h =
      copy_word-eq-copied (words m) (c.to + m) src (c.from + m)
        (omega (arith, length-copied c.dst c.to src c.from m (omega arith) (omega arith)))
        (omega arith)
      ∙ ap some (copied-add c.dst c.to src c.from m 8 (omega arith) (omega arith))

  word_first : copy_word c.dst c.to src c.from ≡ some (words 8)
  unfolding words
  word_first = copy_word-eq-copied c.dst c.to src c.from (omega arith) (omega arith)

abbrev next_block : List ℕ → Cursor → Cursor
next_block src c = record {
  dst = copied c.dst c.to src c.from 32;
  to = c.to + 32;
  from = c.from + 32;
  left = c.left - 32;
}

next_block-Advanced :
    (src : List ℕ) (c : Cursor) → 32 ≤ c.left → Advanced src c 32 (next_block src c)
next_block-Advanced src c h = record { dst = refl; to = refl; from = refl; left = omega arith }

copy_big-Advanced :
    (fuel : ℕ) (src : List ℕ) (c : Cursor)
    → InRange src c
    → c.left < fuel
    → Returns (copy_big fuel src c) λ c'. (m : ℕ) × (m ≤ c.left) × Advanced src c m c'
unfolding copy_big words
copy_big-Advanced zero src c r h = absurd (omega arith)
copy_big-Advanced (suc fuel) src c r h = elim (Bool-cases (leb 32 c.left)) [
  | inl more ↦
      let big : 32 ≤ c.left = leb→le 32 c.left more in
      let one = next_block-Advanced src c big in
      let (c', run, (m, small, rest)) =
        copy_big-Advanced fuel src (next_block src c)
          (Advanced-InRange src c 32 (next_block src c) r big one) (omega arith) in
      (
        c',
        rw
            (
              more,
              copy_big,
              word_first src c r big,
              ◌>>=◌,
              word_after src c r big 8 (omega arith),
              ◌>>=◌,
              word_after src c r big 16 (omega arith),
              ◌>>=◌,
              word_after src c r big 24 (omega arith),
              ◌>>=◌,
            )
            run,
        (
          32 + m,
          omega arith,
          advance_add src c 32 (next_block src c) m c' r (omega arith) one rest,
        ),
      )
  | inr done ↦ (c, rw (done, copy_big), (0, omega arith, advance_none src c r))
]

-- At any two addresses and for any ranges inside the two arrays, `memcpy` does not leave them and is
-- the plain copy: the loops over blocks and longs, which run on fuel `n + 1` and never exhaust it,
-- change no byte of the result.
pub memcpy-eq-copy :
    (dst_addr src_addr : ℕ) (dst : List ℕ) (i : ℕ) (src : List ℕ) (j n : ℕ)
    → i + n ≤ length dst
    → j + n ≤ length src
    → memcpy dst_addr src_addr dst i src j n ≡ copy dst i src j n
unfolding memcpy
memcpy-eq-copy dst_addr src_addr dst i src j n fits has =
    elim (Bool-cases (not (ltb n big_block_size) && both_aligned src_addr dst_addr)) [
      | inr small ↦
          rw small (
            copy_bytes-eq-copied dst i src j n fits has ∙ sym (copy-eq-some dst i src j n fits has))
      | inl fast ↦
          let (c₁, run, (m, below, a)) =
            copy_big-Advanced (n + 1) src start (fits, has) (omega arith) in
          let in₁ = Advanced-InRange src start m c₁ (fits, has) below a in
          let (c₂, run', (k, below', b)) =
            copy_little-Advanced (n + 1) src c₁ in₁ (omega (arith, a.left)) in
          let in₂ = Advanced-InRange src c₁ k c₂ in₁ below' b in
          let both = advance_add src start m c₁ k c₂ (fits, has) (omega (arith, a.left)) a b in
          rw (fast, if◌then◌else◌, run, ◌>>=◌, run', ◌>>=◌)
            (copy_bytes-eq-copied c₂.dst c₂.to src c₂.from c₂.left (omega arith) (omega arith)
              ∙ ap some (
                  ap (λ d. copied d c₂.to src c₂.from c₂.left) both.dst
                  ∙ ap (λ t. copied (copied dst i src j (m + k)) t src c₂.from c₂.left) both.to
                  ∙ ap (λ t. copied (copied dst i src j (m + k)) (i + (m + k)) src t c₂.left)
                      both.from
                  ∙ copied-add dst i src j (m + k) c₂.left (omega (arith, both.left))
                      (omega (arith, both.left))
                  ∙ ap (copied dst i src j) (omega (arith, both.left)))
              ∙ sym (copy-eq-some dst i src j n fits has))
    ]
  where
    start : Cursor
    start = record { dst = dst; to = i; from = j; left = n }
