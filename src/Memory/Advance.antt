-- ===== src/Memory/Advance.antt =====
-- What the loops of `memcpy` copy: bytes, one long at a time, and how far a cursor has come.
use mos_moody_hunter.Base.{
  ℕ, zero, suc, ◌+◌, ◌-◌, ◌≤◌, ◌<◌, ◌≡◌, refl, ap, ◌∙◌, sym, Returns, true, inl, inr, some, List,
  length, get_or, set, take, drop, leb, if◌then◌else◌, ◌>>=◌, arith, length-set,
  get_elem?-eq-get_or, Bool-cases, length-take, length-drop, leb→le,
}
use mos_moody_hunter.Memory.{copied, store, copy_bytes, copy_word, Cursor, copy_little}
use mos_moody_hunter.Memory.Copy.{
  copy-eq-some, length-copied, copied-add, copied-zero, copied-one, copied-take-drop,
}

pub store-eq-some : (d : List ℕ) (i b : ℕ) → i < length d → store d i b ≡ some (set d i b)
unfolding store
store-eq-some d i b h = ground arith

pub copy_bytes-eq-copied :
    (dst : List ℕ) (i : ℕ) (src : List ℕ) (j n : ℕ)
    → i + n ≤ length dst
    → j + n ≤ length src
    → copy_bytes dst i src j n ≡ some (copied dst i src j n)
unfolding copy_bytes
copy_bytes-eq-copied dst i src j zero fits has =
    ap some (sym (copied-zero dst i src j (omega arith) (omega arith)))
copy_bytes-eq-copied dst i src j (suc n) fits has =
    rw
      (
        get_elem?-eq-get_or src j 0 (omega arith),
        ◌>>=◌,
        store-eq-some dst i (get_or src j 0) (omega arith),
        ◌>>=◌,
      )
      (copy_bytes-eq-copied (set dst i (get_or src j 0)) (i + 1) src (j + 1) n
          (omega (arith, length-set dst i (get_or src j 0))) (omega arith)
        ∙ ap some (
            ap (λ d. copied d (i + 1) src (j + 1) n)
              (sym (copied-one dst i src j (omega arith) (omega arith)))
            ∙ copied-add dst i src j 1 n (omega arith) (omega arith)
            ∙ ap (copied dst i src j) (omega arith)))

pub copy_word-eq-copied :
    (dst : List ℕ) (i : ℕ) (src : List ℕ) (j : ℕ)
    → i + 8 ≤ length dst
    → j + 8 ≤ length src
    → copy_word dst i src j ≡ some (copied dst i src j 8)
unfolding copy_word
copy_word-eq-copied dst i src j fits has =
    rw (in_source, if◌then◌else◌)
      (copy-eq-some dst i (take 8 (drop j src)) 0 8 fits
          (omega (arith, length-take 8 (drop j src), length-drop j src))
        ∙ ap some (copied-take-drop dst i src j 8))
  where
    in_source : leb (j + 8) (length src) ≡ true
    in_source = ground arith

-- A loop that started at `c` has copied `m` bytes and stopped at `c'`.
pub record Advanced (src : List ℕ) (c : Cursor) (m : ℕ) (c' : Cursor) : Type 0 where
  pub dst : c'.dst ≡ copied c.dst c.to src c.from m
  pub to : c'.to ≡ c.to + m
  pub from : c'.from ≡ c.from + m
  pub left : c'.left + m ≡ c.left

abbrev pub InRange : List ℕ → Cursor → Type 0
InRange src c = (c.to + c.left ≤ length c.dst) × (c.from + c.left ≤ length src)

pub advance_none : (src : List ℕ) (c : Cursor) → InRange src c → Advanced src c 0 c
advance_none src c r = record {
  dst = sym (copied-zero c.dst c.to src c.from (omega arith) (omega arith));
  to = omega arith;
  from = omega arith;
  left = omega arith;
}

pub advance_add :
    (src : List ℕ) (c : Cursor) (m : ℕ) (c₁ : Cursor) (n : ℕ) (c₂ : Cursor)
    → InRange src c
    → m + n ≤ c.left
    → Advanced src c m c₁
    → Advanced src c₁ n c₂
    → Advanced src c (m + n) c₂
advance_add src c m c₁ n c₂ r fits a b = record {
  dst =
      b.dst
      ∙ ap (λ d. copied d c₁.to src c₁.from n) a.dst
      ∙ ap (λ i. copied (copied c.dst c.to src c.from m) i src c₁.from n) a.to
      ∙ ap (λ j. copied (copied c.dst c.to src c.from m) (c.to + m) src j n) a.from
      ∙ copied-add c.dst c.to src c.from m n (omega arith) (omega arith);
  to = omega (arith, a.to, b.to);
  from = omega (arith, a.from, b.from);
  left = omega (arith, a.left, b.left);
}

pub Advanced-InRange :
    (src : List ℕ) (c : Cursor) (m : ℕ) (c' : Cursor)
    → InRange src c
    → m ≤ c.left
    → Advanced src c m c'
    → InRange src c'
Advanced-InRange src c m c' r fits a = omega (
  arith,
  a.left,
  a.to,
  a.from,
  ap length a.dst,
  length-copied c.dst c.to src c.from m (omega arith) (omega arith),
)

-- The cursor after one long.
abbrev pub next_word : List ℕ → Cursor → Cursor
next_word src c = record {
  dst = copied c.dst c.to src c.from 8;
  to = c.to + 8;
  from = c.from + 8;
  left = c.left - 8;
}

pub next_word-Advanced :
    (src : List ℕ) (c : Cursor) → 8 ≤ c.left → Advanced src c 8 (next_word src c)
next_word-Advanced src c h = record { dst = refl; to = refl; from = refl; left = omega arith }

pub copy_little-Advanced :
    (fuel : ℕ) (src : List ℕ) (c : Cursor)
    → InRange src c
    → c.left < fuel
    → Returns (copy_little fuel src c) λ c'. (m : ℕ) × (m ≤ c.left) × Advanced src c m c'
unfolding copy_little
copy_little-Advanced zero src c r h = absurd (omega arith)
copy_little-Advanced (suc fuel) src c r h = elim (Bool-cases (leb 8 c.left)) [
  | inl more ↦
      let big : 8 ≤ c.left = leb→le 8 c.left more in
      let one = next_word-Advanced src c big in
      let (c', run, (m, small, rest)) =
        copy_little-Advanced fuel src (next_word src c)
          (Advanced-InRange src c 8 (next_word src c) r big one) (omega arith) in
      (
        c',
        rw
            (
              more,
              copy_little,
              copy_word-eq-copied c.dst c.to src c.from (omega arith) (omega arith),
              ◌>>=◌,
            )
            run,
        (8 + m, omega arith, advance_add src c 8 (next_word src c) m c' r (omega arith) one rest),
      )
  | inr done ↦ (c, rw (done, copy_little), (0, omega arith, advance_none src c r))
]
