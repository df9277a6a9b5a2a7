-- ===== src/HashMap/Chain.antt =====
-- One chain of the hash map: the loops of put, get and remove against lookup by key.
use mos_moody_hunter.Base.{
  ℕ, ◌+◌, ◌≡◌, refl, Bool, true, none, some, [], ◌∷◌, length, if◌then◌else◌, arith, Bool-cases,
  Returns, ap, suc, inl, inr,
}
use mos_moody_hunter.HashMap.{Chain, find, assign, unlink}

-- What a key comparison has to be: an equivalence.
pub record IsEquality (same : ℕ → ℕ → Bool) : Type 0 where
  pub same_refl : (a : ℕ) → same a a ≡ true
  pub same_symm : (a b : ℕ) → same a b ≡ same b a
  pub same_trans : (a b c : ℕ) → same a b ≡ true → same b c ≡ same a c

-- Every entry of the chain has its place at `i`.
abbrev pub AllHome : (ℕ → ℕ) → ℕ → Chain → Type 0
AllHome place i [] = Unit {0}
AllHome place i (e ∷ chain) = (place e.key ≡ i) × AllHome place i chain

module _ (same : ℕ → ℕ → Bool) where
  -- No two entries of the chain have one key.
  abbrev pub IsDistinct : Chain → Type 0
  IsDistinct [] = Unit {0}
  IsDistinct (e ∷ chain) = (find same chain e.key ≡ none) × IsDistinct chain

  module _ (equality : IsEquality same) where
    pub find_congr :
        (chain : Chain) (a b : ℕ) → same a b ≡ true → find same chain a ≡ find same chain b
    unfolding find
    find_congr [] a b h = refl
    find_congr (e ∷ chain) a b h = ground (
      arith,
      find_congr chain a b h,
      equality.same_trans a b e.key h,
      equality.same_symm e.key a,
      equality.same_symm e.key b,
    )

    -- What `assign` gives is decided by `find`.
    pub assign-none :
        (chain : Chain) (key value : ℕ)
        → find same chain key ≡ none
        → assign same chain key value ≡ none
    unfolding find assign
    assign-none [] key value h = refl
    assign-none (e ∷ chain) key value h = ground (arith, assign-none chain key value)

    -- A replaced entry: the old value, the same length, and lookups as after an update.
    pub record Assigned (chain : Chain) (key value old : ℕ) (r : ℕ × Chain) : Type 0 where
      pub returns : r.0 ≡ old
      pub count : length r.1 ≡ length chain
      pub reads : (q : ℕ) → find same r.1 q ≡ (if same key q then some value else find same chain q)
      pub distinct : IsDistinct chain → IsDistinct r.1
      pub home : (place : ℕ → ℕ) (i : ℕ) → AllHome place i chain → AllHome place i r.1

    pub assign-some :
        (chain : Chain) (key value old : ℕ)
        → find same chain key ≡ some old
        → Returns (assign same chain key value) (Assigned chain key value old)
    unfolding find assign
    assign-some [] key value old h = cc
    assign-some (e ∷ chain) key value old h = elim (Bool-cases (same e.key key)) [
      | inl here ↦ (
        (e.value, record e { value = value } ∷ chain),
        rw here,
        record {
          returns = ground arith;
          count = refl;
          reads = λ q. ground (arith, equality.same_trans e.key key q here);
          distinct = λ d. d;
          home = λ place i h. h;
        },
      )
      | inr there ↦
          let (r, run, a) = assign-some chain key value old (ground arith) in
          (
            (r.0, e ∷ r.1),
            rw (there, run),
            record {
              returns = a.returns;
              count = ap suc a.count;
              reads = λ q. ground (
                arith,
                a.reads q,
                equality.same_trans key q e.key,
                equality.same_symm e.key q,
                equality.same_symm e.key key,
              );
              distinct = λ d.
                  (ground (arith, a.reads e.key, equality.same_symm e.key key), a.distinct d.1);
              home = λ place i h. (h.0, a.home place i h.1);
            },
          )
    ]

    pub unlink-none :
        (chain : Chain) (key : ℕ) → find same chain key ≡ none → unlink same chain key ≡ none
    unfolding find unlink
    unlink-none [] key h = refl
    unlink-none (e ∷ chain) key h = ground (arith, unlink-none chain key)

    -- A removed entry: its value, one entry less, and lookups as after a removal.
    pub record Unlinked (chain : Chain) (key old : ℕ) (r : ℕ × Chain) : Type 0 where
      pub returns : r.0 ≡ old
      pub count : length r.1 + 1 ≡ length chain
      pub reads : (q : ℕ) → find same r.1 q ≡ (if same key q then none else find same chain q)
      pub distinct : IsDistinct r.1
      pub home : (place : ℕ → ℕ) (i : ℕ) → AllHome place i chain → AllHome place i r.1

    pub unlink-some :
        (chain : Chain) (key old : ℕ)
        → IsDistinct chain
        → find same chain key ≡ some old
        → Returns (unlink same chain key) (Unlinked chain key old)
    unfolding find unlink
    unlink-some [] key old d h = cc
    unlink-some (e ∷ chain) key old d h = elim (Bool-cases (same e.key key)) [
      | inl here ↦ (
        (e.value, chain),
        rw here,
        record {
          returns = ground arith;
          count = omega arith;
          reads =
              λ q. ground (arith, equality.same_trans e.key key q here, find_congr chain e.key q);
          distinct = d.1;
          home = λ place i h. h.1;
        },
      )
      | inr there ↦
          let (r, run, a) = unlink-some chain key old d.1 (ground arith) in
          (
            (r.0, e ∷ r.1),
            rw (there, run),
            record {
              returns = a.returns;
              count = omega (arith, a.count);
              reads = λ q. ground (
                arith,
                a.reads q,
                equality.same_trans key q e.key,
                equality.same_symm e.key q,
                equality.same_symm e.key key,
              );
              distinct = (ground (arith, a.reads e.key, equality.same_symm e.key key), a.distinct);
              home = λ place i h. (h.0, a.home place i h.1);
            },
          )
    ]
