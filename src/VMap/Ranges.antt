-- ===== src/VMap/Ranges.antt =====
-- `vmap_split_for_range` and `munmap` on a range of pages inside a map.
use mos_moody_hunter.Base.{
  ℕ, ◌+◌, ◌*◌, ◌-◌, ◌≤◌, ◌<◌, ◌≡◌, ◌≢◌, inl, inr, refl, ◌∙◌, Bool, true, false, ◌&&◌, Option, none,
  some, List, [], ◌∷◌, ◌++◌, append_assoc, ltb, leb, ◌==◌, if◌then◌else◌, arith, page_size, sub64,
  Bool-cases, Returns,
}
use mos_moody_hunter.VMap.{VMap, Mm, do_unmap, vmap_split, vmap_split_for_range, vmap_destroy}
use mos_moody_hunter.Io.{Io}
use mos_moody_hunter.VMap.Layout.{top_of, IsRegion, IsLayout}
use mos_moody_hunter.VMap.View.{view, NotIn, layout_behind}
use mos_moody_hunter.VMap.Split.{IsOpen, IsShared, IsSplit, vmap_split-IsSplit}
use mos_moody_hunter.VMap.Unmap.{vmap_destroy_lem}

NotIn-append :
    (node : ℕ) (xs ys : List VMap) → NotIn node xs → NotIn node ys → NotIn node (xs ++ ys)
NotIn-append node [] ys h h' = h'
NotIn-append node (x ∷ xs) ys h h' = (h.0, NotIn-append node xs ys h.1 h')

NotIn_parts : (node : ℕ) (xs ys : List VMap) → NotIn node (xs ++ ys) → NotIn node xs × NotIn node ys
NotIn_parts node [] ys h = (tt, h)
NotIn_parts node (x ∷ xs) ys h = let p = NotIn_parts node xs ys h.1 in ((h.0, p.0), p.1)

module _ {S : Type 0} where
  -- A map of the space for the given pages. The space shows what it did.
  abbrev pub IsPart : Mm S → Option ℕ → ℕ → ℕ → VMap × Mm S → Type 0
  IsPart mm io start npages (s, mm') =
      ((xs : List VMap) × (ys : List VMap) × (mm'.mmaps ≡ xs ++ s ∷ ys) × NotIn s.node xs)
      × IsLayout 0 mm'.mmaps
      × ((a : ℕ) → view mm'.mmaps a ≡ view mm.mmaps a)
      × ((s.vaddr ≡ start) × (s.npages ≡ npages) × (s.io ≡ io) × (mm'.calls ≡ mm.calls))

  IsShared-IsOpen :
      (ios ios' : ℕ → Io S VMap) (io : Option ℕ)
      → IsOpen ios io
      → IsShared ios ios' io
      → IsOpen ios' io
  IsShared-IsOpen ios ios' none o h = tt
  IsShared-IsOpen ios ios' (some p) o h = h.1

  module _ (mm : Mm S) (xs : List VMap) (m : VMap) (ys : List VMap) (node : ℕ)
      (at : mm.mmaps ≡ xs ++ m ∷ ys) (l : IsLayout 0 mm.mmaps) (own_before : NotIn m.node xs)
      (own_behind : NotIn m.node ys) (o : IsOpen mm.ios m.io) (fresh : NotIn node mm.mmaps) where
    fresh_parts : NotIn node xs × (m.node ≢ node) × NotIn node ys
    fresh_parts = let p = NotIn_parts node xs (m ∷ ys) (rw at at fresh) in (p.0, p.1.0, p.1.1)

    -- The first split.
    module _ (k : ℕ) (pos : 0 < k) (inside : k < m.npages) where
      first-IsSplit : Returns (vmap_split mm m k node) (IsSplit mm xs m ys k node)
      first-IsSplit = vmap_split-IsSplit mm xs m ys k node at l own_before own_behind o pos inside

      first_list :
          (r : VMap × VMap × Mm S)
          → IsSplit mm xs m ys k node r
          → (r.2.mmaps ≡ (xs ++ r.0 ∷ []) ++ r.1 ∷ ys) × NotIn r.1.node (xs ++ r.0 ∷ [])
      first_list r p =
          let own : r.0.node ≢ node = rw p.0 fresh_parts.1 in
          (
            rw (append_assoc xs (r.0 ∷ []) (r.1 ∷ ys)) p.3,
            rw p.1.0 (NotIn-append node xs (r.0 ∷ []) fresh_parts.0 (own, tt)),
          )

      -- The pages from `k` on.
      second-IsPart :
          Returns
            (vmap_split mm m k node)
            (λ r. IsPart mm m.io (m.vaddr + k * page_size) (m.npages - k) (r.1, r.2))
      second-IsPart =
          let (r, e, p) = first-IsSplit in
          let q = first_list r p in
          (r, e, ((xs ++ r.0 ∷ [], ys, q.0, q.1), p.4, p.5, (p.1.1, p.1.2, p.2.0, p.6.0)))

      -- The pages from `k` to `k + n`.
      middle-IsPart :
          (n node' : ℕ)
          → 0 < n
          → k + n < m.npages
          → (r : VMap × VMap × Mm S) → IsSplit mm xs m ys k node r
          → Returns
              (vmap_split r.2 r.1 n node')
              (λ r'. IsPart mm m.io (m.vaddr + k * page_size) n (r'.0, r'.2))
      middle-IsPart n node' pos' inside' r p =
          let q = first_list r p in
          let still : IsOpen r.2.ios r.1.io =
            rw p.2.0 (IsShared-IsOpen mm.ios r.2.ios m.io o p.2.1) in
          let behind : NotIn r.1.node ys = rw p.1.0 fresh_parts.2 in
          let (r', e, p') =
            vmap_split-IsSplit r.2 (xs ++ r.0 ∷ []) r.1 ys n node' q.0 p.4 q.1 behind still pos'
              (omega (arith, p.1.2)) in
          (
            r',
            e,
            (
              (xs ++ r.0 ∷ [], r'.1 ∷ ys, p'.3, rw p'.0 q.1),
              p'.4,
              (λ a. p'.5 a ∙ p.5 a),
              (rw p'.0 p.1.1, rw p'.0 refl, rw p'.0 p.2.0, p'.6.0 ∙ p.6.0),
            ),
          )

    pub region : IsRegion m
    region = (layout_behind 0 m xs ys (rw at at l)).0

    for_range-whole :
        (node' : ℕ)
        → Returns
            (vmap_split_for_range mm m 0 m.npages node node')
            (IsPart mm m.io m.vaddr m.npages)
    unfolding vmap_split_for_range
    for_range-whole node' =
        let same : (m.npages == m.npages) ≡ true = ground arith in
        rw same
          ((m, mm), refl, ((xs, ys, at, own_before), l, (λ a. refl), (refl, refl, refl, refl)))

    -- What comes back for the first pages is the rest of the map.
    pub for_range-prefix :
        (k node' : ℕ)
        → 0 < k
        → k < m.npages
        → Returns
            (vmap_split_for_range mm m 0 k node node')
            (IsPart mm m.io (m.vaddr + k * page_size) (m.npages - k))
    unfolding vmap_split_for_range
    for_range-prefix k node' pos inside =
        let proper : (k == m.npages) ≡ false = ground arith in
        let (r, e, p) = second-IsPart k pos inside in rw (proper, e) ((r.1, r.2), refl, p)

    for_range-suffix :
        (k node' : ℕ)
        → 0 < k
        → k < m.npages
        → Returns
            (vmap_split_for_range mm m k m.npages node node')
            (IsPart mm m.io (m.vaddr + k * page_size) (m.npages - k))
    unfolding vmap_split_for_range
    for_range-suffix k node' pos inside =
        let later : (k == 0) ≡ false = ground arith in
        let same : (m.npages == m.npages) ≡ true = ground arith in
        let (r, e, p) = second-IsPart k pos inside in rw (later, same, e) ((r.1, r.2), refl, p)

    for_range-middle :
        (k end node' : ℕ)
        → 0 < k
        → k < end
        → end < m.npages
        → Returns
            (vmap_split_for_range mm m k end node node')
            (IsPart mm m.io (m.vaddr + k * page_size) (end - k))
    unfolding vmap_split_for_range
    for_range-middle k end node' pos some_pages inside =
        let later : (k == 0) ≡ false = ground arith in
        let proper : (end == m.npages) ≡ false = ground arith in
        let size : sub64 end k ≡ end - k = omega (arith, region) in
        let (r, e, p) = first-IsSplit k pos (omega arith) in
        let (r', e', p') =
          middle-IsPart k pos (omega arith) (end - k) node' (omega arith) (omega arith) r p in
        rw (later, proper, size, e, e') ((r'.0, r'.2), refl, p')

    pub for_range-IsPart :
        (k end node' : ℕ)
        → k < end
        → end ≤ m.npages
        → (k ≡ 0 → end ≡ m.npages)
        → Returns
            (vmap_split_for_range mm m k end node node')
            (IsPart mm m.io (m.vaddr + k * page_size) (end - k))
    for_range-IsPart k end node' some_pages inside whole = elim (Bool-cases (k == 0)) [
      | inl first ↦
          let e : k ≡ 0 = ground (arith, first) in
          let e' = whole e in
          rw (e, e')
            (let (r, f, p) = for_range-whole node' in
              (r, f, (p.0, p.1, p.2, (omega (arith, p.3), omega (arith, p.3), p.3.2, p.3.3))))
      | inr later ↦ elim (Bool-cases (end == m.npages)) [
        | inl same ↦
            let e : end ≡ m.npages = ground (arith, same) in
            rw e (for_range-suffix k node' (ground (arith, later)) (omega (arith, e)))
        | inr proper ↦
            for_range-middle k end node' (ground (arith, later)) some_pages (ground (arith, proper))
      ]
    ]

    -- The pages `n` from `start` on are unmapped: they show nothing then, all else is as before.
    abbrev pub IsUnmapped : ℕ → ℕ → Bool × Mm S → Type 0
    IsUnmapped start n (ok, mm') =
        (ok ≡ true)
        × IsLayout 0 mm'.mmaps
        × ((a : ℕ)
            → view mm'.mmaps a
              ≡ (if leb start a && ltb a (top_of start n) then none else view mm.mmaps a))
        × (m.io ≡ none → mm'.calls ≡ mm.calls ++ do_unmap start n ∷ [])

    pub destroy-IsUnmapped :
        (start n : ℕ) (s : VMap) (mm' : Mm S)
        → IsPart mm m.io start n (s, mm')
        → IsUnmapped start n (true, vmap_destroy mm' s)
    destroy-IsUnmapped start n s mm' p =
        let d = vmap_destroy_lem mm' p.0.0 s p.0.1 p.0.2 p.1 p.0.3 in
        (
          refl,
          d.0,
          (λ a. rw (d.1 a, p.2 a, p.3.0, p.3.1) refl),
          (λ e. rw (d.2 (p.3.2 ∙ e), p.3.3, p.3.0, p.3.1) refl),
        )
