-- ===== src/VMap/Split.antt =====
-- `vmap_split`: one map becomes two, and the address space shows the same as before.
use mos_moody_hunter.Base.{
  ℕ, ◌+◌, ◌*◌, ◌-◌, ◌≤◌, ◌<◌, ◌≡◌, ◌≢◌, inl, inr, refl, true, false, Option, none, some, List, ◌∷◌,
  ◌++◌, ltb, ◌==◌, if◌then◌else◌, arith, page_size, add64, Option-cases, Returns,
}
use mos_moody_hunter.Io.{Io, io_ref}
use mos_moody_hunter.VMap.{VMap, Mm, attach, update, split_second, vmap_split}
use mos_moody_hunter.VMap.Layout.{top, IsRegion, IsLayout}
use mos_moody_hunter.VMap.View.{
  backing, view, view-cons, view-append, NotIn, update_middle, attach_behind, IsLayout_middle,
  layout_behind,
}

-- The pieces of the map `m`: the first `split` pages and the rest, in a struct at `node`.
record Pieces (m s : VMap) (split node : ℕ) : Type 0 where
  pub at_node : s.node ≡ node
  pub start : s.vaddr ≡ m.vaddr + split * page_size
  pub size : s.npages ≡ m.npages - split
  pub same : (a : ℕ) → s.vaddr ≤ a → a < top m → backing s a ≡ backing m a

module _ (m s : VMap) (split node : ℕ) (p : Pieces m s split node) (r : IsRegion m)
    (some_first : 0 < split) (inside : split < m.npages) where
  pieces-IsLayout :
      (lo : ℕ) (ys : List VMap)
      → IsLayout lo (m ∷ ys)
      → IsLayout lo (record m { npages = split } ∷ s ∷ ys)
  pieces-IsLayout lo ys l =
      let t : top s ≡ top m = omega (arith, p.start, p.size) in
      (l.0, omega arith, (omega (arith, p.start), omega (arith, p.start, p.size), rw t l.2))

  -- The second map is attached right behind the first.
  attach_pieces :
      (lo : ℕ) (xs ys : List VMap)
      → IsLayout lo (xs ++ m ∷ ys)
      → NotIn m.node xs
      → NotIn m.node ys
      → attach s (update m.node (record m { npages = split }) (xs ++ m ∷ ys))
        ≡ xs ++ record m { npages = split } ∷ s ∷ ys
  attach_pieces lo xs ys l h h' = rw (update_middle m (record m { npages = split }) xs ys h h') (
      attach_behind s m (record m { npages = split }) lo xs ys l refl (omega (arith, p.start))
        (omega (arith, p.start)))

  view_pieces :
      (ys : List VMap) (a : ℕ) → view (record m { npages = split } ∷ s ∷ ys) a ≡ view (m ∷ ys) a
  view_pieces ys a =
      let f = record m { npages = split } in
      let start = p.start in
      let size = p.size in
      let same = p.same a in
      rw
        (
          view-cons f (s ∷ ys) a (omega arith),
          view-cons s ys a (omega (arith, p.start, p.size)),
          view-cons m ys a r,
        )
        (ground (arith, same))

module _ {S : Type 0} where
  -- The object of the map, if any, is open, so that another reference is given.
  abbrev pub IsOpen : (ℕ → Io S VMap) → Option ℕ → Type 0
  IsOpen ios none = Unit {0}
  IsOpen ios (some p) = (ios p).closed ≡ false

  split_second-Pieces :
      (mm : Mm S) (m : VMap) (split node : ℕ)
      → IsRegion m
      → IsOpen mm.ios m.io
      → split < m.npages
      → Pieces m (split_second mm m split node).0 split node
  unfolding split_second io_ref
  split_second-Pieces mm m split node r o inside = elim (Option-cases m.io) [
    | inl e ↦
        rw e (record {
          at_node = refl;
          start = omega arith;
          size = omega arith;
          same = λ a h h'. refl;
        })
    | inr (p, e) ↦
        let is_open : (mm.ios p).closed ≡ false = rw e at o in
        rw (e, is_open, if◌then◌else◌)
          (record {
            at_node = refl;
            start = omega arith;
            size = omega arith;
            same = λ a h h'. ground arith;
          })
  ]

  -- Both pieces refer to the object of the map, which has one more reference and stays open.
  abbrev pub IsShared : (ℕ → Io S VMap) → (ℕ → Io S VMap) → Option ℕ → Type 0
  IsShared ios ios' none = ios' ≡ ios
  IsShared ios ios' (some p) =
      ((ios' p).refcount ≡ add64 (ios p).refcount 1)
      × ((ios' p).closed ≡ false)
      × ((q : ℕ) → q ≢ p → ios' q ≡ ios q)

  split_second-IsShared :
      (mm : Mm S) (m : VMap) (split node : ℕ)
      → IsOpen mm.ios m.io
      → let r = split_second mm m split node in (r.0.io ≡ m.io) × IsShared mm.ios r.1 m.io
  unfolding split_second io_ref
  split_second-IsShared mm m split node o = elim (Option-cases m.io) [
    | inl e ↦ rw e (refl, refl)
    | inr (p, e) ↦
        let is_open : (mm.ios p).closed ≡ false = rw e at o in
        rw (e, is_open, if◌then◌else◌)
          (refl, (ground arith, ground (arith, is_open), λ q ne. ground arith))
  ]

  -- The result of splitting the map `m` between `xs` and `ys`.
  abbrev pub IsSplit : Mm S → List VMap → VMap → List VMap → ℕ → ℕ → VMap × VMap × Mm S → Type 0
  IsSplit mm xs m ys split node (f, s, mm') =
      (f ≡ record m { npages = split })
      × ((s.node ≡ node) × (s.vaddr ≡ m.vaddr + split * page_size) × (s.npages ≡ m.npages - split))
      × ((s.io ≡ m.io) × IsShared mm.ios mm'.ios m.io)
      × (mm'.mmaps ≡ xs ++ f ∷ s ∷ ys)
      × IsLayout 0 mm'.mmaps
      × ((a : ℕ) → view mm'.mmaps a ≡ view mm.mmaps a)
      × ((mm'.calls ≡ mm.calls) × (mm'.state ≡ mm.state))

  -- A map `m` of an address space whose maps are in order, apart and below the kernel, with an open
  -- object or none, is split inside. `vmap_split` does not fault; the list has the first `split` pages
  -- and the rest in the place of `m`; both refer to the object, which has one more reference; the maps
  -- are again in order, apart and below the kernel; every address is backed as before; the page tables
  -- are left alone.
  pub vmap_split-IsSplit :
      (mm : Mm S) (xs : List VMap) (m : VMap) (ys : List VMap) (split node : ℕ)
      → mm.mmaps ≡ xs ++ m ∷ ys
      → IsLayout 0 mm.mmaps
      → NotIn m.node xs
      → NotIn m.node ys
      → IsOpen mm.ios m.io
      → 0 < split
      → split < m.npages
      → Returns (vmap_split mm m split node) (IsSplit mm xs m ys split node)
  unfolding vmap_split
  vmap_split-IsSplit mm xs m ys split node at l h h' o pos inside =
      let l' : IsLayout 0 (xs ++ m ∷ ys) = rw at at l in
      let region = (layout_behind 0 m xs ys l').0 in
      let r = split_second mm m split node in
      let f = record m { npages = split } in
      let p = split_second-Pieces mm m split node region o inside in
      let list : attach r.0 (update m.node f mm.mmaps) ≡ xs ++ f ∷ r.0 ∷ ys =
        rw at (attach_pieces m r.0 split node p region pos inside 0 xs ys l' h h') in
      let zero : (split == 0) ≡ false = ground arith in
      let within : ltb split m.npages ≡ true = ground arith in
      let f_rest = f ∷ r.0 ∷ ys in
      (
        (f, r.0, record mm { mmaps = attach r.0 (update m.node f mm.mmaps); ios = r.1 }),
        rw (zero, within, if◌then◌else◌) refl,
        (
          refl,
          (p.at_node, p.start, p.size),
          split_second-IsShared mm m split node o,
          list,
          rw list (
              IsLayout_middle 0 xs (m ∷ ys) f_rest l'
                (λ lo k l''. pieces-IsLayout m r.0 split node p region pos inside lo ys l'')),
          (λ a.
              rw
                (
                  list,
                  at,
                  view-append xs f_rest a,
                  view-append xs (m ∷ ys) a,
                  view_pieces m r.0 split node p region pos inside ys a,
                )
                refl),
          (refl, refl),
        ),
      )
