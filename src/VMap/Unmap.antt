-- ===== src/VMap/Unmap.antt =====
-- `vmap_split_for_range`, `vmap_destroy` and `munmap`: what leaves the address space.
use mos_moody_hunter.Base.{
  ℕ, ◌≤◌, ◌<◌, ◌≡◌, inl, inr, refl, ◌&&◌, none, List, [], ◌∷◌, ◌++◌, ltb, leb, if◌then◌else◌, arith,
  Bool-cases, Option-cases,
}
use mos_moody_hunter.VMap.{
  VMap, Mm, do_unmap, detach, vmap_obtain, io_munmap, release_pages, vmap_destroy,
}
use mos_moody_hunter.VMap.Layout.{top, IsLayout, IsLayout-lower}
use mos_moody_hunter.VMap.View.{
  view, view-cons, view-append, NotIn, detach_middle, IsLayout_middle, layout_behind,
  layout_start-le,
}

-- A layout shows nothing below its start,
view_below : (lo : ℕ) (ms : List VMap) (a : ℕ) → IsLayout lo ms → a < lo → view ms a ≡ none
unfolding vmap_obtain
view_below lo [] a l h = refl
view_below lo (m ∷ ms) a l h =
    rw (view-cons m ms a l.1) (ground (arith, view_below (top m) ms a l.2))

-- and the maps before another show nothing from its address on.
view_before :
    (lo : ℕ) (xs : List VMap) (m : VMap) (ys : List VMap) (a : ℕ)
    → IsLayout lo (xs ++ m ∷ ys)
    → m.vaddr ≤ a
    → view xs a ≡ none
unfolding vmap_obtain
view_before lo [] m ys a l h = refl
view_before lo (x ∷ xs) m ys a l h =
    let le = layout_start-le (top x) m xs ys l.2 in
    rw (view-cons x xs a l.1) (ground (arith, view_before (top x) xs m ys a l.2))

-- Without the map, nothing is shown at its addresses, and the same elsewhere.
view_without :
    (lo : ℕ) (xs : List VMap) (m : VMap) (ys : List VMap) (a : ℕ)
    → IsLayout lo (xs ++ m ∷ ys)
    → view (xs ++ ys) a ≡ (if leb m.vaddr a && ltb a (top m) then none else view (xs ++ m ∷ ys) a)
view_without lo xs m ys a l =
    let behind = layout_behind lo m xs ys l in
    elim (Bool-cases (leb m.vaddr a && ltb a (top m))) [
      | inl inside ↦
          let e = view_before lo xs m ys a l (ground (arith, inside)) in
          let e' = view_below (top m) ys a behind.1 (ground (arith, inside)) in
          rw (inside, if◌then◌else◌, view-append xs ys a, e, e') refl
      | inr outside ↦
          rw
            (
              outside,
              if◌then◌else◌,
              view-append xs ys a,
              view-append xs (m ∷ ys) a,
              view-cons m ys a behind.0,
              outside,
            )
            refl
    ]

IsLayout_without :
    (lo : ℕ) (xs : List VMap) (m : VMap) (ys : List VMap)
    → IsLayout lo (xs ++ m ∷ ys)
    → IsLayout lo (xs ++ ys)
IsLayout_without lo xs m ys l =
    IsLayout_middle lo xs (m ∷ ys) ys l
      (λ lo' h l'. IsLayout-lower (top m) lo' ys (omega (arith, l'.0, l'.1)) l'.2)

module _ {S : Type 0} where
  io_munmap-mmaps : (mm : Mm S) (p : ℕ) (m : VMap) → (io_munmap mm p m).2.mmaps ≡ mm.mmaps
  unfolding io_munmap
  io_munmap-mmaps mm p m = elim (Option-cases (mm.ios p).ops.munmap) [
    | inl e ↦ rw e (ground arith)
    | inr (f, e) ↦ rw e (ground arith)
  ]

  release_pages-mmaps : (mm : Mm S) (m : VMap) → (release_pages mm m).mmaps ≡ mm.mmaps
  unfolding release_pages
  release_pages-mmaps mm m = elim (Option-cases m.io) [
    | inl e ↦ rw e refl
    | inr (p, e) ↦ let k = io_munmap-mmaps mm p m in rw e (ground (arith, k))
  ]

  release_pages-calls :
      (mm : Mm S) (m : VMap)
      → m.io ≡ none
      → (release_pages mm m).calls ≡ mm.calls ++ do_unmap m.vaddr m.npages ∷ []
  unfolding release_pages
  release_pages-calls mm m e = rw e refl

  -- The map `m` leaves the list. Its addresses show nothing then, all others what they did.
  pub vmap_destroy_lem :
      (mm : Mm S) (xs : List VMap) (m : VMap) (ys : List VMap)
      → mm.mmaps ≡ xs ++ m ∷ ys
      → IsLayout 0 mm.mmaps
      → NotIn m.node xs
      → IsLayout 0 (vmap_destroy mm m).mmaps
        × ((a : ℕ)
            → view (vmap_destroy mm m).mmaps a
              ≡ (if leb m.vaddr a && ltb a (top m) then none else view mm.mmaps a))
        × (m.io ≡ none → (vmap_destroy mm m).calls ≡ mm.calls ++ do_unmap m.vaddr m.npages ∷ [])
  unfolding vmap_destroy
  vmap_destroy_lem mm xs m ys at l h =
      let l' : IsLayout 0 (xs ++ m ∷ ys) = rw at at l in
      let gone : detach m.node (release_pages mm m).mmaps ≡ xs ++ ys =
        rw (release_pages-mmaps mm m, at) (detach_middle m xs ys h) in
      (
        rw gone (IsLayout_without 0 xs m ys l'),
        (λ a. rw (gone, at) (view_without 0 xs m ys a l')),
        (λ e. release_pages-calls mm m e),
      )
