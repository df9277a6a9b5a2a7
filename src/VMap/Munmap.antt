-- ===== src/VMap/Munmap.antt =====
-- The system call `munmap` (kernel/mm/mmap.c) on a range of pages inside one map.
use mos_moody_hunter.Base.{
  ℕ, ◌+◌, ◌*◌, ◌-◌, ◌/◌, ◌%◌, ◌≤◌, ◌<◌, ◌≡◌, refl, Bool, true, some, List, [], ◌∷◌, ◌++◌, arith,
  page_size, add64, sub64, Returns, align_down_to_page, align_up_to_page, align_down_to_page_lem,
  align_up_to_page_lem,
}
use mos_moody_hunter.VMap.{VMap, Mm, vmap_obtain, vmap_split_for_range, vmap_destroy}
use mos_moody_hunter.VMap.Layout.{top_of, top, IsLayout, end_of-eq-top}
use mos_moody_hunter.VMap.View.{NotIn, layout_start-le}
use mos_moody_hunter.VMap.Split.{IsOpen}
use mos_moody_hunter.VMap.Ranges.{
  IsPart, for_range-IsPart, for_range-prefix, IsUnmapped, destroy-IsUnmapped, region,
}
use mos_moody_hunter.VMap.Calls.{munmap}

vmap_obtain_middle :
    (lo : ℕ) (xs : List VMap) (m : VMap) (ys : List VMap) (a : ℕ)
    → IsLayout lo (xs ++ m ∷ ys)
    → m.vaddr ≤ a
    → a < top m
    → vmap_obtain (xs ++ m ∷ ys) a ≡ some m
unfolding vmap_obtain
vmap_obtain_middle lo [] m ys a l h h' = let e = end_of-eq-top m l.1 in ground (arith, e)
vmap_obtain_middle lo (x ∷ xs) m ys a l h h' =
    let e = end_of-eq-top x l.1 in
    let le = layout_start-le (top x) m xs ys l.2 in
    ground (arith, e, le, vmap_obtain_middle (top x) xs m ys a l.2 h h')

-- The pages that so many bytes take up.
abbrev pub pages_of : ℕ → ℕ
pages_of size = (size + page_size - 1) / page_size

module _ {S : Type 0} (mm : Mm S) (xs : List VMap) (m : VMap) (ys : List VMap) (node node' : ℕ)
    (at : mm.mmaps ≡ xs ++ m ∷ ys) (l : IsLayout 0 mm.mmaps) (own_before : NotIn m.node xs)
    (own_behind : NotIn m.node ys) (o : IsOpen mm.ios m.io) (fresh : NotIn node mm.mmaps)
    (addr size : ℕ) (aligned : addr % page_size ≡ 0) (some_bytes : 0 < size)
    (inside : m.vaddr ≤ addr) where
  end_page : ℕ
  end_page = (addr - m.vaddr) / page_size + pages_of size

  -- The range of pages that `munmap` computes.
  munmap-Returns :
      (Q : Bool × Mm S → Type 0)
      → addr + size ≤ top m
      → Returns
          (vmap_split_for_range mm m ((addr - m.vaddr) / page_size) end_page node node')
          (λ (s, mm'). Q (true, vmap_destroy mm' s))
      → Returns (munmap mm addr size node node') Q
  unfolding munmap end_page
  munmap-Returns Q fits (r, e, q) =
      let here : vmap_obtain mm.mmaps addr ≡ some m =
        rw at (vmap_obtain_middle 0 xs m ys addr (rw at at l) inside (omega arith)) in
      let rg = region mm xs m ys node at l own_before own_behind o fresh in
      let down = align_down_to_page_lem addr (omega (arith, rg)) in
      let add : add64 addr size ≡ addr + size = omega (arith, rg) in
      let up = align_up_to_page_lem (addr + size) (omega (arith, rg)) in
      let start : sub64 (align_down_to_page addr) m.vaddr / page_size
          ≡ (addr - m.vaddr) / page_size =
        rw down (omega (arith, rg)) in
      let end : sub64 (align_up_to_page (add64 addr size)) m.vaddr / page_size
          ≡ (addr - m.vaddr) / page_size + pages_of size =
        rw (add, up) (omega (arith, rg)) in
      rw (munmap, here, start, end, e) ((true, vmap_destroy r.1 r.0), refl, q)

  module _ (fits : addr + size ≤ top m) where
    at_page : m.vaddr + (addr - m.vaddr) / page_size * page_size ≡ addr
    at_page =
        let rg = region mm xs m ys node at l own_before own_behind o fresh in omega (arith, rg)

    -- In an address space whose maps are in order, apart and below the kernel, the range of `size` bytes
    -- from the page-aligned `addr` on is not empty and lies in a map `m`, with an open object or none. If
    -- the range begins behind the start of `m` or covers all its pages, `munmap` succeeds: no page of the
    -- range shows anything then, every other address shows what it did, and the maps are again in order,
    -- apart and below the kernel; without an object, just these pages are unmapped in the page tables.
    pub munmap-IsUnmapped :
        (addr ≡ m.vaddr → pages_of size ≡ m.npages)
        → Returns
            (munmap mm addr size node node')
            (IsUnmapped mm xs m ys node at l own_before own_behind o fresh addr (pages_of size))
    unfolding end_page
    munmap-IsUnmapped whole =
        let rg = region mm xs m ys node at l own_before own_behind o fresh in
        let Q =
          IsUnmapped mm xs m ys node at l own_before own_behind o fresh addr (pages_of size) in
        let (r, e, p) =
          for_range-IsPart mm xs m ys node at l own_before own_behind o fresh
            ((addr - m.vaddr) / page_size) ((addr - m.vaddr) / page_size + pages_of size) node'
            (omega arith) (omega (arith, rg))
            (λ h. let w = whole (omega (arith, rg, h)) in omega (arith, w, h)) in
        let n : (addr - m.vaddr) / page_size + pages_of size - (addr - m.vaddr) / page_size
            ≡ pages_of size =
          omega arith in
        let p' : IsPart mm m.io addr (pages_of size) r = rw (at_page, n) at p in
        munmap-Returns Q fits (
          r,
          e,
          destroy-IsUnmapped mm xs m ys node at l own_before own_behind o fresh addr (pages_of size)
              r.0 r.1 p',
        )

    -- In such a space the range begins at the start of the map `m` and ends at least one page before
    -- its end. `munmap` returns true; all pages of the range show what they did, and what shows
    -- nothing then is the rest of the map.
    pub munmap_prefix :
        addr ≡ m.vaddr
        → pages_of size < m.npages
        → Returns (munmap mm addr size node node') (
            IsUnmapped mm xs m ys node at l own_before own_behind o fresh
              (top_of addr (pages_of size))
              (m.npages - pages_of size))
    unfolding end_page
    munmap_prefix first shorter =
        let start = top_of addr (pages_of size) in
        let n = m.npages - pages_of size in
        let (r, e, p) =
          for_range-prefix mm xs m ys node at l own_before own_behind o fresh (pages_of size) node'
            (omega arith) shorter in
        let zero : (addr - m.vaddr) / page_size ≡ 0 = omega arith in
        let end : 0 + pages_of size ≡ pages_of size = omega arith in
        let same : m.vaddr + pages_of size * page_size ≡ start = omega arith in
        let p' : IsPart mm m.io start n r = rw same at p in
        munmap-Returns (IsUnmapped mm xs m ys node at l own_before own_behind o fresh start n) fits
          (
            r,
            rw (zero, end) e,
            destroy-IsUnmapped mm xs m ys node at l own_before own_behind o fresh start n r.0 r.1
                p',
          )
