-- ===== src/VMap/Layout.antt =====
-- The maps of an address space in order, apart from each other and below the kernel.
use mos_moody_hunter.Base.{
  ℕ, ◌+◌, ◌*◌, ◌%◌, ◌≤◌, ◌<◌, ◌≡◌, ◌⊎◌, List, [], ◌∷◌, ltb, if◌then◌else◌, arith, page_size,
  Bool-cases, inl, inr,
}
use mos_moody_hunter.VMap.{VMap, attach, end_of}
use mos_moody_hunter.VMap.Space.{kernel_start}

-- The end of a range of pages and of a map, without wrap-around.
abbrev pub top_of : ℕ → ℕ → ℕ
top_of vaddr npages = vaddr + npages * page_size

abbrev pub top : VMap → ℕ
top m = top_of m.vaddr m.npages

abbrev pub IsRegion : VMap → Type 0
IsRegion m = (0 < m.npages) × (m.vaddr % page_size ≡ 0) × (top m ≤ kernel_start)

-- The maps stand in order from the address `lo` on, none overlapping the next.
abbrev pub IsLayout : ℕ → List VMap → Type 0
IsLayout lo [] = Unit {0}
IsLayout lo (m ∷ ms) = (lo ≤ m.vaddr) × IsRegion m × IsLayout (top m) ms

-- No map has an address in the range.
abbrev pub IsFree : ℕ → ℕ → List VMap → Type 0
IsFree vaddr npages [] = Unit {0}
IsFree vaddr npages (m ∷ ms) =
    ((top_of vaddr npages ≤ m.vaddr) ⊎ (top m ≤ vaddr)) × IsFree vaddr npages ms

pub end_of-eq-top : (m : VMap) → IsRegion m → end_of m ≡ top m
end_of-eq-top m r = omega arith

pub IsLayout-lower : (lo lo' : ℕ) (ms : List VMap) → lo' ≤ lo → IsLayout lo ms → IsLayout lo' ms
IsLayout-lower lo lo' [] h l = tt
IsLayout-lower lo lo' (m ∷ ms) h l = (omega arith, l.1, l.2)

-- All maps of a layout are above a range that ends at or below its start.
pub IsFree-below :
    (vaddr npages lo : ℕ) (ms : List VMap)
    → top_of vaddr npages ≤ lo
    → IsLayout lo ms
    → IsFree vaddr npages ms
IsFree-below vaddr npages lo [] h l = tt
IsFree-below vaddr npages lo (m ∷ ms) h l =
    (inl (omega arith), IsFree-below vaddr npages (top m) ms (omega arith) l.2)

-- A map attached where the space is free.
pub attach-IsLayout :
    (v : VMap) (lo : ℕ) (ms : List VMap)
    → IsLayout lo ms
    → lo ≤ v.vaddr
    → IsRegion v
    → IsFree v.vaddr v.npages ms
    → IsLayout lo (attach v ms)
unfolding attach
attach-IsLayout v lo [] l low r f = (low, r, tt)
attach-IsLayout v lo (m ∷ ms) l low r f = elim (Bool-cases (ltb v.vaddr m.vaddr)) [
  | inl before ↦
      let lt : v.vaddr < m.vaddr = ground (arith, before) in
      rw (before, if◌then◌else◌) (low, r, (omega (arith, lt, f.0), l.1, l.2))
  | inr behind ↦
      let le : m.vaddr ≤ v.vaddr = ground (arith, behind) in
      rw (behind, if◌then◌else◌)
        (l.0, l.1, attach-IsLayout v (top m) ms l.2 (omega (arith, le, f.0, r.0)) r f.1)
]
