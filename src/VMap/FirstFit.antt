-- ===== src/VMap/FirstFit.antt =====
-- `mm_get_free_vaddr_locked` places a new map at the first address where it fits.
use mos_moody_hunter.Base.{
  ℕ, ◌*◌, ◌%◌, ◌^◌, ◌≤◌, ◌<◌, ◌≡◌, refl, Bool, true, false, Option, none, some, List, leb,
  if◌then◌else◌, arith, page_size, Bool-cases, Option-cases, inl, inr, Returns, has_flag,
}
use mos_moody_hunter.VMap.{VMap, attach, mmap_exact, new_vmap}
use mos_moody_hunter.VMap.Space.{kernel_start, exact_free, free_vaddr, mm_get_free_vaddr_locked}
use mos_moody_hunter.VMap.Layout.{top_of, IsLayout, attach-IsLayout}
use mos_moody_hunter.VMap.Gap.{
  Placed, exact_free-IsFree, exact_free-taken, next_free-aligned, next_free-Placed,
}

-- What the caller gets: a new map at the first place, in the list at its place, or a null pointer.
abbrev pub FirstFit : List VMap → ℕ → ℕ → ℕ → Bool → Option (VMap × List VMap) → Type 0
FirstFit mmaps n_pages base node exact none = Placed mmaps n_pages base exact none
FirstFit mmaps n_pages base node exact (some (v, ms)) =
    Placed mmaps n_pages base exact (some v.vaddr)
    × (v ≡ new_vmap node v.vaddr n_pages)
    × (ms ≡ attach v mmaps)
    × IsLayout 0 ms

module _ (mmaps : List VMap) (n_pages base flags node : ℕ) (l : IsLayout 0 mmaps)
    (some_pages : 0 < n_pages) (small : n_pages * page_size < 2 ^ 47)
    (aligned : base % page_size ≡ 0) (low : base < kernel_start) where
  free_vaddr-Placed :
      (has_flag flags mmap_exact ≡ true → top_of base n_pages ≤ kernel_start)
      → Placed mmaps n_pages base (has_flag flags mmap_exact) (free_vaddr mmaps n_pages base flags)
  unfolding free_vaddr
  free_vaddr-Placed fits = elim (Bool-cases (has_flag flags mmap_exact)) [
    | inl exact ↦ elim (Bool-cases (exact_free mmaps base n_pages)) [
      | inl free ↦
          rw (exact, free, if◌then◌else◌)
            (
              refl,
              exact_free-IsFree n_pages some_pages small 0 mmaps base l (omega arith) free,
              fits exact,
              λ b e lt f. omega arith,
            )
      | inr taken ↦
          rw (exact, taken, if◌then◌else◌)
            (λ b e h f.
              exact_free-taken n_pages some_pages small 0 mmaps base l (omega arith) taken
                (rw e at f))
    ]
    | inr hint ↦
        rw (hint, if◌then◌else◌)
          (next_free-Placed n_pages some_pages small 0 mmaps base l (omega arith))
  ]

  free_vaddr-aligned : (a : ℕ) → free_vaddr mmaps n_pages base flags ≡ some a → a % page_size ≡ 0
  unfolding free_vaddr
  free_vaddr-aligned a e =
      let n = next_free-aligned n_pages some_pages small 0 mmaps base a l aligned in
      ground (arith, n)

  -- For maps in order, apart and below the kernel, a page-aligned hint below the kernel and a size
  -- of at least one page and less than 2^47 bytes (with the exact flag: a range that ends below the kernel),
  -- `mm_get_free_vaddr_locked` does not fault. It returns a new map at the first allowed address from
  -- which the range is free and below the kernel (with the exact flag, only the hint is allowed), and
  -- the maps with the new one are again in order, apart and below the kernel; or it returns a null
  -- pointer, and then there is no such address.
  pub mm_get_free_vaddr_locked-FirstFit :
      (has_flag flags mmap_exact ≡ true → top_of base n_pages ≤ kernel_start)
      → Returns
          (mm_get_free_vaddr_locked mmaps n_pages base flags node)
          (FirstFit mmaps n_pages base node (has_flag flags mmap_exact))
  unfolding mm_get_free_vaddr_locked
  mm_get_free_vaddr_locked-FirstFit fits =
      let below : leb kernel_start base ≡ false = ground arith in
      let p = free_vaddr-Placed fits in
      elim (Option-cases (free_vaddr mmaps n_pages base flags)) [
        | inl e ↦ rw (below, if◌then◌else◌, e) (none, refl, rw e at p)
        | inr (a, e) ↦
            let q : Placed mmaps n_pages base (has_flag flags mmap_exact) (some a) = rw e at p in
            let v = new_vmap node a n_pages in
            rw (below, if◌then◌else◌, e)
              (
                some (v, attach v mmaps),
                refl,
                (
                  q,
                  refl,
                  refl,
                  attach-IsLayout v 0 mmaps l (omega arith)
                      (some_pages, free_vaddr-aligned a e, q.2) q.1,
                ),
              )
      ]
