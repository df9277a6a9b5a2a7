-- ===== src/VMap/Space.antt =====
-- kernel/mm/paging/paging.c: the choice of an address for a new map, and the maps made there.
use mos_moody_hunter.Base.{
  ℕ, ◌^◌, ◌-◌, Bool, true, false, ◌&&◌, Option, none, some, List, [], ◌∷◌, ◌++◌, ltb, leb,
  if◌then◌else◌, ◌>>=◌, add64, mul64, has_flag, page_size,
}
use mos_moody_hunter.Io.{Io, io_ref}
use mos_moody_hunter.VMap.{
  VMap, Mm, do_map, do_copy, mmap_exact, end_of, set_io, update, vmap_create, vmap_finalise_init,
}

-- `MOS_KERNEL_START_VADDR`
abbrev pub kernel_start : ℕ
kernel_start = 2 ^ 64 - 2 ^ 47

-- The end of a range of pages.
abbrev pub range_end : ℕ → ℕ → ℕ
range_end vaddr npages = add64 vaddr (mul64 npages page_size)

-- Whether a map and the range of pages have an address in common.
abbrev pub overlaps : VMap → ℕ → ℕ → Bool
overlaps m vaddr npages = ltb m.vaddr (range_end vaddr npages) && ltb vaddr (end_of m)

-- The loop of `mm_get_free_vaddr_locked` for an exact address: whether no map overlaps.
unfoldable pub exact_free : List VMap → ℕ → ℕ → Bool
exact_free [] vaddr n_pages = true
exact_free (m ∷ ms) vaddr n_pages =
    if overlaps m vaddr n_pages then false else exact_free ms vaddr n_pages

-- The loop for a hint.
unfoldable pub next_free : List VMap → ℕ → ℕ → Option ℕ
next_free [] retry_addr n_pages =
    if leb (range_end retry_addr n_pages) kernel_start then some retry_addr else none
next_free (m ∷ ms) retry_addr n_pages =
    let retry' = if overlaps m retry_addr n_pages then end_of m else retry_addr in
    let later = next_free ms retry' n_pages in
    if ltb kernel_start (range_end retry_addr n_pages)
    then none
    else if leb (range_end retry' n_pages) m.vaddr
    then some retry'
    else later

-- The address that `mm_get_free_vaddr_locked` gives to the new map.
unfoldable pub free_vaddr : List VMap → ℕ → ℕ → ℕ → Option ℕ
unfolding exact_free next_free
free_vaddr mmaps n_pages base_vaddr flags =
    if has_flag flags mmap_exact
    then if exact_free mmaps base_vaddr n_pages then some base_vaddr else none
    else next_free mmaps base_vaddr n_pages

-- A null pointer is the inner `none`.
unfoldable pub mm_get_free_vaddr_locked :
    List VMap → ℕ → ℕ → ℕ → ℕ → Option (Option (VMap × List VMap))
unfolding free_vaddr vmap_create
mm_get_free_vaddr_locked mmaps n_pages base_vaddr flags node =
    if leb kernel_start base_vaddr then none else elim (free_vaddr mmaps n_pages base_vaddr flags) [
      | none ↦ some none
      | some vaddr ↦ some (some (vmap_create mmaps node vaddr n_pages))
    ]

unfoldable pub mm_get_is_mapped_locked : List VMap → ℕ → Bool
mm_get_is_mapped_locked [] vaddr = false
mm_get_is_mapped_locked (m ∷ ms) vaddr =
    if leb m.vaddr vaddr && ltb vaddr (end_of m) then true else mm_get_is_mapped_locked ms vaddr

module _ {S : Type 0} where
  unfoldable pub mm_map_user_pages :
      Mm S → ℕ → ℕ → ℕ → ℕ → ℕ → ℕ → ℕ → ℕ → Option (Option (VMap × Mm S))
  unfolding mm_get_free_vaddr_locked
  mm_map_user_pages mm vaddr pfn npages flags vaflags kind content node = do
    r ← mm_get_free_vaddr_locked mm.mmaps npages vaddr vaflags node
    elim r [
      | none ↦ some none
      | some (vmap, mmaps) ↦ do
        let vmap' = record vmap { vmflags = flags }
        let mm₁ = record mm {
          mmaps = update vmap.node vmap' mmaps;
          calls = mm.calls ++ do_map vmap.vaddr pfn npages flags ∷ [];
        }
        mm₂ ← vmap_finalise_init mm₁ vmap' content kind
        some (some (record vmap' { content = content; kind = kind }, mm₂))
    ]

  -- The copy of a map of another address space, at the same address; all of them share the I/O objects.
  unfoldable pub mm_clone_vmap_locked : VMap → Mm S → ℕ → Option (Option (VMap × Mm S))
  unfolding mm_get_free_vaddr_locked
  mm_clone_vmap_locked src_vmap dst node = do
    r ← mm_get_free_vaddr_locked dst.mmaps src_vmap.npages src_vmap.vaddr mmap_exact node
    elim r [
      | none ↦ some none
      | some (new, mmaps) ↦
          let dst_vmap = record src_vmap { node = node; vaddr = new.vaddr; npages = new.npages } in
          let ios : ℕ → Io S VMap = elim src_vmap.io [
            | none ↦ dst.ios
            | some p ↦ set_io dst.ios p (io_ref (dst.ios p)).1
          ] in
          some (
            some (
              dst_vmap,
              record dst {
                mmaps = update node dst_vmap mmaps;
                ios = ios;
                calls = dst.calls ++ do_copy src_vmap.vaddr src_vmap.npages ∷ [];
              },
            ))
    ]
