-- ===== src/VMap/Calls.antt =====
-- kernel/mm/mmap.c: the system calls on memory maps, and cow_allocate_zeroed_pages of kernel/mm/cow.c.
-- `default_hint` is the configured MOS_ADDR_USER_MMAP, `zero_fill` the address of the fault handler
-- for zeroed pages.
use mos_moody_hunter.Base.{
  ℕ, ◌+◌, ◌%◌, ◌/◌, Bool, true, false, not, ◌&&◌, Option, none, some, [], ◌∷◌, ◌++◌, ltb, ◌==◌,
  if◌then◌else◌, ◌>>=◌, add64, sub64, has_flag, page_size, align_up_to_page, align_down_to_page,
}
use Prim.Native.Nat.{bit_or}
use mos_moody_hunter.Io.{io_mmap_perm_check}
use mos_moody_hunter.VMap.{
  Mm, do_mask, mmap_exact, type_private, type_shared, update, vmap_obtain, vmap_split,
  vmap_split_for_range, vmap_destroy, io_mmap, vmap_finalise_init,
}
use mos_moody_hunter.VMap.Space.{mm_get_free_vaddr_locked}

-- `VM_READ`, `VM_WRITE`, `VM_EXEC` and `VM_USER`
abbrev pub vm_read : ℕ
vm_read = 1

abbrev pub vm_write : ℕ
vm_write = 2

abbrev pub vm_exec : ℕ
vm_exec = 4

abbrev pub vm_user : ℕ
vm_user = 8

-- `VMAP_FILE` and `VMAP_MMAP`
abbrev pub content_file : ℕ
content_file = 3

abbrev pub content_mmap : ℕ
content_mmap = 4

-- The hint address after the check, or `none` if it refuses.
unfoldable pub mmap_verify_arguments : ℕ → ℕ → ℕ → Option ℕ
mmap_verify_arguments default_hint hint_addr flags =
    let shared = has_flag flags type_shared in
    let is_private = has_flag flags type_private in
    if not (hint_addr % page_size == 0)
    then none
    else if shared && is_private
    then none
    else if not shared && not is_private
    then none
    else if has_flag flags mmap_exact
    then some hint_addr
    else some (if hint_addr == 0 then default_hint else hint_addr)

-- The kind of a new map.
abbrev pub kind_of : ℕ → ℕ
kind_of flags = if has_flag flags type_shared then type_shared else type_private

abbrev pub valloc_flags : ℕ → ℕ
valloc_flags flags = if has_flag flags mmap_exact then mmap_exact else 0

-- The flags to take away at once.
abbrev pub lost_flags : ℕ → ℕ → ℕ
lost_flags old perm =
    let lost = λ (flag : ℕ). if has_flag old flag && not (has_flag perm flag) then flag else 0 in
    lost vm_read + lost vm_write + lost vm_exec

module _ {S : Type 0} where
  -- A null pointer from the search for an address is used at once.
  unfoldable pub mmap_anonymous : ℕ → ℕ → Mm S → ℕ → ℕ → ℕ → ℕ → ℕ → Option (ℕ × Mm S)
  mmap_anonymous default_hint zero_fill mm hint_addr flags vmflags n_pages node =
      elim (mmap_verify_arguments default_hint hint_addr flags) [
        | none ↦ some (0, mm)
        | some hint ↦ do
          r ← mm_get_free_vaddr_locked mm.mmaps n_pages hint (valloc_flags flags) node
          (vmap, mmaps) ← r
          let vmap' = record vmap { vmflags = vmflags; on_fault = some zero_fill }
          mm' ←
              vmap_finalise_init (record mm { mmaps = update node vmap' mmaps }) vmap' content_mmap
                (kind_of flags)
          some (vmap.vaddr, mm')
      ]

  unfoldable pub mmap_file : ℕ → Mm S → ℕ → ℕ → ℕ → ℕ → ℕ → ℕ → ℕ → Option (ℕ × Mm S)
  mmap_file default_hint mm hint_addr flags vmflags n_pages io offset node =
      elim (mmap_verify_arguments default_hint hint_addr flags) [
        | none ↦ some (0, mm)
        | some hint ↦ if not (offset % page_size == 0) then some (0, mm) else (do
          r ← mm_get_free_vaddr_locked mm.mmaps n_pages hint (valloc_flags flags) node
          elim r [
            | none ↦ some (0, mm)
            | some (vmap, mmaps) ↦ do
              let vmap' = record vmap { vmflags = vmflags; kind = kind_of flags }
              (ok, vmap'', mm') ←
                  io_mmap (record mm { mmaps = update node vmap' mmaps }) io vmap' offset
              if ok
                  then (do
                    mm'' ← vmap_finalise_init mm' vmap'' content_file (kind_of flags)
                    some (vmap''.vaddr, mm''))
                  else some (0, vmap_destroy mm' vmap'')
          ])
      ]

  unfoldable pub munmap : Mm S → ℕ → ℕ → ℕ → ℕ → Option (Bool × Mm S)
  munmap mm addr size node node' = elim (vmap_obtain mm.mmaps addr) [
    | none ↦ some (false, mm)
    | some whole_map ↦ do
      let range_start = align_down_to_page addr
      let range_end = align_up_to_page (add64 addr size)
      let start_pgoff = sub64 range_start whole_map.vaddr / page_size
      let end_pgoff = sub64 range_end whole_map.vaddr / page_size
      (range_map, mm') ← vmap_split_for_range mm whole_map start_pgoff end_pgoff node node'
      some (true, vmap_destroy mm' range_map)
  ]

  unfoldable pub vm_protect : Mm S → ℕ → ℕ → ℕ → ℕ → ℕ → Option (Bool × Mm S)
  vm_protect mm addr size perm node node' = if not (addr % page_size == 0) then none else (do
    first_part ← vmap_obtain mm.mmaps addr
    let addr_pgoff = sub64 addr first_part.vaddr / page_size
    let size_pgoff = align_up_to_page size / page_size
    (to_protect, mm₁) ←
        (if addr_pgoff == 0
          then some (first_part, mm)
          else (vmap_split mm first_part addr_pgoff node >>= λ (a, b, m). some (b, m)))
    (to_protect', mm₂) ←
        (if ltb size_pgoff to_protect.npages
          then (vmap_split mm₁ to_protect size_pgoff node' >>= λ (a, b, m). some (a, m))
          else some (to_protect, mm₁))
    let allowed : Bool = elim to_protect'.io [
      | none ↦ true
      | some p ↦ io_mmap_perm_check (mm₂.ios p) perm (to_protect'.kind == type_private)
    ]
    if not allowed
        then some (false, mm₂)
        else some (
          true,
          record mm₂ {
            mmaps =
                update to_protect'.node (record to_protect' { vmflags = bit_or perm vm_user })
                  mm₂.mmaps;
            calls =
                mm₂.calls
                ++ do_mask to_protect'.vaddr to_protect'.npages
                    (lost_flags to_protect'.vmflags perm)
                  ∷ [];
          },
        ))
