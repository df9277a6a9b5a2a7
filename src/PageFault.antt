-- ===== src/PageFault.antt =====
-- kernel/mm/mm.c, kernel/mm/cow.c and kernel/mm/paging/paging.c: page faults and anonymous memory. The
-- page tables of all address spaces are maps from a space and the address of a page, as
-- kernel/mm/paging/table_ops.c keeps them; a frame has a content of a type `C`. The frames that
-- the physical allocator gives are arguments, null if there is none. Locks, reference counts and
-- statistics are left out. `none` is a panic, a failed assertion or the use of a null pointer.
pub mod Zeroed
pub mod Handle
pub mod Shared
pub mod Fork
use mos_moody_hunter.Base.{
  ℕ, ◌-◌, ◌^◌, Bool, true, false, not, ◌&&◌, Option, none, some, ◌==◌, if◌then◌else◌, ◌>>=◌, List,
  has_flag, align_down_to_page,
}
use Prim.Native.Nat.{bit_and, bit_or}
use mos_moody_hunter.VMap.{VMap, vmap_obtain}
use mos_moody_hunter.VMap.Calls.{vm_write, vm_exec}

-- A page table's entry for a page that is present.
pub record Entry : Type 0 where
  pub pfn : ℕ
  pub flags : ℕ

-- `_zero_page` is a null pointer until it is needed.
pub record Paging (C : Type 0) : Type 0 where
  pub tables : ℕ → ℕ → Option Entry
  pub contents : ℕ → C
  pub zero_frame : Option ℕ

-- `pagefault_t` without what only messages use
pub record FaultInfo : Type 0 where
  pub is_present : Bool
  pub is_write : Bool
  pub is_exec : Bool
  pub faulting_page : Option ℕ
  pub backing_page : Option ℕ

-- `vmfault_result_t`
pub data FaultResult : Type 0 where
  complete : FaultResult
  map_backing_page_ro : FaultResult
  map_backing_page : FaultResult
  copy_backing_page : FaultResult
  cannot_handle : FaultResult

-- The fault is handled, or the thread gets a signal for it.
pub data Outcome (C : Type 0) : Type 0 where
  handled : Paging C → Outcome C
  unhandled : Outcome C

abbrev pub pfn_of : Option Entry → ℕ
pfn_of none = 0
pfn_of (some e) = e.pfn

abbrev pub flags_of : Option Entry → ℕ
flags_of none = 0
flags_of (some e) = e.flags

-- `~VM_WRITE` of 32 bits
abbrev pub without_write : ℕ → ℕ
without_write flags = bit_and flags (2 ^ 32 - 1 - vm_write)

module _ {C : Type 0} where
  abbrev pub map_page : Paging C → ℕ → ℕ → Entry → Paging C
  map_page p space vaddr e = record p {
    tables = λ s a. if s == space && a == vaddr then some e else p.tables s a;
  }

  -- `mm_copy_page`, and the memset of a new page
  abbrev pub set_content : Paging C → ℕ → C → Paging C
  set_content p pfn c = record p { contents = λ f. if f == pfn then c else p.contents f }

  unfoldable pub mm_replace_page_locked : Paging C → ℕ → ℕ → ℕ → ℕ → Paging C
  mm_replace_page_locked p space vaddr pfn flags =
      let page = align_down_to_page vaddr in
      if pfn_of (p.tables space page) == pfn
      then p
      else map_page p space page (record { pfn = pfn; flags = flags })

  -- `frame` is the new frame.
  unfoldable pub mm_resolve_cow_fault :
      Paging C → ℕ → VMap → ℕ → FaultInfo → Option ℕ → Option (FaultResult × FaultInfo × Paging C)
  unfolding mm_replace_page_locked
  mm_resolve_cow_fault p space vmap fault_addr info frame =
      if not (info.is_write && info.is_present) then none else (do
        old ← info.faulting_page
        page ← frame
        some (
          complete,
          info,
          mm_replace_page_locked (set_content p page (p.contents old)) space fault_addr page
              vmap.vmflags,
        ))

  -- A new frame is filled with `zero`.
  unfoldable pub zero_page : C → Paging C → Option ℕ → Option (ℕ × Paging C)
  zero_page zero p frame = elim p.zero_frame [
    | some z ↦ some (z, p)
    | none ↦ frame >>= λ z. some (z, record (set_content p z zero) { zero_frame = some z })
  ]

  unfoldable pub cow_zod_fault_handler :
      C
      → Paging C
      → ℕ
      → VMap
      → ℕ
      → FaultInfo
      → Option ℕ
      → Option (FaultResult × FaultInfo × Paging C)
  unfolding mm_resolve_cow_fault zero_page
  cow_zod_fault_handler zero p space vmap fault_addr info frame =
      if info.is_present && info.is_write
      then mm_resolve_cow_fault p space vmap fault_addr info frame
      else if info.is_present
      then none
      else if info.is_write
      then elim frame [
        | none ↦ some (map_backing_page, record info { backing_page = none }, p)
        | some page ↦
            some
              (map_backing_page, record info { backing_page = some page }, set_content p page zero)
      ]
      else (do
        (z, p') ← zero_page zero p frame
        some (map_backing_page_ro, record info { backing_page = some z }, p'))

  -- What `mm_handle_fault` does with the handler's result. `copy` is a frame for the copy.
  unfoldable pub finish_fault :
      ℕ → VMap → ℕ → Option ℕ → FaultResult × FaultInfo × Paging C → Option (Outcome C)
  unfolding mm_replace_page_locked
  finish_fault space vmap fault_addr copy (result, info, p) =
      let map_with = λ (q : Paging C) (backing_page : Option ℕ) (flags : ℕ).
        let o : Outcome C = elim backing_page [
          | none ↦ unhandled
          | some page ↦ handled (mm_replace_page_locked q space fault_addr page flags)
        ] in
        o in
      elim result [
        | complete ↦ some (handled p)
        | cannot_handle ↦ some unhandled
        | map_backing_page ↦ some (map_with p info.backing_page vmap.vmflags)
        | map_backing_page_ro ↦ some (map_with p info.backing_page (without_write vmap.vmflags))
        | copy_backing_page ↦ do
          old ← info.backing_page
          page ← copy
          some (map_with (set_content p page (p.contents old)) (some page) vmap.vmflags)
      ]

  -- `on_fault` is what the map's handler does.
  unfoldable pub mm_handle_fault :
      (Paging C → VMap → FaultInfo → Option (FaultResult × FaultInfo × Paging C))
      → List VMap
      → Paging C
      → ℕ
      → ℕ
      → FaultInfo
      → Option ℕ
      → Option (Outcome C)
  unfolding finish_fault
  mm_handle_fault on_fault mmaps p space fault_addr info copy =
      if info.is_write && info.is_exec then none else elim (vmap_obtain mmaps fault_addr) [
        | none ↦ some unhandled
        | some vmap ↦ do
          handler ← vmap.on_fault
          let page = align_down_to_page fault_addr
          let page_flags = flags_of (p.tables space page)
          if info.is_exec && not (has_flag vmap.vmflags vm_exec)
              then some unhandled
              else if info.is_present && info.is_exec && not (has_flag page_flags vm_exec)
              then some (
                  handled (
                    map_page p space page (record {
                      pfn = pfn_of (p.tables space page);
                      flags = bit_or page_flags vm_exec;
                    })))
              else if info.is_write && not (has_flag vmap.vmflags vm_write)
              then some unhandled
              else (do
                let info' =
                    if info.is_present
                    then record info { faulting_page = some (pfn_of (p.tables space page)) }
                    else info
                r ← on_fault p vmap info'
                finish_fault space vmap fault_addr copy r)
      ]
