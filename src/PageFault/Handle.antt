-- ===== src/PageFault/Handle.antt =====
-- `mm_handle_fault` on anonymous memory, whose handler is `cow_zod_fault_handler`.
use mos_moody_hunter.Base.{
  ℕ, ◌≡◌, refl, inl, inr, Bool, true, false, ◌&&◌, Option, none, some, List, ◌==◌, if◌then◌else◌,
  ◌>>=◌, arith, Option-cases, has_flag, align_down_to_page, Returns,
}
use mos_moody_hunter.VMap.{VMap, vmap_obtain}
use mos_moody_hunter.VMap.Calls.{vm_write}
use mos_moody_hunter.PageFault.{
  Entry, Paging, FaultInfo, FaultResult, Outcome, handled, pfn_of, map_page, set_content,
  mm_replace_page_locked, mm_resolve_cow_fault, cow_zod_fault_handler, mm_handle_fault,
}
use mos_moody_hunter.PageFault.Zeroed.{
  seen, IsSound, IsFresh, placed-seen, placed-IsSound, store-seen,
}

abbrev pub is_there : Option Entry → Bool
is_there none = false
is_there (some e) = true

module _ {C : Type 0} (zero : C) (maps : List VMap) (m : VMap) (p : Paging C)
    (space fault_addr f : ℕ) (sound : IsSound zero p) (fresh : IsFresh zero p f) where
  abbrev page : ℕ
  page = align_down_to_page fault_addr

  replace_fresh :
      (q : Paging C) (flags : ℕ)
      → q.tables ≡ p.tables
      → mm_replace_page_locked q space fault_addr f flags
        ≡ map_page q space page (record { pfn = f; flags = flags })
  unfolding mm_replace_page_locked
  replace_fresh q flags e =
      let other : (pfn_of (p.tables space page) == f) ≡ false =
        elim (Option-cases (p.tables space page)) [
          | inl n ↦ let pos = fresh.place in rw n (ground (arith, pos))
          | inr (x, h) ↦ let ne = fresh.unmapped space page x h in rw h (ground (arith, ne))
        ] in
      rw (e, other, if◌then◌else◌) refl

  -- The page can be written now; all that is shown is as before.
  abbrev pub IsWritable : Outcome C → Type 0
  IsWritable o =
      (q : Paging C) × (o ≡ handled q)
      × IsSound zero q
      × ((s a : ℕ) → seen zero q s a ≡ seen zero p s a)
      × ((e : Entry) × (q.tables space page ≡ some e)
          × (has_flag e.flags vm_write ≡ true)
          × ((c : C) (s a : ℕ)
              → seen zero (set_content q e.pfn c) s a
                ≡ (if s == space && a == page then c else seen zero p s a)))

  placed-IsWritable :
      (c : C)
      → has_flag m.vmflags vm_write ≡ true
      → c ≡ seen zero p space page
      → IsWritable (
          handled (map_page (set_content p f c) space page (record { pfn = f; flags = m.vmflags })))
  placed-IsWritable c w same =
      let e : Entry = record { pfn = f; flags = m.vmflags } in
      let q = map_page (set_content p f c) space page e in
      let sound' = placed-IsSound zero p space page f m.vmflags c sound fresh same in
      let kept = placed-seen zero p space page f m.vmflags c sound fresh same in
      let at : q.tables space page ≡ some e = ground arith in
      (
        q,
        refl,
        sound',
        kept,
        (e, at, w, λ c' s a. rw (← kept s a) (store-seen zero q space page e c' sound' at w s a)),
      )

  abbrev pub on_fault :
      Option ℕ → Paging C → VMap → FaultInfo → Option (FaultResult × FaultInfo × Paging C)
  on_fault frame q vmap info = cow_zod_fault_handler zero q space vmap fault_addr info frame

  -- A thread writes to a page of anonymous memory that may be written: the address is in the map `m`, whose flags
  -- allow writing, whose handler is `cow_zod_fault_handler`, and the processor says truly whether the
  -- page is present. In a sound state (the zero frame holds zeros, and a frame that can be written at some page is
  -- at no other page and not the zero frame), with a new frame that nothing refers to,
  -- `mm_handle_fault` handles the fault: the page can be written then, every page of every space shows
  -- what it did, the state is sound again, and a store through the page changes what is shown at this
  -- page of this space and nowhere else.
  pub mm_handle_fault-IsWritable :
      (handler : ℕ) (info : FaultInfo)
      → vmap_obtain maps fault_addr ≡ some m
      → m.on_fault ≡ some handler
      → has_flag m.vmflags vm_write ≡ true
      → info.is_write ≡ true
      → info.is_exec ≡ false
      → info.is_present ≡ is_there (p.tables space page)
      → Returns (mm_handle_fault (on_fault (some f)) maps p space fault_addr info none) IsWritable
  unfolding mm_handle_fault cow_zod_fault_handler mm_resolve_cow_fault
  mm_handle_fault-IsWritable handler info at h w write no_exec present =
      elim (Option-cases (p.tables space page)) [
        | inl n ↦
            let absent : info.is_present ≡ false = rw n at present in
            let put = replace_fresh (set_content p f zero) m.vmflags refl in
            let run : mm_handle_fault (on_fault (some f)) maps p space fault_addr info none
                ≡ some (
                    handled (
                      map_page (set_content p f zero) space page
                        (record { pfn = f; flags = m.vmflags }))) =
              rw (mm_handle_fault, at, ◌>>=◌, h, write, no_exec, absent, w, if◌then◌else◌, put)
                refl in
            (_, run, placed-IsWritable zero w (rw n refl))
        | inr (x, there) ↦
            let here : info.is_present ≡ true = rw there at present in
            let c = p.contents x.pfn in
            let ne = fresh.unmapped space page x there in
            let other : (x.pfn == f) ≡ false = ground (arith, ne) in
            let run : mm_handle_fault (on_fault (some f)) maps p space fault_addr info none
                ≡ some (
                    handled (
                      map_page (set_content p f c) space page
                        (record { pfn = f; flags = m.vmflags }))) =
              rw
                (
                  mm_handle_fault, at, ◌>>=◌, h, write, no_exec, here, w, there, other,
                  if◌then◌else◌,
                )
                refl in
            (_, run, placed-IsWritable c w (rw there refl))
      ]
