-- ===== src/PageFault/Shared.antt =====
-- A read of anonymous memory that is not there: the zero frame, which is shared.
use Prim.Native.Nat.{bit_and}
use mos_moody_hunter.Base.{
  ℕ, ◌-◌, ◌^◌, ◌≡◌, ◌⊎◌, refl, sym, ap, ◌∙◌, inl, inr, true, false, ◌&&◌, none, some, List, ◌==◌,
  if◌then◌else◌, ◌>>=◌, arith, Bool-cases, Option-cases, has_flag, align_down_to_page, Returns,
  bit_ext, bit-bit_and, bit-complement, bit-pow, zero-bit, bit-lt,
}
use mos_moody_hunter.VMap.{VMap, vmap_obtain}
use mos_moody_hunter.VMap.Calls.{vm_write}
use mos_moody_hunter.PageFault.{
  Entry, Paging, FaultInfo, Outcome, handled, pfn_of, map_page, set_content, without_write,
  mm_replace_page_locked, zero_page, cow_zod_fault_handler, mm_handle_fault,
}
use mos_moody_hunter.PageFault.Zeroed.{seen, IsSound, IsFresh}
use mos_moody_hunter.PageFault.Handle.{on_fault}

pub without_write_lem : (flags : ℕ) → has_flag (without_write flags) vm_write ≡ false
without_write_lem flags =
    let none_left : bit_and (bit_and flags (2 ^ 32 - 1 - 2)) 2 ≡ 0 = bit_ext _ _ (λ k.
      let outer = bit-bit_and (bit_and flags (2 ^ 32 - 1 - 2)) 2 k in
      let inner = bit-bit_and flags (2 ^ 32 - 1 - 2) k in
      let mask = bit-complement 32 2 k (omega arith) in
      let two = bit-pow 1 k in
      let z = zero-bit k in
      let lt = bit-lt flags k in ground (arith, outer, inner, mask, two, z, lt)) in
    rw none_left refl

module _ {C : Type 0} (zero : C) where
  module _ (p : Paging C) (s a z flags : ℕ) (sound : IsSound zero p)
      (at_zero : p.zero_frame ≡ some z) (absent : p.tables s a ≡ none)
      (read_only : has_flag flags vm_write ≡ false) where
    mapped-cases :
        (s' a' : ℕ) (e : Entry)
        → (map_page p s a (record { pfn = z; flags = flags })).tables s' a' ≡ some e
        → (e ≡ record { pfn = z; flags = flags }) ⊎ (p.tables s' a' ≡ some e)
    mapped-cases s' a' e h = elim (Bool-cases (s' == s && a' == a)) [
      | inl here ↦ inl (ground (arith, here, h))
      | inr there ↦ inr (ground (arith, there, h))
    ]

    mapped-seen :
        (s' a' : ℕ)
        → seen zero (map_page p s a (record { pfn = z; flags = flags })) s' a' ≡ seen zero p s' a'
    mapped-seen s' a' = elim (Bool-cases (s' == s && a' == a)) [
      | inl here ↦
          let es : s' ≡ s = ground (arith, here) in
          let ea : a' ≡ a = ground (arith, here) in
          rw (here, es, ea, absent) (sound.zeros z at_zero)
      | inr there ↦ rw there refl
    ]

    mapped-IsSound : IsSound zero (map_page p s a (record { pfn = z; flags = flags }))
    mapped-IsSound = record {
      zero_place = sound.zero_place;
      zeros = sound.zeros;
      not_zero = λ s₁ a₁ e₁ h₁ w z' hz. elim (mapped-cases s₁ a₁ e₁ h₁) [
        | inl e ↦
            let w' : has_flag flags vm_write ≡ true = rw e at w in
            absurd (ground (arith, w', read_only))
        | inr h ↦ sound.not_zero s₁ a₁ e₁ h w z' hz
      ];
      own = λ s₁ a₁ e₁ h₁ w s₂ a₂ e₂ h₂ k. elim (mapped-cases s₁ a₁ e₁ h₁) [
        | inl e ↦
            let w' : has_flag flags vm_write ≡ true = rw e at w in
            absurd (ground (arith, w', read_only))
        | inr h ↦ elim (mapped-cases s₂ a₂ e₂ h₂) [
          | inl e' ↦
              absurd
                (sound.not_zero s₁ a₁ e₁ h w z at_zero (sym (ap (λ (x : Entry). x.pfn) e') ∙ k))
          | inr h' ↦ sound.own s₁ a₁ e₁ h w s₂ a₂ e₂ h' k
        ]
      ];
    }

  -- The first use of the zero frame.
  module _ (p : Paging C) (f : ℕ) (sound : IsSound zero p) (fresh : IsFresh zero p f)
      (unset : p.zero_frame ≡ none) where
    abbrev with_zero : Paging C
    with_zero = record (set_content p f zero) { zero_frame = some f }

    with_zero-seen : (s a : ℕ) → seen zero with_zero s a ≡ seen zero p s a
    with_zero-seen s a = elim (Option-cases (p.tables s a)) [
      | inl n ↦ rw n refl
      | inr (e, h) ↦
          let ne = fresh.unmapped s a e h in
          let other : (e.pfn == f) ≡ false = ground (arith, ne) in rw (h, other) refl
    ]

    with_zero-IsSound : IsSound zero with_zero
    with_zero-IsSound = record {
      zero_place = λ z h. let same : f ≡ z = cc in rw same at fresh.place;
      zeros = λ z h. let same : f ≡ z = cc in ground (arith, same);
      not_zero =
          λ s a e h w z hz k. let same : f ≡ z = cc in fresh.unmapped s a e h (sym k ∙ sym same);
      own = sound.own;
    }

  module _ (maps : List VMap) (m : VMap) (p : Paging C) (space fault_addr f : ℕ)
      (sound : IsSound zero p) (fresh : IsFresh zero p f) where
    abbrev page : ℕ
    page = align_down_to_page fault_addr

    -- The page is the zero frame now; all that is shown is as before.
    abbrev pub IsShared : Outcome C → Type 0
    IsShared o =
        (q : Paging C) × (o ≡ handled q)
        × IsSound zero q
        × ((s a : ℕ) → seen zero q s a ≡ seen zero p s a)
        × ((e : Entry) × (q.tables space page ≡ some e)
            × (q.zero_frame ≡ some e.pfn)
            × (has_flag e.flags vm_write ≡ false))

    mapped-IsShared :
        (p' : Paging C) (z : ℕ)
        → IsSound zero p'
        → p'.zero_frame ≡ some z
        → p'.tables space page ≡ none
        → ((s a : ℕ) → seen zero p' s a ≡ seen zero p s a)
        → IsShared
            (handled (map_page p' space page (record { pfn = z; flags = without_write m.vmflags })))
    mapped-IsShared p' z sound' at_zero absent same =
        let e : Entry = record { pfn = z; flags = without_write m.vmflags } in
        let read_only = without_write_lem m.vmflags in
        (
          map_page p' space page e,
          refl,
          mapped-IsSound p' space page z (without_write m.vmflags) sound' at_zero absent read_only,
          (λ s a.
              mapped-seen p' space page z (without_write m.vmflags) sound' at_zero absent read_only
                s a
              ∙ same s a),
          (e, ground arith, at_zero, read_only),
        )

    -- A thread reads a page of anonymous memory that is not present: the address is in the map `m`, whose
    -- handler is `cow_zod_fault_handler`. In a sound state, with a new frame that nothing refers to,
    -- `mm_handle_fault` handles the fault: the page is the zero frame then and cannot be written, every page
    -- of every space shows what it did, and the state is sound again.
    pub mm_handle_fault-IsShared :
        (handler : ℕ) (info : FaultInfo)
        → vmap_obtain maps fault_addr ≡ some m
        → m.on_fault ≡ some handler
        → info.is_write ≡ false
        → info.is_exec ≡ false
        → info.is_present ≡ false
        → p.tables space page ≡ none
        → Returns
            (mm_handle_fault
              (on_fault zero maps m p space fault_addr f sound fresh (some f))
              maps
              p
              space
              fault_addr
              info
              none)
            IsShared
    unfolding mm_handle_fault cow_zod_fault_handler mm_replace_page_locked zero_page
    mm_handle_fault-IsShared handler info at h read no_exec away absent =
        elim (Option-cases p.zero_frame) [
          | inl unset ↦
              let pos = fresh.place in
              let other : (pfn_of none == f) ≡ false = ground (arith, pos) in
              let p' = with_zero p f sound fresh unset in
              let run : mm_handle_fault
                    (on_fault zero maps m p space fault_addr f sound fresh (some f)) maps p space
                    fault_addr info none
                  ≡ some (
                      handled (
                        map_page p' space page
                          (record { pfn = f; flags = without_write m.vmflags }))) =
                rw
                  (
                    mm_handle_fault, at, ◌>>=◌, h, read, no_exec, away, unset, absent, other,
                    if◌then◌else◌,
                  )
                  refl in
              (
                _,
                run,
                mapped-IsShared p' f (with_zero-IsSound p f sound fresh unset) refl absent
                    (with_zero-seen p f sound fresh unset),
              )
          | inr (z, set) ↦
              let pos = sound.zero_place z set in
              let other : (pfn_of none == z) ≡ false = ground (arith, pos) in
              let shared =
                map_page p space page (record { pfn = z; flags = without_write m.vmflags }) in
              let run : mm_handle_fault
                    (on_fault zero maps m p space fault_addr f sound fresh (some f)) maps p space
                    fault_addr info none
                  ≡ some (
                      handled (
                        map_page p space page
                          (record { pfn = z; flags = without_write m.vmflags }))) =
                rw
                  (
                    mm_handle_fault, at, ◌>>=◌, h, read, no_exec, away, set, absent, other,
                    if◌then◌else◌,
                  )
                  (ap (λ x. some (handled (record shared { zero_frame = x }))) set) in
              (_, run, mapped-IsShared p z sound set absent (λ s a. refl))
        ]
