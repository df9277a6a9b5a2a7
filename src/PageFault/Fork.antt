-- ===== src/PageFault/Fork.antt =====
-- `cow_clone_vmap_locked` (kernel/mm/cow.c): a map and its pages in the address space of a new process.
-- `mm_do_flag` and `mm_do_copy` of kernel/mm/paging/table_ops.c are what they do to the tables as maps.
use mos_moody_hunter.Base.{
  ℕ, ◌≡◌, ◌⊎◌, refl, sym, ap, ◌∙◌, inl, inr, Bool, true, false, ◌&&◌, Option, none, some, ◌==◌, ltb,
  leb, if◌then◌else◌, ◌>>=◌, arith, Bool-cases, has_flag, Returns,
}
use mos_moody_hunter.VMap.{VMap, Mm, end_of, update}
use mos_moody_hunter.VMap.Calls.{vm_write}
use mos_moody_hunter.VMap.Space.{mm_clone_vmap_locked}
use mos_moody_hunter.PageFault.{Entry, Paging, without_write}
use mos_moody_hunter.PageFault.Zeroed.{content_at, seen, IsSound}
use mos_moody_hunter.PageFault.Shared.{without_write_lem}

abbrev pub in_map : VMap → ℕ → Bool
in_map m a = leb m.vaddr a && ltb a (end_of m)

abbrev pub with_flags : ℕ → Option Entry → Option Entry
with_flags flags none = none
with_flags flags (some e) = some (record e { flags = flags })

module _ {C : Type 0} where
  unfoldable pub mm_do_flag : Paging C → ℕ → VMap → ℕ → Paging C
  mm_do_flag p space m flags = record p {
    tables =
        λ s a. if s == space && in_map m a then with_flags flags (p.tables s a) else p.tables s a;
  }

  unfoldable pub mm_do_copy : Paging C → ℕ → ℕ → VMap → Paging C
  mm_do_copy p src dst m = record p {
    tables = λ s a. if s == dst && in_map m a then p.tables src a else p.tables s a;
  }

  -- The pages of the map `m`, which lose the write flag in `src` and are shared with `dst`.
  unfoldable pub clone_pages : Paging C → ℕ → ℕ → VMap → Paging C
  unfolding mm_do_flag mm_do_copy
  clone_pages p src dst m = mm_do_copy (mm_do_flag p src m (without_write m.vmflags)) src dst m

  module _ {S : Type 0} where
    -- The two maps, the new process's address space, and the page tables. A null pointer from
    -- `mm_clone_vmap_locked` is used at once.
    unfoldable pub cow_clone_vmap_locked :
        ℕ → Paging C → ℕ → ℕ → VMap → Mm S → ℕ → Option (VMap × VMap × Mm S × Paging C)
    unfolding mm_clone_vmap_locked clone_pages
    cow_clone_vmap_locked zero_fill p src dst src_vmap target node = do
      r ← mm_clone_vmap_locked src_vmap target node
      (dst_vmap, target') ← r
      let handler : ℕ = elim src_vmap.on_fault [ none ↦ zero_fill | some h ↦ h ]
      let dst_vmap' = record dst_vmap { on_fault = some handler }
      if src_vmap.npages == 0
          then none
          else some (
            record src_vmap { on_fault = some handler },
            dst_vmap',
            record target' { mmaps = update node dst_vmap' target'.mmaps },
            clone_pages p src dst src_vmap,
          )

with_flags-some :
    (flags : ℕ) (o : Option Entry) (e : Entry)
    → with_flags flags o ≡ some e
    → (e' : Entry) × (o ≡ some e') × (e'.pfn ≡ e.pfn) × (e.flags ≡ flags)
with_flags-some flags none e h = cc
with_flags-some flags (some e') e h = (e', refl, ground arith, ground arith)

module _ {C : Type 0} (zero : C) (p : Paging C) (src dst : ℕ) (m : VMap) where
  with_flags-content :
      (flags : ℕ) (o : Option Entry) → content_at zero p (with_flags flags o) ≡ content_at zero p o
  with_flags-content flags none = refl
  with_flags-content flags (some e) = refl

  -- What the tables are after the clone.
  abbrev cloned : ℕ → ℕ → Option Entry
  cloned s a =
      if in_map m a
      then (if s == dst
          then with_flags (without_write m.vmflags) (p.tables src a)
          else if s == src
          then with_flags (without_write m.vmflags) (p.tables s a)
          else p.tables s a)
      else p.tables s a

  clone_pages-tables : (s a : ℕ) → (clone_pages p src dst m).tables s a ≡ cloned s a
  unfolding clone_pages
  clone_pages-tables s a =
      let self : (src == src) ≡ true = ground arith in
      elim (Bool-cases (in_map m a)) [
        | inl within ↦ elim (Bool-cases (s == dst)) [
          | inl d ↦ rw (within, d, self) refl
          | inr nd ↦ elim (Bool-cases (s == src)) [
            | inl t ↦ rw (within, nd, t) refl
            | inr nt ↦ rw (within, nd, nt) refl
          ]
        ]
        | inr away ↦ elim (Bool-cases (s == dst)) [
          | inl d ↦ elim (Bool-cases (s == src)) [
            | inl t ↦ rw (away, d, t) refl
            | inr nt ↦ rw (away, d, nt) refl
          ]
          | inr nd ↦ elim (Bool-cases (s == src)) [
            | inl t ↦ rw (away, nd, t) refl
            | inr nt ↦ rw (away, nd, nt) refl
          ]
        ]
      ]

  cloned-content :
      (s a : ℕ)
      → content_at zero p (cloned s a)
        ≡ (if s == dst && in_map m a then seen zero p src a else seen zero p s a)
  cloned-content s a =
      let here = with_flags-content (without_write m.vmflags) (p.tables src a) in
      let there = with_flags-content (without_write m.vmflags) (p.tables s a) in
      elim (Bool-cases (in_map m a)) [
        | inr away ↦ elim (Bool-cases (s == dst)) [
          | inl d ↦ rw (away, d) refl
          | inr nd ↦ rw (away, nd) refl
        ]
        | inl within ↦ elim (Bool-cases (s == dst)) [
          | inl d ↦ rw (within, d) here
          | inr nd ↦ elim (Bool-cases (s == src)) [
            | inl t ↦ rw (within, nd, t) there
            | inr nt ↦ rw (within, nd, nt) refl
          ]
        ]
      ]

  clone_pages-seen :
      (s a : ℕ)
      → seen zero (clone_pages p src dst m) s a
        ≡ (if s == dst && in_map m a then seen zero p src a else seen zero p s a)
  unfolding clone_pages
  clone_pages-seen s a = ap (content_at zero p) (clone_pages-tables s a) ∙ cloned-content s a

  -- A page of the old or new process that is shared now, or one as before.
  cloned-cases :
      (s a : ℕ) (e : Entry)
      → cloned s a ≡ some e
      → ((has_flag e.flags vm_write ≡ false)
          × (in_map m a ≡ true)
          × ((e' : Entry) × (p.tables src a ≡ some e') × (e'.pfn ≡ e.pfn)))
        ⊎ ((p.tables s a ≡ some e) × (s ≡ src → in_map m a ≡ false))
  cloned-cases s a e h =
      let read_only = without_write_lem m.vmflags in
      elim (Bool-cases (in_map m a)) [
        | inr away ↦ inr (rw (away, if◌then◌else◌) at h, λ k. away)
        | inl within ↦ elim (Bool-cases (s == dst)) [
          | inl d ↦
              let h' : with_flags (without_write m.vmflags) (p.tables src a) ≡ some e =
                rw (within, d, if◌then◌else◌) at h in
              let (e', at, same, f) =
                with_flags-some (without_write m.vmflags) (p.tables src a) e h' in
              inl (rw f read_only, within, (e', at, same))
          | inr nd ↦ elim (Bool-cases (s == src)) [
            | inl t ↦
                let h' : with_flags (without_write m.vmflags) (p.tables s a) ≡ some e =
                  rw (within, nd, t, if◌then◌else◌) at h in
                let (e', at, same, f) =
                  with_flags-some (without_write m.vmflags) (p.tables s a) e h' in
                let k : s ≡ src = ground (arith, t) in
                inl (rw f read_only, within, (e', rw k at at, same))
            | inr nt ↦
                inr (rw (within, nd, nt, if◌then◌else◌) at h, λ k. absurd (ground (arith, nt, k)))
          ]
        ]
      ]

  clone_pages-IsSound : IsSound zero p → IsSound zero (clone_pages p src dst m)
  unfolding clone_pages
  clone_pages-IsSound sound = record {
    zero_place = sound.zero_place;
    zeros = sound.zeros;
    not_zero = λ s a e h w z hz.
        let h' : cloned s a ≡ some e = sym (clone_pages-tables s a) ∙ h in
        elim (cloned-cases s a e h') [ inl c ↦ cc | inr c ↦ sound.not_zero s a e c.0 w z hz ];
    own = λ s a e h w s' a' e' k same.
        let h' : cloned s a ≡ some e = sym (clone_pages-tables s a) ∙ h in
        let k' : cloned s' a' ≡ some e' = sym (clone_pages-tables s' a') ∙ k in
        elim (cloned-cases s a e h') [
          | inl c ↦ cc
          | inr c ↦ elim (cloned-cases s' a' e' k') [
            | inr c' ↦ sound.own s a e c.0 w s' a' e' c'.0 same
            | inl c' ↦
                let (e₀, at, pfn) = c'.2 in
                let o = sound.own s a e c.0 w src a' e₀ at (pfn ∙ same) in
                let out : in_map m a ≡ false = c.1 (sym o.0) in
                let inn : in_map m a ≡ true = rw o.1 at c'.1 in cc
          ]
        ];
  }

  -- Both maps have the same handler; the new process sees in the map what the old one does, and all
  -- other accesses see what they saw.
  abbrev pub IsCloned : {S : Type 0} → VMap × VMap × Mm S × Paging C → Type 0
  IsCloned (src_vmap, dst_vmap, _, q) =
      ((h : ℕ) × (src_vmap.on_fault ≡ some h) × (dst_vmap.on_fault ≡ some h))
      × IsSound zero q
      × ((s a : ℕ)
          → seen zero q s a
            ≡ (if s == dst && in_map m a then seen zero p src a else seen zero p s a))

  -- If the page tables are sound, so that no frame that can be written is mapped twice, the map `m` has
  -- a page and the new process has the place for it, `cow_clone_vmap_locked` returns: both maps have
  -- one fault handler, the new process `dst` sees in the pages of `m` what `src` sees there, all
  -- other accesses in every address space see what they saw, and the tables are sound again.
  pub cow_clone_vmap_locked-IsCloned :
      {S : Type 0} (zero_fill : ℕ) (target target' : Mm S) (node : ℕ) (dst_vmap : VMap)
      → mm_clone_vmap_locked m target node ≡ some (some (dst_vmap, target'))
      → (m.npages == 0) ≡ false
      → IsSound zero p
      → Returns (cow_clone_vmap_locked zero_fill p src dst m target node) IsCloned
  unfolding cow_clone_vmap_locked
  cow_clone_vmap_locked-IsCloned zero_fill target target' node dst_vmap placed pages sound =
      let handler : ℕ = elim m.on_fault [ none ↦ zero_fill | some h ↦ h ] in
      let dst' = record dst_vmap { on_fault = some handler } in
      (
        (
          record m { on_fault = some handler },
          dst',
          record target' { mmaps = update node dst' target'.mmaps },
          clone_pages p src dst m,
        ),
        rw (placed, ◌>>=◌, pages, if◌then◌else◌) refl,
        ((handler, refl, refl), clone_pages-IsSound sound, clone_pages-seen),
      )
