-- ===== src/PageFault/Zeroed.antt =====
-- Anonymous memory: pages of zeros until they are written, shared until they are written.
use mos_moody_hunter.Base.{
  ℕ, ◌≡◌, ◌≢◌, ◌<◌, ◌⊎◌, refl, sym, ap, ◌∙◌, inl, inr, true, false, ◌&&◌, Option, none, some, ◌==◌,
  if◌then◌else◌, arith, Bool-cases, Option-cases, has_flag,
}
use mos_moody_hunter.VMap.Calls.{vm_write}
use mos_moody_hunter.PageFault.{Entry, Paging, map_page, set_content}

module _ {C : Type 0} (zero : C) where
  -- What a space shows at a page: the content of the frame, or zeros that are still to be given.
  abbrev pub content_at : Paging C → Option Entry → C
  content_at p none = zero
  content_at p (some e) = p.contents e.pfn

  abbrev pub seen : Paging C → ℕ → ℕ → C
  seen p s a = content_at p (p.tables s a)

  -- The zero frame holds zeros, and a frame that can be written at some page is at no other page and not
  -- the zero frame.
  pub record IsSound (p : Paging C) : Type 0 where
    pub zero_place : (z : ℕ) → p.zero_frame ≡ some z → 0 < z
    pub zeros : (z : ℕ) → p.zero_frame ≡ some z → p.contents z ≡ zero
    pub not_zero :
        (s a : ℕ) (e : Entry)
        → p.tables s a ≡ some e
        → has_flag e.flags vm_write ≡ true
        → (z : ℕ) → p.zero_frame ≡ some z
        → z ≢ e.pfn
    pub own :
        (s a : ℕ) (e : Entry)
        → p.tables s a ≡ some e
        → has_flag e.flags vm_write ≡ true
        → (s' a' : ℕ) (e' : Entry) → p.tables s' a' ≡ some e'
        → e'.pfn ≡ e.pfn
        → (s' ≡ s) × (a' ≡ a)

  -- The allocator gives a frame that nothing refers to.
  pub record IsFresh (p : Paging C) (f : ℕ) : Type 0 where
    pub place : 0 < f
    pub unmapped : (s a : ℕ) (e : Entry) → p.tables s a ≡ some e → e.pfn ≢ f
    pub not_zero : (z : ℕ) → p.zero_frame ≡ some z → z ≢ f

  module _ (p : Paging C) (s a f flags : ℕ) (c : C) (sound : IsSound p) (fresh : IsFresh p f)
      (same : c ≡ seen p s a) where
    abbrev pub placed : Paging C
    placed = map_page (set_content p f c) s a (record { pfn = f; flags = flags })

    placed-cases :
        (s' a' : ℕ) (e : Entry)
        → placed.tables s' a' ≡ some e
        → ((s' ≡ s) × (a' ≡ a) × (e ≡ record { pfn = f; flags = flags }))
          ⊎ (p.tables s' a' ≡ some e)
    placed-cases s' a' e h = elim (Bool-cases (s' == s && a' == a)) [
      | inl here ↦ inl (ground (arith, here), ground (arith, here), ground (arith, here, h))
      | inr there ↦ inr (ground (arith, there, h))
    ]

    pub placed-seen : (s' a' : ℕ) → seen placed s' a' ≡ seen p s' a'
    placed-seen s' a' = elim (Bool-cases (s' == s && a' == a)) [
      | inl here ↦
          let es : s' ≡ s = ground (arith, here) in
          let ea : a' ≡ a = ground (arith, here) in
          let ff : (f == f) ≡ true = ground arith in rw (here, ff, es, ea) same
      | inr there ↦ elim (Option-cases (p.tables s' a')) [
        | inl e ↦ rw (there, e) refl
        | inr (e, h) ↦
            let ne = fresh.unmapped s' a' e h in
            let other : (e.pfn == f) ≡ false = ground (arith, ne) in rw (there, h, other) refl
      ]
    ]

    pub placed-IsSound : IsSound placed
    placed-IsSound = record {
      zero_place = sound.zero_place;
      zeros = λ z h.
          let ne = fresh.not_zero z h in
          let other : (z == f) ≡ false = ground (arith, ne) in rw other (sound.zeros z h);
      not_zero = λ s₁ a₁ e₁ h₁ w z hz. elim (placed-cases s₁ a₁ e₁ h₁) [
        | inl (es, ea, e) ↦ rw e (fresh.not_zero z hz)
        | inr h ↦ sound.not_zero s₁ a₁ e₁ h w z hz
      ];
      own = λ s₁ a₁ e₁ h₁ w s₂ a₂ e₂ h₂ k. elim (placed-cases s₁ a₁ e₁ h₁) [
        | inl (es, ea, e) ↦ elim (placed-cases s₂ a₂ e₂ h₂) [
          | inl (es', ea', e') ↦ (es' ∙ sym es, ea' ∙ sym ea)
          | inr h ↦ absurd (fresh.unmapped s₂ a₂ e₂ h (k ∙ ap (λ (x : Entry). x.pfn) e))
        ]
        | inr h ↦ elim (placed-cases s₂ a₂ e₂ h₂) [
          | inl (es', ea', e') ↦
              absurd (fresh.unmapped s₁ a₁ e₁ h (sym k ∙ ap (λ (x : Entry). x.pfn) e'))
          | inr h' ↦ sound.own s₁ a₁ e₁ h w s₂ a₂ e₂ h' k
        ]
      ];
    }

  -- A store through a page that can be written changes what is shown there and nowhere else.
  pub store-seen :
      (p : Paging C) (s a : ℕ) (e : Entry) (c : C)
      → IsSound p
      → p.tables s a ≡ some e
      → has_flag e.flags vm_write ≡ true
      → (s' a' : ℕ)
      → seen (set_content p e.pfn c) s' a' ≡ (if s' == s && a' == a then c else seen p s' a')
  store-seen p s a e c sound at w s' a' = elim (Bool-cases (s' == s && a' == a)) [
    | inl here ↦
        let es : s' ≡ s = ground (arith, here) in
        let ea : a' ≡ a = ground (arith, here) in
        let own_frame : (e.pfn == e.pfn) ≡ true = ground arith in
        rw (here, es, ea, at, own_frame) refl
    | inr there ↦ elim (Option-cases (p.tables s' a')) [
      | inl n ↦ rw (there, n) refl
      | inr (e', h) ↦ elim (Bool-cases (e'.pfn == e.pfn)) [
        | inl same ↦
            let k : e'.pfn ≡ e.pfn = ground (arith, same) in
            let q = sound.own s a e at w s' a' e' h k in ground (arith, there, q)
        | inr other ↦ rw (there, h, other) refl
      ]
    ]
  ]
