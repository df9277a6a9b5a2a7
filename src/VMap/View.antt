-- ===== src/VMap/View.antt =====
-- What an address space shows at each address, and the maps around a map in its list.
use mos_moody_hunter.Base.{
  ℕ, ◌-◌, ◌≤◌, ◌<◌, ◌≡◌, ◌≢◌, refl, ◌&&◌, Option, none, some, List, [], ◌∷◌, ◌++◌, ltb, leb,
  if◌then◌else◌, arith, add64, Bool-cases, inl, inr,
}
use mos_moody_hunter.VMap.{VMap, attach, update, detach, end_of, vmap_obtain}
use mos_moody_hunter.VMap.Layout.{top, IsRegion, IsLayout, end_of-eq-top}

-- How the page at an address is backed: by zero pages or by the object `io` at a place in it.
pub record Backing : Type 0 where
  pub vmflags : ℕ
  pub io : Option ℕ
  pub place : ℕ
  pub content : ℕ
  pub kind : ℕ
  pub on_fault : Option ℕ

abbrev pub place_in : Option ℕ → ℕ → ℕ
place_in none place = 0
place_in (some io) place = place

abbrev pub backing : VMap → ℕ → Backing
backing m a = record {
  vmflags = m.vmflags;
  io = m.io;
  place = place_in m.io (add64 m.io_offset (a - m.vaddr));
  content = m.content;
  kind = m.kind;
  on_fault = m.on_fault;
}

abbrev pub shown : Option VMap → ℕ → Option Backing
shown none a = none
shown (some m) a = some (backing m a)

abbrev pub view : List VMap → ℕ → Option Backing
view ms a = shown (vmap_obtain ms a) a

-- The view of the maps `ms`, and behind them `later`.
abbrev pub or_else : Option Backing → Option Backing → Option Backing
or_else none later = later
or_else (some b) later = some b

pub view-cons :
    (m : VMap) (ms : List VMap) (a : ℕ)
    → IsRegion m
    → view (m ∷ ms) a ≡ (if leb m.vaddr a && ltb a (top m) then some (backing m a) else view ms a)
unfolding vmap_obtain
view-cons m ms a r = let e = end_of-eq-top m r in ground (arith, e)

pub view-append : (xs ys : List VMap) (a : ℕ) → view (xs ++ ys) a ≡ or_else (view xs a) (view ys a)
unfolding vmap_obtain
view-append [] ys a = refl
view-append (x ∷ xs) ys a = elim (Bool-cases (leb x.vaddr a && ltb a (end_of x))) [
  | inl here ↦ rw (here, if◌then◌else◌) refl
  | inr there ↦ rw (there, if◌then◌else◌) (view-append xs ys a)
]

-- No map at the address of this struct.
abbrev pub NotIn : ℕ → List VMap → Type 0
NotIn node [] = Unit {0}
NotIn node (m ∷ ms) = (m.node ≢ node) × NotIn node ms

pub update-NotIn : (node : ℕ) (v : VMap) (ms : List VMap) → NotIn node ms → update node v ms ≡ ms
unfolding update
update-NotIn node v [] h = refl
update-NotIn node v (m ∷ ms) h = ground (arith, update-NotIn node v ms h.1)

pub update_middle :
    (m v : VMap) (xs ys : List VMap)
    → NotIn m.node xs
    → NotIn m.node ys
    → update m.node v (xs ++ m ∷ ys) ≡ xs ++ v ∷ ys
unfolding update
update_middle m v [] ys h h' = ground (arith, update-NotIn m.node v ys h')
update_middle m v (x ∷ xs) ys h h' = ground (arith, update_middle m v xs ys h.1 h')

pub detach_middle :
    (m : VMap) (xs ys : List VMap) → NotIn m.node xs → detach m.node (xs ++ m ∷ ys) ≡ xs ++ ys
unfolding detach
detach_middle m [] ys h = ground arith
detach_middle m (x ∷ xs) ys h = ground (arith, detach_middle m xs ys h.1)

pub layout_start-le :
    (lo : ℕ) (m : VMap) (xs ys : List VMap) → IsLayout lo (xs ++ m ∷ ys) → lo ≤ m.vaddr
layout_start-le lo m [] ys l = l.0
layout_start-le lo m (x ∷ xs) ys l = omega (arith, layout_start-le (top x) m xs ys l.2)

pub layout_behind :
    (lo : ℕ) (m : VMap) (xs ys : List VMap)
    → IsLayout lo (xs ++ m ∷ ys)
    → IsRegion m × IsLayout (top m) ys
layout_behind lo m [] ys l = (l.1, l.2)
layout_behind lo m (x ∷ xs) ys l = layout_behind (top x) m xs ys l.2

attach_first :
    (v : VMap) (ys : List VMap) (lo : ℕ) → IsLayout lo ys → v.vaddr < lo → attach v ys ≡ v ∷ ys
unfolding attach
attach_first v [] lo l h = refl
attach_first v (y ∷ ys) lo l h = ground arith

-- A map whose address lies in the map `m` is attached behind it.
pub attach_behind :
    (v m m' : VMap) (lo : ℕ) (xs ys : List VMap)
    → IsLayout lo (xs ++ m ∷ ys)
    → m'.vaddr ≡ m.vaddr
    → m.vaddr < v.vaddr
    → v.vaddr < top m
    → attach v (xs ++ m' ∷ ys) ≡ xs ++ m' ∷ v ∷ ys
unfolding attach
attach_behind v m m' lo [] ys l e h h' =
    let rest = attach_first v ys (top m) l.2 h' in ground (arith, rest)
attach_behind v m m' lo (x ∷ xs) ys l e h h' =
    let before : x.vaddr < m.vaddr = omega (arith, l.1, layout_start-le (top x) m xs ys l.2) in
    ground (arith, attach_behind v m m' (top x) xs ys l.2 e h h')

-- The maps from `m` on are replaced.
pub IsLayout_middle :
    (lo : ℕ) (xs ys zs : List VMap)
    → IsLayout lo (xs ++ ys)
    → ((lo' : ℕ) → lo ≤ lo' → IsLayout lo' ys → IsLayout lo' zs)
    → IsLayout lo (xs ++ zs)
IsLayout_middle lo [] ys zs l f = f lo (omega arith) l
IsLayout_middle lo (x ∷ xs) ys zs l f = (
  l.0,
  l.1,
  IsLayout_middle (top x) xs ys zs l.2 (λ lo' h l'. f lo' (omega (arith, l.0, l.1)) l'),
)
