-- ===== src/Tests/Faults.antt =====
-- The first accesses of a page of anonymous memory, and the clone of a map for fork.
use mos_moody_hunter.Base.{
  ℕ, ◌*◌, ◌≡◌, ◌==◌, ◌&&◌, if◌then◌else◌, Option, Bool-cases, inl, inr, sym, ◌∙◌, refl, true, false,
  some, none, [], ◌∷◌, Returns, arith,
}
use mos_moody_hunter.VMap.{VMap, Mm, do_copy, new_vmap, vmap_obtain}
use mos_moody_hunter.VMap.Space.{mm_clone_vmap_locked}
use mos_moody_hunter.Io.{Io}
use mos_moody_hunter.PageFault.Fork.{
  cow_clone_vmap_locked, IsCloned, cow_clone_vmap_locked-IsCloned,
}
use mos_moody_hunter.PageFault.{Entry, Paging, FaultInfo, mm_handle_fault}
use mos_moody_hunter.PageFault.Zeroed.{IsSound, IsFresh}
use mos_moody_hunter.PageFault.Handle.{on_fault, IsWritable, mm_handle_fault-IsWritable}
use mos_moody_hunter.PageFault.Shared.{IsShared, mm_handle_fault-IsShared}

abbrev map : VMap
map = record (new_vmap 100 (16 * 4096) 4) { vmflags = 3; on_fault = some 1 }

abbrev empty : Paging ℕ
empty = record { tables = λ s a. none; contents = λ f. 5; zero_frame = none }

empty-IsSound : IsSound 0 empty
empty-IsSound = record {
  zero_place = λ z h. cc;
  zeros = λ z h. cc;
  not_zero = λ s a e h w z k. cc;
  own = λ s a e h w s' a' e' h' k. cc;
}

nine-IsFresh : IsFresh 0 empty 9
nine-IsFresh = record { place = omega arith; unmapped = λ s a e h. cc; not_zero = λ z h. cc }

abbrev write : FaultInfo
write = record {
  is_present = false;
  is_write = true;
  is_exec = false;
  faulting_page = none;
  backing_page = none;
}

found : vmap_obtain (map ∷ []) 69634 ≡ some map
unfolding vmap_obtain
found = refl

mm_handle_fault_write_example :
    Returns
      (mm_handle_fault
        (on_fault 0 (map ∷ []) map empty 1 69634 9 empty-IsSound nine-IsFresh (some 9))
        (map ∷ [])
        empty
        1
        69634
        write
        none)
      (IsWritable 0 (map ∷ []) map empty 1 69634 9 empty-IsSound nine-IsFresh)
mm_handle_fault_write_example =
    mm_handle_fault-IsWritable 0 (map ∷ []) map empty 1 69634 9 empty-IsSound nine-IsFresh 1 write
      found refl refl refl refl refl

mm_handle_fault_read_example :
    Returns
      (mm_handle_fault
        (on_fault 0 (map ∷ []) map empty 1 69634 9 empty-IsSound nine-IsFresh (some 9))
        (map ∷ [])
        empty
        1
        69634
        (record write { is_write = false })
        none)
      (IsShared 0 (map ∷ []) map empty 1 69634 9 empty-IsSound nine-IsFresh)
mm_handle_fault_read_example =
    mm_handle_fault-IsShared 0 (map ∷ []) map empty 1 69634 9 empty-IsSound nine-IsFresh 1
      (record write { is_write = false }) found refl refl refl refl refl

-- The first page of the map is in the frame 7 of the space 1.
abbrev one_page : ℕ → ℕ → Option Entry
one_page s a = if s == 1 && a == 65536 then some (record { pfn = 7; flags = 3 }) else none

abbrev used : Paging ℕ
used = record { tables = one_page; contents = λ f. 5; zero_frame = none }

one_page-place : (s a : ℕ) (e : Entry) → one_page s a ≡ some e → (s ≡ 1) × (a ≡ 65536)
one_page-place s a e h = elim (Bool-cases (s == 1 && a == 65536)) [
  | inl t ↦ ground (arith, t)
  | inr f ↦ absurd (ground (arith, h, f))
]

used-IsSound : IsSound 0 used
used-IsSound = record {
  zero_place = λ z h. cc;
  zeros = λ z h. cc;
  not_zero = λ s a e h w z k. cc;
  own = λ s a e h w s' a' e' h' k.
      let x = one_page-place s a e h in
      let y = one_page-place s' a' e' h' in (y.0 ∙ sym x.0, y.1 ∙ sym x.1);
}

abbrev no_object : Io (Unit {0}) VMap
no_object = record {
  closed = false;
  refcount = 1;
  flags = 0;
  kind = 0;
  ops = record { read = none; write = none; close = none; seek = none; mmap = none; munmap = none };
}

abbrev child : Mm (Unit {0})
child = record { mmaps = []; ios = λ p. no_object; state = tt; calls = [] }

abbrev child_map : VMap
child_map = record map { node = 200 }

abbrev child' : Mm (Unit {0})
child' = record child { mmaps = child_map ∷ []; calls = do_copy (16 * 4096) 4 ∷ [] }

placed : mm_clone_vmap_locked map child 200 ≡ some (some (child_map, child'))
unfolding mm_clone_vmap_locked mos_moody_hunter.VMap.update mos_moody_hunter.VMap.attach
placed = refl

cow_clone_vmap_locked_example :
    Returns (cow_clone_vmap_locked 9 used 1 2 map child 200) (IsCloned 0 used 1 2 map)
cow_clone_vmap_locked_example =
    cow_clone_vmap_locked-IsCloned 0 used 1 2 map 9 child child' 200 child_map placed refl
      used-IsSound
