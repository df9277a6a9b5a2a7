-- ===== src/Tests/VMaps.antt =====
-- An address space with two maps of four pages.
use mos_moody_hunter.Base.{
  ◌*◌, ◌≡◌, refl, false, some, none, List, [], ◌∷◌, Returns, has_flag, arith,
}
use mos_moody_hunter.Io.{Io}
use mos_moody_hunter.VMap.{VMap, Mm, mmap_exact, new_vmap, vmap_split}
use mos_moody_hunter.VMap.Space.{next_free, free_vaddr, mm_get_free_vaddr_locked}
use mos_moody_hunter.VMap.Layout.{IsLayout}
use mos_moody_hunter.VMap.FirstFit.{FirstFit, mm_get_free_vaddr_locked-FirstFit}
use mos_moody_hunter.VMap.View.{NotIn}
use mos_moody_hunter.VMap.Split.{IsSplit, vmap_split-IsSplit}
use mos_moody_hunter.VMap.Ranges.{IsUnmapped}
use mos_moody_hunter.VMap.Munmap.{munmap-IsUnmapped, munmap_prefix}
use mos_moody_hunter.VMap.Calls.{munmap}

abbrev low_map : VMap
low_map = new_vmap 100 (16 * 4096) 4

abbrev high_map : VMap
high_map = new_vmap 101 (24 * 4096) 4

abbrev maps : List VMap
maps = low_map ∷ high_map ∷ []

-- Three pages fit between the two maps, five do not.
three_between : free_vaddr maps 3 (16 * 4096) 0 ≡ some (20 * 4096)
unfolding free_vaddr next_free
three_between = refl

five_behind : free_vaddr maps 5 (16 * 4096) 0 ≡ some (28 * 4096)
unfolding free_vaddr next_free
five_behind = refl

maps-IsLayout : IsLayout 0 maps
maps-IsLayout = omega arith

mm_get_free_vaddr_locked_example :
    Returns
      (mm_get_free_vaddr_locked maps 5 (16 * 4096) 0 102)
      (FirstFit maps 5 (16 * 4096) 102 (has_flag 0 mmap_exact))
mm_get_free_vaddr_locked_example =
    mm_get_free_vaddr_locked-FirstFit maps 5 (16 * 4096) 0 102 maps-IsLayout (omega arith)
      (omega arith) refl (omega arith) (λ h. omega arith)

abbrev no_object : Io (Unit {0}) VMap
no_object = record {
  closed = false;
  refcount = 1;
  flags = 0;
  kind = 0;
  ops = record { read = none; write = none; close = none; seek = none; mmap = none; munmap = none };
}

abbrev space : Mm (Unit {0})
space = record { mmaps = maps; ios = λ p. no_object; state = tt; calls = [] }

not_there : NotIn 100 (high_map ∷ [])
not_there = omega arith

unused : NotIn 102 maps
unused = omega arith

vmap_split_example :
    Returns (vmap_split space low_map 1 102) (IsSplit space [] low_map (high_map ∷ []) 1 102)
vmap_split_example =
    vmap_split-IsSplit space [] low_map (high_map ∷ []) 1 102 refl maps-IsLayout tt not_there tt
      (omega arith) (omega arith)

-- The second and third page of the first map.
munmap_example : Returns (munmap space (17 * 4096) 8192 102 103) (
    IsUnmapped space [] low_map
      (high_map ∷ [])
      102
      refl
      maps-IsLayout
      tt
      not_there
      tt
      unused
      (17 * 4096)
      2)
munmap_example =
    munmap-IsUnmapped space [] low_map (high_map ∷ []) 102 103 refl maps-IsLayout tt not_there tt
      unused (17 * 4096) 8192 refl (omega arith) (omega arith) (omega arith) (λ h. omega arith)

-- The first page of the first map: the other three go.
munmap_prefix_example : Returns (munmap space (16 * 4096) 4096 102 103) (
    IsUnmapped space [] low_map
      (high_map ∷ [])
      102
      refl
      maps-IsLayout
      tt
      not_there
      tt
      unused
      (17 * 4096)
      3)
munmap_prefix_example =
    munmap_prefix space [] low_map (high_map ∷ []) 102 103 refl maps-IsLayout tt not_there tt unused
      (16 * 4096) 4096 refl (omega arith) (omega arith) (omega arith) refl (omega arith)
