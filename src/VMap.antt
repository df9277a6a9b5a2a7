-- ===== src/VMap.antt =====
-- kernel/mm/mm.c: the memory maps of an address space. The list of maps is the sequence that its linked
-- list stands for (`LinkedList`). A map is known by the address of its struct, `node`. The I/O objects
-- stand at their addresses, and `S` is what their callbacks work on. The page tables are left to the
-- platform: what is asked of them is recorded in order. All locks that the functions assert are held.
-- `none` is a failed assertion, a panic or the use of a null pointer.
pub mod Space
pub mod Calls
pub mod Layout
pub mod Gap
pub mod FirstFit
pub mod View
pub mod Split
pub mod Unmap
pub mod Ranges
pub mod Munmap
use mos_moody_hunter.Base.{
  ℕ, zero, suc, ◌+◌, ◌-◌, ◌*◌, ◌^◌, Bool, true, false, not, ◌&&◌, ◌||◌, Option, none, some, List,
  [], ◌∷◌, ◌++◌, ltb, leb, ◌==◌, if◌then◌else◌, ◌>>=◌, add64, sub64, mul64, page_size,
}
use mos_moody_hunter.Io.{Io, Ops, io_ref, io_unref, io_mmap_perm_check}

-- `vmap_t` without its lock, list node and statistics. `content` is 0 for VMAP_UNKNOWN.
pub record VMap : Type 0 where
  pub node : ℕ
  pub vaddr : ℕ
  pub npages : ℕ
  pub vmflags : ℕ
  pub io : Option ℕ
  pub io_offset : ℕ
  pub content : ℕ
  pub kind : ℕ
  pub on_fault : Option ℕ

-- What is asked of the page tables (kernel/mm/paging/table_ops.c).
pub data TableCall : Type 0 where
  do_map : ℕ → ℕ → ℕ → ℕ → TableCall
  do_unmap : ℕ → ℕ → TableCall
  do_mask : ℕ → ℕ → ℕ → TableCall
  do_copy : ℕ → ℕ → TableCall

-- `mm_context_t`, the I/O objects and the state of their callbacks.
pub record Mm (S : Type 0) : Type 0 where
  pub mmaps : List VMap
  pub ios : ℕ → Io S VMap
  pub state : S
  pub calls : List TableCall

-- `MMAP_EXACT`, `VMAP_TYPE_PRIVATE` and `VMAP_TYPE_SHARED`
abbrev pub mmap_exact : ℕ
mmap_exact = 1

abbrev pub type_private : ℕ
type_private = 2

abbrev pub type_shared : ℕ
type_shared = 4

-- `m->vaddr + m->npages * MOS_PAGE_SIZE`
abbrev pub end_of : VMap → ℕ
end_of m = add64 m.vaddr (mul64 m.npages page_size)

-- The loop of `do_attach_vmap`: before the first map at a higher address, or at the end.
unfoldable pub attach : VMap → List VMap → List VMap
attach v [] = v ∷ []
attach v (m ∷ ms) = if ltb v.vaddr m.vaddr then v ∷ m ∷ ms else m ∷ attach v ms

-- The slab gives zeroed memory.
abbrev pub new_vmap : ℕ → ℕ → ℕ → VMap
new_vmap node vaddr npages = record {
  node = node;
  vaddr = vaddr;
  npages = npages;
  vmflags = 0;
  io = none;
  io_offset = 0;
  content = 0;
  kind = 0;
  on_fault = none;
}

unfoldable pub vmap_create : List VMap → ℕ → ℕ → ℕ → VMap × List VMap
vmap_create mmaps node vaddr npages =
    let map = new_vmap node vaddr npages in (map, attach map mmaps)

-- The map that holds the address.
unfoldable pub vmap_obtain : List VMap → ℕ → Option VMap
vmap_obtain [] vaddr = none
vmap_obtain (m ∷ ms) vaddr =
    if leb m.vaddr vaddr && ltb vaddr (end_of m) then some m else vmap_obtain ms vaddr

-- A store to the map at an address.
unfoldable pub update : ℕ → VMap → List VMap → List VMap
update node v [] = []
update node v (m ∷ ms) = (if m.node == node then v else m) ∷ update node v ms

-- `list_remove`
unfoldable pub detach : ℕ → List VMap → List VMap
detach node [] = []
detach node (m ∷ ms) = if m.node == node then ms else m ∷ detach node ms

module _ {S : Type 0} where
  abbrev pub set_io : (ℕ → Io S VMap) → ℕ → Io S VMap → ℕ → Io S VMap
  set_io ios p io k = if k == p then io else ios k

  -- The two maps after `vmap_split` with a null `io`, or with one on which a reference is taken; a
  -- reference that is refused leaves a null pointer.
  unfoldable pub split_second : Mm S → VMap → ℕ → ℕ → VMap × (ℕ → Io S VMap)
  split_second mm first split node =
      let rest = record first {
        node = node;
        npages = sub64 first.npages split;
        vaddr = add64 first.vaddr (mul64 split page_size);
      } in
      elim first.io [
        | none ↦ (rest, mm.ios)
        | some p ↦
            let r = io_ref (mm.ios p) in
            (
              record rest {
                io = if r.0 then some p else none;
                io_offset = add64 first.io_offset (mul64 split page_size);
              },
              set_io mm.ios p r.1,
            )
      ]

  -- `node` is the address of the new struct. The first map, the second and what is left behind.
  unfoldable pub vmap_split : Mm S → VMap → ℕ → ℕ → Option (VMap × VMap × Mm S)
  unfolding split_second
  vmap_split mm first split node =
      if split == 0 || not (ltb split first.npages)
      then none
      else let (second, ios) = split_second mm first split node in
        let first' = record first { npages = split } in
        some (
          first',
          second,
          record mm { mmaps = attach second (update first.node first' mm.mmaps); ios = ios },
        )

  -- The map that is returned for the range of pages, and what is left behind.
  unfoldable pub vmap_split_for_range : Mm S → VMap → ℕ → ℕ → ℕ → ℕ → Option (VMap × Mm S)
  vmap_split_for_range mm vmap rstart_pgoff rend_pgoff node node' =
      if rstart_pgoff == 0 && rend_pgoff == vmap.npages
      then some (vmap, mm)
      else if rstart_pgoff == 0
      then (do (first, second, mm') ← vmap_split mm vmap rend_pgoff node; some (second, mm'))
      else if rend_pgoff == vmap.npages
      then (do (first, second, mm') ← vmap_split mm vmap rstart_pgoff node; some (second, mm'))
      else (do
        (first, second, mm') ← vmap_split mm vmap rstart_pgoff node
        (second', third, mm'') ← vmap_split mm' second (sub64 rend_pgoff rstart_pgoff) node'
        some (second', mm''))

  -- The end of `io_munmap`.
  unfoldable pub drop_io : Mm S → ℕ → Bool → S → Bool × Bool × Mm S
  drop_io mm p unmapped state =
      let (kept, io', state') = io_unref (mm.ios p) state in
      (true, unmapped, record mm { ios = set_io mm.ios p io'; state = state' })

  -- `io_munmap` of kernel/io/io.c on the map's object: what it returns, whether the callback has
  -- unmapped the pages, and what is left behind. `unmapped` is false before the call.
  unfoldable pub io_munmap : Mm S → ℕ → VMap → Bool × Bool × Mm S
  unfolding drop_io
  io_munmap mm p vmap =
      let io = mm.ios p in
      let same : Bool = elim vmap.io [ none ↦ false | some q ↦ q == p ] in
      if io.closed
      then (false, false, mm)
      else if not same
      then (false, false, mm)
      else elim io.ops.munmap [
        | none ↦ drop_io mm p false mm.state
        | some f ↦
            let (ok, unmapped, state) = f vmap mm.state in
            if ok
            then drop_io mm p unmapped state
            else (false, unmapped, record mm { state = state })
      ]

  -- The part of `vmap_destroy` before the map leaves the list.
  unfoldable pub release_pages : Mm S → VMap → Mm S
  unfolding io_munmap
  release_pages mm vmap =
      let unmap =
        λ (mm' : Mm S). record mm' { calls = mm'.calls ++ do_unmap vmap.vaddr vmap.npages ∷ [] } in
      elim vmap.io [
        | none ↦ unmap mm
        | some p ↦
            let (ok, unmapped, mm') = io_munmap mm p vmap in if unmapped then mm' else unmap mm'
      ]

  unfoldable pub vmap_destroy : Mm S → VMap → Mm S
  vmap_destroy mm vmap =
      let mm' = release_pages mm vmap in record mm' { mmaps = detach vmap.node mm'.mmaps }

  -- `io_mmap`: the object's callback may change the map and sets its fault handler.
  unfoldable pub io_mmap : Mm S → ℕ → VMap → ℕ → Option (Bool × VMap × Mm S)
  io_mmap mm p vmap offset =
      let io = mm.ios p in
      if not (io_mmap_perm_check io vmap.vmflags (vmap.kind == type_private))
      then some (false, vmap, mm)
      else (do
        f ← io.ops.mmap
        let vmap₁ = record vmap { io = some p; io_offset = offset }
        let (ok, vmap₂, state) = f vmap₁ offset mm.state
        let mm' = record mm { mmaps = update vmap.node vmap₂ mm.mmaps; state = state }
        if ok
            then elim vmap₂.on_fault [
              | none ↦ none
              | some handler ↦
                  some (true, vmap₂, record mm' { ios = set_io mm.ios p (io_ref io).1 })
            ]
            else some (false, vmap₂, mm'))

  -- `vmap_finalise_init`
  unfoldable pub vmap_finalise_init : Mm S → VMap → ℕ → ℕ → Option (Mm S)
  vmap_finalise_init mm vmap content kind =
      if content == 0 || not (vmap.content == 0 || vmap.content == content)
      then none
      else some (record mm {
        mmaps = update vmap.node (record vmap { content = content; kind = kind }) mm.mmaps;
      })
