-- ===== src/DownStack.antt =====
-- kernel/lib/structures/stack.c and its header: a stack of bytes that grows down in a region of
-- memory. The region is its bytes and the address `bottom` of the first. `none` is a panic or an
-- access outside of the region or of the caller's buffer.
pub mod Laws
use mos_moody_hunter.Base.{
  ℕ, ◌+◌, ◌-◌, Bool, Option, none, some, List, ltb, leb, if◌then◌else◌, ◌>>=◌, add64, sub64,
}
use mos_moody_hunter.Memory.{copy}

-- `downwards_stack_t`
pub record DownStack : Type 0 where
  pub top : ℕ
  pub head : ℕ
  pub capacity : ℕ

unfoldable pub init : ℕ → ℕ → DownStack
init mem_region_bottom size =
    let stack_top = add64 mem_region_bottom size in
    record { top = stack_top; head = stack_top; capacity = size }

unfoldable pub deinit : DownStack → DownStack
deinit stack = record { top = 0; head = 0; capacity = 0 }

-- The index in the region of an address.
unfoldable pub index_of : ℕ → ℕ → Option ℕ
index_of bottom address = if leb bottom address then some (address - bottom) else none

-- The address that is returned is the new head.
unfoldable pub grow : DownStack → ℕ → Option DownStack
grow stack size =
    if ltb (sub64 stack.head (sub64 stack.top stack.capacity)) size
    then none
    else some (record stack { head = sub64 stack.head size })

unfoldable pub push : DownStack → List ℕ → ℕ → List ℕ → ℕ → Option (DownStack × List ℕ)
push stack region bottom bytes size =
    let stack' = record stack { head = sub64 stack.head size } in
    if ltb (sub64 stack.head (sub64 stack.top stack.capacity)) size then none else (do
      i ← index_of bottom stack'.head
      region' ← copy region i bytes 0 size
      some (stack', region'))

-- `buffer` is `none` for a null pointer. The guard subtracts the top from the head.
unfoldable pub pop :
    DownStack → List ℕ → ℕ → ℕ → Option (List ℕ) → Option (DownStack × Option (List ℕ))
pop stack region bottom size buffer =
    let stack' = record stack { head = add64 stack.head size } in
    if ltb (sub64 stack.head stack.top) size then none else elim buffer [
      | none ↦ some (stack', none)
      | some bytes ↦ do
        i ← index_of bottom stack.head
        bytes' ← copy bytes 0 region i size
        some (stack', some bytes')
    ]
