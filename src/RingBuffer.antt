-- ===== src/RingBuffer.antt =====
-- kernel/lib/structures/ring_buffer.c and its header: a byte deque in an array with a position record.
-- A function that writes through a pointer returns the new array or position; `none` is an access
-- outside of an array. `memcpy` is called as `Memory.copy`.
pub mod Valid
pub mod Wrapped
pub mod Deque
pub mod Resize
use mos_moody_hunter.Base.{
  ℕ, zero, suc, ◌+◌, ◌-◌, Bool, true, false, Option, none, some, List, [], ◌∷◌, get_elem?, ltb, leb,
  ◌==◌, if◌then◌else◌, ◌>>=◌, add64, sub64, rem, min,
}
use mos_moody_hunter.Memory.{copy, store}

-- `ring_buffer_pos_t`
pub record Pos : Type 0 where
  pub size : ℕ
  pub capacity : ℕ
  pub head : ℕ
  pub next_pos : ℕ

-- The array and its position: `ring_buffer_t`, or the pair of arguments of the `pos` functions.
pub record RingBuffer : Type 0 where
  pub bytes : List ℕ
  pub pos : Pos

unfoldable pub pos_init : ℕ → Pos
pos_init capacity = record { size = 0; capacity = capacity; head = 0; next_pos = 0 }

-- `rb_alloc` and `data_alloc` are the results of the two calls of `kmalloc`.
unfoldable pub create : ℕ → Bool → Option (List ℕ) → Option RingBuffer
unfolding pos_init
create capacity rb_alloc data_alloc =
    if capacity == 0
    then none
    else if rb_alloc
    then (data_alloc >>= λ bytes. some (record { bytes = bytes; pos = pos_init capacity }))
    else none

-- `ring_buffer_get`, which reduces the index modulo `pos->size`.
unfoldable pub get : List ℕ → Pos → ℕ → Option ℕ
get bytes pos index = rem (add64 pos.head index) pos.size >>= get_elem? bytes

-- The loop of `ring_buffer_resize`, with `left` rounds to go at index `i`.
unfoldable pub resize_loop : List ℕ → Pos → ℕ → ℕ → List ℕ → Option (List ℕ)
unfolding get store
resize_loop bytes pos i zero new_data = some new_data
resize_loop bytes pos i (suc left) new_data = do
  b ← get bytes pos i
  new_data' ← store new_data i b
  resize_loop bytes pos (i + 1) left new_data'

-- `alloc` is the result of `kmalloc(new_capacity)`.
unfoldable pub resize : RingBuffer → ℕ → Option (List ℕ) → Option (Bool × RingBuffer)
unfolding resize_loop
resize rb new_capacity alloc =
    if ltb new_capacity rb.pos.size then some (false, rb) else elim alloc [
      | none ↦ some (false, rb)
      | some new_data ↦ do
        bytes ← resize_loop rb.bytes rb.pos 0 rb.pos.size new_data
        some (
          true,
          record {
            bytes = bytes;
            pos = record {
              size = rb.pos.size;
              capacity = new_capacity;
              head = 0;
              next_pos = rb.pos.size;
            };
          },
        )
    ]

-- What a push returns and leaves behind, and the same of a pop, which fills `target`.
pub record Pushed : Type 0 where
  pub count : ℕ
  pub ring : RingBuffer

pub record Popped : Type 0 where
  pub count : ℕ
  pub target : List ℕ
  pub ring : RingBuffer

unfoldable pub push_back : RingBuffer → List ℕ → ℕ → Option Pushed
push_back rb target wanted =
    let pos = rb.pos in
    let size =
      if ltb pos.capacity (add64 pos.size wanted) then sub64 pos.capacity pos.size else wanted in
    let first_part_size = min size (sub64 pos.capacity pos.next_pos) in
    let second_part = sub64 size first_part_size in
    do
      d₁ ← copy rb.bytes pos.next_pos target 0 first_part_size
      d₂ ← copy d₁ 0 target first_part_size second_part
      next_pos ← rem (add64 pos.next_pos size) pos.capacity
      some (record {
        count = size;
        ring = record {
          bytes = d₂;
          pos = record pos { next_pos = next_pos; size = add64 pos.size size };
        };
      })

unfoldable pub pop_back : RingBuffer → List ℕ → ℕ → Option Popped
pop_back rb target wanted =
    let pos = rb.pos in
    let size = if ltb pos.size wanted then pos.size else wanted in
    do
      first_part_i ← rem (sub64 (add64 pos.capacity pos.next_pos) size) pos.capacity
      let first_part_size = min size (sub64 pos.capacity first_part_i)
      let second_part_size = sub64 size first_part_size
      t₁ ← copy target 0 rb.bytes first_part_i first_part_size
      t₂ ← copy t₁ first_part_size rb.bytes 0 second_part_size
      some (record {
        count = size;
        target = t₂;
        ring = record {
          bytes = rb.bytes;
          pos = record pos { next_pos = first_part_i; size = sub64 pos.size size };
        };
      })

unfoldable pub push_front : RingBuffer → List ℕ → ℕ → Option Pushed
push_front rb target size =
    let pos = rb.pos in
    if ltb pos.capacity (add64 pos.size size) then some (record { count = 0; ring = rb }) else (do
      first_part_i ← rem (sub64 (add64 pos.capacity pos.head) size) pos.capacity
      let first_part_size = min size (sub64 pos.capacity first_part_i)
      let second_part_size = sub64 size first_part_size
      d₁ ← copy rb.bytes first_part_i target 0 first_part_size
      d₂ ← copy d₁ 0 target first_part_size second_part_size
      some (record {
        count = size;
        ring = record {
          bytes = d₂;
          pos = record pos { head = first_part_i; size = add64 pos.size size };
        };
      }))

unfoldable pub pop_front : RingBuffer → List ℕ → ℕ → Option Popped
pop_front rb target wanted =
    let pos = rb.pos in
    let size = if ltb pos.size wanted then pos.size else wanted in
    let first_part_size = min size (sub64 pos.capacity pos.head) in
    let second_part_size = sub64 size first_part_size in
    do
      t₁ ← copy target 0 rb.bytes pos.head first_part_size
      t₂ ← copy t₁ first_part_size rb.bytes 0 second_part_size
      head ← rem (add64 pos.head size) pos.capacity
      some (record {
        count = size;
        target = t₂;
        ring = record {
          bytes = rb.bytes;
          pos = record pos { head = head; size = sub64 pos.size size };
        };
      })

-- The byte variants push or pop one byte through a buffer of one.
unfoldable pub push_back_byte : RingBuffer → ℕ → Option Pushed
push_back_byte rb b = push_back rb (b ∷ []) 1

unfoldable pub push_front_byte : RingBuffer → ℕ → Option Pushed
push_front_byte rb b = push_front rb (b ∷ []) 1

unfoldable pub pop_back_byte : RingBuffer → Option (ℕ × RingBuffer)
pop_back_byte rb = do p ← pop_back rb (0 ∷ []) 1; b ← get_elem? p.target 0; some (b, p.ring)

unfoldable pub pop_front_byte : RingBuffer → Option (ℕ × RingBuffer)
pop_front_byte rb = do p ← pop_front rb (0 ∷ []) 1; b ← get_elem? p.target 0; some (b, p.ring)

unfoldable pub is_full : RingBuffer → Bool
is_full rb = rb.pos.size == rb.pos.capacity

unfoldable pub is_empty : RingBuffer → Bool
is_empty rb = rb.pos.size == 0
