-- ===== src/RingBuffer/Valid.antt =====
-- The representation invariant of `ring_buffer_t`, and the bytes that it holds, oldest first.
use mos_moody_hunter.Base.{
  ℕ, ◌+◌, ◌-◌, ◌%◌, ◌^◌, ◌≤◌, ◌<◌, ◌≡◌, ◌⊎◌, List, length, get_or, tabulate, length-tabulate, ltb,
  if◌then◌else◌, arith,
}
use mos_moody_hunter.RingBuffer.{RingBuffer}
use native.Mathlib.Nat.{mod-eq_of_lt, mod-eq-sub-mod, zero-mod}
use native.Mathlib.Decide.{dec_lt}

-- `next_pos` is one past the last byte, up to the capacity: a resize can leave it at the capacity.
-- Arrays are shorter than 2 ^ 62 bytes, so that the sum of an index and a length does not wrap.
abbrev pub max_bytes : ℕ
max_bytes = 2 ^ 62

pub record IsValid (rb : RingBuffer) : Type 0 where
  pub storage : rb.pos.capacity ≤ length rb.bytes
  pub small : rb.pos.capacity < max_bytes
  pub room : rb.pos.size ≤ rb.pos.capacity
  pub head_in : rb.pos.head < rb.pos.capacity
  pub next_in : rb.pos.next_pos ≤ rb.pos.capacity
  pub tail :
      (rb.pos.next_pos ≡ rb.pos.head + rb.pos.size)
      ⊎ (rb.pos.next_pos + rb.pos.capacity ≡ rb.pos.head + rb.pos.size)
      ⊎ (rb.pos.next_pos ≡ rb.pos.head + rb.pos.size + rb.pos.capacity)

-- An index that has gone round at most once.
abbrev pub wrap : ℕ → ℕ → ℕ
wrap x c = if ltb x c then x else x - c

pub mod-eq-wrap : (x c : ℕ) → x < c + c → x % c ≡ wrap x c
mod-eq-wrap x c h = elim (dec_lt x c) [
  | yes p ↦ ground (arith, mod-eq_of_lt p)
  | no p ↦ ground (
    arith,
    mod-eq-sub-mod {n = x} {m = c} (omega arith),
    mod-eq_of_lt {n = x - c} {m = c} (omega arith),
  )
]

-- The same at the index `2 * c`, which a full ring reaches after a resize.
abbrev pub wrap_twice : ℕ → ℕ → ℕ
wrap_twice x c = if ltb x (c + c) then wrap x c else 0

pub mod-eq-wrap_twice : (x c : ℕ) → x ≤ c + c → x % c ≡ wrap_twice x c
mod-eq-wrap_twice x c h = elim (dec_lt x (c + c)) [
  | yes p ↦ ground (arith, mod-eq-wrap x c p)
  | no p ↦ ground (
    arith,
    mod-eq-sub-mod {n = x} {m = c} (omega arith),
    mod-eq-sub-mod {n = x - c} {m = c} (omega arith),
    zero-mod c,
  )
]

-- The byte at distance `i` from the head.
abbrev pub byte_at : RingBuffer → ℕ → ℕ
byte_at rb i = get_or rb.bytes ((rb.pos.head + i) % rb.pos.capacity) 0

unfoldable pub contents : RingBuffer → List ℕ
contents rb = tabulate rb.pos.size (byte_at rb)

pub length-contents : (rb : RingBuffer) → length (contents rb) ≡ rb.pos.size
unfolding contents
length-contents rb = length-tabulate rb.pos.size (byte_at rb)
