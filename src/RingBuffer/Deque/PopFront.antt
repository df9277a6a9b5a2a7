-- ===== src/RingBuffer/Deque/PopFront.antt =====
-- `ring_buffer_pos_pop_front`.
use mos_moody_hunter.Base.{
  ℕ, ◌+◌, ◌-◌, ◌≤◌, ◌≡◌, refl, ap, ◌∙◌, sym, Returns, some, List, ◌++◌, length, take, drop, ltb,
  if◌then◌else◌, ◌>>=◌, add64, sub64, rem, min, arith, tabulate_congr, take-tabulate, drop-tabulate,
}
use mos_moody_hunter.Memory.{copy}
use mos_moody_hunter.RingBuffer.{RingBuffer, Popped, pop_front}
use mos_moody_hunter.RingBuffer.Wrapped.{
  first_part, first_part_lem, half_read, read_out, copy-half_read, copy-read_out, read_out-tabulate,
}
use mos_moody_hunter.RingBuffer.Valid.{IsValid, contents, wrap, mod-eq-wrap, byte_at}

-- How many of `wanted` bytes are there.
abbrev pub available : RingBuffer → ℕ → ℕ
available rb wanted = min wanted rb.pos.size

module _ (rb : RingBuffer) (target : List ℕ) (n : ℕ) where
  after : RingBuffer
  after = record {
    bytes = rb.bytes;
    pos = record {
      size = rb.pos.size - n;
      capacity = rb.pos.capacity;
      head = wrap (rb.pos.head + n) rb.pos.capacity;
      next_pos = rb.pos.next_pos;
    };
  }

  module _ (v : IsValid rb) (fits : n ≤ rb.pos.size) (has : n ≤ length target) where
    after-IsValid : IsValid after
    unfolding after
    after-IsValid = ground arith

    contents-after : contents after ≡ drop n (contents rb)
    unfolding contents after
    contents-after =
        tabulate_congr (rb.pos.size - n) _ _ (λ k h. ground (
          arith,
          mod-eq-wrap (rb.pos.head + (n + k)) rb.pos.capacity (omega arith),
          mod-eq-wrap (wrap (rb.pos.head + n) rb.pos.capacity + k) rb.pos.capacity (ground arith),
        ))
        ∙ sym (drop-tabulate n rb.pos.size (byte_at rb) fits)

    taken :
        read_out rb.pos.capacity rb.pos.head n rb.bytes target
        ≡ take n (contents rb) ++ drop n target
    unfolding contents
    taken =
        read_out-tabulate rb.pos.capacity rb.pos.head n rb.bytes target (omega arith) (omega arith)
          (omega arith) has
        ∙ ap (λ xs. xs ++ drop n target)
            (tabulate_congr n _ _
                (λ k h. ground (arith, mod-eq-wrap (rb.pos.head + k) rb.pos.capacity (omega arith)))
              ∙ sym (take-tabulate n rb.pos.size (byte_at rb) fits))

    pop_front-after :
        (wanted : ℕ)
        → n ≡ available rb wanted
        → pop_front rb target wanted
          ≡ some (record {
            count = n;
            target = read_out rb.pos.capacity rb.pos.head n rb.bytes target;
            ring = after;
          })
    unfolding pop_front after
    pop_front-after wanted e =
        rw (clamp, part, rest, copied_half, ◌>>=◌, copied_all, next) (ground arith)
      where
        open rb use {bytes, pos}
        open pos use {size, capacity, head}

        clamp : (if ltb size wanted then size else wanted) ≡ n
        clamp = ground arith

        part : min n (sub64 capacity head) ≡ first_part capacity head n
        part = omega (arith, first_part_lem capacity head n)

        rest : sub64 n (first_part capacity head n) ≡ n - first_part capacity head n
        rest = omega (arith, first_part_lem capacity head n)

        copied_half :
            copy target 0 bytes head (first_part capacity head n)
            ≡ some (half_read capacity head n bytes target)
        copied_half =
            copy-half_read capacity head n bytes target (omega arith) (omega arith) (omega arith)
              has

        copied_all :
            copy
              (half_read capacity head n bytes target)
              (first_part capacity head n)
              bytes
              0
              (n - first_part capacity head n)
            ≡ some (read_out capacity head n bytes target)
        copied_all =
            copy-read_out capacity head n bytes target (omega arith) (omega arith) (omega arith) has

        next : rem (add64 head n) capacity ≡ some (wrap (head + n) capacity)
        next = ground (arith, mod-eq-wrap (head + n) capacity)

-- What a pop of `n` bytes at the front returns and leaves: the oldest bytes, in order, at the
-- start of the target, whose other bytes stay, and the ring without them.
pub record TakenFront (rb : RingBuffer) (target : List ℕ) (n : ℕ) (p : Popped) : Type 0 where
  pub count : p.count ≡ n
  pub bytes : p.target ≡ take n (contents rb) ++ drop n target
  pub rest : contents p.ring ≡ drop n (contents rb)
  pub valid : IsValid p.ring
  pub capacity : p.ring.pos.capacity ≡ rb.pos.capacity

-- A pop at the front of a valid ring, of at most as many bytes as the target has room for, stays inside
-- both arrays, moves as many of the `wanted` bytes
-- as there are, oldest first, to the start of the target, and keeps the invariant and the capacity.
pub pop_front-TakenFront :
    {rb : RingBuffer} (target : List ℕ) (wanted : ℕ)
    → IsValid rb
    → wanted ≤ length target
    → Returns (pop_front rb target wanted) (TakenFront rb target (available rb wanted))
unfolding after
pop_front-TakenFront {rb} target wanted v enough =
    let n = available rb wanted in
    let fits : n ≤ rb.pos.size = omega arith in
    let has : n ≤ length target = omega arith in
    (
      _,
      pop_front-after rb target n v fits has wanted refl,
      record {
        count = refl;
        bytes = taken rb target n v fits has;
        rest = contents-after rb target n v fits has;
        valid = after-IsValid rb target n v fits has;
        capacity = refl;
      },
    )
