-- ===== src/RingBuffer/Deque/PopBack.antt =====
-- `ring_buffer_pos_pop_back`.
use mos_moody_hunter.Base.{
  ℕ, ◌+◌, ◌-◌, ◌≤◌, ◌<◌, ◌≡◌, refl, ap, ◌∙◌, sym, Returns, some, List, ◌++◌, length, get_or, take,
  drop, tabulate, ltb, if◌then◌else◌, ◌>>=◌, add64, sub64, rem, min, arith, tabulate_congr,
  take-tabulate, drop-tabulate,
}
use mos_moody_hunter.Memory.{copy}
use mos_moody_hunter.RingBuffer.{RingBuffer, Popped, pop_back}
use mos_moody_hunter.RingBuffer.Wrapped.{
  first_part, first_part_lem, half_read, read_out, copy-half_read, copy-read_out, read_out-tabulate,
}
use mos_moody_hunter.RingBuffer.Valid.{
  IsValid, contents, wrap, wrap_twice, mod-eq-wrap, mod-eq-wrap_twice, byte_at,
}
use mos_moody_hunter.RingBuffer.Deque.PopFront.{available}

module _ (rb : RingBuffer) (target : List ℕ) (n : ℕ) where
  -- Where the newest `n` bytes start.
  start : ℕ
  start = wrap_twice (rb.pos.capacity + rb.pos.next_pos - n) rb.pos.capacity

  after : RingBuffer
  unfolding start
  after = record {
    bytes = rb.bytes;
    pos = record {
      size = rb.pos.size - n;
      capacity = rb.pos.capacity;
      head = rb.pos.head;
      next_pos = start;
    };
  }

  module _ (v : IsValid rb) (fits : n ≤ rb.pos.size) (has : n ≤ length target) where
    start-lt : start < rb.pos.capacity
    unfolding start
    start-lt = ground arith

    after-IsValid : IsValid after
    unfolding after
    after-IsValid = ground arith

    contents-after : contents after ≡ take (rb.pos.size - n) (contents rb)
    unfolding contents after
    contents-after = sym (take-tabulate (rb.pos.size - n) rb.pos.size (byte_at rb) (omega arith))

    newest :
        (k : ℕ)
        → k < n
        → get_or rb.bytes (wrap (start + k) rb.pos.capacity) 0 ≡ byte_at rb (rb.pos.size - n + k)
    unfolding start
    newest k h =
        ground
          (arith, mod-eq-wrap (rb.pos.head + (rb.pos.size - n + k)) rb.pos.capacity (omega arith))

    taken :
        read_out rb.pos.capacity start n rb.bytes target
        ≡ drop (rb.pos.size - n) (contents rb) ++ drop n target
    unfolding contents
    taken =
        read_out-tabulate rb.pos.capacity start n rb.bytes target (omega (arith, start-lt))
          (omega arith) (omega arith) has
        ∙ ap (λ xs. xs ++ drop n target)
            (tabulate_congr n _ _ newest
              ∙ ap (λ m. tabulate m (λ k. byte_at rb (rb.pos.size - n + k))) (omega arith)
              ∙ sym (drop-tabulate (rb.pos.size - n) rb.pos.size (byte_at rb) (omega arith)))

    pop_back-after :
        (wanted : ℕ)
        → n ≡ available rb wanted
        → pop_back rb target wanted
          ≡ some (record {
            count = n;
            target = read_out rb.pos.capacity start n rb.bytes target;
            ring = after;
          })
    unfolding pop_back after
    pop_back-after wanted e =
        rw (clamp, index, ◌>>=◌, part, rest, copied_half, ◌>>=◌, copied_all) (ground arith)
      where
        open rb use {bytes, pos}
        open pos use {size, capacity, next_pos}

        clamp : (if ltb size wanted then size else wanted) ≡ n
        clamp = ground arith

        index : rem (sub64 (add64 capacity next_pos) n) capacity ≡ some start
        index = ground (arith, mod-eq-wrap_twice (capacity + next_pos - n) capacity)

        part : min n (sub64 capacity start) ≡ first_part capacity start n
        part = omega (arith, first_part_lem capacity start n, start-lt)

        rest : sub64 n (first_part capacity start n) ≡ n - first_part capacity start n
        rest = omega (arith, first_part_lem capacity start n)

        copied_half :
            copy target 0 bytes start (first_part capacity start n)
            ≡ some (half_read capacity start n bytes target)
        copied_half =
            copy-half_read capacity start n bytes target (omega (arith, start-lt)) (omega arith)
              (omega arith) has

        copied_all :
            copy
              (half_read capacity start n bytes target)
              (first_part capacity start n)
              bytes
              0
              (n - first_part capacity start n)
            ≡ some (read_out capacity start n bytes target)
        copied_all =
            copy-read_out capacity start n bytes target (omega (arith, start-lt)) (omega arith)
              (omega arith) has

-- What a pop of `n` bytes at the back returns and leaves: the newest bytes, in order, at the
-- start of the target, whose other bytes stay, and the ring without them.
pub record TakenBack (rb : RingBuffer) (target : List ℕ) (n : ℕ) (p : Popped) : Type 0 where
  pub count : p.count ≡ n
  pub bytes : p.target ≡ drop (rb.pos.size - n) (contents rb) ++ drop n target
  pub rest : contents p.ring ≡ take (rb.pos.size - n) (contents rb)
  pub valid : IsValid p.ring
  pub capacity : p.ring.pos.capacity ≡ rb.pos.capacity

-- A pop at the back of a valid ring, of at most as many bytes as the target has room for, stays inside
-- both arrays, moves as many of the `wanted` bytes
-- as there are, the newest, in order, to the start of the target, and keeps the invariant and the
-- capacity.
pub pop_back-TakenBack :
    {rb : RingBuffer} (target : List ℕ) (wanted : ℕ)
    → IsValid rb
    → wanted ≤ length target
    → Returns (pop_back rb target wanted) (TakenBack rb target (available rb wanted))
unfolding after
pop_back-TakenBack {rb} target wanted v enough =
    let n = available rb wanted in
    let fits : n ≤ rb.pos.size = omega arith in
    let has : n ≤ length target = omega arith in
    (
      _,
      pop_back-after rb target n v fits has wanted refl,
      record {
        count = refl;
        bytes = taken rb target n v fits has;
        rest = contents-after rb target n v fits has;
        valid = after-IsValid rb target n v fits has;
        capacity = refl;
      },
    )
