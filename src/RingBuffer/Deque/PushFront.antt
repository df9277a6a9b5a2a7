-- ===== src/RingBuffer/Deque/PushFront.antt =====
-- `ring_buffer_pos_push_front`, which pushes all of the bytes or none.
use mos_moody_hunter.Base.{
  ℕ, ◌+◌, ◌-◌, ◌≤◌, ◌<◌, ◌≡◌, refl, ◌∙◌, Returns, some, List, ◌++◌, length, get_or, take, ltb,
  tabulate, if◌then◌else◌, ◌>>=◌, add64, sub64, rem, min, arith, tabulate_congr, tabulate-add, ap,
  tabulate-get_or, true, false, Bool-cases, inl, inr, leb,
}
use mathlib.Core.Path.{ap₂}
use mos_moody_hunter.Memory.{copy}
use mos_moody_hunter.RingBuffer.{RingBuffer, Pushed, push_front}
use mos_moody_hunter.RingBuffer.Wrapped.{
  first_part, first_part_lem, half_written, written, copy-half_written, copy-written,
  length-written, get_or-written,
}
use mos_moody_hunter.RingBuffer.Valid.{IsValid, max_bytes, contents, wrap, mod-eq-wrap, byte_at}

module _ (rb : RingBuffer) (target : List ℕ) (n : ℕ) where
  start : ℕ
  start = wrap (rb.pos.capacity + rb.pos.head - n) rb.pos.capacity

  after : RingBuffer
  unfolding start
  after = record {
    bytes = written rb.pos.capacity start n rb.bytes target;
    pos = record {
      size = rb.pos.size + n;
      capacity = rb.pos.capacity;
      head = start;
      next_pos = rb.pos.next_pos;
    };
  }

  module _ (v : IsValid rb) (fits : rb.pos.size + n ≤ rb.pos.capacity)
      (has : n ≤ length target) where
    start-lt : start < rb.pos.capacity
    unfolding start
    start-lt = ground arith

    after-IsValid : IsValid after
    unfolding after
    after-IsValid = ground (
      arith,
      length-written rb.pos.capacity start n rb.bytes target (omega (arith, start-lt)) (omega arith)
          (omega arith) (omega arith),
    )

    old_bytes : (k : ℕ) → k < rb.pos.size → byte_at after (n + k) ≡ byte_at rb k
    unfolding after
    old_bytes k h = ground (
      arith,
      mod-eq-wrap (rb.pos.head + k) rb.pos.capacity (omega arith),
      mod-eq-wrap (start + (n + k)) rb.pos.capacity (omega (arith, start-lt)),
      get_or-written rb.pos.capacity start n rb.bytes target (omega (arith, start-lt)) (omega arith)
          (omega arith) (omega arith) (n + k) (omega arith),
    )

    new_bytes : (k : ℕ) → k < n → byte_at after k ≡ get_or target k 0
    unfolding after
    new_bytes k h = ground (
      arith,
      mod-eq-wrap (start + k) rb.pos.capacity (omega (arith, start-lt)),
      get_or-written rb.pos.capacity start n rb.bytes target (omega (arith, start-lt)) (omega arith)
          (omega arith) (omega arith) k (omega arith),
    )

    contents-after : contents after ≡ take n target ++ contents rb
    unfolding contents after
    contents-after =
        ap (λ m. tabulate m (byte_at after)) (omega arith)
        ∙ tabulate-add n rb.pos.size (byte_at after)
        ∙ ap₂ ◌++◌ (tabulate_congr n _ _ new_bytes ∙ tabulate-get_or target n 0 has)
            (tabulate_congr rb.pos.size _ _ old_bytes)

    push_front-after :
        length target < max_bytes
        → push_front rb target n ≡ some (record { count = n; ring = after })
    unfolding push_front after
    push_front-after short =
        rw (room, if◌then◌else◌, index, ◌>>=◌, part, rest, copied_half, ◌>>=◌, copied_all)
          (ground arith)
      where
        open rb use {bytes, pos}
        open pos use {size, capacity, head}

        room : ltb capacity (add64 size n) ≡ false
        room = ground arith

        index : rem (sub64 (add64 capacity head) n) capacity ≡ some start
        index = ground (arith, mod-eq-wrap (capacity + head - n) capacity)

        part : min n (sub64 capacity start) ≡ first_part capacity start n
        part = omega (arith, first_part_lem capacity start n, start-lt)

        rest : sub64 n (first_part capacity start n) ≡ n - first_part capacity start n
        rest = omega (arith, first_part_lem capacity start n)

        copied_half :
            copy bytes start target 0 (first_part capacity start n)
            ≡ some (half_written capacity start n bytes target)
        copied_half =
            copy-half_written capacity start n bytes target (omega (arith, start-lt)) (omega arith)
              (omega arith) (omega arith)

        copied_all :
            copy
              (half_written capacity start n bytes target)
              0
              target
              (first_part capacity start n)
              (n - first_part capacity start n)
            ≡ some (written capacity start n bytes target)
        copied_all =
            copy-written capacity start n bytes target (omega (arith, start-lt)) (omega arith)
              (omega arith) (omega arith)

push_front-full :
    (rb : RingBuffer) (target : List ℕ) (n : ℕ)
    → n < max_bytes
    → rb.pos.size < max_bytes
    → rb.pos.capacity < rb.pos.size + n
    → push_front rb target n ≡ some (record { count = 0; ring = rb })
unfolding push_front
push_front-full rb target n short small full = rw room
  where
    room : ltb rb.pos.capacity (add64 rb.pos.size n) ≡ true
    room = ground arith

-- What a push of `n` bytes at the front returns and leaves: the bytes before the old ones.
pub record Prepended (rb : RingBuffer) (target : List ℕ) (n : ℕ) (p : Pushed) : Type 0 where
  pub count : p.count ≡ n
  pub bytes : contents p.ring ≡ take n target ++ contents rb
  pub valid : IsValid p.ring
  pub capacity : p.ring.pos.capacity ≡ rb.pos.capacity

-- How many of `n` bytes a push at the front takes.
abbrev pub all_or_none : RingBuffer → ℕ → ℕ
all_or_none rb n = if leb (rb.pos.size + n) rb.pos.capacity then n else 0

-- A push at the front of a valid ring, of at most as many bytes as the source has (fewer than 2 ^ 62),
-- stays inside both arrays. If all of the bytes fit, they stand
-- in order before the old ones; if not, it returns 0 and the ring holds what it held. It keeps the
-- invariant and the capacity.
pub push_front-Prepended :
    {rb : RingBuffer} (target : List ℕ) (n : ℕ)
    → IsValid rb
    → n ≤ length target
    → length target < max_bytes
    → Returns (push_front rb target n) (Prepended rb target (all_or_none rb n))
unfolding after
push_front-Prepended {rb} target n v has short =
    elim (Bool-cases (leb (rb.pos.size + n) rb.pos.capacity)) [
      | inl room ↦
          let fits : rb.pos.size + n ≤ rb.pos.capacity = ground arith in
          rw room (
            record { count = n; ring = after rb target n },
            push_front-after rb target n v fits has short,
            record {
              count = refl;
              bytes = contents-after rb target n v fits has;
              valid = after-IsValid rb target n v fits has;
              capacity = refl;
            },
          )
      | inr full ↦ rw full (
        record { count = 0; ring = rb },
        push_front-full rb target n (omega arith) (omega arith) (ground arith),
        record { count = refl; bytes = refl; valid = v; capacity = refl },
      )
    ]
