-- ===== src/RingBuffer/Deque/PushBack.antt =====
-- `ring_buffer_pos_push_back`.
use mos_moody_hunter.Base.{
  ℕ, ◌+◌, ◌-◌, ◌≤◌, ◌<◌, ◌≡◌, refl, ◌∙◌, Returns, some, List, ◌++◌, length, get_or, take, ltb,
  if◌then◌else◌, ◌>>=◌, add64, sub64, rem, min, arith, tabulate_congr, tabulate-add,
  tabulate-get_or,
}
use mathlib.Core.Path.{ap₂}
use mos_moody_hunter.Memory.{copy}
use mos_moody_hunter.RingBuffer.{RingBuffer, Pushed, push_back}
use mos_moody_hunter.RingBuffer.Wrapped.{
  first_part, first_part_lem, half_written, written, copy-half_written, copy-written,
  length-written, get_or-written,
}
use mos_moody_hunter.RingBuffer.Valid.{
  IsValid, max_bytes, contents, wrap_twice, mod-eq-wrap, mod-eq-wrap_twice, byte_at,
}

-- How many of `wanted` bytes fit.
abbrev pub accepted : RingBuffer → ℕ → ℕ
accepted rb wanted = min wanted (rb.pos.capacity - rb.pos.size)

module _ (rb : RingBuffer) (target : List ℕ) (n : ℕ) where
  after : RingBuffer
  after = record {
    bytes = written rb.pos.capacity rb.pos.next_pos n rb.bytes target;
    pos = record {
      size = rb.pos.size + n;
      capacity = rb.pos.capacity;
      head = rb.pos.head;
      next_pos = wrap_twice (rb.pos.next_pos + n) rb.pos.capacity;
    };
  }

  module _ (v : IsValid rb) (fits : rb.pos.size + n ≤ rb.pos.capacity)
      (has : n ≤ length target) where
    after-IsValid : IsValid after
    unfolding after
    after-IsValid = ground (
      arith,
      length-written rb.pos.capacity rb.pos.next_pos n rb.bytes target (omega arith) (omega arith)
          (omega arith) (omega arith),
    )

    old_bytes : (k : ℕ) → k < rb.pos.size → byte_at after k ≡ byte_at rb k
    unfolding after
    old_bytes k h = ground (
      arith,
      mod-eq-wrap (rb.pos.head + k) rb.pos.capacity (omega arith),
      get_or-written rb.pos.capacity rb.pos.next_pos n rb.bytes target (omega arith) (omega arith)
          (omega arith) (omega arith) (rb.pos.capacity - rb.pos.size + k) (omega arith),
    )

    new_bytes : (k : ℕ) → k < n → byte_at after (rb.pos.size + k) ≡ get_or target k 0
    unfolding after
    new_bytes k h = ground (
      arith,
      mod-eq-wrap (rb.pos.head + (rb.pos.size + k)) rb.pos.capacity (omega arith),
      get_or-written rb.pos.capacity rb.pos.next_pos n rb.bytes target (omega arith) (omega arith)
          (omega arith) (omega arith) k (omega arith),
    )

    contents-after : contents after ≡ contents rb ++ take n target
    unfolding contents after
    contents-after =
        tabulate-add rb.pos.size n (byte_at after)
        ∙ ap₂ ◌++◌ (tabulate_congr rb.pos.size _ _ old_bytes)
            (tabulate_congr n _ _ new_bytes ∙ tabulate-get_or target n 0 has)

    push_back-after :
        (wanted : ℕ)
        → wanted ≤ length target
        → length target < max_bytes
        → n ≡ accepted rb wanted
        → push_back rb target wanted ≡ some (record { count = n; ring = after })
    unfolding push_back after
    push_back-after wanted enough short e =
        rw (clamp, part, rest, copied_half, ◌>>=◌, copied_all, next) (ground arith)
      where
        open rb use {bytes, pos}
        open pos use {size, capacity, next_pos}

        clamp : (if ltb capacity (add64 size wanted) then sub64 capacity size else wanted) ≡ n
        clamp = ground arith

        part : min n (sub64 capacity next_pos) ≡ first_part capacity next_pos n
        part = omega (arith, first_part_lem capacity next_pos n)

        rest : sub64 n (first_part capacity next_pos n) ≡ n - first_part capacity next_pos n
        rest = omega (arith, first_part_lem capacity next_pos n)

        copied_half :
            copy bytes next_pos target 0 (first_part capacity next_pos n)
            ≡ some (half_written capacity next_pos n bytes target)
        copied_half =
            copy-half_written capacity next_pos n bytes target (omega arith) (omega arith)
              (omega arith) (omega arith)

        copied_all :
            copy
              (half_written capacity next_pos n bytes target)
              0
              target
              (first_part capacity next_pos n)
              (n - first_part capacity next_pos n)
            ≡ some (written capacity next_pos n bytes target)
        copied_all =
            copy-written capacity next_pos n bytes target (omega arith) (omega arith) (omega arith)
              (omega arith)

        next : rem (add64 next_pos n) capacity ≡ some (wrap_twice (next_pos + n) capacity)
        next = ground (arith, mod-eq-wrap_twice (next_pos + n) capacity)

-- What a push of `n` bytes at the back returns and leaves: the bytes behind the old ones.
pub record Appended (rb : RingBuffer) (target : List ℕ) (n : ℕ) (p : Pushed) : Type 0 where
  pub count : p.count ≡ n
  pub bytes : contents p.ring ≡ contents rb ++ take n target
  pub valid : IsValid p.ring
  pub capacity : p.ring.pos.capacity ≡ rb.pos.capacity

-- A push at the back of a valid ring, of at most as many bytes as the source has (fewer than 2 ^ 62),
-- stays inside both arrays, takes as many of the `wanted` bytes as there is room for, appends exactly
-- those, in order, and keeps the invariant and the capacity.
pub push_back-Appended :
    {rb : RingBuffer} (target : List ℕ) (wanted : ℕ)
    → IsValid rb
    → wanted ≤ length target
    → length target < max_bytes
    → Returns (push_back rb target wanted) (Appended rb target (accepted rb wanted))
unfolding after
push_back-Appended {rb} target wanted v enough short =
    let n = accepted rb wanted in
    let fits : rb.pos.size + n ≤ rb.pos.capacity = omega arith in
    let has : n ≤ length target = omega arith in
    (
      record { count = n; ring = after rb target n },
      push_back-after rb target n v fits has wanted enough short refl,
      record {
        count = refl;
        bytes = contents-after rb target n v fits has;
        valid = after-IsValid rb target n v fits has;
        capacity = refl;
      },
    )
