-- ===== src/Tests/Rings.antt =====
-- The ring buffer of kernel/lib/structures/ring_buffer.c with four bytes of storage.
use mos_moody_hunter.Base.{ℕ, ◌≡◌, ◌≢◌, refl, Returns, true, some, none, List, [], ◌∷◌, inr, arith}
use mos_moody_hunter.Memory.{copy, copied}
use mos_moody_hunter.RingBuffer.{
  RingBuffer, create, resize, push_back, pop_back, push_front, pop_front, pop_front_byte, is_full,
}
use mos_moody_hunter.RingBuffer.Valid.{IsValid, contents}
use mos_moody_hunter.RingBuffer.Deque.{
  Appended, TakenFront, TakenBack, Prepended, accepted, available, all_or_none, push_back-Appended,
  pop_front-TakenFront, pop_back-TakenBack, push_front-Prepended,
}
use mos_moody_hunter.RingBuffer.Resize.{resize-contents, resize-ne-contents}

-- 7, then 8, round the end of the storage.
abbrev wrapped : RingBuffer
wrapped = record {
  bytes = 8 ∷ 1 ∷ 2 ∷ 7 ∷ [];
  pos = record { size = 2; capacity = 4; head = 3; next_pos = 1 };
}

-- 7, 8, 9, 10
abbrev filled : RingBuffer
filled = record {
  bytes = 8 ∷ 9 ∷ 10 ∷ 7 ∷ [];
  pos = record { size = 4; capacity = 4; head = 3; next_pos = 3 };
}

abbrev buffer : List ℕ
buffer = 20 ∷ 21 ∷ 22 ∷ []

abbrev larger : List ℕ
larger = 0 ∷ 0 ∷ 0 ∷ 0 ∷ 0 ∷ 0 ∷ []

wrapped-IsValid : IsValid wrapped
wrapped-IsValid = omega arith

filled-IsValid : IsValid filled
filled-IsValid = omega arith

contents-wrapped : contents wrapped ≡ 7 ∷ 8 ∷ []
unfolding contents
contents-wrapped = refl

create-none : create 0 true (some buffer) ≡ none
unfolding create
create-none = refl

pop_front_byte-wrapped :
    pop_front_byte wrapped
    ≡ some (
      7,
      record {
        bytes = wrapped.bytes;
        pos = record { size = 1; capacity = 4; head = 0; next_pos = 1 };
      },
    )
unfolding pop_front_byte pop_front copy copied
pop_front_byte-wrapped = refl

is_full-filled : is_full filled ≡ true
unfolding is_full
is_full-filled = refl

push_back_example :
    Returns (push_back wrapped buffer 3) (Appended wrapped buffer (accepted wrapped 3))
push_back_example = push_back-Appended buffer 3 wrapped-IsValid (omega arith) (omega arith)

pop_front_example :
    Returns (pop_front wrapped buffer 3) (TakenFront wrapped buffer (available wrapped 3))
pop_front_example = pop_front-TakenFront buffer 3 wrapped-IsValid (omega arith)

pop_back_example : Returns (pop_back filled buffer 3) (TakenBack filled buffer (available filled 3))
pop_back_example = pop_back-TakenBack buffer 3 filled-IsValid (omega arith)

push_front_example :
    Returns (push_front wrapped buffer 2) (Prepended wrapped buffer (all_or_none wrapped 2))
push_front_example = push_front-Prepended buffer 2 wrapped-IsValid (omega arith) (omega arith)

resize-contents_example :
    Returns (resize filled 6 (some larger)) (λ r. contents r.1 ≡ contents filled)
resize-contents_example =
    resize-contents larger filled-IsValid (omega arith) (omega arith) (omega arith) (inr refl)

resize-ne-contents_example :
    Returns (resize wrapped 6 (some larger)) (λ r. contents r.1 ≢ contents wrapped)
resize-ne-contents_example =
    resize-ne-contents larger wrapped-IsValid (omega arith) (omega arith) (omega arith)
      (λ e. omega (arith, e))
