-- ===== src/Tests/Pipes.antt =====
-- A pipe with room for three bytes.
use mos_moody_hunter.Base.{ℕ, ◌+◌, refl, Returns, false, List, [], ◌∷◌, length, arith}
use mos_moody_hunter.RingBuffer.Valid.{contents}
use mos_moody_hunter.Pipe.{Pipe, pipe_magic}
use mos_moody_hunter.Pipe.System.{Turn, writer, reader, close, run}
use mos_moody_hunter.Pipe.Finish.{Delivered, take_turns, take_turns-Delivered}
use mos_moody_hunter.Pipe.Rounds.{IsValid, Streams}
use mos_moody_hunter.Pipe.Stream.{start, run-Streams}

abbrev pipe : Pipe
pipe = record {
  magic = pipe_magic;
  other_closed = false;
  buffer_npages = 1;
  ring = record {
    bytes = 9 ∷ 0 ∷ 0 ∷ [];
    pos = record { size = 1; capacity = 3; head = 0; next_pos = 1 };
  };
}

abbrev input : List ℕ
input = 1 ∷ 2 ∷ 3 ∷ 4 ∷ []

abbrev buffer : List ℕ
buffer = 0 ∷ 0 ∷ 0 ∷ 0 ∷ []

abbrev schedule : List Turn
schedule = reader ∷ writer ∷ reader ∷ writer ∷ close ∷ reader ∷ []

pipe-IsValid : IsValid pipe
pipe-IsValid = record { initialized = refl; ring = omega arith }

run-Streams_example :
    Returns
      (run (start pipe input buffer) schedule)
      (Streams (contents pipe.ring) input (length buffer))
run-Streams_example =
    run-Streams pipe input buffer schedule pipe-IsValid (omega arith) (omega arith)

-- Room for two bytes, none stored.
abbrev narrow : Pipe
narrow = record {
  magic = pipe_magic;
  other_closed = false;
  buffer_npages = 1;
  ring = record {
    bytes = 0 ∷ 0 ∷ [];
    pos = record { size = 0; capacity = 2; head = 1; next_pos = 1 };
  };
}

narrow-IsValid : IsValid narrow
narrow-IsValid = record { initialized = refl; ring = omega arith }

take_turns-Delivered_example :
    Returns (run (start narrow input buffer) (take_turns (length input + 1))) (Delivered input)
unfolding contents
take_turns-Delivered_example =
    take_turns-Delivered narrow input buffer narrow-IsValid refl refl (omega arith) refl
      (omega arith)
