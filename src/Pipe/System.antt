-- ===== src/Pipe/System.antt =====
-- One call of `pipe_write` and one of `pipe_read` on a pipe, in any order of their rounds, with the
-- closes of its ends between any two of them.
use mos_moody_hunter.Base.{
  Bool, true, false, ◌&&◌, Option, none, some, List, [], ◌∷◌, ◌>>=◌, if◌then◌else◌,
}
use mos_moody_hunter.Pipe.{
  Pipe, Writer, writing, wrote, broken_pipe, Reader, reading, read, write_round, read_round,
  close_one_end,
}

pub record System : Type 0 where
  pub pipe : Pipe
  pub writer : Writer
  pub reader : Reader
  pub freed : Bool

-- Whose round comes next. The scheduler and the wake-ups choose.
pub data Turn : Type 0 where
  writer reader close : Turn

unfoldable pub write_turn : System → Writer → Option System
write_turn s (writing buf total) = do
  (pipe, w) ← write_round s.pipe buf total
  some (record s { pipe = pipe; writer = w })
write_turn s (wrote n) = some s
write_turn s broken_pipe = some s

unfoldable pub read_turn : System → Reader → Option System
read_turn s (reading got buf) = do
  (pipe, r) ← read_round s.pipe got buf
  some (record s { pipe = pipe; reader = r })
read_turn s (read got n) = some s

-- Whether the turn is of a call that has not returned, or a close: it reads the pipe's memory.
abbrev pub uses_pipe : System → Turn → Bool
uses_pipe s writer = elim s.writer [
  | writing buf total ↦ true
  | wrote n ↦ false
  | broken_pipe ↦ false
]
uses_pipe s reader = elim s.reader [ reading got buf ↦ true | read got n ↦ false ]
uses_pipe s close = true

unfoldable pub live_turn : System → Turn → Option System
live_turn s writer = write_turn s s.writer
live_turn s reader = read_turn s s.reader
live_turn s close =
    let (freed, pipe) = close_one_end s.pipe in some (record s { pipe = pipe; freed = freed })

-- A call that has returned makes no more rounds. A call in progress holds no reference to the pipe: to
-- use the pipe after the second close has freed it is a fault.
unfoldable pub turn : System → Turn → Option System
turn s t = if s.freed && uses_pipe s t then none else live_turn s t

unfoldable pub run : System → List Turn → Option System
run s [] = some s
run s (t ∷ turns) = do s' ← turn s t; run s' turns
