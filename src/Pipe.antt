-- ===== src/Pipe.antt =====
-- kernel/ipc/pipe.c and kernel/include/private/mos/ipc/pipe.h: a pipe is a ring buffer with a writer
-- and a reader, each of which gives the lock up and sleeps when it can go no further. A call is a
-- sequence of rounds, each made under the lock from its acquisition to its release. `none` is an
-- access outside of an array. Wake-ups only decide when the next round of a sleeper is made, so a
-- schedule of rounds stands for them (`Pipe.System`).
pub mod System
pub mod Rounds
pub mod Stream
pub mod Progress
pub mod Finish
use mos_moody_hunter.Base.{
  ℕ, ◌+◌, ◌*◌, ◌/◌, ◌^◌, ◌-◌, Bool, true, false, ◌&&◌, Option, none, some, List, [], ◌++◌, length,
  take, drop, ltb, ◌==◌, if◌then◌else◌, ◌>>=◌, add64, page_size, align_up_to_page,
}
use mos_moody_hunter.RingBuffer.{
  RingBuffer, Pushed, Popped, pos_init, push_back, pop_front, is_empty,
}

-- `MOS_FOURCC('P', 'I', 'P', 'E')`
abbrev pub pipe_magic : ℕ
pipe_magic = b'P' + b'I' * 2 ^ 8 + b'P' * 2 ^ 16 + b'E' * 2 ^ 24

-- `pipe_t` without its lock and waitlist; `buffers` and `buffer_pos` are the ring.
pub record Pipe : Type 0 where
  pub magic : ℕ
  pub other_closed : Bool
  pub buffer_npages : ℕ
  pub ring : RingBuffer

-- `pages` gives the memory of so many pages.
unfoldable pub create : ℕ → (ℕ → List ℕ) → Pipe
create size pages =
    let bufsize = align_up_to_page size in
    record {
      magic = pipe_magic;
      other_closed = false;
      buffer_npages = bufsize / page_size;
      ring = record { bytes = pages (bufsize / page_size); pos = pos_init bufsize };
    }

-- A call of `pipe_write`: it has bytes left to write, it has returned a count, or it has returned
-- `-EPIPE` and sent SIGPIPE.
pub data Writer : Type 0 where
  writing : List ℕ → ℕ → Writer
  wrote : ℕ → Writer
  broken_pipe : Writer

-- One round of `pipe_write`, from the start of the call or from `retry_write` after a sleep: both
-- look at `other_closed` first.
unfoldable pub write_round : Pipe → List ℕ → ℕ → Option (Pipe × Writer)
write_round pipe buf total_written =
    if pipe.magic == pipe_magic
    then if pipe.other_closed then some (pipe, broken_pipe) else (do
      p ← push_back pipe.ring buf (length buf)
      let buf' = drop p.count buf
      let total = total_written + p.count
      some (
        record pipe { ring = p.ring },
        if ltb 0 (length buf') then writing buf' total else wrote total,
      ))
    else some (pipe, wrote 0)

-- A call of `pipe_read`: the bytes that it has stored and the rest of its buffer, or what it returned.
pub data Reader : Type 0 where
  reading : List ℕ → List ℕ → Reader
  read : List ℕ → ℕ → Reader

-- One round of `pipe_read`. `got` are the bytes stored so far, `buf` the rest of the buffer.
unfoldable pub read_round : Pipe → List ℕ → List ℕ → Option (Pipe × Reader)
read_round pipe got buf =
    if pipe.magic == pipe_magic
    then (do
      p ← pop_front pipe.ring buf (length buf)
      let got' = got ++ take p.count p.target
      let buf' = drop p.count p.target
      some (
        record pipe { ring = p.ring },
        if ltb 0 (length buf')
            then if pipe.other_closed && is_empty p.ring
              then read got' (length got')
              else reading got' buf'
            else read got' (length got'),
      ))
    else some (pipe, read [] 0)

-- `pipe_close_one_end`: whether the pipe is freed, and the pipe.
unfoldable pub close_one_end : Pipe → Bool × Pipe
close_one_end pipe =
    if pipe.magic == pipe_magic
    then if pipe.other_closed then (true, pipe) else (false, record pipe { other_closed = true })
    else (false, pipe)
