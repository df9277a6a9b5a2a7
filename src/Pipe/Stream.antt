-- ===== src/Pipe/Stream.antt =====
-- A pipe is a byte stream: what was written and not yet read is in the ring, in order.
use mos_moody_hunter.Base.{
  ℕ, ◌<◌, ◌≡◌, refl, sym, Returns, List, [], ◌∷◌, ◌++◌, length, take, ◌>>=◌, arith, append_assoc,
  append-nil, inl, inr, Bool-cases, take-append-drop, ◌+◌, ◌≤◌, ◌∙◌, if◌then◌else◌, true, false,
}
use mathlib.Core.Path.{subst}
use mos_moody_hunter.RingBuffer.Valid.{contents, max_bytes}
use mos_moody_hunter.RingBuffer.Deque.{accepted, available}
use mos_moody_hunter.Pipe.{
  Pipe, Writer, writing, wrote, broken_pipe, Reader, reading, read, close_one_end,
}
use mos_moody_hunter.Pipe.System.{
  System, Turn, writer, reader, close, write_turn, read_turn, run, live_turn,
}
use mos_moody_hunter.Pipe.Rounds.{
  turn_alive, IsValid, Sends, Receives, Streams, write_round_lem, read_round_lem,
  write_round_closed, after_write-Sends, after_read-Receives,
}

-- How many ends are closed in a schedule, and how many are already.
abbrev pub closes : List Turn → ℕ
closes [] = 0
closes (writer ∷ turns) = closes turns
closes (reader ∷ turns) = closes turns
closes (close ∷ turns) = closes turns + 1

abbrev pub ends_closed : Pipe → ℕ
ends_closed pipe = if pipe.other_closed then 1 else 0

closes-cons : (t : Turn) (turns : List Turn) → closes (t ∷ turns) ≡ closes (t ∷ []) + closes turns
closes-cons writer turns = omega arith
closes-cons reader turns = omega arith
closes-cons close turns = omega arith

ends_eq :
    (s s' : System)
    → s.pipe.other_closed ≡ s'.pipe.other_closed
    → ends_closed s.pipe ≡ ends_closed s'.pipe
ends_eq s s' same = rw same refl

-- The first close shuts an end and frees nothing.
first_close :
    (pipe : Pipe)
    → IsValid pipe
    → pipe.other_closed ≡ false
    → (close_one_end pipe ≡ (false, record pipe { other_closed = true }))
      × IsValid (record pipe { other_closed = true })
unfolding close_one_end
first_close pipe v opened =
    (ground (arith, v.initialized), record { initialized = v.initialized; ring = v.ring })

-- The pipe as a stream, round by round. `old` was in it before the calls, the writer has `input` to put
-- into it, and the reader has a buffer of `size` bytes.
module _ (old input : List ℕ) (size : ℕ) where
  -- After a round the pipe is again such a stream, and as many ends are closed.
  abbrev pub Continues : System → System → Type 0
  Continues s s' = Streams old input size s' × (s'.pipe.other_closed ≡ s.pipe.other_closed)

  pub write_turn-Streams :
      (s : System) (w : Writer)
      → s.writer ≡ w
      → Streams old input size s
      → Returns (write_turn s w) (Continues s)
  unfolding write_turn
  write_turn-Streams s (wrote n) e st = (s, refl, (st, refl))
  write_turn-Streams s broken_pipe e st = (s, refl, (st, refl))
  write_turn-Streams s (writing buf total) e st =
      let sends : Sends input st.sent (writing buf total) =
        subst (Sends input st.sent) e st.sends in
      elim (Bool-cases s.pipe.other_closed) [
        | inl closed ↦ (
          record s { writer = broken_pipe },
          rw (write_round_closed s.pipe buf total st.valid closed) refl,
          (
            record {
              valid = st.valid;
              alive = st.alive;
              sent = st.sent;
              got = st.got;
              fifo = st.fifo;
              sends = (buf, sends.0);
              receives = st.receives;
            },
            refl,
          ),
        )
        | inr opened ↦
            let n = accepted s.pipe.ring (length buf) in
            let (r, run, (state, bytes, cap, op, v)) =
              write_round_lem s.pipe buf total st.valid sends.2 opened in
            (
              record s { pipe = r.0; writer = r.1 },
              rw run refl,
              (
                record {
                  valid = v;
                  alive = st.alive;
                  sent = st.sent ++ take n buf;
                  got = st.got;
                  fifo = rw (bytes, ← append_assoc, st.fifo, append_assoc) refl;
                  sends =
                      subst (Sends input (st.sent ++ take n buf)) (sym state)
                        (after_write-Sends input st.sent buf total n sends (omega (arith)));
                  receives = st.receives;
                },
                op ∙ sym opened,
              ),
            )
      ]

  pub read_turn-Streams :
      (s : System) (r : Reader)
      → s.reader ≡ r
      → Streams old input size s
      → Returns (read_turn s r) (Continues s)
  unfolding read_turn
  read_turn-Streams s (read stored n) e st = (s, refl, (st, refl))
  read_turn-Streams s (reading stored buf) e st =
      let receives : Receives size st.got (reading stored buf) =
        subst (Receives size st.got) e st.receives in
      let n = available s.pipe.ring (length buf) in
      let (r, run, (state, rest, cap, closed, v)) = read_round_lem s.pipe stored buf st.valid in
      let got' = st.got ++ take n (contents s.pipe.ring) in
      (
        record s { pipe = r.0; reader = r.1 },
        rw run refl,
        (
          record {
            valid = v;
            alive = st.alive;
            sent = st.sent;
            got = got';
            fifo = rw (rest, append_assoc, take-append-drop) st.fifo;
            sends = st.sends;
            receives =
                subst (Receives size got') (sym state)
                  (after_read-Receives s.pipe.ring r.0 size st.got stored buf receives);
          },
          closed,
        ),
      )

  live_turn-Streams :
      (s : System) (t : Turn)
      → ends_closed s.pipe + closes (t ∷ []) ≤ 1
      → Streams old input size s
      → Returns (live_turn s t) (λ s'.
        Streams old input size s' × (ends_closed s'.pipe ≤ ends_closed s.pipe + closes (t ∷ [])))
  unfolding live_turn
  live_turn-Streams s writer few st =
      let (s', e, (st', same)) = write_turn-Streams s s.writer refl st in
      (s', e, (st', omega (arith, ends_eq s' s same)))
  live_turn-Streams s reader few st =
      let (s', e, (st', same)) = read_turn-Streams s s.reader refl st in
      (s', e, (st', omega (arith, ends_eq s' s same)))
  live_turn-Streams s close few st =
      let opened : s.pipe.other_closed ≡ false = ground arith in
      let (shut, v) = first_close s.pipe st.valid opened in
      (
        record s { pipe = record s.pipe { other_closed = true }; freed = false },
        rw shut refl,
        (
          record {
            valid = v;
            alive = refl;
            sent = st.sent;
            got = st.got;
            fifo = st.fifo;
            sends = st.sends;
            receives = st.receives;
          },
          omega arith,
        ),
      )

  turns-Streams :
      (s : System) (turns : List Turn)
      → ends_closed s.pipe + closes turns ≤ 1
      → Streams old input size s
      → Returns (run s turns) (Streams old input size)
  unfolding run
  turns-Streams s [] few st = (s, refl, st)
  turns-Streams s (t ∷ turns) few st =
      let (s', e, (st', less)) =
        live_turn-Streams s t (omega (arith, few, closes-cons t turns)) st in
      let (s'', e', st'') =
        turns-Streams s' turns (omega (arith, few, less, closes-cons t turns)) st' in
      (s'', rw (turn_alive s t st.alive, e, ◌>>=◌) e', st'')

-- One call that writes `input` and one that reads into `buf`.
unfoldable pub start : Pipe → List ℕ → List ℕ → System
start pipe input buf = record {
  pipe = pipe;
  writer = writing input 0;
  reader = reading [] buf;
  freed = false;
}

pub start-Streams :
    (pipe : Pipe) (input buf : List ℕ)
    → IsValid pipe
    → length input < max_bytes
    → Streams (contents pipe.ring) input (length buf) (start pipe input buf)
unfolding start
start-Streams pipe input buf v short = record {
  valid = v;
  alive = refl;
  sent = [];
  got = [];
  fifo = rw (append-nil) refl;
  sends = (refl, refl, short);
  receives = (refl, omega arith);
}

-- A call that writes fewer than 2 ^ 62 bytes and a call that reads are made on a valid pipe, and at most
-- one of its two ends is closed, before the calls or during them. Whatever the order of their rounds
-- and whenever that end is closed, no round faults, and the pipe stays valid and is not freed. What
-- the reader has stored, followed by what is in the ring, is what was in the ring before the calls,
-- followed by the bytes the writer has put in; these are the first bytes of its input, and all of it
-- when the call has returned its count, which is then the length of the input. The reader returns
-- the number of bytes it stored, at most the length of its buffer.
pub run-Streams :
    (pipe : Pipe) (input buf : List ℕ) (turns : List Turn)
    → IsValid pipe
    → length input < max_bytes
    → ends_closed pipe + closes turns ≤ 1
    → Returns (run (start pipe input buf) turns) (Streams (contents pipe.ring) input (length buf))
unfolding start
run-Streams pipe input buf turns v short few =
    turns-Streams (contents pipe.ring) input (length buf) (start pipe input buf) turns few
      (start-Streams pipe input buf v short)
