-- ===== src/Pipe/Rounds.antt =====
-- The state of the two calls on a pipe, and what one round of each does.
use mos_moody_hunter.Base.{
  ℕ, ◌+◌, ◌-◌, ◌≤◌, ◌<◌, ◌≡◌, refl, ap, Returns, true, false, ◌&&◌, some, List, ◌++◌, length, take,
  drop, ltb, ◌==◌, if◌then◌else◌, ◌>>=◌, arith, append_assoc, inl, inr, Bool-cases, length-append,
  length-take, length-drop, take-append-drop, take_append_at, drop_append_at, take_all,
}
use mos_moody_hunter.RingBuffer.{RingBuffer, is_empty}
use mos_moody_hunter.RingBuffer.Valid.{contents, max_bytes, length-contents}
use mos_moody_hunter.RingBuffer.Valid
use mos_moody_hunter.RingBuffer.Deque.{
  accepted, available, push_back-Appended, pop_front-TakenFront,
}
use mos_moody_hunter.Pipe.{
  Pipe, pipe_magic, Writer, writing, wrote, broken_pipe, Reader, reading, read, write_round,
  read_round,
}
use mos_moody_hunter.Pipe.System.{
  System, Turn, writer, reader, write_turn, read_turn, live_turn, turn,
}

pub record IsValid (pipe : Pipe) : Type 0 where
  pub initialized : pipe.magic ≡ pipe_magic
  pub ring : Valid.IsValid pipe.ring

-- What a writer has put into the pipe and has left of its `input`.
abbrev pub Sends : List ℕ → List ℕ → Writer → Type 0
Sends input sent (writing buf total) =
    (input ≡ sent ++ buf) × (total ≡ length sent) × (length buf < max_bytes)
Sends input sent (wrote n) = (input ≡ sent) × (n ≡ length input)
Sends input sent broken_pipe = (rest : List ℕ) × (input ≡ sent ++ rest)

-- What a reader with a buffer of `size` bytes has taken out of the pipe.
abbrev pub Receives : ℕ → List ℕ → Reader → Type 0
Receives size got (reading stored buf) = (got ≡ stored) × (length stored + length buf ≡ size)
Receives size got (read stored n) = (got ≡ stored) × (n ≡ length stored) × (n ≤ size)

-- `old` was in the pipe before the calls: what has come out and what is in the pipe are, in order,
-- `old` and what has gone in.
pub record Streams (old input : List ℕ) (size : ℕ) (s : System) : Type 0 where
  pub valid : IsValid s.pipe
  pub alive : s.freed ≡ false
  pub sent : List ℕ
  pub got : List ℕ
  pub fifo : got ++ contents s.pipe.ring ≡ old ++ sent
  pub sends : Sends input sent s.writer
  pub receives : Receives size got s.reader

-- Where a round of the writer that put `n` bytes into the ring leaves the call.
abbrev pub after_write : List ℕ → ℕ → ℕ → Writer
after_write buf total n =
    if ltb 0 (length (drop n buf)) then writing (drop n buf) (total + n) else wrote (total + n)

-- Where a round of the reader that stored `bytes` leaves the call.
abbrev pub after_read : Pipe → List ℕ → List ℕ → ℕ → Reader
after_read pipe got' buf n =
    if ltb 0 (length (drop n buf))
    then if pipe.other_closed && is_empty pipe.ring
      then read got' (length got')
      else reading got' (drop n buf)
    else read got' (length got')

-- A round of the writer puts a prefix of what is left into the ring.
pub write_round_lem :
    (pipe : Pipe) (buf : List ℕ) (total : ℕ)
    → IsValid pipe
    → length buf < max_bytes
    → pipe.other_closed ≡ false
    → Returns (write_round pipe buf total) (λ r.
      let n = accepted pipe.ring (length buf) in
      (r.1 ≡ after_write buf total n)
      × (contents r.0.ring ≡ contents pipe.ring ++ take n buf)
      × (r.0.ring.pos.capacity ≡ pipe.ring.pos.capacity)
      × (r.0.other_closed ≡ false)
      × IsValid r.0)
unfolding write_round
write_round_lem pipe buf total v short opened =
    let (p, pushed, a) = push_back-Appended buf (length buf) v.ring (omega arith) short in
    (
      (record pipe { ring = p.ring }, after_write buf total p.count),
      rw (magic, if◌then◌else◌, opened, if◌then◌else◌, pushed, ◌>>=◌) refl,
      (
        ap (after_write buf total) a.count,
        a.bytes,
        a.capacity,
        opened,
        record { initialized = v.initialized; ring = a.valid },
      ),
    )
  where
    magic : (pipe.magic == pipe_magic) ≡ true
    magic = ground (arith, v.initialized)

-- A round of the reader takes the oldest bytes out of the ring.
pub read_round_lem :
    (pipe : Pipe) (got buf : List ℕ)
    → IsValid pipe
    → Returns (read_round pipe got buf) (λ r.
      let n = available pipe.ring (length buf) in
      (r.1 ≡ after_read r.0 (got ++ take n (contents pipe.ring)) buf n)
      × (contents r.0.ring ≡ drop n (contents pipe.ring))
      × (r.0.ring.pos.capacity ≡ pipe.ring.pos.capacity)
      × (r.0.other_closed ≡ pipe.other_closed)
      × IsValid r.0)
unfolding read_round
read_round_lem pipe got buf v =
    let n = available pipe.ring (length buf) in
    let (p, popped, a) = pop_front-TakenFront buf (length buf) v.ring (omega arith) in
    let e : length (take n (contents pipe.ring)) ≡ n =
      omega (arith, length-take n (contents pipe.ring), length-contents pipe.ring) in
    let stored : take p.count p.target ≡ take n (contents pipe.ring) =
      rw (a.count, a.bytes) (take_append_at n (take n (contents pipe.ring)) (drop n buf) e) in
    let rest : drop p.count p.target ≡ drop n buf =
      rw (a.count, a.bytes) (drop_append_at n (take n (contents pipe.ring)) (drop n buf) e) in
    (
      (record pipe { ring = p.ring }, _),
      rw (magic, if◌then◌else◌, popped, ◌>>=◌, stored, rest) refl,
      (refl, a.rest, a.capacity, refl, record { initialized = v.initialized; ring = a.valid }),
    )
  where
    magic : (pipe.magic == pipe_magic) ≡ true
    magic = ground (arith, v.initialized)

-- A write to a pipe whose other end is closed returns `-EPIPE` and leaves the pipe alone.
pub write_round_closed :
    (pipe : Pipe) (buf : List ℕ) (total : ℕ)
    → IsValid pipe
    → pipe.other_closed ≡ true
    → write_round pipe buf total ≡ some (pipe, broken_pipe)
unfolding write_round
write_round_closed pipe buf total v closed = ground (arith, v.initialized)

-- After a round of the writer that put `n` of its bytes into the ring, its call is as `Sends` says.
pub after_write-Sends :
    (input sent buf : List ℕ) (total n : ℕ)
    → Sends input sent (writing buf total)
    → n ≤ length buf
    → Sends input (sent ++ take n buf) (after_write buf total n)
after_write-Sends input sent buf total n (split, count, short) n≤ =
    elim (Bool-cases (ltb 0 (length (drop n buf)))) [
      | inl more ↦
          rw (more, if◌then◌else◌)
            (
              rw (append_assoc, take-append-drop) split,
              omega (arith, count, n≤, length-append sent (take n buf), length-take n buf),
              omega (arith, short, length-drop n buf),
            )
      | inr done ↦
          let all : n ≡ length buf = ground (arith, done, n≤, length-drop n buf) in
          rw (done, if◌then◌else◌)
            (
              rw (take_all buf n (omega (arith, all))) split,
              omega (arith, all, count, ap length split, length-append sent buf),
            )
    ]

-- After a round of the reader its call is as `Receives` says.
pub after_read-Receives :
    (rb : RingBuffer) (pipe : Pipe) (size : ℕ) (got stored buf : List ℕ)
    → Receives size got (reading stored buf)
    → let n = available rb (length buf) in
      Receives size
        (got ++ take n (contents rb))
        (after_read pipe (stored ++ take n (contents rb)) buf n)
after_read-Receives rb pipe size got stored buf (e, total) =
    let n = available rb (length buf) in
    let bytes = take n (contents rb) in
    let taken : length (stored ++ bytes) ≡ length stored + n =
      omega (arith, length-append stored bytes, length-take n (contents rb), length-contents rb) in
    let left : length (drop n buf) ≡ length buf - n = length-drop n buf in
    elim (Bool-cases (ltb 0 (length (drop n buf)))) [
      | inl more ↦ elim (Bool-cases (pipe.other_closed && is_empty pipe.ring)) [
        | inl eof ↦ rw (more, eof, if◌then◌else◌) (rw e refl, refl, omega (arith, taken, total))
        | inr more_comes ↦
            rw (more, more_comes, if◌then◌else◌) (rw e refl, omega (arith, taken, left, total))
      ]
      | inr done ↦ rw (done, if◌then◌else◌) (rw e refl, refl, omega (arith, taken, total))
    ]

-- A turn on a pipe that is there, and the turns of calls that have returned.
pub turn_alive : (s : System) (t : Turn) → s.freed ≡ false → turn s t ≡ live_turn s t
unfolding turn
turn_alive s t alive = rw alive refl

pub turn_wrote : (s : System) (n : ℕ) → s.writer ≡ wrote n → turn s writer ≡ some s
unfolding turn live_turn write_turn
turn_wrote s n done = elim (Bool-cases s.freed) [
  | inl freed ↦ rw (freed, done) refl
  | inr alive ↦ rw (alive, done) refl
]

pub turn_read : (s : System) (got : List ℕ) (n : ℕ) → s.reader ≡ read got n → turn s reader ≡ some s
unfolding turn live_turn read_turn
turn_read s got n done = elim (Bool-cases s.freed) [
  | inl freed ↦ rw (freed, done) refl
  | inr alive ↦ rw (alive, done) refl
]
