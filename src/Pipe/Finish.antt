-- ===== src/Pipe/Finish.antt =====
-- A write and a read of as many bytes through a small pipe come to an end, if the two calls take turns.
use mos_moody_hunter.Base.{
  ℕ, zero, suc, ◌+◌, ◌<◌, ◌≡◌, ◌⊎◌, refl, ap, ◌∙◌, sym, Returns, false, List, [], ◌∷◌, ◌++◌, length,
  take, drop, ◌>>=◌, arith, inl, inr, Option-cases, length-append, length-drop, take_append_at,
  take_all,
}
use mathlib.Core.Path.{subst}
use mos_moody_hunter.RingBuffer.Valid.{contents, max_bytes, length-contents}
use mos_moody_hunter.RingBuffer.Deque.{available}
use mos_moody_hunter.Pipe.{Pipe, Writer, writing, wrote, broken_pipe, reading, read}
use mos_moody_hunter.Pipe.System.{System, Turn, writer, reader, turn, live_turn, run}
use mos_moody_hunter.Pipe.Rounds.{
  turn_alive, turn_wrote, turn_read, IsValid, Sends, Receives, Streams,
}
use mos_moody_hunter.Pipe.Stream.{write_turn-Streams, read_turn-Streams, start, start-Streams}
use mos_moody_hunter.Pipe.Progress.{
  IsOpen, Settled, Running, writer_round, reader_round, returns_both,
}

-- Both calls have returned, and the bytes are through.
abbrev pub Delivered : List ℕ → System → Type 0
Delivered input s = (s.writer ≡ wrote (length input)) × (s.reader ≡ read input (length input))

-- The calls are under way, with `left` bytes to go in the reader's buffer.
record Underway (input : List ℕ) (left : ℕ) (s : System) : Type 0 where
  streams : Streams [] input (length input) s
  is_open : IsOpen s.pipe
  running : Running s.writer
  stored : List ℕ
  buf : List ℕ
  at : s.reader ≡ reading stored buf
  to_go : length buf ≡ left

Settled-Running : (pipe : Pipe) (w : Writer) → Settled pipe w → Running w
Settled-Running pipe (writing buf total) h = tt
Settled-Running pipe (wrote n) h = tt
Settled-Running pipe broken_pipe h = h

module _ (input : List ℕ) (s : System) (st : Streams [] input (length input) s) where
  -- A reader with a full buffer has all bytes, and the writer has nothing left.
  full-Delivered :
      (got : List ℕ) (pipe : Pipe) (w : Writer)
      → s.writer ≡ w
      → Settled pipe w
      → s.reader ≡ read got (length got)
      → length got ≡ length input
      → Delivered input s
  full-Delivered got pipe broken_pipe e settled at full = absurd settled
  full-Delivered got pipe (writing buf total) e settled at full =
      let sends : Sends input st.sent (writing buf total) =
        subst (Sends input st.sent) e st.sends in
      let receives : Receives (length input) st.got (read got (length got)) =
        subst (Receives (length input) st.got) at st.receives in
      absurd (
        omega (
          arith,
          settled.0,
          ap length sends.0,
          length-append st.sent buf,
          ap length st.fifo,
          length-append st.got (contents s.pipe.ring),
          full,
          ap length receives.0,
        ))
  full-Delivered got pipe (wrote n) e settled at full =
      let sends : Sends input st.sent (wrote n) = subst (Sends input st.sent) e st.sends in
      let receives : Receives (length input) st.got (read got (length got)) =
        subst (Receives (length input) st.got) at st.receives in
      let all : st.got ≡ input =
        sym (
          take_append_at (length input) st.got (contents s.pipe.ring) (ap length receives.0 ∙ full))
        ∙ ap (take (length input)) (st.fifo ∙ sym sends.0)
        ∙ take_all input (length input) (omega arith) in
      (e ∙ ap wrote sends.1, at ∙ ap (λ g. read g (length g)) (sym receives.0 ∙ all))

  -- A reader whose buffer is larger than what is in the ring finds something there.
  some_bytes :
      (stored buf : List ℕ) (w : Writer)
      → s.writer ≡ w
      → Settled s.pipe w
      → s.reader ≡ reading stored buf
      → available s.pipe.ring (length buf) < length buf
      → 0 < s.pipe.ring.pos.size
  some_bytes stored buf broken_pipe e settled at more = absurd settled
  some_bytes stored buf (writing rest total) e settled at more = settled.1
  some_bytes stored buf (wrote n) e settled at more =
      let sends : Sends input st.sent (wrote n) = subst (Sends input st.sent) e st.sends in
      let receives : Receives (length input) st.got (reading stored buf) =
        subst (Receives (length input) st.got) at st.receives in
      omega (
        arith,
        more,
        ap length sends.0,
        ap length st.fifo,
        length-append st.got (contents s.pipe.ring),
        length-contents s.pipe.ring,
        ap length receives.0,
        receives.1,
      )

-- A round of the writer and one of the reader: the bytes are through, or fewer are left.
pair_lem :
    (input : List ℕ) (left : ℕ) (s : System)
    → Underway input left s
    → Returns
        (run s (writer ∷ reader ∷ []))
        (λ s'. Delivered input s' ⊎ ((fewer : ℕ) × (fewer < left) × Underway input fewer s'))
unfolding run live_turn
pair_lem input left s u =
    let (s₁, e₁, ((o₁, settled, same), (st₁, _))) =
      returns_both
        (writer_round [] input (length input) s s.writer refl u.streams u.is_open u.running)
        (write_turn-Streams [] input (length input) s s.writer refl u.streams) in
    let at₁ : s₁.reader ≡ reading u.stored u.buf = same ∙ u.at in
    let (s₂, e₂, ((o₂, kept, taken, outcome), (st₂, _))) =
      returns_both (reader_round [] input (length input) s₁ u.stored u.buf at₁ st₁.valid o₁)
        (read_turn-Streams [] input (length input) s₁ (reading u.stored u.buf) at₁ st₁) in
    let receives : Receives (length input) st₁.got (reading u.stored u.buf) =
      subst (Receives (length input) st₁.got) at₁ st₁.receives in
    let n = available s₁.pipe.ring (length u.buf) in
    (
      s₂,
      rw (turn_alive s writer u.streams.alive, e₁, ◌>>=◌, turn_alive s₁ reader st₁.alive, at₁, e₂)
          refl,
      elim outcome [
        | inl (full, at₂) ↦ inl (
            full-Delivered input s₂ st₂ (u.stored ++ take n (contents s₁.pipe.ring)) s₁.pipe
              s₁.writer kept settled at₂ (omega (arith, full, taken, receives.1)))
        | inr (more, at₂) ↦ inr (
          length (drop n u.buf),
          omega (
            arith,
            u.to_go,
            length-drop n u.buf,
            some_bytes input s₁ st₁ u.stored u.buf s₁.writer refl settled at₁ more,
          ),
          record {
            streams = st₂;
            is_open = o₂;
            running = subst Running (sym kept) (Settled-Running s₁.pipe s₁.writer settled);
            stored = u.stored ++ take n (contents s₁.pipe.ring);
            buf = drop n u.buf;
            at = at₂;
            to_go = refl;
          },
        )
      ],
    )

-- So many rounds of the writer, each followed by one of the reader.
abbrev pub take_turns : ℕ → List Turn
take_turns zero = []
take_turns (suc k) = writer ∷ reader ∷ take_turns k

-- Calls that have returned stay as they are.
Delivered-stays :
    (input : List ℕ) (k : ℕ) (s : System)
    → Delivered input s
    → Returns (run s (take_turns k)) (Delivered input)
unfolding run
Delivered-stays input zero s d = (s, refl, d)
Delivered-stays input (suc k) s d =
    let (s', e, d') = Delivered-stays input k s d in
    (
      s',
      rw (turn_wrote s (length input) d.0, ◌>>=◌, turn_read s input (length input) d.1, ◌>>=◌) e,
      d',
    )

run-append : (s : System) (xs ys : List Turn) → run s (xs ++ ys) ≡ (run s xs >>= λ s'. run s' ys)
unfolding run
run-append s [] ys = refl
run-append s (t ∷ xs) ys = elim (Option-cases (turn s t)) [
  | inl e ↦ rw (e, ◌>>=◌) refl
  | inr (s', e) ↦ rw (e, ◌>>=◌) (run-append s' xs ys)
]

turns_lem :
    (input : List ℕ) (k left : ℕ) (s : System)
    → left < k
    → Underway input left s
    → Returns (run s (take_turns k)) (Delivered input)
turns_lem input zero left s enough u = absurd (omega arith)
turns_lem input (suc k) left s enough u =
    let (s₁, e, outcome) = pair_lem input left s u in
    let (s₂, e₂, d) : Returns (run s₁ (take_turns k)) (Delivered input) = elim outcome [
      | inl d ↦ Delivered-stays input k s₁ d
      | inr (fewer, less, u') ↦ turns_lem input k fewer s₁ (omega arith) u'
    ] in
    (s₂, run-append s (writer ∷ reader ∷ []) (take_turns k) ∙ rw (e, ◌>>=◌) e₂, d)

-- On a valid pipe that is empty and open, with room for at least one byte, a call that writes fewer
-- than 2 ^ 62 bytes and one that reads into a buffer of as many bytes both return if they take turns:
-- after one more pair of rounds than there are bytes the writer has returned their number, and the
-- reader has stored exactly these bytes in order and returned their number, however small the ring.
pub take_turns-Delivered :
    (pipe : Pipe) (input buf : List ℕ)
    → IsValid pipe
    → contents pipe.ring ≡ []
    → pipe.other_closed ≡ false
    → 0 < pipe.ring.pos.capacity
    → length buf ≡ length input
    → length input < max_bytes
    → Returns (run (start pipe input buf) (take_turns (length input + 1))) (Delivered input)
unfolding start
take_turns-Delivered pipe input buf v empty opened roomy same short =
    turns_lem input (length input + 1) (length input) (start pipe input buf) (omega arith) (record {
      streams =
          subst (λ old. Streams old input (length input) (start pipe input buf)) empty
            (subst (λ n. Streams (contents pipe.ring) input n (start pipe input buf)) same
              (start-Streams pipe input buf v short));
      is_open = record { opened = opened; roomy = roomy };
      running = tt;
      stored = [];
      buf = buf;
      at = refl;
      to_go = same;
    })
