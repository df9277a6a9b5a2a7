-- ===== src/Pipe/Progress.antt =====
-- What a round of the writer and one of the reader achieve on an open pipe.
use mos_moody_hunter.Base.{
  ℕ, ◌+◌, ◌≤◌, ◌<◌, ◌≡◌, ◌⊎◌, refl, ap, ◌∙◌, sym, Returns, false, Option, List, ◌++◌, length, take,
  drop, ltb, if◌then◌else◌, arith, inl, inr, Bool-cases, length-append, length-take, length-drop,
}
use mathlib.Core.Path.{subst}
use mos_moody_hunter.RingBuffer.{RingBuffer}
use mos_moody_hunter.RingBuffer.Valid.{contents, length-contents}
use mos_moody_hunter.RingBuffer.Deque.{accepted, available}
use mos_moody_hunter.Pipe.{Pipe, Writer, writing, wrote, broken_pipe, reading, read}
use mos_moody_hunter.Pipe.System.{System, write_turn, read_turn, run}
use mos_moody_hunter.Pipe.Rounds.{
  IsValid, Sends, Streams, after_write, write_round_lem, read_round_lem,
}

-- No end is closed, and the ring can hold a byte.
pub record IsOpen (pipe : Pipe) : Type 0 where
  pub opened : pipe.other_closed ≡ false
  pub roomy : 0 < pipe.ring.pos.capacity

-- After a round of its own the writer has returned, or it has bytes left and there are some to read.
abbrev pub Settled : Pipe → Writer → Type 0
Settled pipe (writing buf total) = (0 < length buf) × (0 < pipe.ring.pos.size)
Settled pipe (wrote n) = Unit {0}
Settled pipe broken_pipe = ⊥

-- The writer has not met a closed pipe.
abbrev pub Running : Writer → Type 0
Running broken_pipe = ⊥
Running (writing buf total) = Unit {0}
Running (wrote n) = Unit {0}

pub after_write-Settled :
    (ring : RingBuffer) (pipe : Pipe) (buf : List ℕ) (total : ℕ)
    → ring.pos.size ≤ ring.pos.capacity
    → 0 < ring.pos.capacity
    → pipe.ring.pos.size ≡ ring.pos.size + accepted ring (length buf)
    → Settled pipe (after_write buf total (accepted ring (length buf)))
after_write-Settled ring pipe buf total room roomy size =
    let n = accepted ring (length buf) in
    elim (Bool-cases (ltb 0 (length (drop n buf)))) [
      | inl more ↦
          rw (more, if◌then◌else◌) (ground (arith, more), ground (arith, more, length-drop n buf))
      | inr done ↦ rw (done, if◌then◌else◌) tt
    ]

module _ (old input : List ℕ) (size : ℕ) where
  pub writer_round :
      (s : System) (w : Writer)
      → s.writer ≡ w
      → Streams old input size s
      → IsOpen s.pipe
      → Running w
      → Returns
          (write_turn s w)
          (λ s'. IsOpen s'.pipe × Settled s'.pipe s'.writer × (s'.reader ≡ s.reader))
  unfolding write_turn
  writer_round s (wrote n) e st o r = (s, refl, (o, subst (Settled s.pipe) (sym e) tt, refl))
  writer_round s broken_pipe e st o r = absurd r
  writer_round s (writing buf total) e st o r =
      let sends : Sends input st.sent (writing buf total) =
        subst (Sends input st.sent) e st.sends in
      let (q, run, (state, bytes, cap, op, v)) =
        write_round_lem s.pipe buf total st.valid sends.2 o.opened in
      let n = accepted s.pipe.ring (length buf) in
      let grown : q.0.ring.pos.size ≡ s.pipe.ring.pos.size + n = omega (
        arith,
        ap length bytes,
        length-append (contents s.pipe.ring) (take n buf),
        length-take n buf,
        length-contents s.pipe.ring,
        length-contents q.0.ring,
      ) in
      (
        record s { pipe = q.0; writer = q.1 },
        rw run refl,
        (
          record { opened = op; roomy = omega (arith, cap, o.roomy) },
          subst (Settled q.0) (sym state)
              (after_write-Settled s.pipe.ring q.0 buf total st.valid.ring.room o.roomy grown),
          refl,
        ),
      )

  -- Where a round of the reader leaves it, after a round of the writer.
  pub reader_round :
      (s : System) (stored buf : List ℕ)
      → s.reader ≡ reading stored buf
      → IsValid s.pipe
      → IsOpen s.pipe
      → Returns (read_turn s (reading stored buf)) (λ s'.
        let n = available s.pipe.ring (length buf) in
        let got' = stored ++ take n (contents s.pipe.ring) in
        IsOpen s'.pipe
        × (s'.writer ≡ s.writer)
        × (length got' ≡ length stored + n)
        × (((length buf ≡ n) × (s'.reader ≡ read got' (length got')))
            ⊎ ((n < length buf) × (s'.reader ≡ reading got' (drop n buf)))))
  unfolding read_turn
  reader_round s stored buf e v o =
      let n = available s.pipe.ring (length buf) in
      let got' = stored ++ take n (contents s.pipe.ring) in
      let (q, run, (state, rest, cap, closed, v')) = read_round_lem s.pipe stored buf v in
      (
        record s { pipe = q.0; reader = q.1 },
        rw run refl,
        (
          record { opened = closed ∙ o.opened; roomy = omega (arith, cap, o.roomy) },
          refl,
          omega (
            arith,
            length-append stored (take n (contents s.pipe.ring)),
            length-take n (contents s.pipe.ring),
            length-contents s.pipe.ring,
          ),
          elim (Bool-cases (ltb 0 (length (drop n buf)))) [
            | inl more ↦ inr (
              ground (arith, more, length-drop n buf),
              state ∙ rw (more, closed, o.opened, if◌then◌else◌) refl,
            )
            | inr done ↦
                inl (ground (arith, done, length-drop n buf), state ∙ rw (done, if◌then◌else◌) refl)
          ],
        ),
      )

-- A run that returns one value returns it with all that is known of it.
pub returns_both {ℓ κ μ} :
    {A : Type ℓ} {P : A → Type κ} {Q : A → Type μ} {r : Option A}
    → Returns r P
    → Returns r Q
    → Returns r (λ a. P a × Q a)
returns_both {Q} (a, e, p) (b, e', q) = let same : b ≡ a = cc in (a, e, (p, subst Q same q))
