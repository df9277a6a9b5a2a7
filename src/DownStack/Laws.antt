-- ===== src/DownStack/Laws.antt =====
-- What push, grow and pop do to the bytes on the stack.
use mos_moody_hunter.Base.{
  ℕ, ◌+◌, ◌-◌, ◌^◌, ◌≤◌, ◌<◌, ◌≡◌, refl, ap, ◌∙◌, sym, Returns, true, false, none, some, List, ◌++◌,
  length, take, drop, ltb, leb, if◌then◌else◌, ◌>>=◌, add64, sub64, arith, get_or_ext,
  get_or-append, length-append, length-take, length-drop, get_or-take, get_or-drop, drop-drop,
  take_all, drop_all, take_append, drop_append, append-nil,
}
use mos_moody_hunter.Memory.{copied}
use mos_moody_hunter.Memory.Copy.{copy-eq-some, copied_front, length-copied, get_or-copied}
use mos_moody_hunter.DownStack.{DownStack, index_of, init, grow, push, pop}

-- The stack lies in its region, whose end is a small enough address that no sum below wraps.
pub record IsValid (stack : DownStack) (region : List ℕ) (bottom : ℕ) : Type 0 where
  pub storage : length region ≡ stack.capacity
  pub top_at : bottom + stack.capacity ≡ stack.top
  pub low : stack.top < 2 ^ 62
  pub head_from : bottom ≤ stack.head
  pub head_to : stack.head ≤ stack.top

-- The bytes on the stack, the last pushed first.
abbrev pub contents : DownStack → List ℕ → ℕ → List ℕ
contents stack region bottom = drop (stack.head - bottom) region

-- The room that is left.
abbrev pub room : DownStack → ℕ → ℕ
room stack bottom = stack.head - bottom

pub init-IsValid :
    (region : List ℕ) (bottom : ℕ)
    → bottom + length region < 2 ^ 62
    → IsValid (init bottom (length region)) region bottom
unfolding init
init-IsValid region bottom h = omega arith

-- A copy to the front of what is on the stack puts the bytes before it.
drop-copied :
    (region : List ℕ) (i : ℕ) (bytes : List ℕ) (n : ℕ)
    → i + n ≤ length region
    → n ≤ length bytes
    → drop i (copied region i bytes 0 n) ≡ take n bytes ++ drop (i + n) region
drop-copied region i bytes n fits has =
    get_or_ext _ _ 0
      (omega (
        arith,
        length-drop i (copied region i bytes 0 n),
        length-copied region i bytes 0 n,
        length-append (take n bytes) (drop (i + n) region),
        length-take n bytes,
        length-drop (i + n) region,
      ))
      λ k h. ground (
        arith,
        get_or-drop i (copied region i bytes 0 n) k 0,
        get_or-copied region i bytes 0 n fits (omega arith) (i + k),
        get_or-append (take n bytes) (drop (i + n) region) k 0,
        length-take n bytes,
        get_or-take n bytes k 0,
        get_or-drop (i + n) region (k - n) 0,
      )

-- A push that fits: the bytes on top of the old ones, in a valid stack.
pub record Pushed (stack : DownStack) (region : List ℕ) (bottom : ℕ) (bytes : List ℕ) (size : ℕ)
    (r : DownStack × List ℕ) : Type 0 where
  pub bytes_on : contents r.0 r.1 bottom ≡ take size bytes ++ contents stack region bottom
  pub valid : IsValid r.0 r.1 bottom

module _ {stack : DownStack} {region : List ℕ} {bottom : ℕ} (v : IsValid stack region bottom) where
  -- `stack_push` of bytes that fit stays inside the region and puts them on top of the others.
  pub push-Pushed :
      (bytes : List ℕ) (size : ℕ)
      → size ≤ length bytes
      → size ≤ room stack bottom
      → Returns (push stack region bottom bytes size) (Pushed stack region bottom bytes size)
  unfolding push index_of
  push-Pushed bytes size has fits =
      let i = stack.head - size - bottom in
      (
        (record stack { head = stack.head - size }, copied region i bytes 0 size),
        rw
            (
              guard,
              if◌then◌else◌,
              moved,
              above,
              if◌then◌else◌,
              ◌>>=◌,
              copy-eq-some region i bytes 0 size (omega arith) (omega arith),
            )
            refl,
        record {
          bytes_on =
              drop-copied region i bytes size (omega arith) has
              ∙ ap (λ k. take size bytes ++ drop k region) (omega arith);
          valid = omega (arith, length-copied region i bytes 0 size);
        },
      )
    where
      guard : ltb (sub64 stack.head (sub64 stack.top stack.capacity)) size ≡ false
      guard = ground arith

      moved : sub64 stack.head size ≡ stack.head - size
      moved = omega arith

      above : leb bottom (stack.head - size) ≡ true
      above = ground arith

  -- `stack_push` and `stack_grow` of fewer than 2 ^ 62 bytes on a valid stack with less room than that
  -- panic.
  pub push_overflows :
      (bytes : List ℕ) (size : ℕ)
      → size < 2 ^ 62
      → room stack bottom < size
      → (push stack region bottom bytes size ≡ none) × (grow stack size ≡ none)
  unfolding push grow
  push_overflows bytes size short over = (rw guard refl, rw guard refl)
    where
      guard : ltb (sub64 stack.head (sub64 stack.top stack.capacity)) size ≡ true
      guard = ground arith

  pub grow-IsValid :
      (size : ℕ)
      → size ≤ room stack bottom
      → Returns (grow stack size) (λ s. IsValid s region bottom × (s.head + size ≡ stack.head))
  unfolding grow
  grow-IsValid size fits =
      (record stack { head = stack.head - size }, ground arith, (omega arith, omega arith))

  -- `stack_pop` of bytes that are on the stack, into a buffer, takes them off the top in order.
  pub pop_lem :
      (buffer : List ℕ) (size : ℕ)
      → size ≤ length buffer
      → stack.head + size ≤ stack.top
      → Returns (pop stack region bottom size (some buffer)) (λ r.
        (r.1 ≡ some (take size (contents stack region bottom) ++ drop size buffer))
        × (contents r.0 region bottom ≡ drop size (contents stack region bottom))
        × IsValid r.0 region bottom)
  unfolding pop index_of
  pop_lem buffer size has there =
      let i = stack.head - bottom in
      (
        (record stack { head = stack.head + size }, some (copied buffer 0 region i size)),
        rw
            (
              guard,
              if◌then◌else◌,
              moved,
              above,
              if◌then◌else◌,
              ◌>>=◌,
              copy-eq-some buffer 0 region i size (omega arith) (omega arith),
            )
            refl,
        (
          ap some (copied_front buffer region i size),
          ap (λ k. drop k region) (omega arith) ∙ sym (drop-drop size i region),
          omega arith,
        ),
      )
    where
      guard : ltb (sub64 stack.head stack.top) size ≡ false
      guard = ground arith

      moved : add64 stack.head size ≡ stack.head + size
      moved = omega arith

      above : leb bottom stack.head ≡ true
      above = ground arith

  -- A pop without a buffer of fewer than 2 ^ 62 bytes, but more than a valid stack that is not empty
  -- holds, does not panic: the head goes above the top.
  pub pop_underflows :
      (size : ℕ)
      → stack.head < stack.top
      → stack.top < stack.head + size
      → size < 2 ^ 62
      → Returns (pop stack region bottom size none) (λ r. r.0.top < r.0.head)
  unfolding pop
  pop_underflows size some_bytes over short = (
    (record stack { head = stack.head + size }, none),
    rw (guard, if◌then◌else◌, moved) refl,
    omega arith,
  )
    where
      guard : ltb (sub64 stack.head stack.top) size ≡ false
      guard = ground arith

      moved : add64 stack.head size ≡ stack.head + size
      moved = omega arith

-- What was pushed comes back: on a valid stack, a push that fits and then a pop of as many bytes into a
-- buffer of that length do not fault, fill the buffer with the bytes that were pushed and leave the
-- old bytes on the stack.
pub pop-push :
    {stack : DownStack} {region : List ℕ} {bottom : ℕ} (bytes buffer : List ℕ)
    → IsValid stack region bottom
    → length buffer ≡ length bytes
    → length bytes ≤ room stack bottom
    → Returns
        (push stack region bottom bytes (length bytes) >>= λ (s, region').
          pop s region' bottom (length bytes) (some buffer) >>= λ (s', out).
          some (s', region', out))
        (λ (s', region', out).
          (out ≡ some bytes) × (contents s' region' bottom ≡ contents stack region bottom))
pop-push {stack} {region} {bottom} bytes buffer v same fits =
    let (r, run, p) = push-Pushed v bytes (length bytes) (omega arith) fits in
    let on : length (contents r.0 r.1 bottom)
        ≡ length bytes + length (contents stack region bottom) =
      ap length p.bytes_on
      ∙ length-append (take (length bytes) bytes) (contents stack region bottom)
      ∙ omega (arith, length-take (length bytes) bytes) in
    let there : r.0.head + length bytes ≤ r.0.top = omega (
      arith,
      on,
      length-drop (r.0.head - bottom) r.1,
      length-drop (stack.head - bottom) region,
      p.valid.storage,
      p.valid.top_at,
      p.valid.head_from,
      p.valid.head_to,
      v.head_from,
    ) in
    let (q, run', (out, rest, w)) = pop_lem p.valid buffer (length bytes) (omega arith) there in
    (
      (q.0, r.1, q.1),
      rw (run, ◌>>=◌, run', ◌>>=◌) refl,
      (
        out
            ∙ ap (λ xs. some (take (length bytes) xs ++ drop (length bytes) buffer)) p.bytes_on
            ∙ rw
                (
                  take_all bytes (length bytes) (omega arith),
                  take_append bytes (contents stack region bottom),
                  drop_all buffer (length bytes) (omega arith),
                  append-nil,
                )
                refl,
        rest
            ∙ ap (drop (length bytes)) p.bytes_on
            ∙ rw (take_all bytes (length bytes) (omega arith))
                (drop_append bytes (contents stack region bottom)),
      ),
    )
