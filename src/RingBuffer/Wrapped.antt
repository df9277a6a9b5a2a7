-- ===== src/RingBuffer/Wrapped.antt =====
-- The two block copies by which each operation of ring_buffer.c moves `n` bytes at index `i` of a
-- ring of `cap` bytes: up to the end of the array first, then from its start.
use mos_moody_hunter.Base.{
  ℕ, ◌+◌, ◌-◌, ◌≤◌, ◌<◌, ◌≡◌, refl, ◌∙◌, some, List, ◌++◌, length, get_or, drop, tabulate, ltb,
  if◌then◌else◌, min, arith, length-append, length-drop, get_or-append, get_or-drop,
  length-tabulate, get_or-tabulate, get_or_ext,
}
use mos_moody_hunter.Memory.{copied, copy}
use mos_moody_hunter.Memory.Copy.{copy-eq-some, length-copied, get_or-copied}
use mos_moody_hunter.RingBuffer.Valid.{wrap}

module _ (cap i n : ℕ) where
  pub first_part : ℕ
  first_part = min n (cap - i)

  pub first_part_lem : first_part ≡ min n (cap - i)
  unfolding first_part
  first_part_lem = refl

  -- Into the ring, from the start of `target`: after the first copy, and after both.
  pub half_written : List ℕ → List ℕ → List ℕ
  unfolding first_part
  half_written bytes target = copied bytes i target 0 first_part

  pub written : List ℕ → List ℕ → List ℕ
  unfolding half_written
  written bytes target = copied (half_written bytes target) 0 target first_part (n - first_part)

  -- Out of the ring, to the start of `target`.
  pub half_read : List ℕ → List ℕ → List ℕ
  unfolding first_part
  half_read bytes target = copied target 0 bytes i first_part

  pub read_out : List ℕ → List ℕ → List ℕ
  unfolding half_read
  read_out bytes target = copied (half_read bytes target) first_part bytes 0 (n - first_part)

  module _ (bytes target : List ℕ) (start : i ≤ cap) (storage : cap ≤ length bytes) (fits : n ≤ cap)
      (has : n ≤ length target) where
    length-step : length (copied bytes i target 0 first_part) ≡ length bytes
    unfolding first_part
    length-step = length-copied bytes i target 0 first_part (omega arith) (omega arith)

    pub copy-half_written : copy bytes i target 0 first_part ≡ some (half_written bytes target)
    unfolding half_written
    copy-half_written = copy-eq-some bytes i target 0 first_part (omega arith) (omega arith)

    pub copy-written :
        copy (half_written bytes target) 0 target first_part (n - first_part)
        ≡ some (written bytes target)
    unfolding written
    copy-written =
        copy-eq-some (half_written bytes target) 0 target first_part (n - first_part)
          (omega (arith, length-step)) (omega arith)

    pub length-written : length (written bytes target) ≡ length bytes
    unfolding written
    length-written =
        length-copied (copied bytes i target 0 first_part) 0 target first_part (n - first_part)
          (omega (arith, length-step)) (omega arith)
        ∙ length-step

    -- The byte at distance `k` from `i` is the new one for `k < n`, and stays for all others.
    pub get_or-written :
        (k : ℕ)
        → k < cap
        → get_or (written bytes target) (wrap (i + k) cap) 0
          ≡ (if ltb k n then get_or target k 0 else get_or bytes (wrap (i + k) cap) 0)
    unfolding written
    get_or-written k h = ground (
      arith,
      get_or-copied (copied bytes i target 0 first_part) 0 target first_part (n - first_part)
          (omega (arith, length-step)) (omega arith) (wrap (i + k) cap),
      get_or-copied bytes i target 0 first_part (omega arith) (omega arith) (wrap (i + k) cap),
    )

    length-read_step : length (copied target 0 bytes i first_part) ≡ length target
    unfolding first_part
    length-read_step = length-copied target 0 bytes i first_part (omega arith) (omega arith)

    pub copy-half_read : copy target 0 bytes i first_part ≡ some (half_read bytes target)
    unfolding half_read
    copy-half_read = copy-eq-some target 0 bytes i first_part (omega arith) (omega arith)

    pub copy-read_out :
        copy (half_read bytes target) first_part bytes 0 (n - first_part)
        ≡ some (read_out bytes target)
    unfolding read_out
    copy-read_out =
        copy-eq-some (half_read bytes target) first_part bytes 0 (n - first_part)
          (omega (arith, length-read_step)) (omega arith)

    pub read_out-tabulate :
        read_out bytes target ≡ tabulate n (λ k. get_or bytes (wrap (i + k) cap) 0) ++ drop n target
    unfolding read_out
    read_out-tabulate =
        get_or_ext _ _ 0
          (omega (
            arith,
            length-copied (copied target 0 bytes i first_part) first_part bytes 0 (n - first_part)
                (omega (arith, length-read_step)) (omega arith),
            length-read_step,
            length-append (tabulate n read) (drop n target),
            length-tabulate n read,
            length-drop n target,
          ))
          (λ k h. ground (
            arith,
            get_or-copied (copied target 0 bytes i first_part) first_part bytes 0 (n - first_part)
                (omega (arith, length-read_step)) (omega arith) k,
            get_or-copied target 0 bytes i first_part (omega arith) (omega arith) k,
            get_or-append (tabulate n read) (drop n target) k 0,
            length-tabulate n read,
            get_or-tabulate n read k 0,
            get_or-drop n target (k - n) 0,
          ))
      where
        read : ℕ → ℕ
        read k = get_or bytes (wrap (i + k) cap) 0
