-- ===== src/RingBuffer/Resize.antt =====
-- `ring_buffer_resize`: what it copies, when that is the contents, and when it is not.
use mos_moody_hunter.Base.{
  ℕ, zero, suc, ◌+◌, ◌%◌, ◌≤◌, ◌<◌, ◌≡◌, ◌≢◌, ◌⊎◌, refl, ap, ◌∙◌, sym, Returns, Bool, true, false,
  ◌&&◌, some, none, Option, List, length, get_or, set, tabulate, ltb, leb, ◌==◌, if◌then◌else◌,
  ◌>>=◌, arith, tabulate_congr, length-set, get_or-set, get_elem?-eq-get_or, get_or-tabulate,
}
use native.Mathlib.Nat.{mod-lt, mod-eq_of_lt}
use mos_moody_hunter.Memory.{store}
use mos_moody_hunter.RingBuffer.{RingBuffer, get, resize_loop, resize}
use mos_moody_hunter.RingBuffer.Valid.{IsValid, max_bytes, contents, mod-eq-wrap, byte_at}

-- The byte that `ring_buffer_get` reads at `index`.
abbrev pub read_at : RingBuffer → ℕ → ℕ
read_at rb index = get_or rb.bytes ((rb.pos.head + index) % rb.pos.size) 0

get-eq-some :
    (rb : RingBuffer) (i : ℕ)
    → IsValid rb
    → i < rb.pos.size
    → get rb.bytes rb.pos i ≡ some (read_at rb i)
unfolding get
get-eq-some rb i v h = ground (
  arith,
  mod-lt (rb.pos.head + i) {m = rb.pos.size} (omega arith),
  get_elem?-eq-get_or rb.bytes ((rb.pos.head + i) % rb.pos.size) 0,
)

-- What the loop has done from index `i` on, with `left` rounds.
record Filled (rb : RingBuffer) (i left : ℕ) (old new : List ℕ) : Type 0 where
  same : length new ≡ length old
  reads :
      (k : ℕ)
      → get_or new k 0 ≡ (if leb i k && ltb k (i + left) then read_at rb k else get_or old k 0)

resize_loop-Filled :
    (rb : RingBuffer) (i left : ℕ) (old : List ℕ)
    → IsValid rb
    → i + left ≤ rb.pos.size
    → i + left ≤ length old
    → Returns (resize_loop rb.bytes rb.pos i left old) (Filled rb i left old)
unfolding resize_loop
resize_loop-Filled rb i zero old v h l =
    (old, refl, record { same = refl; reads = λ k. ground arith })
resize_loop-Filled rb i (suc left) old v h l =
    let (new, run, f) =
      resize_loop-Filled rb (i + 1) left (set old i (read_at rb i)) v (omega arith)
        (omega (arith, length-set old i (read_at rb i))) in
    (
      new,
      rw (get-eq-some rb i v (omega arith), ◌>>=◌, stored, ◌>>=◌) run,
      record {
        same = f.same ∙ length-set old i (read_at rb i);
        reads = λ k.
            ground (
              arith,
              f.reads k,
              get_or-set old i k (read_at rb i) 0,
              ap (read_at rb) (same_index k),
            );
      },
    )
  where
    stored : store old i (read_at rb i) ≡ some (set old i (read_at rb i))
    stored = unfold store in ground arith

    same_index : (k : ℕ) → (if i == k then i else k) ≡ k
    same_index k = ground arith

-- What a resize to `new_capacity` leaves: as many bytes, read one after the other by
-- `ring_buffer_get`, and an index record for the new array.
pub record Resized (rb : RingBuffer) (new_capacity : ℕ) (r : Bool × RingBuffer) : Type 0 where
  pub returns : r.0 ≡ true
  pub bytes : contents r.1 ≡ tabulate rb.pos.size (read_at rb)
  pub valid : IsValid r.1
  pub capacity : r.1.pos.capacity ≡ new_capacity

-- A resize of a valid ring to a size that holds its bytes stays inside both arrays, keeps the
-- invariant, and fills the new ring with the bytes at `(head + i) % size`.
pub resize-Resized :
    {rb : RingBuffer} (new_data : List ℕ)
    → IsValid rb
    → rb.pos.size ≤ length new_data
    → 0 < length new_data
    → length new_data < max_bytes
    → Returns (resize rb (length new_data) (some new_data)) (Resized rb (length new_data))
unfolding resize contents
resize-Resized {rb} new_data v room some_room short =
    let (new, run, f) =
      resize_loop-Filled rb 0 rb.pos.size new_data v (omega arith) (omega arith) in
    (
      (true, resized new),
      rw (fits, if◌then◌else◌, run, ◌>>=◌) refl,
      record {
        returns = refl;
        bytes = tabulate_congr rb.pos.size _ _ (λ k h.
            ground
              (arith, mod-eq_of_lt {n = 0 + k} {m = length new_data} (omega arith), f.reads k));
        valid = ground (arith, f.same);
        capacity = refl;
      },
    )
  where
    fits : ltb (length new_data) rb.pos.size ≡ false
    fits = ground arith

    resized : List ℕ → RingBuffer
    resized new = record {
      bytes = new;
      pos = record {
        size = rb.pos.size;
        capacity = length new_data;
        head = 0;
        next_pos = rb.pos.size;
      };
    }

-- A resize of a valid ring, with memory for a new array that is not empty, is shorter than 2 ^ 62 bytes
-- and has room for the bytes stored, keeps the contents if the ring starts at index 0 or is full.
pub resize-contents :
    {rb : RingBuffer} (new_data : List ℕ)
    → IsValid rb
    → rb.pos.size ≤ length new_data
    → 0 < length new_data
    → length new_data < max_bytes
    → (rb.pos.head ≡ 0) ⊎ (rb.pos.size ≡ rb.pos.capacity)
    → Returns (resize rb (length new_data) (some new_data)) (λ r. contents r.1 ≡ contents rb)
unfolding contents
resize-contents {rb} new_data v room some_room short aligned =
    let (r, run, done) = resize-Resized new_data v room some_room short in
    (r, run, done.bytes ∙ tabulate_congr rb.pos.size _ _ same)
  where
    same : (k : ℕ) → k < rb.pos.size → read_at rb k ≡ byte_at rb k
    same k h = ground (
      arith,
      mod-eq-wrap (rb.pos.head + k) rb.pos.capacity (omega arith),
      mod-eq_of_lt {n = rb.pos.head + k} {m = rb.pos.size},
    )

-- A resize of a valid ring that holds bytes, with memory for a new array that has room for them and is
-- shorter than 2 ^ 62 bytes, changes the contents if the byte at the head differs from the one at the
-- index `head % size`.
pub resize-ne-contents :
    {rb : RingBuffer} (new_data : List ℕ)
    → IsValid rb
    → 0 < rb.pos.size
    → rb.pos.size ≤ length new_data
    → length new_data < max_bytes
    → get_or rb.bytes (rb.pos.head % rb.pos.size) 0 ≢ get_or rb.bytes rb.pos.head 0
    → Returns (resize rb (length new_data) (some new_data)) (λ r. contents r.1 ≢ contents rb)
unfolding contents
resize-ne-contents {rb} new_data v some_bytes room short differ =
    let (r, run, done) = resize-Resized new_data v room (omega arith) short in
    (r, run, λ e. differ (first (sym done.bytes ∙ e)))
  where
    first :
        tabulate rb.pos.size (read_at rb) ≡ tabulate rb.pos.size (byte_at rb)
        → get_or rb.bytes (rb.pos.head % rb.pos.size) 0 ≡ get_or rb.bytes rb.pos.head 0
    first e = ground (
      arith,
      ap (λ xs. get_or xs 0 0) e,
      get_or-tabulate rb.pos.size (read_at rb) 0 0 some_bytes,
      get_or-tabulate rb.pos.size (byte_at rb) 0 0 some_bytes,
      ap (λ m. get_or rb.bytes (m % rb.pos.size) 0) zero_more,
      ap (λ m. get_or rb.bytes (m % rb.pos.capacity) 0) zero_more,
      mod-eq_of_lt v.head_in,
    )
      where
        zero_more : rb.pos.head + 0 ≡ rb.pos.head
        zero_more = omega arith

-- A resize below the number of bytes, or without memory, leaves the ring alone.
pub resize_refused :
    (rb : RingBuffer) (new_capacity : ℕ) (alloc : Option (List ℕ))
    → (new_capacity < rb.pos.size) ⊎ (alloc ≡ none)
    → resize rb new_capacity alloc ≡ some (false, rb)
unfolding resize
resize_refused rb new_capacity alloc h = ground arith
