-- ===== src/Io.antt =====
-- kernel/io/io.c and its header: an I/O object, with a reference count and a table of callbacks. What
-- the callbacks work on is a state of its own, `S`; `V` is the type of memory maps. A callback that is
-- a null pointer is `none`, and so is the result of calling one. The warnings are left out.
pub mod Refs
pub mod Seek
use mos_moody_hunter.Base.{
  ℕ, ◌<◌, ◌-◌, Bool, true, false, not, ◌&&◌, ◌||◌, Option, none, some, List, [], ◌∷◌, ltb, ◌==◌,
  if◌then◌else◌, ◌>>=◌, add64, sub64, has_flag,
}

-- `io_op_t` without `get_name`. A buffer is an address in `S`.
pub record Ops (S V : Type 0) : Type 0 where
  pub read : Option (ℕ → ℕ → S → ℕ × S)
  pub write : Option (ℕ → ℕ → S → ℕ × S)
  pub close : Option (S → S)
  pub seek : Option (ℕ → ℕ → S → ℕ × S)
  pub mmap : Option (V → ℕ → S → Bool × V × S)
  pub munmap : Option (V → S → Bool × Bool × S)

-- `io_t`
pub record Io (S V : Type 0) : Type 0 where
  pub closed : Bool
  pub refcount : ℕ
  pub flags : ℕ
  pub kind : ℕ
  pub ops : Ops S V

-- `io_flags_t`
abbrev pub io_readable : ℕ
io_readable = 1

abbrev pub io_writable : ℕ
io_writable = 2

abbrev pub io_seekable : ℕ
io_seekable = 8

abbrev pub io_mmapable : ℕ
io_mmapable = 16

-- `io_seek_whence_t`
abbrev pub seek_current : ℕ
seek_current = 1

abbrev pub seek_set : ℕ
seek_set = 3

-- `VM_WRITE`
abbrev pub vm_write : ℕ
vm_write = 2

module _ {S V : Type 0} where
  unfoldable pub io_init : ℕ → ℕ → Ops S V → Io S V
  io_init kind flags ops = record {
    closed = false;
    refcount = 0;
    flags = flags;
    kind = kind;
    ops = ops;
  }

  -- Whether the pointer is returned, and the object.
  unfoldable pub io_ref : Io S V → Bool × Io S V
  io_ref io =
      if io.closed then (false, io) else (true, record io { refcount = add64 io.refcount 1 })

  unfoldable pub io_unref : Io S V → S → Bool × Io S V × S
  io_unref io s =
      if io.closed
      then (false, io, s)
      else if io.refcount == 0
      then (false, io, s)
      else let io' = record io { refcount = sub64 io.refcount 1 } in
        if io'.refcount == 0
        then elim io.ops.close [
          | some f ↦ (false, record io' { closed = true }, f s)
          | none ↦ (false, io', s)
        ]
        else (true, io', s)

  unfoldable pub io_valid : Io S V → Bool
  io_valid io = not io.closed && ltb 0 io.refcount

  unfoldable pub io_read : Io S V → ℕ → ℕ → S → Option (ℕ × S)
  io_read io buf count s =
      if io.closed
      then some (0, s)
      else if not (has_flag io.flags io_readable)
      then some (0, s)
      else (io.ops.read >>= λ f. some (f buf count s))

  unfoldable pub io_write : Io S V → ℕ → ℕ → S → Option (ℕ × S)
  io_write io buf count s =
      if io.closed
      then some (0, s)
      else if not (has_flag io.flags io_writable)
      then some (0, s)
      else (io.ops.write >>= λ f. some (f buf count s))

  unfoldable pub io_seek : Io S V → ℕ → ℕ → S → Option (ℕ × S)
  io_seek io offset whence s =
      if io.closed
      then some (0, s)
      else if not (has_flag io.flags io_seekable)
      then some (0, s)
      else (io.ops.seek >>= λ f. some (f offset whence s))

  unfoldable pub io_tell : Io S V → S → Option (ℕ × S)
  io_tell io = io_seek io 0 seek_current

  unfoldable pub io_pread : Io S V → ℕ → ℕ → ℕ → S → Option (ℕ × S)
  unfolding io_tell
  io_pread io buf count offset s =
      if io.closed
      then some (0, s)
      else if not (has_flag io.flags io_readable)
      then some (0, s)
      else if not (has_flag io.flags io_seekable)
      then some (0, s)
      else (do
        (old_offset, s₁) ← io_tell io s
        (_, s₂) ← io_seek io offset seek_set s₁
        (ret, s₃) ← io_read io buf count s₂
        (_, s₄) ← io_seek io old_offset seek_set s₃
        some (ret, s₄))

  unfoldable pub io_mmap_perm_check : Io S V → ℕ → Bool → Bool
  io_mmap_perm_check io flags is_private =
      if io.closed
      then false
      else if not (has_flag io.flags io_mmapable)
      then false
      else if not (has_flag io.flags io_readable)
      then false
      else if has_flag flags vm_write
      then is_private || has_flag io.flags io_writable
      else true
