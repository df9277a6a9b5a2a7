-- ===== src/Tests/Ios.antt =====
-- An object that counts how often it was closed, and a file with a position.
use mos_moody_hunter.Base.{
  ℕ, ◌+◌, ◌≡◌, refl, false, some, none, List, [], ◌∷◌, ◌==◌, if◌then◌else◌, arith,
}
use mos_moody_hunter.Io.{Io, io_ref, io_unref, io_pread, io_read, io_seek, io_tell, seek_set}
use mos_moody_hunter.Io.Refs.{
  RefOp, ref, unref, held, lives, apply_op, apply_ops, Shows, apply_ops-Shows,
}
use mos_moody_hunter.Io.Seek.{Seeks}

abbrev counted : Io ℕ ℕ
counted = record {
  closed = false;
  refcount = 0;
  flags = 0;
  kind = 0;
  ops = record {
    read = none;
    write = none;
    close = some (λ n. n + 1);
    seek = none;
    mmap = none;
    munmap = none;
  };
}

abbrev visits : List RefOp
visits = ref ∷ ref ∷ unref ∷ unref ∷ ref ∷ unref ∷ []

closed_once : (apply_ops counted 0 visits).1 ≡ 1
unfolding apply_ops apply_op io_ref io_unref
closed_once = refl

apply_ops_example :
    Shows
      (λ n. n + 1)
      0
      (lives (held 0) visits)
      (apply_ops counted 0 visits).0
      (apply_ops counted 0 visits).1
apply_ops_example =
    apply_ops-Shows (λ n. n + 1) 0 (held 0) counted 0 visits (omega arith) (refl, refl, refl, refl)

-- The state is the position; a read moves it behind the bytes.
abbrev seek_to : ℕ → ℕ → ℕ → ℕ × ℕ
seek_to offset whence s = if whence == seek_set then (offset, offset) else (s, s)

abbrev read_on : ℕ → ℕ → ℕ → ℕ × ℕ
read_on buf count s = (count, s + count)

abbrev file : Io ℕ ℕ
file = record counted {
  flags = 9;
  ops = record {
    read = some read_on;
    write = none;
    close = none;
    seek = some seek_to;
    mmap = none;
    munmap = none;
  };
}

pread_at_ten : io_pread file 0 4 10 3 ≡ some (4, 3)
unfolding io_pread io_tell io_seek io_read
pread_at_ten = refl

seek_to-Seeks : Seeks seek_to (λ s. s)
seek_to-Seeks = record { set = λ offset s. refl; tell = λ s. refl }
