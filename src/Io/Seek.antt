-- ===== src/Io/Seek.antt =====
-- `io_pread` on an object whose seek callback moves a position.
use mos_moody_hunter.Base.{
  ℕ, ◌≡◌, refl, true, false, some, if◌then◌else◌, ◌>>=◌, has_flag, Returns, not,
}
use mos_moody_hunter.Io.{
  Io, io_readable, io_seekable, seek_current, seek_set, io_read, io_seek, io_tell, io_pread,
}

-- What a file's seek callback does with its position: to the offset that is given, or nowhere; both
-- return the position.
pub record Seeks {S : Type 0} (seek : ℕ → ℕ → S → ℕ × S) (position : S → ℕ) : Type 0 where
  pub set : (offset : ℕ) (s : S) → position (seek offset seek_set s).1 ≡ offset
  pub tell : (s : S) → seek 0 seek_current s ≡ (position s, s)

-- On an open object that can be read and sought, `io_pread` returns what the read callback returns
-- after a seek to the offset, and leaves the position where it was, wherever the read left it.
pub io_pread-keeps_position :
    {S V : Type 0} (io : Io S V) (buf count offset : ℕ) (s : S) (position : S → ℕ)
    (seek read : ℕ → ℕ → S → ℕ × S)
    → io.closed ≡ false
    → has_flag io.flags io_readable ≡ true
    → has_flag io.flags io_seekable ≡ true
    → io.ops.seek ≡ some seek
    → io.ops.read ≡ some read
    → Seeks seek position
    → Returns
        (io_pread io buf count offset s)
        (λ r. (r.0 ≡ (read buf count (seek offset seek_set s).1).0) × (position r.1 ≡ position s))
unfolding io_pread io_tell io_seek io_read
io_pread-keeps_position {S} io buf count offset s position seek read opened readable seekable
      has_seek has_read sk =
    let after : S = (read buf count (seek offset seek_set s).1).1 in
    (
      ((read buf count (seek offset seek_set s).1).0, (seek (position s) seek_set after).1),
      simp (opened, readable, seekable, has_seek, has_read, sk.tell s, if◌then◌else◌, ◌>>=◌, not),
      (refl, sk.set (position s) after),
    )
