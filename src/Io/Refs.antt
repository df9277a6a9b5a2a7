-- ===== src/Io/Refs.antt =====
-- The life of an I/O object under references taken and dropped.
use mos_moody_hunter.Base.{
  ℕ, zero, suc, ◌-◌, ◌^◌, ◌<◌, ◌≡◌, true, false, some, List, [], ◌∷◌, length, sub64, arith,
}
use mos_moody_hunter.Io.{Io, io_ref, io_unref}

-- A holder takes a reference or drops one.
pub data RefOp : Type 0 where
  ref unref : RefOp

-- What the object is to its holders: open with so many references, or gone.
pub data Life : Type 0 where
  held : ℕ → Life
  gone : Life

abbrev pub live : Life → RefOp → Life
live (held n) ref = held (suc n)
live (held zero) unref = held zero
live (held (suc zero)) unref = gone
live (held (suc (suc n))) unref = held (suc n)
live gone op = gone

abbrev pub lives : Life → List RefOp → Life
lives l [] = l
lives l (op ∷ ops) = lives (live l op) ops

-- Fewer references than `n`.
abbrev pub IsBelow : ℕ → Life → Type 0
IsBelow n (held m) = m < n
IsBelow n gone = Unit {0}

IsBelow-mono : (k : ℕ) (l : Life) → IsBelow (2 ^ 64 - suc k) l → IsBelow (2 ^ 64 - 1) l
IsBelow-mono k (held n) h = omega arith
IsBelow-mono k gone h = tt

live-IsBelow :
    (k : ℕ) (l : Life) (op : RefOp) → IsBelow (2 ^ 64 - suc k) l → IsBelow (2 ^ 64 - k) (live l op)
live-IsBelow k (held n) ref h = omega arith
live-IsBelow k (held zero) unref h = omega arith
live-IsBelow k (held (suc zero)) unref h = tt
live-IsBelow k (held (suc (suc n))) unref h = omega arith
live-IsBelow k gone ref h = tt
live-IsBelow k gone unref h = tt

module _ {S V : Type 0} where
  unfoldable pub apply_op : Io S V → S → RefOp → Io S V × S
  apply_op io s ref = ((io_ref io).1, s)
  apply_op io s unref = let (kept, io', s') = io_unref io s in (io', s')

  unfoldable pub apply_ops : Io S V → S → List RefOp → Io S V × S
  apply_ops io s [] = (io, s)
  apply_ops io s (op ∷ ops) = let (io', s') = apply_op io s op in apply_ops io' s' ops

  -- `s` is what the callbacks' state was while the object was open, `f` its close callback.
  abbrev pub Shows : (S → S) → S → Life → Io S V → S → Type 0
  Shows f s (held n) io s' =
      (io.closed ≡ false) × (io.refcount ≡ n) × (s' ≡ s) × (io.ops.close ≡ some f)
  Shows f s gone io s' = (io.closed ≡ true) × (s' ≡ f s)

  apply_op-Shows :
      (f : S → S) (s : S) (l : Life) (io : Io S V) (s' : S) (op : RefOp)
      → IsBelow (2 ^ 64 - 1) l
      → Shows f s l io s'
      → Shows f s (live l op) (apply_op io s' op).0 (apply_op io s' op).1
  unfolding apply_op io_ref io_unref
  apply_op-Shows f s (held n) io s' ref small h = ground arith
  apply_op-Shows f s (held zero) io s' unref small h = ground arith
  apply_op-Shows f s (held (suc zero)) io s' unref small h =
      let one : sub64 io.refcount 1 ≡ 0 = omega arith in ground arith
  apply_op-Shows f s (held (suc (suc n))) io s' unref small h =
      let less : sub64 io.refcount 1 ≡ suc n = omega arith in ground arith
  apply_op-Shows f s gone io s' ref small h = ground arith
  apply_op-Shows f s gone io s' unref small h = ground arith

  -- An object with a close callback is, to its holders, open with the number of references taken and
  -- not dropped until the last one is dropped, and gone from then on, whatever is taken or dropped
  -- later: its count is exact while it is open, and the callback runs once, at the step that closes
  -- it. Fewer than 2 ^ 64 references are taken.
  pub apply_ops-Shows :
      (f : S → S) (s : S) (l : Life) (io : Io S V) (s' : S) (ops : List RefOp)
      → IsBelow (2 ^ 64 - length ops) l
      → Shows f s l io s'
      → Shows f s (lives l ops) (apply_ops io s' ops).0 (apply_ops io s' ops).1
  unfolding apply_ops
  apply_ops-Shows f s l io s' [] small h = h
  apply_ops-Shows f s l io s' (op ∷ ops) small h =
      apply_ops-Shows f s (live l op) (apply_op io s' op).0 (apply_op io s' op).1 ops
        (live-IsBelow (length ops) l op small)
        (apply_op-Shows f s l io s' op (IsBelow-mono (length ops) l small) h)
