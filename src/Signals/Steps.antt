-- ===== src/Signals/Steps.antt =====
-- The runs of a thread that receives signals, goes back to user mode and returns from handlers.
use mos_moody_hunter.Base.{ℕ, ◌<◌, ◌≡◌, Option, some, Returns}
use mos_moody_hunter.Signals.{SignalName, add_pending, signal_get_next_pending}
use mos_moody_hunter.Signals.Pending.{
  IsNext, signal_get_next_pending-IsNext, add_pending-IsDistinct, add_pending-InRange,
}
use mos_moody_hunter.Signals.User.{
  Regs, SigreturnData, Current, to_user, signal_exit_to_user_prepare,
  signal_exit_to_user_prepare_syscall, platform_restore_from_signal_handler,
}
use mos_moody_hunter.Signals.Keeps.{
  IsValid, ExitsValid, Ensures-eq, leave-ExitsValid, leave_syscall-ExitsValid, restore-ExitsValid,
}

module _ {R : Type 0} (nsig : ℕ) where
  module _ (name_of : ℕ → SignalName) (regs_size data_size eintr : ℕ) where
    -- A thread that runs: a signal arrives, it goes back to user mode from an interrupt or a system call, or
    -- a handler has returned. Between these, the user program changes its registers as it likes, and its
    -- memory, with the frames on it.
    pub data Step : Current R → Current R → Type 0 where
      receive :
          (c : Current R) (s : ℕ)
          → 0 < s
          → s < nsig
          → Step c (record c { pending = add_pending s c.pending })
      leave :
          (c c' : Current R) (regs regs' : Regs R)
          → signal_exit_to_user_prepare name_of regs_size data_size c regs ≡ some (to_user regs' c')
          → Step c c'
      leave_syscall :
          (c c' : Current R) (regs regs' : Regs R) (syscall_nr syscall_ret : ℕ)
          → signal_exit_to_user_prepare_syscall name_of regs_size data_size eintr c regs syscall_nr
              syscall_ret
            ≡ some (to_user regs' c')
          → Step c c'
      back :
          (c c' : Current R) (sp : ℕ) (regs' : Regs R)
          → platform_restore_from_signal_handler regs_size data_size c sp ≡ some (to_user regs' c')
          → Step c c'
      scribble :
          (c : Current R) (frames : ℕ → Option (Regs R × SigreturnData))
          (return_addresses : ℕ → Option ℕ)
          → Step c (record c { frames = frames; return_addresses = return_addresses })

    pub data Reach (c : Current R) : Current R → Type 0 where
      here : Reach c c
      next : {d e : Current R} → Reach c d → Step d e → Reach c e

    Step-IsValid : {c d : Current R} → Step c d → IsValid nsig c → IsValid nsig d
    Step-IsValid (receive c s h h') v =
        (v.0, add_pending-InRange nsig s c.pending v.1 h h', add_pending-IsDistinct s c.pending v.2)
    Step-IsValid (leave c c' regs regs' e) v =
        Ensures-eq (ExitsValid nsig) _ (to_user regs' c')
          (leave-ExitsValid nsig name_of regs_size data_size eintr c regs v) e
    Step-IsValid (leave_syscall c c' regs regs' n r e) v =
        Ensures-eq (ExitsValid nsig) _ (to_user regs' c')
          (leave_syscall-ExitsValid nsig name_of regs_size data_size eintr c regs n r v) e
    Step-IsValid (back c c' sp regs' e) v =
        Ensures-eq (ExitsValid nsig) _ (to_user regs' c')
          (restore-ExitsValid nsig name_of regs_size data_size eintr c sp v) e
    Step-IsValid (scribble c frames return_addresses) v = v

    -- In every state that a thread reaches from one in which the mask array has `nsig` entries and the pending
    -- signals are between 1 and `nsig - 1`, none twice, by receiving such signals, going back to user
    -- mode from interrupts and system calls, returning from handlers and changing its memory, this holds
    -- again; so `signal_get_next_pending` does not fault there.
    pub Reach-IsValid :
        {c d : Current R}
        → Reach c d
        → IsValid nsig c
        → IsValid nsig d
          × Returns (signal_get_next_pending d.masks d.pending) (IsNext d.masks d.pending)
    Reach-IsValid r v = let w = go r v in (w, signal_get_next_pending-IsNext _ _ (rw w.0 w.1))
      where
        go : {c d : Current R} → Reach c d → IsValid nsig c → IsValid nsig d
        go here v = v
        go (next r s) v = Step-IsValid s (go r v)
