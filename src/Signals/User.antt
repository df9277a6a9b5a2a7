-- ===== src/Signals/User.antt =====
-- What happens to a signal when the current thread goes back to user mode: the rest of
-- kernel/tasks/signal.c, and arch/x86_64/x86_platform_api.c. `regs_size` and `data_size` are the sizes
-- of the two structs that a handler's frame holds; a frame is kept whole at the address of its lower
-- end, where the second of them lies.
use mos_moody_hunter.Base.{
  ℕ, ◌-◌, ◌^◌, Bool, true, false, not, Option, none, some, List, ◌==◌, if◌then◌else◌, ◌>>=◌,
  get_elem?, set, length, ltb, add64, sub64,
}
use mos_moody_hunter.Signals.{
  SignalName, sigint, sigill, sigtrap, sigabrt, sigkill, sigsegv, sigterm, sigchld, sigpipe,
  unnamed, dfl, ign, user, Action, is_fatal_signal, signal_get_next_pending,
}

-- `platform_regs_t`: the registers that the code names; `R` holds the others.
pub record Regs (R : Type 0) : Type 0 where
  pub ip : ℕ
  pub sp : ℕ
  pub di : ℕ
  pub ax : ℕ
  pub others : R

-- `sigreturn_data_t`
pub record SigreturnData : Type 0 where
  pub signal : ℕ
  pub was_masked : Bool

-- The current thread and its process. The user stack has the addresses from `stack_low` to
-- `stack_top`, and on it are the frames of handlers and the return addresses below them.
pub record Current (R : Type 0) : Type 0 where
  pub pid : ℕ
  pub is_main : Bool
  pub pending : List ℕ
  pub masks : List Bool
  pub handlers : List Action
  pub stack_low : ℕ
  pub stack_top : ℕ
  pub frames : ℕ → Option (Regs R × SigreturnData)
  pub return_addresses : ℕ → Option ℕ

-- How the kernel is left. Only a main thread ends its process.
pub data Exit (R : Type 0) : Type 0 where
  process_exit : ℕ → Exit R
  thread_exit : Exit R
  to_user : Regs R → Current R → Exit R

-- `ERESTARTSYS`
abbrev pub erestartsys : ℕ
erestartsys = 512

module _ {R : Type 0} where
  -- `signal_do_coredump` and `signal_do_terminate`
  unfoldable pub signal_do_terminate : Current R → ℕ → Exit R
  signal_do_terminate c signal = if c.is_main then process_exit signal else thread_exit

  -- The handler of a signal that has the default action.
  unfoldable pub default_action : Current R → Regs R → ℕ → SignalName → Option (Exit R)
  unfolding signal_do_terminate
  default_action c regs signal sigint = some (signal_do_terminate c signal)
  default_action c regs signal sigill = some (signal_do_terminate c signal)
  default_action c regs signal sigtrap = some (signal_do_terminate c signal)
  default_action c regs signal sigabrt = some (signal_do_terminate c signal)
  default_action c regs signal sigkill = some (signal_do_terminate c signal)
  default_action c regs signal sigsegv = some (signal_do_terminate c signal)
  default_action c regs signal sigterm = some (signal_do_terminate c signal)
  default_action c regs signal sigchld = some (to_user regs c)
  default_action c regs signal sigpipe = some (signal_do_terminate c signal)
  default_action c regs signal unnamed = none

  -- The new head after `stack_push_val`, and after `stack_pop_val`, of so many bytes
  -- (kernel/lib/structures/stack.c). `none` is their panic.
  unfoldable pub push_head : Current R → ℕ → ℕ → Option ℕ
  push_head c head size = if ltb (sub64 head c.stack_low) size then none else some (sub64 head size)

  unfoldable pub pop_head : Current R → ℕ → ℕ → Option ℕ
  pop_head c head size = if ltb (sub64 head c.stack_top) size then none else some (add64 head size)

  unfoldable pub platform_jump_to_signal_handler :
      ℕ → ℕ → Current R → Regs R → SigreturnData → ℕ → ℕ → Option (Exit R)
  unfolding push_head
  platform_jump_to_signal_handler regs_size data_size c regs sigreturn_data sa_handler sa_restorer =
      do
        head₁ ← push_head c (sub64 regs.sp 128) regs_size
        head₂ ← push_head c head₁ data_size
        head₃ ← push_head c head₂ 8
        some (
            to_user (record regs { ip = sa_handler; di = sigreturn_data.signal; sp = head₃ })
              (record c {
                frames = λ a. if a == head₂ then some (regs, sigreturn_data) else c.frames a;
                return_addresses =
                    λ a. if a == head₃ then some sa_restorer else c.return_addresses a;
              }))

  unfoldable pub do_signal_exit_to_user_prepare :
      (ℕ → SignalName) → ℕ → ℕ → Current R → Regs R → ℕ → Action → Option (Exit R)
  unfolding default_action is_fatal_signal platform_jump_to_signal_handler
  do_signal_exit_to_user_prepare name_of regs_size data_size c regs next_signal action =
      elim action.sa_handler [
        | dfl ↦ do
          spared ←
              (if c.pid == 1
                then (is_fatal_signal (name_of next_signal) >>= λ fatal. some (not fatal))
                else some false)
          if spared
              then some (to_user regs c)
              else default_action c regs next_signal (name_of next_signal)
        | ign ↦ some (to_user regs c)
        | user sa_handler ↦ do
          was_masked ← get_elem? c.masks next_signal
          platform_jump_to_signal_handler regs_size data_size
              (record c { masks = if was_masked then c.masks else set c.masks next_signal true })
              regs (record { signal = next_signal; was_masked = was_masked }) sa_handler
              action.sa_restorer
      ]

  unfoldable pub signal_exit_to_user_prepare :
      (ℕ → SignalName) → ℕ → ℕ → Current R → Regs R → Option (Exit R)
  unfolding do_signal_exit_to_user_prepare signal_get_next_pending
  signal_exit_to_user_prepare name_of regs_size data_size c regs = do
    (next_signal, pending) ← signal_get_next_pending c.masks c.pending
    let c' = record c { pending = pending }
    if next_signal == 0 then some (to_user regs c') else (do
      action ← get_elem? c.handlers next_signal
      do_signal_exit_to_user_prepare name_of regs_size data_size c' regs next_signal action)

  -- `platform_syscall_store_retval` and `platform_syscall_setup_restart_context`
  unfoldable pub store_retval : Regs R → ℕ → Regs R
  store_retval regs result = record regs { ax = result }

  unfoldable pub setup_restart_context : Regs R → ℕ → Regs R
  setup_restart_context regs syscall_nr = record regs { ax = syscall_nr; ip = sub64 regs.ip 2 }

  -- `eintr` is the C library's EINTR.
  unfoldable pub signal_exit_to_user_prepare_syscall :
      (ℕ → SignalName) → ℕ → ℕ → ℕ → Current R → Regs R → ℕ → ℕ → Option (Exit R)
  unfolding do_signal_exit_to_user_prepare signal_get_next_pending store_retval
      setup_restart_context
  signal_exit_to_user_prepare_syscall name_of regs_size data_size eintr c regs syscall_nr
        syscall_ret =
      do
        (next_signal, pending) ← signal_get_next_pending c.masks c.pending
        action ← get_elem? c.handlers next_signal
        let c' = record c { pending = pending }
        let prepare = λ (r : Regs R).
            do_signal_exit_to_user_prepare name_of regs_size data_size c' r next_signal action
        if syscall_ret == 2 ^ 64 - erestartsys
            then (if next_signal == 0
                then none
                else if action.restarts
                then prepare (setup_restart_context regs syscall_nr)
                else prepare (store_retval regs (2 ^ 64 - eintr)))
            else (if next_signal == 0
                then some (to_user (store_retval regs syscall_ret) c')
                else prepare (store_retval regs syscall_ret))

  unfoldable pub signal_on_returned : Current R → SigreturnData → Option (Current R)
  signal_on_returned c r =
      if r.was_masked
      then some c
      else if ltb r.signal (length c.masks)
      then some (record c { masks = set c.masks r.signal false })
      else none

  -- `none` also where no frame begins at the address.
  unfoldable pub platform_restore_from_signal_handler : ℕ → ℕ → Current R → ℕ → Option (Exit R)
  unfolding pop_head signal_on_returned
  platform_restore_from_signal_handler regs_size data_size c sp = do
    (regs, r) ← c.frames sp
    head ← pop_head c sp data_size
    head' ← pop_head c head regs_size
    c' ← signal_on_returned c r
    some (to_user regs c')
