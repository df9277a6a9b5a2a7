-- ===== src/Tests/Sigs.antt =====
-- A thread with four signals, of which SIGCHLD is 3 and the last has no default action.
use mos_moody_hunter.Base.{
  ℕ, ◌-◌, ◌^◌, ◌≡◌, refl, Bool, true, false, some, none, List, [], ◌∷◌, ◌==◌, if◌then◌else◌,
  Returns, arith,
}
use mos_moody_hunter.Signals.{
  SignalName, sigint, sigchld, unnamed, ready, blocked, dead, Thread, dfl, user, Action, Process,
  is_pending, signal_send_to_thread, find_thread, choose_thread, signal_send_to_process,
  signal_get_next_pending,
}
use mos_moody_hunter.Signals.Pending.{IsNext}
use mos_moody_hunter.Signals.Turn.{serve, serve-is_pending}
use mos_moody_hunter.Signals.User.{
  Regs, Current, do_signal_exit_to_user_prepare, signal_exit_to_user_prepare,
}
use mos_moody_hunter.Signals.Return.{IsEntry, handler-restore}
use mos_moody_hunter.Signals.Keeps.{IsValid}
use mos_moody_hunter.Signals.Steps.{receive, leave, Reach, here, next, Reach-IsValid}
use mos_moody_hunter.Signals.Target.{IsSent, signal_send_to_process-IsSent}

abbrev name_of : ℕ → SignalName
name_of s = if s == 2 then sigint else if s == 3 then sigchld else unnamed

abbrev no_action : Action
no_action = record { sa_handler = dfl; restarts = false; sa_restorer = 0 }

abbrev handled : Action
handled = record { sa_handler = user 8192; restarts = true; sa_restorer = 12288 }

abbrev all_clear : List Bool
all_clear = false ∷ false ∷ true ∷ false ∷ false ∷ []

abbrev thread : Current (Unit {0})
thread = record {
  pid = 7;
  is_main = true;
  pending = 2 ∷ 3 ∷ 4 ∷ [];
  masks = all_clear;
  handlers = no_action ∷ handled ∷ no_action ∷ no_action ∷ no_action ∷ [];
  stack_low = 2 ^ 20;
  stack_top = 2 ^ 21;
  frames = λ a. none;
  return_addresses = λ a. none;
}

abbrev regs : Regs (Unit {0})
regs = record { ip = 4096; sp = 2 ^ 21 - 64; di = 0; ax = 0; others = tt }

-- Signal 2 is masked.
three_next : signal_get_next_pending all_clear (2 ∷ 3 ∷ 4 ∷ []) ≡ some (3, 2 ∷ 4 ∷ [])
unfolding signal_get_next_pending
three_next = refl

serve_example : Returns (serve 3 all_clear (2 ∷ 3 ∷ 4 ∷ [])) (λ out. is_pending 4 out ≡ true)
serve_example = serve-is_pending 2 all_clear (2 ∷ 3 ∷ []) 4 [] (omega arith) refl refl

handler-restore_example :
    Returns
      (do_signal_exit_to_user_prepare name_of 200 16 thread regs 1 handled)
      (IsEntry 200 16 thread regs 1 8192 12288)
handler-restore_example =
    handler-restore 200 16 thread regs name_of 1 handled 8192 (omega arith) (omega arith) refl

-- Signal 1 arrives, and signal 3 is taken, which has no effect.
abbrev waiting : List ℕ → Current (Unit {0})
waiting pending = record thread { pending = pending }

run : Reach 5 name_of 200 16 4 thread (waiting (2 ∷ 4 ∷ 1 ∷ []))
unfolding is_pending signal_exit_to_user_prepare
run =
    next (next here (receive thread 1 (omega arith) (omega arith)))
      (leave (waiting (2 ∷ 3 ∷ 4 ∷ 1 ∷ [])) (waiting (2 ∷ 4 ∷ 1 ∷ [])) regs regs refl)

thread-IsValid : IsValid 5 thread
unfolding is_pending
thread-IsValid = (refl, omega arith, (refl, (refl, (refl, tt))))

Reach-IsValid_example :
    IsValid 5 (waiting (2 ∷ 4 ∷ 1 ∷ []))
    × Returns
        (signal_get_next_pending all_clear (2 ∷ 4 ∷ 1 ∷ []))
        (IsNext all_clear (2 ∷ 4 ∷ 1 ∷ []))
Reach-IsValid_example = Reach-IsValid 5 name_of 200 16 4 run thread-IsValid

abbrev sleeper : ℕ → Thread
sleeper tid = record {
  tid = tid;
  kernel_mode = false;
  state = blocked;
  pending = [];
  masks = all_clear;
}

abbrev process : Process
process = record {
  pid = 7;
  threads = record (sleeper 70) { state = dead } ∷ sleeper 71 ∷ sleeper 72 ∷ [];
  handlers = [];
}

second_woken :
    signal_send_to_process name_of 9 process 2
    ≡ some (
      true,
      record process {
        threads =
            record (sleeper 70) { state = dead }
            ∷ record (sleeper 71) { state = ready; pending = 2 ∷ [] }
            ∷ sleeper 72
            ∷ [];
      },
    )
unfolding signal_send_to_process choose_thread find_thread signal_send_to_thread is_pending
second_woken = refl

signal_send_to_process_example :
    Returns (signal_send_to_process name_of 9 process 2) (IsSent 9 process 2)
signal_send_to_process_example =
    signal_send_to_process-IsSent name_of 9 process 2 (refl, (refl, (refl, tt))) (λ h. omega arith)
      (λ h. refl)
