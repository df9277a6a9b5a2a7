-- ===== src/Signals.antt =====
-- kernel/tasks/signal.c, with the entry to a handler and the return from it of
-- arch/x86_64/x86_platform_api.c and `process_register_signal_handler` of kernel/tasks/process.c.
-- The numbers of the signals, and which of them a number names, are of the C library (`abi-bits`):
-- `name_of`. `none` is an access outside of an array or a panic. What a thread's locks protect is
-- changed in one step.
pub mod User
pub mod Pending
pub mod Turn
pub mod Return
pub mod Keeps
pub mod Steps
pub mod Choice
pub mod Target
pub mod Default
use mos_moody_hunter.Base.{
  ℕ, suc, ◌+◌, ◌-◌, ◌^◌, Bool, true, false, not, ◌&&◌, ◌||◌, Option, none, some, List, [], ◌∷◌,
  ◌++◌, ltb, ◌==◌, if◌then◌else◌, ◌>>=◌, get_elem?, set, length,
}

-- The signals that the code names.
pub data SignalName : Type 0 where
  sigint : SignalName
  sigill : SignalName
  sigtrap : SignalName
  sigabrt : SignalName
  sigkill : SignalName
  sigsegv : SignalName
  sigterm : SignalName
  sigchld : SignalName
  sigpipe : SignalName
  unnamed : SignalName

-- `thread_state_t`
pub data ThreadState : Type 0 where
  created : ThreadState
  ready : ThreadState
  running : ThreadState
  noninterruptible : ThreadState
  blocked : ThreadState
  dead : ThreadState

-- `thread_t`, what signals need of it. `pending` holds the signals of the list's nodes.
pub record Thread : Type 0 where
  pub tid : ℕ
  pub kernel_mode : Bool
  pub state : ThreadState
  pub pending : List ℕ
  pub masks : List Bool

-- `sa_handler`: SIG_DFL, SIG_IGN or an address.
pub data Handler : Type 0 where
  dfl : Handler
  ign : Handler
  user : ℕ → Handler

-- `sigaction_t`: the handler, whether SA_RESTART is set, and the restorer's address.
pub record Action : Type 0 where
  pub sa_handler : Handler
  pub restarts : Bool
  pub sa_restorer : ℕ

-- `process_t`, what signals need of it.
pub record Process : Type 0 where
  pub pid : ℕ
  pub threads : List Thread
  pub handlers : List Action

unfoldable pub is_fatal_signal : SignalName → Option Bool
is_fatal_signal sigill = some true
is_fatal_signal sigtrap = some true
is_fatal_signal sigabrt = some true
is_fatal_signal sigkill = some true
is_fatal_signal sigsegv = some true
is_fatal_signal sigint = some false
is_fatal_signal sigterm = some false
is_fatal_signal sigchld = some false
is_fatal_signal sigpipe = some false
is_fatal_signal unnamed = none

-- The loop that looks for the signal among the pending ones.
unfoldable pub is_pending : ℕ → List ℕ → Bool
is_pending signal [] = false
is_pending signal (s ∷ ss) = s == signal || is_pending signal ss

abbrev pub add_pending : ℕ → List ℕ → List ℕ
add_pending signal pending = if is_pending signal pending then pending else pending ++ signal ∷ []

-- Whether 0 and not -EINVAL is returned, and the thread.
unfoldable pub signal_send_to_thread : (ℕ → SignalName) → Thread → ℕ → Option (Bool × Thread)
unfolding is_fatal_signal
signal_send_to_thread name_of target signal = do
  refused ←
      (if target.kernel_mode
        then (is_fatal_signal (name_of signal) >>= λ fatal. some (not fatal))
        else some false)
  if refused
      then some (false, target)
      else some (true, record target { pending = add_pending signal target.pending })

-- The states of the first search for a thread of a process.
abbrev pub is_runnable : ThreadState → Bool
is_runnable created = true
is_runnable ready = true
is_runnable running = true
is_runnable noninterruptible = false
is_runnable blocked = false
is_runnable dead = false

abbrev pub is_blocked : ThreadState → Bool
is_blocked blocked = true
is_blocked created = false
is_blocked ready = false
is_blocked running = false
is_blocked noninterruptible = false
is_blocked dead = false

-- The place of the first thread in such a state.
unfoldable pub find_thread : (ThreadState → Bool) → List Thread → Option ℕ
find_thread wanted [] = none
find_thread wanted (t ∷ ts) =
    let rest = find_thread wanted ts in
    if wanted t.state then some 0 else (rest >>= λ i. some (suc i))

unfoldable pub choose_thread : List Thread → Option ℕ
unfolding find_thread
choose_thread threads = elim (find_thread is_runnable threads) [
  | some i ↦ some i
  | none ↦ find_thread is_blocked threads
]

-- A blocked thread that is not the current one becomes ready.
abbrev pub woken : ℕ → Thread → Thread
woken current t =
    if not (t.tid == current) && is_blocked t.state then record t { state = ready } else t

abbrev pub is_sigkill : SignalName → Bool
is_sigkill name = elim name [ sigkill ↦ true | _ ↦ false ]

-- `current` is the thread that runs. Whether 0 and not -EINVAL is returned, and the process.
unfoldable pub signal_send_to_process : (ℕ → SignalName) → ℕ → Process → ℕ → Option (Bool × Process)
unfolding choose_thread signal_send_to_thread
signal_send_to_process name_of current target signal =
    if target.pid == 1 && is_sigkill (name_of signal)
    then some (false, target)
    else if target.pid == 2
    then some (false, target)
    else elim (choose_thread target.threads) [
      | none ↦ some (false, target)
      | some i ↦ do
        t ← get_elem? target.threads i
        (ok, t') ← signal_send_to_thread name_of t signal
        some (true, record target { threads = set target.threads i (woken current t') })
    ]

-- The signal, or 0, and the signals that stay.
unfoldable pub signal_get_next_pending : List Bool → List ℕ → Option (ℕ × List ℕ)
signal_get_next_pending masks [] = some (0, [])
signal_get_next_pending masks (s ∷ ss) =
    let rest = signal_get_next_pending masks ss in
    get_elem? masks s >>= λ masked.
    if masked then (rest >>= λ (n, ss'). some (n, s ∷ ss')) else some (s, ss)

unfoldable pub signal_has_pending : Thread → Bool
signal_has_pending t = elim t.pending [ [] ↦ false | s ∷ ss ↦ true ]

-- `process_register_signal_handler`; a null pointer resets to the default.
unfoldable pub process_register_signal_handler :
    Process → ℕ → Option Action → Option (Bool × Process)
process_register_signal_handler process sig action =
    let new : Action = elim action [
      | none ↦ record { sa_handler = dfl; restarts = false; sa_restorer = 0 }
      | some a ↦ a
    ] in
    if ltb sig (length process.handlers)
    then some (true, record process { handlers = set process.handlers sig new })
    else none
