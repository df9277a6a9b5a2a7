-- ===== src/Signals/Target.antt =====
-- What the chosen thread of a process has when a signal has been sent to it.
use mos_moody_hunter.Base.{
  ℕ, ◌≡◌, ◌≢◌, ◌⊎◌, inl, inr, refl, ap, Bool, true, false, ◌&&◌, none, some, List, [], ◌∷◌, ◌++◌,
  ◌==◌, if◌then◌else◌, get_elem?, set, arith, Bool-cases, Option-cases, Returns,
}
use mos_moody_hunter.Signals.{
  SignalName, ThreadState, ready, blocked, Thread, Process, is_pending, add_pending,
  signal_send_to_thread, choose_thread, is_sigkill, woken, signal_send_to_process,
}
use mos_moody_hunter.Signals.Choice.{
  IsAwake, IsBlocked, NoThread, AreUser, IsChosen, Chosen, choose_thread-Chosen, IsFirst-get,
  IsFirst-user, IsFirst-wanted, is_blocked-Decides,
}

abbrev pub Absent : ℕ → List ℕ → Type 0
Absent s [] = Unit {0}
Absent s (x ∷ xs) = (x ≢ s) × Absent s xs

-- The pending signals after `signal` has arrived: those of before, if it was among them, and else it is
-- behind them.
abbrev pub Received : ℕ → List ℕ → List ℕ → Type 0
Received signal before after =
    ((xs : List ℕ) × (ys : List ℕ) × (before ≡ xs ++ signal ∷ ys) × (after ≡ before))
    ⊎ (Absent signal before × (after ≡ before ++ signal ∷ []))

is_pending-cases :
    (s : ℕ) (before : List ℕ)
    → ((is_pending s before ≡ true) × ((xs : List ℕ) × (ys : List ℕ) × (before ≡ xs ++ s ∷ ys)))
      ⊎ ((is_pending s before ≡ false) × Absent s before)
unfolding is_pending
is_pending-cases s [] = inr (refl, tt)
is_pending-cases s (x ∷ before) = elim (Bool-cases (x == s)) [
  | inl here ↦
      let same : x ≡ s = ground (arith, here) in
      inl (rw here refl, ([], before, ap (λ y. y ∷ before) same))
  | inr other ↦ elim (is_pending-cases s before) [
    | inl (there, (xs, ys, e)) ↦ inl (rw (other, there) refl, (x ∷ xs, ys, ap (◌∷◌ x) e))
    | inr (absent, a) ↦ inr (rw (other, absent) refl, (λ same. ground (arith, other, same), a))
  ]
]

add_pending-Received : (s : ℕ) (xs : List ℕ) → Received s xs (add_pending s xs)
add_pending-Received s xs = elim (is_pending-cases s xs) [
  | inl (there, (ys, zs, e)) ↦ rw (there, if◌then◌else◌) (inl (ys, zs, e, refl))
  | inr (absent, a) ↦ rw (absent, if◌then◌else◌) (inr (a, refl))
]

-- The state of the thread that has received the signal: a blocked one that is not the current one is ready.
abbrev pub Wakes : ℕ → Thread → ThreadState → Type 0
Wakes current t after =
    (IsAwake t.state × (after ≡ t.state))
    ⊎ (IsBlocked t.state
        × (((t.tid ≡ current) × (after ≡ blocked)) ⊎ ((t.tid ≢ current) × (after ≡ ready))))

woken-Wakes :
    (current : ℕ) (t : Thread) (pending : List ℕ)
    → IsAwake t.state ⊎ IsBlocked t.state
    → (after : ThreadState) × Wakes current t after
      × (woken current (record t { pending = pending })
          ≡ record t { pending = pending; state = after })
woken-Wakes current t pending h = elim (is_blocked-Decides t.state) [
  | inr (awake, other) ↦ elim h [
    | inr b ↦ absurd (other b)
    | inl a ↦ elim (Bool-cases (t.tid == current)) [
      | inl me ↦ (t.state, inl (a, refl), rw (me, if◌then◌else◌) refl)
      | inr away ↦ (t.state, inl (a, refl), rw (away, awake, if◌then◌else◌) refl)
    ]
  ]
  | inl (sleeps, b) ↦ elim (Bool-cases (t.tid == current)) [
    | inl me ↦
        let self : t.tid ≡ current = ground (arith, me) in
        (
          blocked,
          inr (b, inl (self, refl)),
          rw (me, if◌then◌else◌) (ap (λ st. record t { pending = pending; state = st }) b),
        )
    | inr away ↦ (
      ready,
      inr (b, inr (λ self. ground (arith, away, self), refl)),
      rw (away, sleeps, if◌then◌else◌) refl,
    )
  ]
]

chosen_thread :
    (ts : List Thread) (i : ℕ) (t : Thread)
    → AreUser ts
    → IsChosen ts i t
    → (get_elem? ts i ≡ some t) × (t.kernel_mode ≡ false) × (IsAwake t.state ⊎ IsBlocked t.state)
chosen_thread ts i t a (inl f) = (
  IsFirst-get IsAwake ts i t f,
  IsFirst-user IsAwake ts i t a f,
  inl (IsFirst-wanted IsAwake ts i t f),
)
chosen_thread ts i t a (inr f) = (
  IsFirst-get IsBlocked ts i t f.1,
  IsFirst-user IsBlocked ts i t a f.1,
  inr (IsFirst-wanted IsBlocked ts i t f.1),
)

send_user :
    (name_of : ℕ → SignalName) (t : Thread) (signal : ℕ)
    → t.kernel_mode ≡ false
    → signal_send_to_thread name_of t signal
      ≡ some (true, record t { pending = add_pending signal t.pending })
unfolding signal_send_to_thread
send_user name_of t signal h = rw h refl

-- What the process and the caller get.
abbrev pub IsSent : ℕ → Process → ℕ → Bool × Process → Type 0
IsSent current p signal (false, p') =
    (p' ≡ p) × NoThread IsAwake p.threads × NoThread IsBlocked p.threads
IsSent current p signal (true, p') =
    (i : ℕ) × (t : Thread) × (pending : List ℕ) × (state : ThreadState) × IsChosen p.threads i t
    × Received signal t.pending pending
    × Wakes current t state
    × (p' ≡ record p { threads = set p.threads i (record t { pending = pending; state = state }) })

-- A signal is sent to a process of user-mode threads that is neither the kernel's (pid 2) nor, for SIGKILL,
-- init (pid 1). It goes to the first thread that is created, ready or running or, if there is no such
-- thread, to the first blocked one, which is ready then unless it is the current one. The thread's
-- pending signals are those of before, with this one behind them if it was not there; nothing else
-- changes. If there is no thread of either kind, the call fails and changes nothing.
pub signal_send_to_process-IsSent :
    (name_of : ℕ → SignalName) (current : ℕ) (p : Process) (signal : ℕ)
    → AreUser p.threads
    → p.pid ≢ 2
    → (p.pid ≡ 1 → is_sigkill (name_of signal) ≡ false)
    → Returns (signal_send_to_process name_of current p signal) (IsSent current p signal)
unfolding signal_send_to_process
signal_send_to_process-IsSent name_of current p signal users other init =
    let allowed : (p.pid == 1 && is_sigkill (name_of signal)) ≡ false = ground (arith, init) in
    let not_second : (p.pid == 2) ≡ false = ground (arith, other) in
    let c = choose_thread-Chosen p.threads in
    elim (Option-cases (choose_thread p.threads)) [
      | inl e ↦
          let c' : Chosen p.threads none = rw e at c in
          rw (allowed, not_second, if◌then◌else◌, e) ((false, p), refl, (refl, c'.0, c'.1))
      | inr (i, e) ↦
          let c' : Chosen p.threads (some i) = rw e at c in
          let t = c'.0 in
          let (at, is_user, kind) = chosen_thread p.threads i t users c'.1 in
          let pending = add_pending signal t.pending in
          let sent : signal_send_to_thread name_of t signal
              ≡ some (true, record t { pending = pending }) =
            send_user name_of t signal is_user in
          let (state, wakes, same) = woken-Wakes current t pending kind in
          rw (allowed, not_second, if◌then◌else◌, e, at, sent)
            (
              (true, _),
              refl,
              (
                i,
                t,
                pending,
                state,
                c'.1,
                add_pending-Received signal t.pending,
                wakes,
                ap (λ u. record p { threads = set p.threads i u }) same,
              ),
            )
    ]
