-- ===== src/WaitList.antt =====
-- kernel/tasks/wait.c: the list of the threads that wait for something. A list node is the waiting
-- thread's number; `states` has the state of each thread. The list's lock is held for each function.
-- `none` is a failed assertion.
pub mod Wake
use mos_moody_hunter.Base.{
  ℕ, zero, suc, ◌+◌, ◌-◌, Bool, true, false, not, Option, none, some, List, [], ◌∷◌, ◌++◌, ◌==◌,
  if◌then◌else◌, ◌>>=◌,
}
use mos_moody_hunter.Signals.{ThreadState, created, ready, running, noninterruptible, blocked, dead}

-- `waitlist_t`
pub record WaitList : Type 0 where
  pub closed : Bool
  pub waiters : List ℕ

-- `wait_condition_t` with its argument taken into the two functions; a null `cleanup` is `none`.
pub record WaitCondition (S : Type 0) : Type 0 where
  pub verify : Option (S → Bool × S)
  pub cleanup : Option (S → S)

abbrev pub States : Type 0
States = ℕ → ThreadState

abbrev pub set_state : States → ℕ → ThreadState → States
set_state states tid state t = if t == tid then state else states t

unfoldable pub waitlist_init : WaitList
waitlist_init = record { closed = false; waiters = [] }

unfoldable pub waitlist_append : WaitList → ℕ → Bool × WaitList
waitlist_append list me =
    if list.closed then (false, list) else (true, record list { waiters = list.waiters ++ me ∷ [] })

-- Blocked, or ready already: what `waitlist_wake` asserts of a waiter.
abbrev pub may_wake : ThreadState → Bool
may_wake created = false
may_wake ready = true
may_wake running = false
may_wake noninterruptible = false
may_wake blocked = true
may_wake dead = false

-- The loop of `waitlist_wake`: the number of wake-ups, the waiters left and the states.
unfoldable pub wake_loop : ℕ → List ℕ → States → Option (ℕ × List ℕ × States)
wake_loop max_wakeups [] states = some (0, [], states)
wake_loop zero (w ∷ ws) states = some (0, w ∷ ws, states)
wake_loop (suc n) (w ∷ ws) states =
    let rest = wake_loop n ws (set_state states w ready) in
    if may_wake (states w) then (rest >>= λ (k, ws', states'). some (suc k, ws', states')) else none

unfoldable pub waitlist_wake : WaitList → ℕ → States → Option (ℕ × WaitList × States)
unfolding wake_loop
waitlist_wake list max_wakeups states = do
  (wakeups, waiters, states') ← wake_loop max_wakeups list.waiters states
  some (wakeups, record list { waiters = waiters }, states')

unfoldable pub waitlist_close : WaitList → WaitList
waitlist_close list = record list { closed = true }

-- The loop of `waitlist_remove_me`: the first entry of the thread.
unfoldable pub remove_waiter : ℕ → List ℕ → List ℕ
remove_waiter me [] = []
remove_waiter me (w ∷ ws) = if w == me then ws else w ∷ remove_waiter me ws

unfoldable pub waitlist_remove_me : WaitList → ℕ → WaitList
unfolding remove_waiter
waitlist_remove_me list me = record list { waiters = remove_waiter me list.waiters }

module _ {S : Type 0} where
  unfoldable pub wc_condition_verify : WaitCondition S → S → Option (Bool × S)
  wc_condition_verify condition s = condition.verify >>= λ f. some (f s)

  unfoldable pub wc_condition_cleanup : WaitCondition S → S → S
  wc_condition_cleanup condition s = elim condition.cleanup [ none ↦ s | some f ↦ f s ]
