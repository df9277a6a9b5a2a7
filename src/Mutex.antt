-- ===== src/Mutex.antt =====
-- kernel/lib/locks/mutex.c over kernel/lib/locks/futex.c and `reschedule_for_waitlist` of
-- kernel/tasks/schedule.c: threads that lock and unlock one mutex. A step is what a thread does
-- between two points where another can come in: an atomic access of the word, or what a lock
-- protects. The record of a futex that nobody has waited on counts as one with no waiters.
pub mod Exclusion
pub mod Sleep
use mos_moody_hunter.Base.{
  ℕ, zero, suc, Bool, true, false, not, Option, none, some, List, [], ◌∷◌, ◌==◌, if◌then◌else◌,
  ◌>>=◌,
}
use mos_moody_hunter.Signals.{ThreadState, created, ready, running, noninterruptible, blocked, dead}
use mos_moody_hunter.WaitList.{WaitList, States, set_state, waitlist_append, waitlist_wake}

-- Where a thread is: outside; before the exchange of `mutex_acquire`; in `futex_wait` before it reads
-- the word, before it joins the waiters, and before it is blocked; away until it is woken; inside;
-- in `mutex_release` before `futex_wake`.
pub data Place : Type 0 where
  outside trying checking joining blocking asleep inside waking : Place

-- The word of the mutex, the waiters of its futex, and each thread's state and place.
pub record Mutex : Type 0 where
  pub word : ℕ
  pub waiters : WaitList
  pub states : States
  pub places : ℕ → Place

abbrev pub set_place : (ℕ → Place) → ℕ → Place → ℕ → Place
set_place places tid place t = if t == tid then place else places t

abbrev pub go_to : Mutex → ℕ → Place → Mutex
go_to m me place = record m { places = set_place m.places me place }

-- A thread that is away cannot step. `panic` is a failed assertion.
pub data Outcome : Type 0 where
  moved : Mutex → Outcome
  away : Outcome
  panic : Outcome

abbrev pub is_ready : ThreadState → Bool
is_ready ready = true
is_ready created = false
is_ready running = false
is_ready noninterruptible = false
is_ready blocked = false
is_ready dead = false

-- `__atomic_compare_exchange_n(m, &zero, 1, …)` of `mutex_acquire`
unfoldable pub try_acquire : Mutex → ℕ → Mutex
try_acquire m me =
    if m.word == 0 then record (go_to m me inside) { word = 1 } else go_to m me checking

-- The comparison in `futex_wait(m, 1)`
unfoldable pub check_word : Mutex → ℕ → Mutex
check_word m me = if m.word == 1 then go_to m me joining else go_to m me trying

-- `waitlist_append` in `reschedule_for_waitlist`, and the assertion of `futex_wait` on its result
unfoldable pub join_waiters : Mutex → ℕ → Outcome
unfolding waitlist_append
join_waiters m me =
    let (ok, waiters) = waitlist_append m.waiters me in
    if ok then moved (record (go_to m me blocking) { waiters = waiters }) else panic

-- The rest of `reschedule_for_waitlist`, up to the switch
unfoldable pub block : Mutex → ℕ → Mutex
block m me = record (go_to m me asleep) { states = set_state m.states me blocked }

-- The scheduler goes on with a thread that is ready.
unfoldable pub go_on : Mutex → ℕ → Outcome
go_on m me =
    if is_ready (m.states me)
    then moved (record (go_to m me trying) { states = set_state m.states me running })
    else away

-- `__atomic_compare_exchange_n(m, &one, 0, …)` of `mutex_release`
unfoldable pub try_release : Mutex → ℕ → Mutex
try_release m me =
    if m.word == 1 then record (go_to m me waking) { word = 0 } else go_to m me outside

-- `futex_wake(m, 1)`
unfoldable pub futex_wake : Mutex → ℕ → Outcome
unfolding waitlist_wake
futex_wake m me = elim (waitlist_wake m.waiters 1 m.states) [
  | none ↦ panic
  | some (wakeups, waiters, states) ↦
      moved (record (go_to m me outside) { waiters = waiters; states = states })
]

unfoldable pub step_at : Place → Mutex → ℕ → Outcome
unfolding try_acquire check_word join_waiters block go_on try_release futex_wake
step_at outside m me = moved (go_to m me trying)
step_at trying m me = moved (try_acquire m me)
step_at checking m me = moved (check_word m me)
step_at joining m me = join_waiters m me
step_at blocking m me = moved (block m me)
step_at asleep m me = go_on m me
step_at inside m me = moved (try_release m me)
step_at waking m me = futex_wake m me

unfoldable pub step : Mutex → ℕ → Outcome
unfolding step_at
step m me = step_at (m.places me) m me

-- The threads of the schedule step one after the other; one that is away is passed over.
unfoldable pub run : Mutex → List ℕ → Option Mutex
unfolding step
run m [] = some m
run m (t ∷ ts) = elim (step m t) [ moved m' ↦ run m' ts | away ↦ run m ts | panic ↦ none ]
