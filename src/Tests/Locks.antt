-- ===== src/Tests/Locks.antt =====
-- Three threads at a wait list, two at a mutex.
use mos_moody_hunter.Base.{ℕ, ◌≡◌, ◌≢◌, refl, inl, false, some, none, [], ◌∷◌, Returns, arith}
use mos_moody_hunter.Signals.{running, blocked}
use mos_moody_hunter.WaitList.{WaitList, States, waitlist_wake}
use mos_moody_hunter.WaitList.Wake.{Woken, waitlist_wake-Woken}
use mos_moody_hunter.Mutex.{
  outside, asleep, inside, Mutex, set_place, trying, away, step_at, step, run,
}
use mos_moody_hunter.Mutex.Exclusion.{HasOwner, run-HasOwner}
use mos_moody_hunter.Mutex.Sleep.{unused, run_misses, run_panics}

abbrev three : WaitList
three = record { closed = false; waiters = 5 ∷ 6 ∷ 7 ∷ [] }

abbrev all_blocked : States
all_blocked t = blocked

waitlist_wake_example :
    Returns
      (waitlist_wake three 2 all_blocked)
      (λ r. Woken 2 (5 ∷ 6 ∷ 7 ∷ []) all_blocked (r.0, r.1.waiters, r.2) × (r.1.closed ≡ false))
waitlist_wake_example = waitlist_wake-Woken three 2 all_blocked (refl, (refl, tt))

abbrev all_running : States
all_running t = running

-- Thread 1 holds the mutex, thread 2 tries.
abbrev tried : Mutex
tried = record (unused all_running) {
  word = 1;
  places = set_place (set_place (set_place (λ t. outside) 1 trying) 1 inside) 2 trying;
}

tried_lem : run (unused all_running) (1 ∷ 1 ∷ 2 ∷ []) ≡ some tried
unfolding run step step_at
tried_lem = refl

run-HasOwner_example : HasOwner tried
run-HasOwner_example =
    run-HasOwner (unused all_running) tried (1 ∷ 1 ∷ 2 ∷ []) (inl (refl, λ t. refl)) tried_lem

run_misses_example :
    Returns (run (unused all_running) (1 ∷ 1 ∷ 2 ∷ 2 ∷ 2 ∷ 1 ∷ 1 ∷ 2 ∷ 2 ∷ [])) (λ m.
      (m.word ≡ 0)
      × (m.places 2 ≡ asleep)
      × ((t : ℕ) → t ≢ 2 → m.places t ≡ outside)
      × (step m 2 ≡ away))
run_misses_example = run_misses 1 2 all_running (λ h. omega arith) refl

run_panics_example : run (unused all_running) (1 ∷ 1 ∷ 2 ∷ 2 ∷ 2 ∷ 2 ∷ 1 ∷ 1 ∷ []) ≡ none
run_panics_example = run_panics 1 2 all_running (λ h. omega arith) refl
