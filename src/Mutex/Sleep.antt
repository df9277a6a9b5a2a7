-- ===== src/Mutex/Sleep.antt =====
-- Between the comparison in `futex_wait` and the sleep no lock is held.
use mos_moody_hunter.Base.{
  ℕ, ◌∙◌, ◌≡◌, ◌≢◌, refl, true, false, none, List, [], ◌∷◌, ◌==◌, arith, Returns,
}
use mos_moody_hunter.Signals.{running, blocked}
use mos_moody_hunter.WaitList.{States, set_state, may_wake}
use mos_moody_hunter.Mutex.{
  go_to, Place, outside, trying, checking, joining, blocking, asleep, inside, waking, Mutex, moved,
  away, panic, go_on, futex_wake, is_ready, step_at, step, run,
}

-- Free, with no waiters and all threads outside.
abbrev pub unused : States → Mutex
unused states = record {
  word = 0;
  waiters = record { closed = false; waiters = [] };
  states = states;
  places = λ t. outside;
}

-- One step of a schedule, by the place of the thread.
run_step :
    (place : Place) (m m' : Mutex) (t : ℕ) (ts : List ℕ)
    → m.places t ≡ place
    → step_at place m t ≡ moved m'
    → run m (t ∷ ts) ≡ run m' ts
unfolding run
run_step place m m' t ts at e =
    let e' : step_at (m.places t) m t ≡ moved m' = rw at e in rw (run, e') refl

run_panic :
    (place : Place) (m : Mutex) (t : ℕ) (ts : List ℕ)
    → m.places t ≡ place
    → step_at place m t ≡ panic
    → run m (t ∷ ts) ≡ none
unfolding run
run_panic place m t ts at e =
    let e' : step_at (m.places t) m t ≡ panic = rw at e in rw (run, e') refl

module _ (a b : ℕ) (states : States) (apart : a ≢ b) (up : states b ≡ running) where
  a_a : (a == a) ≡ true
  a_a = ground arith

  b_b : (b == b) ≡ true
  b_b = ground arith

  a_b : (a == b) ≡ false
  a_b = ground arith

  b_a : (b == a) ≡ false
  b_a = ground arith

  abbrev m₁ : Mutex
  m₁ = go_to (unused states) a trying

  abbrev m₂ : Mutex
  m₂ = record (go_to m₁ a inside) { word = 1 }

  abbrev m₃ : Mutex
  m₃ = go_to m₂ b trying

  abbrev m₄ : Mutex
  m₄ = go_to m₃ b checking

  -- `a` holds the mutex and `b` is about to join the waiters.
  abbrev deciding : Mutex
  deciding = go_to m₄ b joining

  decides : (ts : List ℕ) → run (unused states) (a ∷ a ∷ b ∷ b ∷ b ∷ ts) ≡ run deciding ts
  unfolding step_at
  decides ts =
      run_step outside (unused states) m₁ a (a ∷ b ∷ b ∷ b ∷ ts) refl refl
      ∙ run_step trying m₁ m₂ a (b ∷ b ∷ b ∷ ts) (rw a_a refl) refl
      ∙ run_step outside m₂ m₃ b (b ∷ b ∷ ts) (ground (arith, b_a)) refl
      ∙ run_step trying m₃ m₄ b (b ∷ ts) (ground (arith, b_b)) refl
      ∙ run_step checking m₄ deciding b ts (ground (arith, b_b)) refl

  abbrev m₆ : Mutex
  m₆ = record (go_to deciding a waking) { word = 0 }

  abbrev m₇ : Mutex
  m₇ = go_to m₆ a outside

  abbrev m₈ : Mutex
  m₈ = record (go_to m₇ b blocking) { waiters = record { closed = false; waiters = b ∷ [] } }

  abbrev missed : Mutex
  missed = record (go_to m₈ b asleep) { states = set_state states b blocked }

  -- Thread `b` finds the mutex taken by `a` and decides to wait; `a` unlocks and wakes nobody, since there are no
  -- waiters; then `b` joins the waiters and is blocked. The mutex is free, no thread is inside or about to
  -- wake another, and `b` is away.
  pub run_misses : Returns (run (unused states) (a ∷ a ∷ b ∷ b ∷ b ∷ a ∷ a ∷ b ∷ b ∷ [])) (λ m.
      (m.word ≡ 0)
      × (m.places b ≡ asleep)
      × ((t : ℕ) → t ≢ b → m.places t ≡ outside)
      × (step m b ≡ away))
  unfolding run step_at step
  run_misses =
      let still : is_ready (missed.states b) ≡ false = rw b_b refl in
      let gone : step missed b ≡ away = rw (b_b, go_on, still) refl in
      (
        missed,
        decides (a ∷ a ∷ b ∷ b ∷ [])
            ∙ run_step inside deciding m₆ a (a ∷ b ∷ b ∷ []) (ground (arith, a_a, a_b)) refl
            ∙ run_step waking m₆ m₇ a (b ∷ b ∷ []) (ground (arith, a_a)) refl
            ∙ run_step joining m₇ m₈ b (b ∷ []) (ground (arith, b_a, b_b)) refl
            ∙ run_step blocking m₈ missed b [] (ground (arith, b_b)) refl,
        (refl, ground (arith, b_b), (λ t ne. ground arith), gone),
      )

  abbrev n₆ : Mutex
  n₆ = record (go_to deciding b blocking) { waiters = record { closed = false; waiters = b ∷ [] } }

  abbrev n₇ : Mutex
  n₇ = record (go_to n₆ a waking) { word = 0 }

  -- If `a` unlocks after `b` has joined the waiters and before `b` is blocked, the assertion on the state of a
  -- waiter in `waitlist_wake` fails and the kernel stops.
  pub run_panics : run (unused states) (a ∷ a ∷ b ∷ b ∷ b ∷ b ∷ a ∷ a ∷ []) ≡ none
  unfolding step_at
  run_panics =
      let asserted : may_wake (states b) ≡ false = rw up refl in
      let stops : futex_wake n₇ a ≡ panic = rw (futex_wake, asserted) refl in
      decides (b ∷ a ∷ a ∷ [])
      ∙ run_step joining deciding n₆ b (a ∷ a ∷ []) (ground (arith, b_b)) refl
      ∙ run_step inside n₆ n₇ a (a ∷ []) (ground (arith, a_a, a_b)) refl
      ∙ run_panic waking n₇ a [] (ground (arith, a_a)) stops
