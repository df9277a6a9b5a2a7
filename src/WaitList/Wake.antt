-- ===== src/WaitList/Wake.antt =====
-- `waitlist_wake` wakes in the order in which the threads have come.
use mos_moody_hunter.Base.{
  ℕ, zero, suc, ◌≡◌, refl, Bool, true, false, ◌||◌, List, [], ◌∷◌, ◌==◌, if◌then◌else◌, ◌>>=◌,
  length, take, drop, min, arith, Returns,
}
use mos_moody_hunter.Signals.{ready}
use mos_moody_hunter.WaitList.{WaitList, States, set_state, may_wake, wake_loop, waitlist_wake}

abbrev pub is_among : ℕ → List ℕ → Bool
is_among t [] = false
is_among t (w ∷ ws) = t == w || is_among t ws

-- All of them are blocked or ready.
abbrev pub CanWake : States → List ℕ → Type 0
CanWake states [] = Unit {0}
CanWake states (w ∷ ws) = (may_wake (states w) ≡ true) × CanWake states ws

CanWake-set_state :
    (states : States) (w : ℕ) (ws : List ℕ)
    → CanWake states ws
    → CanWake (set_state states w ready) ws
CanWake-set_state states w [] h = tt
CanWake-set_state states w (v ∷ ws) h = (ground (arith, h.0), CanWake-set_state states w ws h.1)

abbrev pub Woken : ℕ → List ℕ → States → ℕ × List ℕ × States → Type 0
Woken max ws states (k, ws', states') =
    (k ≡ min max (length ws))
    × (ws' ≡ drop max ws)
    × ((t : ℕ) → states' t ≡ (if is_among t (take max ws) then ready else states t))

wake_loop-Woken :
    (max : ℕ) (ws : List ℕ) (states : States)
    → CanWake states (take max ws)
    → Returns (wake_loop max ws states) (Woken max ws states)
unfolding wake_loop
wake_loop-Woken zero [] states h = ((0, [], states), refl, (omega arith, refl, λ t. refl))
wake_loop-Woken (suc n) [] states h = ((0, [], states), refl, (omega arith, refl, λ t. refl))
wake_loop-Woken zero (w ∷ ws) states h = ((0, w ∷ ws, states), refl, (omega arith, refl, λ t. refl))
wake_loop-Woken (suc n) (w ∷ ws) states h =
    let (r, e, p) =
      wake_loop-Woken n ws (set_state states w ready)
        (CanWake-set_state states w (take n ws) h.1) in
    rw (h.0, if◌then◌else◌, e)
      ((suc r.0, r.1, r.2), refl, (omega (arith, p.0), p.1, λ t. ground (arith, p.2 t)))

-- If the first `max_wakeups` waiters, or all if there are fewer, are blocked or ready, `waitlist_wake` makes
-- them ready, takes them from the list and returns their number; the other waiters stay in their
-- order, no other thread's state changes, and the list stays open or closed.
pub waitlist_wake-Woken :
    (list : WaitList) (max_wakeups : ℕ) (states : States)
    → CanWake states (take max_wakeups list.waiters)
    → Returns (waitlist_wake list max_wakeups states) (λ r.
      Woken max_wakeups list.waiters states (r.0, r.1.waiters, r.2) × (r.1.closed ≡ list.closed))
unfolding waitlist_wake
waitlist_wake-Woken list max_wakeups states h =
    let (r, e, p) = wake_loop-Woken max_wakeups list.waiters states h in
    rw (e, ◌>>=◌) ((r.0, record list { waiters = r.1 }, r.2), refl, (p, refl))
