-- ===== src/Mutex/Exclusion.antt =====
-- At most one thread holds the mutex.
use mos_moody_hunter.Base.{
  ℕ, ◌≡◌, ◌⊎◌, inl, inr, refl, Bool, true, false, Option, none, some, List, [], ◌∷◌, ◌==◌,
  if◌then◌else◌, arith, Bool-cases, Option-cases,
}
use mos_moody_hunter.WaitList.{waitlist_wake}
use mos_moody_hunter.Mutex.{
  Place, outside, trying, checking, joining, blocking, asleep, inside, waking, Mutex, set_place,
  Outcome, moved, away, panic, is_ready, futex_wake, step_at, step, run,
}

abbrev pub is_inside : Place → Bool
is_inside outside = false
is_inside trying = false
is_inside checking = false
is_inside joining = false
is_inside blocking = false
is_inside asleep = false
is_inside inside = true
is_inside waking = false

-- The word is 0 and no thread is inside, or it is 1 and one thread is inside.
abbrev pub IsOwned : ℕ → (ℕ → Place) → Type 0
IsOwned word places =
    ((word ≡ 0) × ((t : ℕ) → is_inside (places t) ≡ false))
    ⊎ ((word ≡ 1)
        × ((owner : ℕ) × (is_inside (places owner) ≡ true)
            × ((t : ℕ) → is_inside (places t) ≡ true → t ≡ owner)))

IsOwned-move :
    (word : ℕ) (places : ℕ → Place) (me : ℕ) (new : Place)
    → is_inside (places me) ≡ false
    → is_inside new ≡ false
    → IsOwned word places
    → IsOwned word (set_place places me new)
IsOwned-move word places me new h h' (inl (w, p)) = inl (w, λ t. ground (arith, p t))
IsOwned-move word places me new h h' (inr (w, (owner, at, p))) =
    let other : (owner == me) ≡ false = elim (Bool-cases (owner == me)) [
      | inl e ↦
          let e' : owner ≡ me = ground (arith, e) in
          let at' : is_inside (places me) ≡ true = rw e' at at in cc
      | inr e ↦ e
    ] in
    inr (w, (owner, rw other at, λ t k. ground (arith, p t, k, h')))

IsOwned-enter :
    (word : ℕ) (places : ℕ → Place) (me : ℕ)
    → word ≡ 0
    → IsOwned word places
    → IsOwned 1 (set_place places me inside)
IsOwned-enter word places me e (inr (w, rest)) = absurd (omega arith)
IsOwned-enter word places me e (inl (w, p)) =
    inr (refl, (me, ground arith, λ t k. ground (arith, p t, k)))

IsOwned-leave :
    (word : ℕ) (places : ℕ → Place) (me : ℕ) (new : Place)
    → is_inside (places me) ≡ true
    → is_inside new ≡ false
    → IsOwned word places
    → (word ≡ 1) × IsOwned 0 (set_place places me new)
IsOwned-leave word places me new h h' (inl (w, p)) = let q = p me in absurd (ground (arith, q))
IsOwned-leave word places me new h h' (inr (w, (owner, at, p))) =
    let e = p me h in
    (
      w,
      inl (
        refl,
        λ t. elim (Bool-cases (is_inside (places t))) [
          | inl k ↦ let e' = p t k in ground (arith, e, e', h')
          | inr k ↦ ground (arith, k, h')
        ],
      ),
    )

-- What holds after the step, if the thread moves.
abbrev pub Keeps : (Mutex → Type 0) → Outcome → Type 0
Keeps P (moved m) = P m
Keeps P away = Unit {0}
Keeps P panic = Unit {0}

abbrev pub HasOwner : Mutex → Type 0
HasOwner m = IsOwned m.word m.places

step_at-HasOwner :
    (place : Place) (m : Mutex) (me : ℕ)
    → m.places me ≡ place
    → HasOwner m
    → Keeps HasOwner (step_at place m me)
unfolding step_at
step_at-HasOwner outside m me at o = IsOwned-move m.word m.places me trying (rw at refl) refl o
step_at-HasOwner trying m me at o = elim (Bool-cases (m.word == 0)) [
  | inl free ↦ rw (free, if◌then◌else◌) (IsOwned-enter m.word m.places me (ground (arith, free)) o)
  | inr taken ↦
      rw (taken, if◌then◌else◌) (IsOwned-move m.word m.places me checking (rw at refl) refl o)
]
step_at-HasOwner checking m me at o = elim (Bool-cases (m.word == 1)) [
  | inl same ↦
      rw (same, if◌then◌else◌) (IsOwned-move m.word m.places me joining (rw at refl) refl o)
  | inr other ↦
      rw (other, if◌then◌else◌) (IsOwned-move m.word m.places me trying (rw at refl) refl o)
]
step_at-HasOwner joining m me at o = elim (Bool-cases m.waiters.closed) [
  | inl closed ↦ rw (closed, if◌then◌else◌) tt
  | inr opened ↦
      rw (opened, if◌then◌else◌) (IsOwned-move m.word m.places me blocking (rw at refl) refl o)
]
step_at-HasOwner blocking m me at o = IsOwned-move m.word m.places me asleep (rw at refl) refl o
step_at-HasOwner asleep m me at o = elim (Bool-cases (is_ready (m.states me))) [
  | inl woken ↦
      rw (woken, if◌then◌else◌) (IsOwned-move m.word m.places me trying (rw at refl) refl o)
  | inr still ↦ rw (still, if◌then◌else◌) tt
]
step_at-HasOwner inside m me at o =
    let left = IsOwned-leave m.word m.places me waking (rw at refl) refl o in
    let one : (m.word == 1) ≡ true = ground (arith, left.0) in rw (one, if◌then◌else◌) left.1
step_at-HasOwner waking m me at o = elim (Option-cases (waitlist_wake m.waiters 1 m.states)) [
  | inl e ↦ rw (futex_wake, e) tt
  | inr (r, e) ↦ rw (futex_wake, e) (IsOwned-move m.word m.places me outside (rw at refl) refl o)
]

abbrev KeepsRun : Option Mutex → Type 0
KeepsRun none = Unit {0}
KeepsRun (some m) = HasOwner m

KeepsRun-after :
    (m : Mutex) (ts : List ℕ) (r : Outcome)
    → ((m' : Mutex) → HasOwner m' → KeepsRun (run m' ts))
    → HasOwner m
    → Keeps HasOwner r
    → KeepsRun (elim r [ moved m' ↦ run m' ts | away ↦ run m ts | panic ↦ none ])
KeepsRun-after m ts (moved m') rest o k = rest m' k
KeepsRun-after m ts away rest o k = rest m o
KeepsRun-after m ts panic rest o k = tt

run-KeepsRun : (ts : List ℕ) (m : Mutex) → HasOwner m → KeepsRun (run m ts)
unfolding run
run-KeepsRun [] m o = o
run-KeepsRun (t ∷ ts) m o =
    KeepsRun-after m ts (step m t) (run-KeepsRun ts) o (step_at-HasOwner (m.places t) m t refl o)

-- From a state in which the word is 0 and no thread is inside, or it is 1 and exactly one thread is, any schedule
-- of any threads that lock and unlock the mutex leads to such a state, as long as no assertion fails.
pub run-HasOwner :
    (m m' : Mutex) (schedule : List ℕ) → HasOwner m → run m schedule ≡ some m' → HasOwner m'
run-HasOwner m m' schedule o e = rw e at (run-KeepsRun schedule m o)
