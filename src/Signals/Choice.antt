-- ===== src/Signals/Choice.antt =====
-- The thread of a process that a signal goes to: `choose_thread` of `signal_send_to_process`.
use mos_moody_hunter.Base.{
  ℕ, zero, suc, ◌≡◌, ◌⊎◌, inl, inr, refl, ap, Bool, true, false, Option, none, some, List, [], ◌∷◌,
  if◌then◌else◌, get_elem?, Option-cases,
}
use mos_moody_hunter.Signals.{
  ThreadState, created, ready, running, noninterruptible, blocked, dead, Thread, is_runnable,
  is_blocked, find_thread, choose_thread,
}

-- The states of a thread that runs or may run, and of one that sleeps.
abbrev pub IsAwake : ThreadState → Type 0
IsAwake st = (st ≡ created) ⊎ ((st ≡ ready) ⊎ (st ≡ running))

abbrev pub IsBlocked : ThreadState → Type 0
IsBlocked st = st ≡ blocked

abbrev pub NoThread : (ThreadState → Type 0) → List Thread → Type 0
NoThread Wanted [] = Unit {0}
NoThread Wanted (t ∷ ts) = (¬ Wanted t.state) × NoThread Wanted ts

-- The thread `t` at place `i` is the first in such a state.
abbrev pub IsFirst : (ThreadState → Type 0) → List Thread → ℕ → Thread → Type 0
IsFirst Wanted [] i t = ⊥
IsFirst Wanted (u ∷ ts) zero t = (u ≡ t) × Wanted t.state
IsFirst Wanted (u ∷ ts) (suc i) t = (¬ Wanted u.state) × IsFirst Wanted ts i t

-- The test `wanted` decides `Wanted`.
abbrev pub Decides : (ThreadState → Bool) → (ThreadState → Type 0) → Type 0
Decides wanted Wanted =
    (st : ThreadState) → ((wanted st ≡ true) × Wanted st) ⊎ ((wanted st ≡ false) × (¬ Wanted st))

IsAwake-is_runnable : (st : ThreadState) → IsAwake st → is_runnable st ≡ true
IsAwake-is_runnable st (inl e) = rw e refl
IsAwake-is_runnable st (inr (inl e)) = rw e refl
IsAwake-is_runnable st (inr (inr e)) = rw e refl

is_runnable-Decides : Decides is_runnable IsAwake
is_runnable-Decides created = inl (refl, inl refl)
is_runnable-Decides ready = inl (refl, inr (inl refl))
is_runnable-Decides running = inl (refl, inr (inr refl))
is_runnable-Decides noninterruptible =
    inr (refl, λ h. (let e = IsAwake-is_runnable noninterruptible h in cc))
is_runnable-Decides blocked = inr (refl, λ h. (let e = IsAwake-is_runnable blocked h in cc))
is_runnable-Decides dead = inr (refl, λ h. (let e = IsAwake-is_runnable dead h in cc))

pub is_blocked-Decides : Decides is_blocked IsBlocked
is_blocked-Decides created = inr (refl, λ h. cc)
is_blocked-Decides ready = inr (refl, λ h. cc)
is_blocked-Decides running = inr (refl, λ h. cc)
is_blocked-Decides noninterruptible = inr (refl, λ h. cc)
is_blocked-Decides blocked = inl (refl, refl)
is_blocked-Decides dead = inr (refl, λ h. cc)

abbrev pub Found : (ThreadState → Type 0) → List Thread → Option ℕ → Type 0
Found Wanted ts none = NoThread Wanted ts
Found Wanted ts (some i) = (t : Thread) × IsFirst Wanted ts i t

-- All threads are of user mode.
abbrev pub AreUser : List Thread → Type 0
AreUser [] = Unit {0}
AreUser (t ∷ ts) = (t.kernel_mode ≡ false) × AreUser ts

module _ (wanted : ThreadState → Bool) (Wanted : ThreadState → Type 0)
    (decides : Decides wanted Wanted) where
  find_thread-Found : (ts : List Thread) → Found Wanted ts (find_thread wanted ts)
  unfolding find_thread
  find_thread-Found [] = tt
  find_thread-Found (t ∷ ts) = elim (decides t.state) [
    | inl (yes_wanted, h) ↦ rw (yes_wanted, if◌then◌else◌) (t, (refl, h))
    | inr (other, h) ↦
        let f = find_thread-Found ts in
        elim (Option-cases (find_thread wanted ts)) [
          | inl e ↦ rw (other, if◌then◌else◌, e) (h, rw e at f)
          | inr (i, e) ↦
              let g : Found Wanted ts (some i) = rw e at f in
              rw (other, if◌then◌else◌, e) (g.0, (h, g.1))
        ]
  ]

module _ (Wanted : ThreadState → Type 0) where
  pub IsFirst-get :
      (ts : List Thread) (i : ℕ) (t : Thread) → IsFirst Wanted ts i t → get_elem? ts i ≡ some t
  IsFirst-get [] i t f = absurd f
  IsFirst-get (u ∷ ts) zero t f = ap some f.0
  IsFirst-get (u ∷ ts) (suc i) t f = IsFirst-get ts i t f.1

  pub IsFirst-user :
      (ts : List Thread) (i : ℕ) (t : Thread)
      → AreUser ts
      → IsFirst Wanted ts i t
      → t.kernel_mode ≡ false
  IsFirst-user [] i t a f = absurd f
  IsFirst-user (u ∷ ts) zero t a f = rw f.0 at a.0
  IsFirst-user (u ∷ ts) (suc i) t a f = IsFirst-user ts i t a.1 f.1

  pub IsFirst-wanted :
      (ts : List Thread) (i : ℕ) (t : Thread) → IsFirst Wanted ts i t → Wanted t.state
  IsFirst-wanted [] i t f = absurd f
  IsFirst-wanted (u ∷ ts) zero t f = f.1
  IsFirst-wanted (u ∷ ts) (suc i) t f = IsFirst-wanted ts i t f.1

-- The thread at place `i` is chosen: the first that is awake, or the first blocked one if none is.
abbrev pub IsChosen : List Thread → ℕ → Thread → Type 0
IsChosen ts i t = IsFirst IsAwake ts i t ⊎ (NoThread IsAwake ts × IsFirst IsBlocked ts i t)

abbrev pub Chosen : List Thread → Option ℕ → Type 0
Chosen ts none = NoThread IsAwake ts × NoThread IsBlocked ts
Chosen ts (some i) = (t : Thread) × IsChosen ts i t

pub choose_thread-Chosen : (ts : List Thread) → Chosen ts (choose_thread ts)
unfolding choose_thread
choose_thread-Chosen ts =
    let f = find_thread-Found is_runnable IsAwake is_runnable-Decides ts in
    let g = find_thread-Found is_blocked IsBlocked is_blocked-Decides ts in
    elim (Option-cases (find_thread is_runnable ts)) [
      | inr (i, e) ↦
          let f' : Found IsAwake ts (some i) = rw e at f in rw (choose_thread, e) (f'.0, inl f'.1)
      | inl e ↦ elim (Option-cases (find_thread is_blocked ts)) [
        | inr (i, e') ↦
            let g' : Found IsBlocked ts (some i) = rw e' at g in
            rw (choose_thread, e, e') (g'.0, inr (rw e at f, g'.1))
        | inl e' ↦ rw (choose_thread, e, e') (rw e at f, rw e' at g)
      ]
    ]
