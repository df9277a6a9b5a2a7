-- ===== src/Signals/Default.antt =====
-- Which signals stop the kernel when a thread goes back to user mode.
use mos_moody_hunter.Base.{ℕ, ◌<◌, ◌≡◌, some, List, get_elem?, Option}
use mos_moody_hunter.Signals.{SignalName, unnamed, dfl, Action}
use mos_moody_hunter.Signals.Pending.{IsNext}
use mos_moody_hunter.Signals.User.{Regs, Current}

-- A value, whatever it is.
abbrev pub GoesOn : {A : Type 0} → Option A → Type 0
GoesOn {A} o = (a : A) × (o ≡ some a)

module _ {R : Type 0} (name_of : ℕ → SignalName) (regs_size data_size : ℕ) (c : Current R)
    (regs : Regs R) where
  -- The signal has the default action and is none of the nine that the code names.
  abbrev pub IsUnknown : ℕ → Action → Type 0
  IsUnknown s action = (action.sa_handler ≡ dfl) × (name_of s ≡ unnamed)

  -- The signal that is next is such a one.
  abbrev pub Stops : Type 0
  Stops =
      (s : ℕ) × (rest : List ℕ) × (action : Action) × (IsNext c.masks c.pending (s, rest))
      × (0 < s)
      × (get_elem? c.handlers s ≡ some action)
      × IsUnknown s action
