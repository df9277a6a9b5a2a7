-- ===== src/Signals/Keeps.antt =====
-- What going back to user mode and returning from a handler keep.
use mos_moody_hunter.Base.{
  ℕ, ◌≡◌, ◌⊎◌, inl, inr, refl, ◌∙◌, Bool, true, false, Option, none, some, List, if◌then◌else◌,
  ◌>>=◌, set, length, length-set, Bool-cases,
}
use mos_moody_hunter.Signals.{
  SignalName, sigint, sigill, sigtrap, sigabrt, sigkill, sigsegv, sigterm, sigchld, sigpipe,
  unnamed, Handler, dfl, ign, user, Action, signal_get_next_pending,
}
use mos_moody_hunter.Signals.Pending.{
  InRange, IsDistinct, IsNext, signal_get_next_pending-IsNext, IsNext-IsDistinct, IsNext-InRange,
}
use mos_moody_hunter.Signals.User.{
  Regs, SigreturnData, Current, Exit, process_exit, thread_exit, to_user,
  platform_jump_to_signal_handler, signal_do_terminate, default_action,
  do_signal_exit_to_user_prepare, signal_on_returned, signal_exit_to_user_prepare,
  signal_exit_to_user_prepare_syscall, platform_restore_from_signal_handler,
}

-- If there is a value, it satisfies `P`.
pub data Ensures {A : Type 0} (P : A → Type 0) : Option A → Type 0 where
  fault : Ensures P none
  value : (a : A) → P a → Ensures P (some a)

Ensures-some : {A : Type 0} (P : A → Type 0) (a : A) → Ensures P (some a) → P a
Ensures-some P a (value b p) = p

pub Ensures-eq :
    {A : Type 0} (P : A → Type 0) (o : Option A) (a : A) → Ensures P o → o ≡ some a → P a
Ensures-eq P none a h e = cc
Ensures-eq P (some b) a (value c p) e = let same : b ≡ a = cc in rw same at p

Ensures->>= :
    {A B : Type 0} (P : B → Type 0) (m : Option A) (f : A → Option B)
    → ((a : A) → m ≡ some a → Ensures P (f a))
    → Ensures P (m >>= f)
Ensures->>= P none f h = fault
Ensures->>= P (some a) f h = h a refl

Ensures-if :
    {A : Type 0} (P : A → Type 0) (b : Bool) (x y : Option A)
    → Ensures P x
    → Ensures P y
    → Ensures P (if b then x else y)
Ensures-if P true x y h h' = h
Ensures-if P false x y h h' = h'

pub Handler-cases : (h : Handler) → (h ≡ dfl) ⊎ ((h ≡ ign) ⊎ ((a : ℕ) × (h ≡ user a)))
Handler-cases dfl = inl refl
Handler-cases ign = inr (inl refl)
Handler-cases (user a) = inr (inr (a, refl))

module _ {R : Type 0} (nsig : ℕ) where
  -- The masks have an entry for each signal, and only signals with an entry are pending, none twice.
  abbrev pub IsValid : Current R → Type 0
  IsValid c = (length c.masks ≡ nsig) × InRange nsig c.pending × IsDistinct c.pending

  abbrev pub ExitsValid : Exit R → Type 0
  ExitsValid (process_exit s) = Unit {0}
  ExitsValid thread_exit = Unit {0}
  ExitsValid (to_user regs c) = IsValid c

  terminate-ExitsValid : (c : Current R) (s : ℕ) → ExitsValid (signal_do_terminate c s)
  unfolding signal_do_terminate
  terminate-ExitsValid c s = elim (Bool-cases c.is_main) [ inl e ↦ rw e tt | inr e ↦ rw e tt ]

  default_action-ExitsValid :
      (c : Current R) (regs : Regs R) (s : ℕ) (n : SignalName)
      → IsValid c
      → Ensures ExitsValid (default_action c regs s n)
  unfolding default_action
  default_action-ExitsValid c regs s sigchld v = value _ v
  default_action-ExitsValid c regs s unnamed v = fault
  default_action-ExitsValid c regs s sigint v = value _ (terminate-ExitsValid c s)
  default_action-ExitsValid c regs s sigill v = value _ (terminate-ExitsValid c s)
  default_action-ExitsValid c regs s sigtrap v = value _ (terminate-ExitsValid c s)
  default_action-ExitsValid c regs s sigabrt v = value _ (terminate-ExitsValid c s)
  default_action-ExitsValid c regs s sigkill v = value _ (terminate-ExitsValid c s)
  default_action-ExitsValid c regs s sigsegv v = value _ (terminate-ExitsValid c s)
  default_action-ExitsValid c regs s sigterm v = value _ (terminate-ExitsValid c s)
  default_action-ExitsValid c regs s sigpipe v = value _ (terminate-ExitsValid c s)

  jump-ExitsValid :
      (regs_size data_size : ℕ) (c : Current R) (regs : Regs R) (r : SigreturnData)
      (handler restorer : ℕ)
      → IsValid c
      → Ensures ExitsValid
          (platform_jump_to_signal_handler regs_size data_size c regs r handler restorer)
  unfolding platform_jump_to_signal_handler
  jump-ExitsValid regs_size data_size c regs r handler restorer v = search (Ensures->>=, value, v)

  mask-IsValid :
      (c : Current R) (s : ℕ) (b : Bool)
      → IsValid c
      → IsValid (record c { masks = if b then c.masks else set c.masks s true })
  mask-IsValid c s true v = v
  mask-IsValid c s false v = (length-set c.masks s true ∙ v.0, v.1, v.2)

  module _ (name_of : ℕ → SignalName) (regs_size data_size eintr : ℕ) where
    prepare-ExitsValid :
        (c : Current R) (regs : Regs R) (s : ℕ) (action : Action)
        → IsValid c
        → Ensures ExitsValid
            (do_signal_exit_to_user_prepare name_of regs_size data_size c regs s action)
    unfolding do_signal_exit_to_user_prepare
    prepare-ExitsValid c regs s action v = elim (Handler-cases action.sa_handler) [
      | inl e ↦ rw e (
          search
            (Ensures->>=, Ensures-if, value, v, default_action-ExitsValid c regs s (name_of s) v))
      | inr (inl e) ↦ rw e (value _ v)
      | inr (inr (a, e)) ↦ rw e (
          search (
            Ensures->>=,
            λ (b : Bool) (r : SigreturnData).
                jump-ExitsValid regs_size data_size
                  (record c { masks = if b then c.masks else set c.masks s true }) regs r a
                  action.sa_restorer (mask-IsValid c s b v),
          ))
    ]

    pending-IsValid :
        (c : Current R) (r : ℕ × List ℕ)
        → IsValid c
        → signal_get_next_pending c.masks c.pending ≡ some r
        → IsValid (record c { pending = r.1 })
    pending-IsValid c r v e =
        let (r', e', p) = signal_get_next_pending-IsNext c.masks c.pending (rw v.0 v.1) in
        let same : r' ≡ r = cc in
        let p' : IsNext c.masks c.pending r = rw same at p in
        (
          v.0,
          IsNext-InRange c.masks c.pending nsig r p' v.1,
          IsNext-IsDistinct c.masks c.pending r p' v.2,
        )

    pub leave-ExitsValid :
        (c : Current R) (regs : Regs R)
        → IsValid c
        → Ensures ExitsValid (signal_exit_to_user_prepare name_of regs_size data_size c regs)
    unfolding signal_exit_to_user_prepare
    leave-ExitsValid c regs v = search (
      Ensures->>=,
      Ensures-if,
      value,
      λ (r : ℕ × List ℕ) (e : signal_get_next_pending c.masks c.pending ≡ some r).
          pending-IsValid c r v e,
      λ (r : ℕ × List ℕ) (e : signal_get_next_pending c.masks c.pending ≡ some r) (a : Action).
          prepare-ExitsValid (record c { pending = r.1 }) regs r.0 a (pending-IsValid c r v e),
    )

    pub leave_syscall-ExitsValid :
        (c : Current R) (regs : Regs R) (syscall_nr syscall_ret : ℕ)
        → IsValid c
        → Ensures ExitsValid (
            signal_exit_to_user_prepare_syscall name_of regs_size data_size eintr c regs syscall_nr
              syscall_ret)
    unfolding signal_exit_to_user_prepare_syscall
    leave_syscall-ExitsValid c regs syscall_nr syscall_ret v =
        search
          (
            Ensures->>=,
            Ensures-if,
            value,
            fault,
            λ (r : ℕ × List ℕ) (e : signal_get_next_pending c.masks c.pending ≡ some r).
                pending-IsValid c r v e,
            λ (r : ℕ × List ℕ) (e : signal_get_next_pending c.masks c.pending ≡ some r) (a : Action)
                  (g : Regs R).
                prepare-ExitsValid (record c { pending = r.1 }) g r.0 a (pending-IsValid c r v e),
          )
          depth 9

    returned-IsValid :
        (c : Current R) (r : SigreturnData) → IsValid c → Ensures IsValid (signal_on_returned c r)
    unfolding signal_on_returned
    returned-IsValid c r v = search (
      Ensures-if,
      value,
      fault,
      v,
      let w : IsValid (record c { masks = set c.masks r.signal false }) =
            (length-set c.masks r.signal false ∙ v.0, v.1, v.2) in
          w,
    )

    pub restore-ExitsValid :
        (c : Current R) (sp : ℕ)
        → IsValid c
        → Ensures ExitsValid (platform_restore_from_signal_handler regs_size data_size c sp)
    unfolding platform_restore_from_signal_handler
    restore-ExitsValid c sp v =
        search
          (
            Ensures->>=,
            value,
            λ (r : SigreturnData) (c' : Current R) (e : signal_on_returned c r ≡ some c').
                Ensures-eq IsValid (signal_on_returned c r) c' (returned-IsValid c r v) e,
          )
          depth 9
