-- ===== src/Signals/Return.antt =====
-- A handler is entered and returns: the registers and the masks are again what they were.
use mos_moody_hunter.Base.{
  ℕ, zero, suc, ◌+◌, ◌-◌, ◌^◌, ◌≤◌, ◌<◌, ◌≡◌, inl, inr, refl, ap, ◌∙◌, Bool, true, false, some,
  List, [], ◌∷◌, ◌==◌, ltb, if◌then◌else◌, ◌>>=◌, get_elem?, set, length, length-set,
  get_elem?-set_self, arith, Bool-cases, Returns, add64, sub64,
}
use mos_moody_hunter.Signals.{SignalName, user, Action}
use mos_moody_hunter.Signals.Pending.{get_elem?_inside}
use mos_moody_hunter.Signals.User.{
  Regs, SigreturnData, Current, Exit, to_user, platform_jump_to_signal_handler,
  do_signal_exit_to_user_prepare, signal_on_returned, platform_restore_from_signal_handler,
}

-- What a masked entry is set to and back.
set_back :
    (masks : List Bool) (s : ℕ)
    → get_elem? masks s ≡ some false
    → set (set masks s true) s false ≡ masks
set_back [] s h = refl
set_back (m ∷ ms) zero h = ground arith
set_back (m ∷ ms) (suc s) h = ap (◌∷◌ m) (set_back ms s h)

get_elem?-lt : {A : Type 0} (xs : List A) (i : ℕ) (a : A) → get_elem? xs i ≡ some a → i < length xs
get_elem?-lt [] i a h = absurd (ground arith)
get_elem?-lt (x ∷ xs) zero a h = omega arith
get_elem?-lt (x ∷ xs) (suc i) a h = omega (arith, get_elem?-lt xs i a h)

module _ {R : Type 0} (regs_size data_size : ℕ) (c : Current R) (regs : Regs R) where
  -- The three pushes stay on the user stack, below the kernel.
  abbrev pub HasRoom : Type 0
  HasRoom =
      (c.stack_low + 128 + regs_size + data_size + 8 ≤ regs.sp)
      × (regs.sp ≤ c.stack_top)
      × (c.stack_top ≤ 2 ^ 64 - 2 ^ 47)
      × (regs_size < 2 ^ 46)
      × (data_size < 2 ^ 46)

  -- The lower end of the frame.
  abbrev pub frame_end : ℕ
  frame_end = regs.sp - 128 - regs_size - data_size

  abbrev pub entered : List Bool → SigreturnData → ℕ → ℕ → Exit R
  entered masks r handler restorer =
      to_user (record regs { ip = handler; di = r.signal; sp = frame_end - 8 })
        (record c {
          masks = masks;
          frames = λ a. if a == frame_end then some (regs, r) else c.frames a;
          return_addresses =
              λ a. if a == frame_end - 8 then some restorer else c.return_addresses a;
        })

  pub jump-entered :
      (masks : List Bool) (r : SigreturnData) (handler restorer : ℕ)
      → HasRoom
      → platform_jump_to_signal_handler regs_size data_size
          (record c { masks = masks })
          regs
          r
          handler
          restorer
        ≡ some (entered masks r handler restorer)
  unfolding platform_jump_to_signal_handler
  jump-entered masks r handler restorer h =
      let sp₀ = regs.sp - 128 in
      let sp₁ = sp₀ - regs_size in
      let e₀ : sub64 regs.sp 128 ≡ sp₀ = omega arith in
      let e₁ : sub64 sp₀ regs_size ≡ sp₁ = omega arith in
      let e₂ : sub64 sp₁ data_size ≡ frame_end = omega arith in
      let e₃ : sub64 frame_end 8 ≡ frame_end - 8 = omega arith in
      let t₁ : ltb (sub64 sp₀ c.stack_low) regs_size ≡ false = ground arith in
      let t₂ : ltb (sub64 sp₁ c.stack_low) data_size ≡ false = ground arith in
      let t₃ : ltb (sub64 frame_end c.stack_low) 8 ≡ false = ground arith in
      rw (e₀, t₁, if◌then◌else◌, ◌>>=◌, e₁, t₂, e₂, t₃, e₃) refl

  -- The return with the frame `r` in place.
  restore_lem :
      (r : SigreturnData) (d : Current R) (masks : List Bool)
      → HasRoom
      → d.stack_top ≡ c.stack_top
      → d.frames frame_end ≡ some (regs, r)
      → signal_on_returned d r ≡ some (record d { masks = masks })
      → platform_restore_from_signal_handler regs_size data_size d frame_end
        ≡ some (to_user regs (record d { masks = masks }))
  unfolding platform_restore_from_signal_handler
  restore_lem r d masks h top f back =
      let e₁ : add64 frame_end data_size ≡ frame_end + data_size = omega arith in
      let t₁ : ltb (sub64 frame_end d.stack_top) data_size ≡ false = rw top (ground arith) in
      let t₂ : ltb (sub64 (frame_end + data_size) d.stack_top) regs_size ≡ false =
        rw top (ground arith) in
      rw (f, ◌>>=◌, t₁, if◌then◌else◌, e₁, t₂, back) refl

  -- What a handler's entry promises of its return.
  abbrev pub IsEntry : ℕ → ℕ → ℕ → Exit R → Type 0
  IsEntry signal handler restorer out =
      (r' : Regs R) × (c' : Current R) × (out ≡ to_user r' c')
      × ((r'.ip ≡ handler) × (r'.di ≡ signal) × (c'.return_addresses r'.sp ≡ some restorer))
      × (get_elem? c'.masks signal ≡ some true)
      × ((d : Current R)
          → d.masks ≡ c'.masks
          → d.stack_top ≡ c.stack_top
          → d.frames (r'.sp + 8) ≡ c'.frames (r'.sp + 8)
          → platform_restore_from_signal_handler regs_size data_size d (r'.sp + 8)
            ≡ some (to_user regs (record d { masks = c.masks })))

  entered-IsEntry :
      (masks : List Bool) (signal : ℕ) (was_masked : Bool) (handler restorer : ℕ)
      → HasRoom
      → get_elem? masks signal ≡ some true
      → ((d : Current R)
          → d.masks ≡ masks
          → signal_on_returned d (record { signal = signal; was_masked = was_masked })
            ≡ some (record d { masks = c.masks }))
      → IsEntry signal handler restorer
          (entered masks (record { signal = signal; was_masked = was_masked }) handler restorer)
  entered-IsEntry masks signal was_masked handler restorer h masked back =
      let r : SigreturnData = record { signal = signal; was_masked = was_masked } in
      let at : frame_end - 8 + 8 ≡ frame_end = omega arith in
      let here : (frame_end == frame_end) ≡ true = ground arith in
      let word : (frame_end - 8 == frame_end - 8) ≡ true = ground arith in
      (
        record regs { ip = handler; di = signal; sp = frame_end - 8 },
        record c {
          masks = masks;
          frames = λ a. if a == frame_end then some (regs, r) else c.frames a;
          return_addresses =
              λ a. if a == frame_end - 8 then some restorer else c.return_addresses a;
        },
        refl,
        (refl, refl, rw word refl),
        masked,
        λ d m top f. rw at (restore_lem r d c.masks h top (rw (at, here) at f) (back d m)),
      )

  back_masked :
      (signal : ℕ) (d : Current R)
      → d.masks ≡ c.masks
      → signal_on_returned d (record { signal = signal; was_masked = true })
        ≡ some (record d { masks = c.masks })
  unfolding signal_on_returned
  back_masked signal d m = ap (λ masks. some (record d { masks = masks })) m

  back_unmasked :
      (signal : ℕ) (d : Current R)
      → get_elem? c.masks signal ≡ some false
      → d.masks ≡ set c.masks signal true
      → signal_on_returned d (record { signal = signal; was_masked = false })
        ≡ some (record d { masks = c.masks })
  unfolding signal_on_returned
  back_unmasked signal d free m =
      let lt : signal < length d.masks =
        rw (m, length-set c.masks signal true) (get_elem?-lt c.masks signal false free) in
      let within : ltb signal (length d.masks) ≡ true = ground (arith, lt) in
      let masks : set d.masks signal false ≡ c.masks = rw m (set_back c.masks signal free) in
      rw (within, masks) refl

  -- A signal inside the masks has the handler at the address `handler`, and the user stack has room for the
  -- frame (128 bytes, the two structs and a return address below the stack pointer). Going back
  -- to user mode enters the handler with the signal as its argument and masked, and the restorer's address
  -- as its return address. When the handler has returned to its restorer, with the frame and the masks as they were at the entry, the system call
  -- of the restorer goes back with the registers of before, and the masks are those of before.
  pub handler-restore :
      (name_of : ℕ → SignalName) (signal : ℕ) (action : Action) (handler : ℕ)
      → HasRoom
      → signal < length c.masks
      → action.sa_handler ≡ user handler
      → Returns
          (do_signal_exit_to_user_prepare name_of regs_size data_size c regs signal action)
          (IsEntry signal handler action.sa_restorer)
  unfolding do_signal_exit_to_user_prepare
  handler-restore name_of signal action handler h inside e =
      let (b, f) = get_elem?_inside c.masks signal inside in
      elim (Bool-cases b) [
        | inl on ↦
            let m : get_elem? c.masks signal ≡ some true = f ∙ ap some on in
            let jump =
              jump-entered c.masks (record { signal = signal; was_masked = true }) handler
                action.sa_restorer h in
            rw (e, m, jump)
              (
                entered c.masks (record { signal = signal; was_masked = true }) handler
                    action.sa_restorer,
                refl,
                entered-IsEntry c.masks signal true handler action.sa_restorer h m
                    (back_masked signal),
              )
        | inr off ↦
            let m : get_elem? c.masks signal ≡ some false = f ∙ ap some off in
            let masks = set c.masks signal true in
            let jump =
              jump-entered masks (record { signal = signal; was_masked = false }) handler
                action.sa_restorer h in
            rw (e, m, jump)
              (
                entered masks (record { signal = signal; was_masked = false }) handler
                    action.sa_restorer,
                refl,
                entered-IsEntry masks signal false handler action.sa_restorer h
                    (get_elem?-set_self c.masks signal true inside)
                    (λ d k. back_unmasked signal d m k),
              )
      ]
