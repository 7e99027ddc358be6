-- ===== src/Interrupt/Thread/Expected.antt =====
-- What `irq_loop` and the service routine are to call, told from the events.
use dev_can_linux.Base.{
  ℕ, ◌≡◌, ◌≢◌, Bool, true, false, none, some, List, [], ◌∷◌, ◌++◌, get_elem?, if◌then◌else◌,
}
use dev_can_linux.Interrupt.{Attach, IrqCall}
use dev_can_linux.Interrupt.Loop.{Drivers, Machine, Config}
use dev_can_linux.Interrupt.Pulse.{serves}
use dev_can_linux.Interrupt.Rounds.{IsFilled}
use dev_can_linux.Interrupt.Thread.{Event, interrupt, terminate_irq_loop, receive, IrqThread}
use dev_can_linux.Interrupt.Thread.Calls.{masks_as, unmasks_as, handlers_of}

module _ (c : Config) (t : List Attach) where
  -- The service routine masks the entry, under CONFIG_QNX_INTERRUPT_MASK_ISR.
  abbrev pub isr_calls : (k : ℕ) → List IrqCall
  isr_calls k = elim (get_elem? t k) [
    | none ↦ []
    | some a ↦ if c.mask_isr then masks_as a.masking a else []
  ]

  -- The round for a pulse: the entry is masked, under CONFIG_QNX_INTERRUPT_MASK_PULSE, its handlers are
  -- called, and it is unmasked.
  abbrev pub round_calls : (k : ℕ) → List IrqCall
  round_calls k = elim (get_elem? t k) [
    | none ↦ []
    | some a ↦
        (if c.mask_pulse then masks_as a.masking a else [])
        ++ (handlers_of a ++ unmasks_as a.masking a)
  ]

  -- While the program runs, pulses are served in the order of their interrupts.
  abbrev pub running_calls : List Event → (pulses : List ℕ) → List IrqCall
  running_calls [] ps = []
  running_calls (interrupt k ∷ es) ps = isr_calls k ++ running_calls es (ps ++ (k ∷ []))
  running_calls (receive ∷ es) [] = running_calls es []
  running_calls (receive ∷ es) (k ∷ ps) = round_calls k ++ running_calls es ps
  running_calls (e ∷ es) ps = running_calls es ps

  -- Afterwards the service routine runs only.
  abbrev pub ending_calls : List Event → List IrqCall
  ending_calls [] = []
  ending_calls (interrupt k ∷ es) = isr_calls k ++ ending_calls es
  ending_calls (e ∷ es) = ending_calls es

module _ (d : Drivers) (t : List Attach) where
  -- The entry is there, its handlers have been filled in, and their devices have sessions.
  abbrev pub IsReady : ℕ → Type 0
  IsReady k =
      (a : Attach) × (get_elem? t k ≡ some a)
      × IsFilled a
      × ((dev : ℕ) → serves dev a.handlers ≡ true → d.session dev ≢ 0)

  abbrev pub AllReady : List ℕ → Type 0
  AllReady [] = Unit {0}
  AllReady (k ∷ ks) = IsReady k × AllReady ks

  -- No call of `terminate_irq_loop`, and interrupts of entries that are ready.
  abbrev pub AllRunning : List Event → Type 0
  AllRunning [] = Unit {0}
  AllRunning (interrupt k ∷ es) = IsReady k × AllRunning es
  AllRunning (terminate_irq_loop ∷ es) = ⊥
  AllRunning (e ∷ es) = AllRunning es

  pub AllReady-append : (ks : List ℕ) (k : ℕ) → AllReady ks → IsReady k → AllReady (ks ++ (k ∷ []))
  AllReady-append [] k h r = (r, tt)
  AllReady-append (j ∷ ks) k (h, hs) r = (h, AllReady-append ks k hs r)

-- Does the thread come back from MsgReceivePulse?
abbrev pub receives : List Event → Bool
receives [] = false
receives (interrupt k ∷ es) = receives es
receives (terminate_irq_loop ∷ es) = receives es
receives (e ∷ es) = true

-- The thread while the program runs.
abbrev pub running : Machine → (pulses : List ℕ) → IrqThread
running m ps = record { machine = m; pulses = ps; shutdown = false; returned = false }
