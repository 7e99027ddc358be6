-- ===== src/Interrupt/Loop.antt =====
-- The interrupt service routine `irq_handler` and the thread `irq_loop` of src/interrupt.c.
use dev_can_linux.Base.{
  ℕ, zero, suc, Bool, true, false, ◌&&◌, Option, none, some, List, [], ◌∷◌, ◌++◌, take, get_elem?,
  ltb, ◌==◌, if◌then◌else◌,
}
use dev_can_linux.Queue.{Queue, queue_wake_pending, queue_start_signal, queue_awake}
use dev_can_linux.Links.{write}
use dev_can_linux.Interrupt.{
  Handler, Attach, IrqCall, handler_call, reset_call, mask, unmask, is_message_signalled,
  max_irq_attach_count,
}

-- `irqreturn_t`
pub data Irqreturn : Type 0 where
  irq_none irq_handled irq_wake_thread : Irqreturn

-- CONFIG_QNX_INTERRUPT_MASK_ISR and CONFIG_QNX_INTERRUPT_MASK_PULSE
pub record Config : Type 0 where
  pub mask_isr : Bool
  pub mask_pulse : Bool

-- What the thread has done: the transmit queues by device, and the calls.
pub record Machine : Type 0 where
  pub tx_queue : ℕ → Queue
  pub calls : List IrqCall

abbrev pub log : List IrqCall → Machine → Machine
log cs s = record s { calls = s.calls ++ cs }

-- `irq_handler` for entry `k`: the calls, and the code of the event that it returns.
unfoldable pub irq_handler : Config → (k : ℕ) → Attach → List Attach → List IrqCall × ℕ
irq_handler c k a t = if c.mask_isr then (mask k a.masking t, k) else ([], k)

-- An interrupt of entry `k`: `irq_handler` runs if it has been attached, which it is with
-- InterruptAttach and not with InterruptAttachEvent.
unfoldable pub deliver_interrupt : Config → (k : ℕ) → Attach → List Attach → Machine → Machine
deliver_interrupt c k a t s =
    if is_message_signalled a.masking then log (irq_handler c k a t).0 s else s

-- The handlers of the drivers: from a function, an interrupt and a device, and the queues, the
-- queues that they leave and what they return. `resets` is the same for `reset_interrupt`, whose
-- result is logged only. `session` is the member `device_session` of a device.
pub record Drivers : Type 0 where
  pub handles : (function irq dev : ℕ) → (ℕ → Queue) → (ℕ → Queue) × Irqreturn
  pub resets : (function irq dev : ℕ) → (ℕ → Queue) → ℕ → Queue
  pub session : ℕ → ℕ

-- `tx_queue` is the transmit queue of a device's session.
unfoldable pub wake_queue : Queue → Queue
wake_queue q = if queue_wake_pending q then queue_awake (queue_start_signal q) else q

-- What MsgReceivePulse gives: -1, a code below zero, or a code.
pub data Received : Type 0 where
  receive_error negative_code : Received
  pulse : (code : ℕ) → Received

module _ (d : Drivers) where
  -- What follows a handler's result.
  unfoldable pub after_handler : (irq : ℕ) → Handler → Irqreturn → Machine → Machine
  after_handler irq h irq_none s = s
  after_handler irq h irq_handled s = s
  after_handler irq h irq_wake_thread s = if h.reset_interrupt == 0 then s else record {
    tx_queue = d.resets h.reset_interrupt irq h.dev s.tx_queue;
    calls = s.calls ++ (reset_call h.reset_interrupt irq h.dev ∷ []);
  }

  -- A call of one handler; a call of NULL is a fault.
  unfoldable pub run_handler : (irq : ℕ) → Handler → Machine → Option Machine
  run_handler irq h s =
      let (tx, err) = d.handles h.function irq h.dev s.tx_queue in
      if h.function == 0
      then none
      else some (
          after_handler irq h err
            (record { tx_queue = tx; calls = s.calls ++ (handler_call h.function irq h.dev ∷ []) }))

  -- The loop over `n` handlers from index `i` on. An element that has not been filled in is NULL.
  unfoldable pub run_handlers : Attach → (n i : ℕ) → Machine → Option Machine
  run_handlers a zero i s = some s
  run_handlers a (suc n) i s = elim (get_elem? a.handlers i) [
    | none ↦ none
    | some h ↦ elim (run_handler a.irq h s) [ none ↦ none | some s' ↦ run_handlers a n (suc i) s' ]
  ]

  -- The end of a round: the queues of the handlers' devices that are to be woken. A device without a
  -- session is a fault.
  unfoldable pub wake_queues : List Handler → (tx_queue : ℕ → Queue) → Option (ℕ → Queue)
  wake_queues [] tx = some tx
  wake_queues (h ∷ hs) tx =
      let rest = wake_queues hs (write tx h.dev (wake_queue (tx h.dev))) in
      if d.session h.dev == 0 then none else rest

  unfoldable pub wake_devices : Attach → Machine → Option Machine
  wake_devices a s = elim (wake_queues (take a.num_handlers a.handlers) s.tx_queue) [
    | none ↦ none
    | some tx ↦ some (record s { tx_queue = tx })
  ]

  -- A round for an entry with its mask functions set.
  unfoldable pub serve_entry : Config → (k : ℕ) → Attach → List Attach → Machine → Option Machine
  serve_entry c k a t s =
      let masks =
        if is_message_signalled a.masking && c.mask_pulse then mask k a.masking t else [] in
      elim (run_handlers a a.num_handlers 0 (log masks s)) [
        | none ↦ none
        | some s' ↦ wake_devices a (log (unmask k a.masking t) s')
      ]

  -- A round of `irq_loop` with its test of `shutdown_program`: does the loop go on, and the machine.
  -- An entry that no request has filled in has no mask functions.
  unfoldable pub irq_round :
      (shutdown : Bool) → Config → Received → List Attach → Machine → Option (Bool × Machine)
  irq_round true c r t s = some (false, s)
  irq_round false c receive_error t s = some (true, s)
  irq_round false c negative_code t s = some (true, s)
  irq_round false c (pulse k) t s = elim (get_elem? t k) [
    | none ↦ if ltb k max_irq_attach_count then some (true, s) else none
    | some a ↦ elim (serve_entry c k a t s) [ none ↦ none | some s' ↦ some (true, s') ]
  ]
