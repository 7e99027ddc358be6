-- ===== src/Interrupt/Thread.antt =====
-- The thread `irq_loop` of src/interrupt.c among the interrupts and `terminate_irq_loop`.
use dev_can_linux.Base.{
  ℕ, ◌≡◌, ◌≢◌, refl, Bool, true, false, not, ◌||◌, Option, none, some, List, [], ◌∷◌, ◌++◌,
  get_elem?, if◌then◌else◌,
}
pub mod Calls
pub mod Expected
pub mod Returned
use dev_can_linux.Interrupt.{Attach}
use dev_can_linux.Interrupt.Loop.{
  Drivers, Machine, Config, Received, receive_error, negative_code, pulse, deliver_interrupt,
  irq_round,
}

-- An interrupt of an entry, at which the service routine runs and a pulse is queued; a call of
-- `terminate_irq_loop`, which sets `shutdown_program` and queues a pulse, where MsgDeliverEvent does
-- not fail; and what the thread gets of MsgReceivePulse: the first pulse in the queue, an error or a
-- code below zero.
pub data Event : Type 0 where
  interrupt : (k : ℕ) → Event
  terminate_irq_loop receive error below_zero : Event

-- The thread, the pulses that it has not received, and `shutdown_program`.
pub record IrqThread : Type 0 where
  pub machine : Machine
  pub pulses : List ℕ
  pub shutdown : Bool
  pub returned : Bool

module _ (d : Drivers) (c : Config) (t : List Attach) where
  -- The service routine.
  unfoldable pub interrupted : (k : ℕ) → Machine → Machine
  interrupted k s = elim (get_elem? t k) [ none ↦ s | some a ↦ deliver_interrupt c k a t s ]

  -- A round of the loop; `none` is a fault.
  unfoldable pub receive_round : Received → IrqThread → Option IrqThread
  receive_round r s = elim (irq_round d s.shutdown c r t s.machine) [
    | none ↦ none
    | some (goes, m) ↦ some (record s { machine = m; returned = not goes })
  ]

  -- The thread does nothing once it has returned, and waits where there is no pulse.
  unfoldable pub thread_event : Event → IrqThread → Option IrqThread
  thread_event receive s = elim s.pulses [
    | [] ↦ some s
    | k ∷ ps ↦ receive_round (pulse k) (record s { pulses = ps })
  ]
  thread_event error s = receive_round receive_error s
  thread_event below_zero s = receive_round negative_code s
  thread_event _ s = some s

  unfoldable pub irq_event : Event → IrqThread → Option IrqThread
  irq_event (interrupt k) s =
      some (record s { machine = interrupted k s.machine; pulses = s.pulses ++ (k ∷ []) })
  irq_event terminate_irq_loop s =
      some (record s { shutdown = true; pulses = s.pulses ++ (0 ∷ []) })
  irq_event e s = if s.returned then some s else thread_event e s

  unfoldable pub irq_loop : List Event → IrqThread → Option IrqThread
  irq_loop [] s = some s
  irq_loop (e ∷ es) s = elim (irq_event e s) [ none ↦ none | some u ↦ irq_loop es u ]
