-- ===== src/Interrupt/Tests.antt =====
-- A device with two interrupts.
use dev_can_linux.Base.{
  ℕ, zero, suc, ◌+◌, ◌≡◌, ◌≢◌, refl, ap, Option, true, false, some, List, [], ◌∷◌, arith, length,
  replicate, get_elem?,
}
use dev_can_linux.Queue.{Queue, fresh_queue}
use dev_can_linux.Groups.{Group}
use dev_can_linux.Interrupt.{
  Handler, Attach, masking_regular, masking_msi, unmask, unmask_irq_regular, interrupt_unmask,
  cap_msi_mask_irq_entry, cap_msi_unmask_irq_entry, handler_call,
}
use dev_can_linux.Interrupt.Request.{
  masking_of, request_threaded_irq, attach_all, attach_irq, attach_new, new_entry, add_to_attached,
  add_handler,
}
use dev_can_linux.Interrupt.Loop.{Drivers, Machine, Config, irq_wake_thread}
use dev_can_linux.Interrupt.Rounds.{IsFilled}
use dev_can_linux.Interrupt.Thread.{
  IrqThread, interrupt, error, receive, terminate_irq_loop, irq_loop,
}
use dev_can_linux.Interrupt.Thread.Calls.{plain}
use dev_can_linux.Interrupt.Thread.Expected.{running}
use dev_can_linux.Interrupt.Thread.Returned.{irq_loop-returned}
use dev_can_linux.Interrupt.Table.{Grows, HasAll, AllFilled}
use dev_can_linux.Interrupt.Attached.{request_threaded_irq-HasAll}

abbrev handler : Handler
handler = record { function = 1; reset_interrupt = 2; dev = 50 }

abbrev group : Group
group = record { irqs = 5 ∷ 6 ∷ []; hdl = 1; msi_cap = 0; is_msi = false; is_msix = false }

abbrev entry : ℕ → List Handler → Attach
entry irq hs = record {
  irq = irq;
  irq_entry = 0;
  id = some irq;
  handlers = hs;
  num_handlers = length hs;
  hdl = 1;
  msi_cap = 3;
  masking = masking_msi;
}

abbrev one_entry : List Attach
one_entry = entry 5 (handler ∷ []) ∷ []

abbrev all_attach : ℕ → Option ℕ
all_attach q = some q

-- The first interrupt is attached already, the second is new, and is unmasked.
shared_irq : request_threaded_irq true false all_attach group handler one_entry ≡ record {
  goes = true;
  table =
      entry 5 (handler ∷ handler ∷ [])
      ∷ record {
        irq = 6;
        irq_entry = 1;
        id = some 6;
        handlers = handler ∷ [];
        num_handlers = 1;
        hdl = 1;
        msi_cap = 0;
        masking = masking_regular;
      }
      ∷ [];
  calls = interrupt_unmask 6 (some 6) ∷ [];
}
unfolding request_threaded_irq attach_all attach_irq attach_new new_entry add_to_attached
    add_handler masking_of unmask unmask_irq_regular
shared_irq = refl

abbrev pending : ℕ → Queue
pending i = record (fresh_queue 0 []) { stopped = true; wake_pending = true }

-- A driver whose handler asks for `reset_interrupt`.
abbrev drivers : Drivers
drivers = record {
  handles = λ f irq dev tx. (tx, irq_wake_thread);
  resets = λ f irq dev tx. tx;
  session = λ dev. dev + 1;
}

abbrev config : Config
config = record { mask_isr = true; mask_pulse = false }

abbrev idle : Machine
idle = record { tx_queue = pending; calls = [] }

not_null : (i : ℕ) (h : Handler) → get_elem? (handler ∷ []) i ≡ some h → h.function ≢ 0
not_null zero h e = ground arith
not_null (suc i) h e = cc

entry-IsFilled : IsFilled (entry 5 (handler ∷ []))
entry-IsFilled = record { counted = refl; not_null = not_null }

irq_loop-returned_example :
    (u : IrqThread) × (irq_loop drivers config one_entry
        (interrupt 0 ∷ error ∷ receive ∷ interrupt 0 ∷ terminate_irq_loop ∷ receive ∷ [])
        (running idle [])
      ≡ some u)
    × (u.returned ≡ true)
    × (plain u.machine.calls
        ≡ cap_msi_mask_irq_entry 1 3 0
          ∷ handler_call 1 5 50
          ∷ cap_msi_unmask_irq_entry 1 3 0
          ∷ cap_msi_mask_irq_entry 1 3 0
          ∷ [])
irq_loop-returned_example =
    irq_loop-returned drivers config one_entry (interrupt 0 ∷ error ∷ receive ∷ interrupt 0 ∷ [])
      (receive ∷ []) idle [] tt
      (
        (entry 5 (handler ∷ []), refl, entry-IsFilled, λ dev s. omega arith),
        ((entry 5 (handler ∷ []), refl, entry-IsFilled, λ dev s. omega arith), tt),
      )
      refl

request_threaded_irq-HasAll_example :
    let u = (request_threaded_irq true false all_attach group handler one_entry).table in
    Grows one_entry u × HasAll (5 ∷ 6 ∷ []) handler u × AllFilled u
request_threaded_irq-HasAll_example =
    request_threaded_irq-HasAll true false all_attach group handler one_entry (omega arith)
      (entry-IsFilled, tt) (ap (λ r. r.goes) shared_irq)

abbrev many : List Handler
many = replicate 255 handler

abbrev full : List Attach
full = record (entry 5 many) { num_handlers = 255 } ∷ []
