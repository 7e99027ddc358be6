-- ===== src/Interrupt/Request.antt =====
-- `request_threaded_irq` of src/interrupt.c.
use dev_can_linux.Base.{
  ℕ, suc, ◌+◌, Bool, true, false, not, ◌&&◌, Option, none, some, List, [], ◌∷◌, ◌++◌, length, ltb,
  ◌==◌, if◌then◌else◌,
}
use dev_can_linux.Groups.{Group}
use dev_can_linux.Interrupt.{
  Handler, Attach, IrqCall, Masking, masking_msix, masking_msi, masking_msi_legacy, masking_regular,
  unmask, max_irq_attach_count, max_handlers_per_irq,
}

-- The choice of the mask functions.
unfoldable pub masking_of : (enabled : Bool) → Group → Masking
masking_of enabled g =
    if not (g.msi_cap == 0) && enabled
    then (if g.is_msix then masking_msix else if g.is_msi then masking_msi else masking_msi_legacy)
    else masking_regular

-- What the search for an attached interrupt comes to: none, or whether the handler has been added.
pub data Search : Type 0 where
  not_attached : Search
  found : (added : Bool) → List Attach → Search

abbrev pub behind : Attach → Search → Search
behind a not_attached = not_attached
behind a (found added t) = found added (a ∷ t)

-- A handler for an interrupt that is attached. The count goes up before it is tested.
unfoldable pub add_handler : Handler → Attach → Bool × Attach
add_handler h a =
    if ltb (a.num_handlers + 1) max_handlers_per_irq
    then (true, record a { num_handlers = a.num_handlers + 1; handlers = a.handlers ++ (h ∷ []) })
    else (false, record a { num_handlers = a.num_handlers + 1 })

unfoldable pub add_to_attached : (irq : ℕ) → Handler → List Attach → Search
add_to_attached irq h [] = not_attached
add_to_attached irq h (a ∷ t) =
    let rest = add_to_attached irq h t in
    let (added, b) = add_handler h a in if a.irq == irq then found added (b ∷ t) else behind a rest

-- Does the loop over the interrupts go on, the table, and the calls made.
pub record Request : Type 0 where
  pub goes : Bool
  pub table : List Attach
  pub calls : List IrqCall

-- The entry for interrupt number `i` of the group. Until it is attached, `id` keeps the zero of
-- static storage.
unfoldable pub new_entry : Group → Masking → Handler → (i irq id : ℕ) → Attach
new_entry g m h i irq id = record {
  irq = irq;
  irq_entry = i;
  id = some id;
  handlers = h ∷ [];
  num_handlers = 1;
  hdl = g.hdl;
  msi_cap = g.msi_cap;
  masking = m;
}

-- A new entry. The option is what InterruptAttach or InterruptAttachEvent returns, `none` for -1.
unfoldable pub attach_new :
    Option ℕ → Group → Masking → Handler → (i irq : ℕ) → List Attach → Request
attach_new none g m h i irq t = record {
  goes = false;
  table = t ++ (new_entry g m h i irq 0 ∷ []);
  calls = [];
}
attach_new (some id) g m h i irq t =
    let u = t ++ (new_entry g m h i irq id ∷ []) in
    record { goes = true; table = u; calls = unmask (length t) m u }

-- One round of the loop over the interrupts of the group.
unfoldable pub attach_irq :
    (attach : ℕ → Option ℕ) → Group → Masking → Handler → (i irq : ℕ) → List Attach → Request
attach_irq attach g m h i irq t =
    if length t == max_irq_attach_count
    then record { goes = false; table = t; calls = [] }
    else elim (add_to_attached irq h t) [
      | not_attached ↦ attach_new (attach irq) g m h i irq t
      | found added u ↦ record { goes = added; table = u; calls = [] }
    ]

unfoldable pub attach_all :
    (attach : ℕ → Option ℕ) → Group → Masking → Handler → (i : ℕ) → List ℕ → List Attach → Request
attach_all attach g m h i [] t = record { goes = true; table = t; calls = [] }
attach_all attach g m h i (irq ∷ irqs) t =
    let r = attach_irq attach g m h i irq t in
    let rest = attach_all attach g m h (suc i) irqs r.table in
    if r.goes then record rest { calls = r.calls ++ rest.calls } else r

-- `request_threaded_irq` for an interrupt of the group; it returns 0 where `goes` is true and -1
-- otherwise. `sched` says whether `pthread_getschedparam` succeeds, and `enabled` is what
-- `pci_device_cfg_cap_isenabled` returns.
unfoldable pub request_threaded_irq :
    (sched enabled : Bool) (attach : ℕ → Option ℕ) → Group → Handler → List Attach → Request
request_threaded_irq sched enabled attach g h t =
    if sched
    then attach_all attach g (masking_of enabled g) h 0 g.irqs t
    else record { goes = false; table = t; calls = [] }

-- `request_irq`
unfoldable pub request_irq :
    (sched enabled : Bool) (attach : ℕ → Option ℕ)
    → Group
    → (function dev : ℕ) → List Attach
    → Request
request_irq sched enabled attach g function dev =
    request_threaded_irq sched enabled attach g
      (record { function = function; reset_interrupt = 0; dev = dev })
