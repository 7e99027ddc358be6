-- ===== src/Interrupt.antt =====
-- src/interrupt.c and src/include/interrupt.h: the table of attached interrupts and the functions
-- that mask and unmask its entries.
pub mod Request
pub mod Free
pub mod Loop
pub mod Pulse
pub mod Attached
pub mod Rounds
pub mod Table
pub mod Bounds
pub mod Full
pub mod Taken
pub mod Thread
mod Tests
use dev_can_linux.Base.{
  ℕ, Bool, true, false, Option, none, some, List, [], ◌∷◌, ◌==◌, if◌then◌else◌, get_elem?,
}

-- MAX_IRQ_ATTACH_COUNT and MAX_HANDLERS_PER_IRQ
abbrev pub max_irq_attach_count : ℕ
max_irq_attach_count = 127

abbrev pub max_handlers_per_irq : ℕ
max_handlers_per_irq = 256

-- The elements of `handler`, `reset_interrupt` and `dev` at one index; NULL is zero.
pub record Handler : Type 0 where
  pub function : ℕ
  pub reset_interrupt : ℕ
  pub dev : ℕ

-- The pair of functions `mask` and `unmask`.
pub data Masking : Type 0 where
  masking_msix masking_msi masking_msi_legacy masking_regular : Masking

-- `irq_attach_t`. The id is `none` where it is -1; `handlers` are those that have been filled in.
-- The index of the entry is the code of its event.
pub record Attach : Type 0 where
  pub irq : ℕ
  pub irq_entry : ℕ
  pub id : Option ℕ
  pub handlers : List Handler
  pub num_handlers : ℕ
  pub hdl : ℕ
  pub msi_cap : ℕ
  pub masking : Masking

-- What is called outside of the library: the PCI capabilities with the handle, the capability and
-- the entry; InterruptMask and InterruptUnmask with the interrupt and the id; a handler and its
-- function `reset_interrupt` with the interrupt and the device.
pub data IrqCall : Type 0 where
  cap_msix_mask_irq_entry cap_msix_unmask_irq_entry : (hdl cap entry : ℕ) → IrqCall
  cap_msi_mask_irq_entry cap_msi_unmask_irq_entry : (hdl cap entry : ℕ) → IrqCall
  interrupt_mask interrupt_unmask : (irq : ℕ) (id : Option ℕ) → IrqCall
  handler_call reset_call : (function irq dev : ℕ) → IrqCall

-- The functions that mask and unmask an entry. Nothing is done beyond the table, and what the
-- capabilities return is logged only.
unfoldable pub mask_irq_msix : (attach_index : ℕ) → List Attach → List IrqCall
mask_irq_msix k t = elim (get_elem? t k) [
  | none ↦ []
  | some a ↦ if a.msi_cap == 0 then [] else cap_msix_mask_irq_entry a.hdl a.msi_cap a.irq_entry ∷ []
]

unfoldable pub mask_irq_msi : (attach_index : ℕ) → List Attach → List IrqCall
mask_irq_msi k t = elim (get_elem? t k) [
  | none ↦ []
  | some a ↦ if a.msi_cap == 0 then [] else cap_msi_mask_irq_entry a.hdl a.msi_cap a.irq_entry ∷ []
]

unfoldable pub mask_irq_regular : (attach_index : ℕ) → List Attach → List IrqCall
mask_irq_regular k t = elim (get_elem? t k) [ none ↦ [] | some a ↦ interrupt_mask a.irq a.id ∷ [] ]

unfoldable pub mask_irq_msi_legacy : (attach_index : ℕ) → List Attach → List IrqCall
mask_irq_msi_legacy k t = elim (get_elem? t k) [
  | none ↦ []
  | some a ↦ if a.msi_cap == 0 then [] else mask_irq_regular k t
]

unfoldable pub unmask_irq_msix : (attach_index : ℕ) → List Attach → List IrqCall
unmask_irq_msix k t = elim (get_elem? t k) [
  | none ↦ []
  | some a ↦
      if a.msi_cap == 0 then [] else cap_msix_unmask_irq_entry a.hdl a.msi_cap a.irq_entry ∷ []
]

unfoldable pub unmask_irq_msi : (attach_index : ℕ) → List Attach → List IrqCall
unmask_irq_msi k t = elim (get_elem? t k) [
  | none ↦ []
  | some a ↦
      if a.msi_cap == 0 then [] else cap_msi_unmask_irq_entry a.hdl a.msi_cap a.irq_entry ∷ []
]

unfoldable pub unmask_irq_regular : (attach_index : ℕ) → List Attach → List IrqCall
unmask_irq_regular k t = elim (get_elem? t k) [
  | none ↦ []
  | some a ↦ interrupt_unmask a.irq a.id ∷ []
]

unfoldable pub unmask_irq_msi_legacy : (attach_index : ℕ) → List Attach → List IrqCall
unmask_irq_msi_legacy k t = elim (get_elem? t k) [
  | none ↦ []
  | some a ↦ if a.msi_cap == 0 then [] else unmask_irq_regular k t
]

-- `attach->mask(k)` and `attach->unmask(k)`
unfoldable pub mask : (k : ℕ) → Masking → List Attach → List IrqCall
mask k masking_msix t = mask_irq_msix k t
mask k masking_msi t = mask_irq_msi k t
mask k masking_msi_legacy t = mask_irq_msi_legacy k t
mask k masking_regular t = mask_irq_regular k t

unfoldable pub unmask : (k : ℕ) → Masking → List Attach → List IrqCall
unmask k masking_msix t = unmask_irq_msix k t
unmask k masking_msi t = unmask_irq_msi k t
unmask k masking_msi_legacy t = unmask_irq_msi_legacy k t
unmask k masking_regular t = unmask_irq_regular k t

-- `mask != mask_irq_msi_legacy && mask != mask_irq_regular`
unfoldable pub is_message_signalled : Masking → Bool
is_message_signalled masking_msix = true
is_message_signalled masking_msi = true
is_message_signalled masking_msi_legacy = false
is_message_signalled masking_regular = false
