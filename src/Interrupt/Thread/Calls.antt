-- ===== src/Interrupt/Thread/Calls.antt =====
-- What the interrupts of an entry are to bring about, told from the entry alone.
use dev_can_linux.Base.{
  ℕ, ◌≡◌, refl, ap, some, List, [], ◌∷◌, ◌++◌, map, get_elem?, arith, ◌==◌, if◌then◌else◌,
  Bool-cases, inl, inr,
}
use dev_can_linux.Interrupt.{
  Attach, IrqCall, cap_msix_mask_irq_entry, cap_msix_unmask_irq_entry, cap_msi_mask_irq_entry,
  cap_msi_unmask_irq_entry, interrupt_mask, interrupt_unmask, handler_call, reset_call, Masking,
  masking_msix, masking_msi, masking_msi_legacy, masking_regular, mask, unmask,
  is_message_signalled, mask_irq_msix, mask_irq_msi, unmask_irq_msix, unmask_irq_msi,
  unmask_irq_msi_legacy, unmask_irq_regular,
}
use dev_can_linux.Interrupt.Rounds.{handler_calls, masking_calls}

-- An interrupt that is signalled by message is masked at its capability, and any other by the kernel.
abbrev pub masks_as : Masking → Attach → List IrqCall
masks_as masking_msix a =
    if a.msi_cap == 0 then [] else cap_msix_mask_irq_entry a.hdl a.msi_cap a.irq_entry ∷ []
masks_as masking_msi a =
    if a.msi_cap == 0 then [] else cap_msi_mask_irq_entry a.hdl a.msi_cap a.irq_entry ∷ []
masks_as _ a = []

abbrev pub unmasks_as : Masking → Attach → List IrqCall
unmasks_as masking_msix a =
    if a.msi_cap == 0 then [] else cap_msix_unmask_irq_entry a.hdl a.msi_cap a.irq_entry ∷ []
unmasks_as masking_msi a =
    if a.msi_cap == 0 then [] else cap_msi_unmask_irq_entry a.hdl a.msi_cap a.irq_entry ∷ []
unmasks_as masking_msi_legacy a = if a.msi_cap == 0 then [] else interrupt_unmask a.irq a.id ∷ []
unmasks_as masking_regular a = interrupt_unmask a.irq a.id ∷ []

abbrev pub handlers_of : Attach → List IrqCall
handlers_of a = map (λ h. handler_call h.function a.irq h.dev) a.handlers

-- The calls, less those of `reset_interrupt`.
abbrev pub plain : List IrqCall → List IrqCall
plain [] = []
plain (reset_call f irq dev ∷ cs) = plain cs
plain (c ∷ cs) = c ∷ plain cs

module _ (k : ℕ) (a : Attach) (t : List Attach) (here : get_elem? t k ≡ some a) where
  pub mask-masks_as :
      (m : Masking) → (if is_message_signalled m then mask k m t else []) ≡ masks_as m a
  unfolding is_message_signalled mask mask_irq_msix mask_irq_msi
  mask-masks_as masking_msix = rw (mask_irq_msix, here) refl
  mask-masks_as masking_msi = rw (mask_irq_msi, here) refl
  mask-masks_as masking_msi_legacy = refl
  mask-masks_as masking_regular = refl

  unmask_irq_regular_lem : unmask_irq_regular k t ≡ interrupt_unmask a.irq a.id ∷ []
  unfolding unmask_irq_regular
  unmask_irq_regular_lem = rw (unmask_irq_regular, here) refl

  pub unmask-unmasks_as : (m : Masking) → unmask k m t ≡ unmasks_as m a
  unfolding unmask unmask_irq_msix unmask_irq_msi unmask_irq_msi_legacy
  unmask-unmasks_as masking_msix = rw (unmask_irq_msix, here) refl
  unmask-unmasks_as masking_msi = rw (unmask_irq_msi, here) refl
  unmask-unmasks_as masking_msi_legacy =
      rw (unmask_irq_msi_legacy, here)
        (ap (λ l. if a.msi_cap == 0 then [] else l) unmask_irq_regular_lem)
  unmask-unmasks_as masking_regular = unmask_irq_regular_lem

pub plain-append : (cs es : List IrqCall) → plain (cs ++ es) ≡ plain cs ++ plain es
plain-append [] es = refl
plain-append (c ∷ cs) es = ground (arith, plain-append cs es)

pub plain-handlers : (cs : List IrqCall) → masking_calls cs ≡ [] → plain cs ≡ handler_calls cs
plain-handlers [] h = refl
plain-handlers (handler_call f irq dev ∷ cs) h =
    ap (◌∷◌ (handler_call f irq dev)) (plain-handlers cs h)
plain-handlers (reset_call f irq dev ∷ cs) h = plain-handlers cs h
plain-handlers (cap_msix_mask_irq_entry x y z ∷ cs) h = absurd (cc)
plain-handlers (cap_msix_unmask_irq_entry x y z ∷ cs) h = absurd (cc)
plain-handlers (cap_msi_mask_irq_entry x y z ∷ cs) h = absurd (cc)
plain-handlers (cap_msi_unmask_irq_entry x y z ∷ cs) h = absurd (cc)
plain-handlers (interrupt_mask x y ∷ cs) h = absurd (cc)
plain-handlers (interrupt_unmask x y ∷ cs) h = absurd (cc)

pub plain-masks_as : (m : Masking) (a : Attach) → plain (masks_as m a) ≡ masks_as m a
plain-masks_as masking_msix a = elim (Bool-cases (a.msi_cap == 0)) [
  | inl z ↦ rw z refl
  | inr z ↦ rw z refl
]
plain-masks_as masking_msi a = elim (Bool-cases (a.msi_cap == 0)) [
  | inl z ↦ rw z refl
  | inr z ↦ rw z refl
]
plain-masks_as masking_msi_legacy a = refl
plain-masks_as masking_regular a = refl

pub plain-unmasks_as : (m : Masking) (a : Attach) → plain (unmasks_as m a) ≡ unmasks_as m a
plain-unmasks_as masking_msix a = elim (Bool-cases (a.msi_cap == 0)) [
  | inl z ↦ rw z refl
  | inr z ↦ rw z refl
]
plain-unmasks_as masking_msi a = elim (Bool-cases (a.msi_cap == 0)) [
  | inl z ↦ rw z refl
  | inr z ↦ rw z refl
]
plain-unmasks_as masking_msi_legacy a = elim (Bool-cases (a.msi_cap == 0)) [
  | inl z ↦ rw z refl
  | inr z ↦ rw z refl
]
plain-unmasks_as masking_regular a = refl
