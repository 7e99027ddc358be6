-- ===== src/Pci/Enable.antt =====
-- `pci_enable_device`, `pcim_enable_device` and `pci_disable_device` of src/pci.c: a device is attached, and its
-- capabilities, regions and interrupts are taken. What the PCI library of QNX answers is a parameter.
pub mod Enabled
pub mod Requested
mod Tests
use dev_can_linux.Base.{
  ℕ, zero, suc, Bool, true, false, Option, none, some, List, [], ◌∷◌, ◌++◌, ◌==◌, if◌then◌else◌,
}
use dev_can_linux.Groups.{Group, Groups, irq_group_add}
use dev_can_linux.Pci.Spaces.{Region, Spaces, add_regions}
use dev_can_linux.Pci.Capability.{Disabled}
use dev_can_linux.Pci.Capability.Setup.{
  PciErr, pci_ok, pci_enotsup, Library, CapDev, msix_init, msix_uninit,
}

-- What the library answers for the vendor and the device, beside the capabilities.
pub record Answers : Type 0 where
  pub find : (idx : ℕ) → Option ℕ
  pub attach : PciErr × ℕ
  pub read_ssvid : PciErr × ℕ
  pub read_ssid : PciErr × ℕ
  pub devfn : ℕ
  pub read_ba : PciErr × List Region
  pub read_irq : PciErr × List ℕ
  pub library : Library

-- The members of `struct pci_dev`, with the address spaces and the groups of interrupts, which all
-- devices share; `detached` are the handles given back.
pub record PciDev : Type 0 where
  pub hdl : ℕ
  pub subsystem_vendor : ℕ
  pub subsystem_device : ℕ
  pub devfn : ℕ
  pub caps : CapDev
  pub ba : List Region
  pub irq : ℕ
  pub is_managed : Bool
  pub spaces : Spaces
  pub groups : Groups
  pub detached : List ℕ

unfoldable pub then_dev : PciErr × PciDev → (PciDev → PciErr × PciDev) → PciErr × PciDev
then_dev (pci_ok, d) f = f d
then_dev (e, d) f = (e, d)

unfoldable pub group_for : List ℕ → PciDev → Group
group_for irqs d = record {
  irqs = irqs;
  hdl = d.hdl;
  msi_cap = d.caps.msi_cap;
  is_msi = d.caps.is_msi;
  is_msix = d.caps.is_msix;
}

module _ (a : Answers) (s : Disabled) (new : ℕ) where
  -- "Process bar info"; where a region is refused, the source has filled in `ba` only up to it.
  unfoldable pub take_regions : PciErr × List Region → PciDev → PciErr × PciDev
  take_regions (pci_ok, []) d = (pci_ok, d)
  take_regions (pci_ok, r ∷ rs) d =
      let (goes, spaces) = add_regions (r ∷ rs) d.spaces in
      (if goes then pci_ok else pci_enotsup, record d { ba = r ∷ rs; spaces = spaces })
  take_regions (e, rs) d = (pci_ok, d)

  -- "Process IRQ info"; `new` is the block that `malloc` returns for the groups.
  unfoldable pub add_irqs : PciErr × List ℕ → PciDev → PciDev
  add_irqs (pci_ok, []) d = d
  add_irqs (pci_ok, q ∷ qs) d = record d {
    irq = q;
    groups = irq_group_add new (group_for (q ∷ qs) d) d.groups;
  }
  add_irqs (e, qs) d = d

  unfoldable pub take_irqs : PciDev → PciErr × PciDev
  take_irqs d = let e = add_irqs a.read_irq d in (if e.irq == 0 then pci_enotsup else pci_ok, e)

  -- What `msix_init` returns is not looked at.
  unfoldable pub take_caps : PciDev → PciDev
  take_caps d = record d { devfn = a.devfn; caps = (msix_init a.library s d.caps).1 }

  -- The body of the loop for the first index.
  unfoldable pub enable_found : PciDev → PciErr × PciDev
  enable_found d =
      let (r, hdl) = a.attach in
      let attached = record d { hdl = hdl } in
      if hdl == 0
      then (r, attached)
      else then_dev (a.read_ssvid.0, attached)
          (λ e.
            then_dev (a.read_ssid.0, record e { subsystem_vendor = a.read_ssvid.1 })
              (λ f.
                then_dev
                  (take_regions a.read_ba
                    (take_caps (record f { subsystem_device = a.read_ssid.1 })))
                  take_irqs))

  -- The loop: a second device with the same ids is an error.
  unfoldable pub pci_enable_device : PciDev → PciErr × PciDev
  pci_enable_device d =
      let e = record d { is_managed = false } in
      elim (a.find 0) [
        | none ↦ (pci_ok, e)
        | some bdf ↦
            then_dev (enable_found e)
              (λ f. (elim (a.find 1) [ none ↦ pci_ok | some bdf ↦ pci_enotsup ], f))
      ]

  -- It returns 0 in any case.
  unfoldable pub mark_managed : PciErr × PciDev → PciDev
  mark_managed (pci_ok, d) = record d { is_managed = true }
  mark_managed (e, d) = d

  unfoldable pub pcim_enable_device : PciDev → ℕ × PciDev
  pcim_enable_device d = (0, mark_managed (pci_enable_device d))

-- `attached` says whether `pci_bdf` finds the device of the handle.
unfoldable pub pci_disable_device : Library → (attached : Bool) → PciDev → PciDev
pci_disable_device lib attached d =
    if attached
    then (if d.hdl == 0
        then d
        else record d { caps = msix_uninit lib d.caps; detached = d.detached ++ (d.hdl ∷ []) })
    else d
