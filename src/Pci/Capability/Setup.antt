-- ===== src/Pci/Capability/Setup.antt =====
-- `msix_init`, `msix_uninit`, `pcie_init` and `pcie_uninit` of src/pci-capability.c, over what the PCI
-- library of QNX answers.
use dev_can_linux.Base.{
  ℕ, zero, suc, Bool, true, false, Option, none, some, List, [], ◌∷◌, ◌++◌, ltb, ◌==◌,
  if◌then◌else◌,
}
use dev_can_linux.Pci.Capability.{Disabled, Found, capid_msi, capid_msix, search_cap}

-- `pci_err_t`; `pci_err` is any other error.
pub data PciErr : Type 0 where
  pci_ok pci_ealready pci_enotsup : PciErr
  pci_err : ℕ → PciErr

-- The answers of the library for a device. A search gives an index or nothing; a read gives what it
-- leaves at the pointer, too.
pub record Library : Type 0 where
  pub find_capid : (capid : ℕ) → Option ℕ
  pub find_xtnd_capid : (pcie_cap capid : ℕ) → Option ℕ
  pub read_cap : (index : ℕ) → PciErr × ℕ
  pub read_xtnd_cap : (index : ℕ) → PciErr × ℕ
  pub msix_nirq : (cap : ℕ) → ℕ
  pub msi_nirq : (cap : ℕ) → ℕ
  pub set_irq_entry : (entry : ℕ) → PciErr
  pub set_nirq : (n : ℕ) → PciErr
  pub cap_enable : (cap : ℕ) → PciErr
  pub get_irq_mask : PciErr
  pub cap_isenabled : (cap : ℕ) → Bool
  pub cap_disable : (cap : ℕ) → PciErr

-- The calls that change something.
pub data CapCall : Type 0 where
  msix_set_irq_entry : (cap entry vector : ℕ) → CapCall
  msi_set_nirq : (cap n : ℕ) → CapCall
  enable_cap disable_cap free_cap msix_unmask_irq_all : (cap : ℕ) → CapCall

-- The members of `struct pci_dev` for the capabilities.
pub record CapDev : Type 0 where
  pub pcie_cap : ℕ
  pub msi_cap : ℕ
  pub is_msi : Bool
  pub is_msix : Bool
  pub calls : List CapCall

unfoldable pub logged : CapCall → CapDev → CapDev
logged c d = record d { calls = d.calls ++ (c ∷ []) }

-- `if (r != PCI_ERR_OK) return r;`
unfoldable pub and_then : PciErr × CapDev → (CapDev → PciErr × CapDev) → PciErr × CapDev
and_then (pci_ok, d) f = f d
and_then (e, d) f = (e, d)

module _ (lib : Library) where
  -- A capability that is enabled already is as good.
  unfoldable pub enable_pcie : PciErr → CapDev → PciErr × CapDev
  enable_pcie pci_ealready d = (pci_ok, d)
  enable_pcie e d = (e, d)

  unfoldable pub pcie_init : CapDev → PciErr × CapDev
  pcie_init d = elim (lib.find_capid 16) [
    | none ↦ (pci_enotsup, d)
    | some i ↦
        let (r, p) = lib.read_cap i in
        and_then (r, record d { pcie_cap = p })
          (λ e. enable_pcie (lib.cap_enable p) (logged (enable_cap p) e))
  ]

  -- The loop over the vectors from `i` on, `n` of which are left.
  unfoldable pub set_entries : (n i : ℕ) → CapDev → PciErr × CapDev
  set_entries zero i d = (pci_ok, d)
  set_entries (suc n) i d =
      and_then (lib.set_irq_entry i, logged (msix_set_irq_entry d.msi_cap i i) d)
        (set_entries n (suc i))

  unfoldable pub set_vectors : (capid : ℕ) → CapDev → PciErr × CapDev
  set_vectors capid d =
      let n = if capid == capid_msix then lib.msix_nirq d.msi_cap else lib.msi_nirq d.msi_cap in
      if ltb n 1
      then (pci_enotsup, d)
      else if capid == capid_msix
      then set_entries n 0 d
      else (lib.set_nirq n, logged (msi_set_nirq d.msi_cap n) d)

  -- What `pci_device_cfg_cap_disable` returns is logged only.
  unfoldable pub pcie_uninit : CapDev → CapDev
  pcie_uninit d =
      if d.pcie_cap == 0
      then d
      else if lib.cap_isenabled d.pcie_cap
      then record (logged (free_cap d.pcie_cap) (logged (disable_cap d.pcie_cap) d)) {
        pcie_cap = 0;
      }
      else d

  unfoldable pub msix_uninit : CapDev → CapDev
  msix_uninit d =
      if d.msi_cap == 0
      then d
      else if lib.cap_isenabled d.msi_cap
      then pcie_uninit
          (record (logged (free_cap d.msi_cap) (logged (disable_cap d.msi_cap) d)) { msi_cap = 0 })
      else d

  -- MSI: whether each vector can be masked.
  unfoldable pub masks_vectors : PciErr → CapDev → PciErr × CapDev
  masks_vectors pci_ok d = (pci_ok, record d { is_msi = true; is_msix = false })
  masks_vectors pci_enotsup d = (pci_ok, record d { is_msi = false; is_msix = false })
  masks_vectors e d = (e, msix_uninit (record d { is_msi = true }))

  unfoldable pub finish_msix : (capid : ℕ) → CapDev → PciErr × CapDev
  finish_msix capid d =
      if capid == capid_msi
      then masks_vectors lib.get_irq_mask d
      else (pci_ok, logged (msix_unmask_irq_all d.msi_cap) (record d { is_msix = true }))

  unfoldable pub enable_msix : (capid : ℕ) → CapDev → PciErr × CapDev
  enable_msix capid d =
      and_then (lib.cap_enable d.msi_cap, logged (enable_cap d.msi_cap) d) (finish_msix capid)

  -- The capability that has been found is read and enabled.
  unfoldable pub use_cap : Found → CapDev → PciErr × CapDev
  use_cap f d =
      let (r, p) = if f.is_pcie_cap then lib.read_xtnd_cap f.index else lib.read_cap f.index in
      and_then (r, record d { msi_cap = p })
        (λ e. and_then (set_vectors f.capid e) (enable_msix f.capid))

  -- The search, for the capability PCIe or NULL.
  unfoldable pub find_cap : Disabled → (pcie_cap : ℕ) → Option Found
  find_cap s p = search_cap s (if p == 0 then none else some (lib.find_xtnd_capid p)) lib.find_capid

  -- What `pcie_init` returns is not looked at.
  unfoldable pub msix_init : Disabled → CapDev → PciErr × CapDev
  msix_init s d =
      let e = (pcie_init d).1 in
      elim (find_cap s e.pcie_cap) [
        | none ↦ (pci_enotsup, record e { msi_cap = 0 })
        | some f ↦ use_cap f (record e { msi_cap = 0 })
      ]
