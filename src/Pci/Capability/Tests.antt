-- ===== src/Pci/Capability/Tests.antt =====
-- A device with the capabilities PCIe (at 70) and MSI-X (at 80) with two vectors, for which -e asks.
use dev_can_linux.Base.{
  ℕ, ◌≡◌, refl, true, false, none, some, List, [], ◌∷◌, ◌++◌, arith, ◌==◌, if◌then◌else◌,
}
use dev_can_linux.Options.{DeviceConfig}
use dev_can_linux.Pci.Capability.{
  Found, is_enabled, disable_all, disabled_caps, search_stage, search_cap,
}
use dev_can_linux.Pci.Capability.Setup.{
  pci_ok, pci_err, Library, CapDev, enable_cap, msix_set_irq_entry, msix_unmask_irq_all,
  disable_cap, free_cap, logged, and_then, enable_pcie, pcie_init, set_entries, set_vectors,
  finish_msix, enable_msix, use_cap, find_cap, msix_init, msix_uninit,
}
use dev_can_linux.Pci.Capability.Uses.{vector_calls, nvecs, Uses}
use dev_can_linux.Pci.Capability.Undone.{
  Allows, given_up, read_found, msix_init-Uses, msix_uninit-msix_init,
}

abbrev lib : Library
lib = record {
  find_capid = λ c. if c == 16 then some 3 else if c == 17 then some 4 else none;
  find_xtnd_capid = λ p c. none;
  read_cap = λ i. (pci_ok, if i == 3 then 70 else 80);
  read_xtnd_cap = λ i. (pci_err 1, 0);
  msix_nirq = λ c. 2;
  msi_nirq = λ c. 1;
  set_irq_entry = λ i. pci_ok;
  set_nirq = λ n. pci_ok;
  cap_enable = λ c. pci_ok;
  get_irq_mask = pci_ok;
  cap_isenabled = λ c. true;
  cap_disable = λ c. pci_ok;
}

abbrev enable : List DeviceConfig
enable = record { vid = 5118; did = 50437; cap = some 17 } ∷ []

abbrev selected : CapDev
selected = record { pcie_cap = 0; msi_cap = 0; is_msi = false; is_msix = false; calls = [] }

abbrev ready : CapDev
ready = record {
  pcie_cap = 70;
  msi_cap = 80;
  is_msi = false;
  is_msix = true;
  calls =
      enable_cap 70
      ∷ msix_set_irq_entry 80 0 0
      ∷ msix_set_irq_entry 80 1 1
      ∷ enable_cap 80
      ∷ msix_unmask_irq_all 80
      ∷ [];
}

runs : msix_init lib (disabled_caps enable [] 5118 50437) selected ≡ (pci_ok, ready)
unfolding msix_init find_cap search_cap search_stage disabled_caps disable_all is_enabled use_cap
    pcie_init enable_pcie set_vectors set_entries enable_msix finish_msix and_then logged
runs = refl

msix_init-Uses_example :
    (f : Found) × (find_cap lib
        (disabled_caps enable [] 5118 50437)
        (pcie_init lib selected).1.pcie_cap
      ≡ some f)
    × Allows enable [] 5118 50437 f.capid
    × ((read_found lib f).0 ≡ pci_ok)
    × Uses lib f.capid (read_found lib f).1 (pcie_init lib selected).1 ready
msix_init-Uses_example = msix_init-Uses lib enable [] 5118 50437 selected ready runs

msix_uninit-msix_init_example :
    (capid : ℕ) × Allows enable [] 5118 50437 capid
    × ((msix_uninit lib ready).msi_cap ≡ 0)
    × ((msix_uninit lib ready).pcie_cap ≡ 0)
    × ((msix_uninit lib ready).calls
        ≡ (pcie_init lib selected).1.calls
          ++ (vector_calls capid 80 (nvecs lib capid 80)
              ++ (disable_cap 80 ∷ free_cap 80 ∷ given_up lib 70)))
msix_uninit-msix_init_example =
    msix_uninit-msix_init lib enable [] 5118 50437 selected ready runs (omega arith) refl
      (λ h. refl)

-- A device with PCIe and without MSI: `msix_uninit` leaves the capability PCIe enabled.
pcie_left : msix_uninit lib (record ready { msi_cap = 0 }) ≡ record ready { msi_cap = 0 }
unfolding msix_uninit
pcie_left = refl
