-- ===== src/Pci/Enable/Tests.antt =====
-- A device with MSI at 80, one region of ports and the interrupts 259 and 260.
use dev_can_linux.Base.{◌≡◌, refl, true, false, some, none, [], ◌∷◌, ◌==◌, if◌then◌else◌, arith}
use dev_can_linux.Pci.Spaces.{
  io_region, no_spaces, add_regions, add_region, track, widen, spaces_clash,
}
use dev_can_linux.Pci.Capability.{Disabled, search_stage, search_cap}
use dev_can_linux.Pci.Capability.Setup.{
  pci_ok, pci_err, Library, and_then, logged, enable_pcie, pcie_init, set_vectors, masks_vectors,
  finish_msix, enable_msix, use_cap, find_cap, msix_init,
}
use dev_can_linux.Pci.Enable.{
  Answers, PciDev, then_dev, group_for, take_regions, add_irqs, take_irqs, take_caps, enable_found,
  pci_enable_device,
}
use dev_can_linux.Base.{ℕ, Option}
use dev_can_linux.Groups.{Group}
use dev_can_linux.Groups.Add.{group_of}
use dev_can_linux.Interrupt.Request.{request_irq}
use dev_can_linux.Pci.Enable.Requested.{Requested, request_irq-pci_enable_device}
use dev_can_linux.Pci.Enable.Enabled.{Enabled, pci_enable_device-Enabled}

abbrev lib : Library
lib = record {
  find_capid = λ c. if c == 5 then some 4 else none;
  find_xtnd_capid = λ p c. none;
  read_cap = λ i. (pci_ok, 80);
  read_xtnd_cap = λ i. (pci_err 1, 0);
  msix_nirq = λ c. 0;
  msi_nirq = λ c. 2;
  set_irq_entry = λ i. pci_ok;
  set_nirq = λ n. pci_ok;
  cap_enable = λ c. pci_ok;
  get_irq_mask = pci_ok;
  cap_isenabled = λ c. true;
  cap_disable = λ c. pci_ok;
}

abbrev answers : Answers
answers = record {
  find = λ i. if i == 0 then some 256 else none;
  attach = (pci_ok, 9);
  read_ssvid = (pci_ok, 5118);
  read_ssid = (pci_ok, 1);
  devfn = 8;
  read_ba = (pci_ok, record { addr = 4096; size = 32; type = io_region } ∷ []);
  read_irq = (pci_ok, 259 ∷ 260 ∷ []);
  library = lib;
}

abbrev only_msi : Disabled
only_msi = record { msi = false; msix = true }

abbrev selected : PciDev
selected = record {
  hdl = 0;
  subsystem_vendor = 0;
  subsystem_device = 0;
  devfn = 0;
  caps = record { pcie_cap = 0; msi_cap = 0; is_msi = false; is_msix = false; calls = [] };
  ba = [];
  irq = 0;
  is_managed = false;
  spaces = no_spaces;
  groups = record { block = 100; groups = []; map_to = [] };
  detached = [];
}

abbrev ready : PciDev
ready = (pci_enable_device answers only_msi 200 selected).1

enables : pci_enable_device answers only_msi 200 selected ≡ (pci_ok, ready)
unfolding pci_enable_device enable_found then_dev take_caps take_regions take_irqs add_irqs
    group_for msix_init find_cap search_cap search_stage use_cap pcie_init enable_pcie set_vectors
    enable_msix finish_msix masks_vectors and_then logged add_regions add_region track widen
    spaces_clash
enables = refl

pci_enable_device-Enabled_example : Enabled answers only_msi 200 selected ready
pci_enable_device-Enabled_example =
    pci_enable_device-Enabled answers only_msi 200 256 selected ready refl
      (λ z. absurd (omega arith)) _ enables

abbrev attach : ℕ → Option ℕ
attach q = some q

request_irq-pci_enable_device_example :
    (g : Group) × (group_of ready.irq ready.groups ≡ some g)
    × (g.hdl ≡ 9)
    × Requested
        (259 ∷ 260 ∷ [])
        (record { function = 1; reset_interrupt = 0; dev = 50 })
        []
        (request_irq true true attach g 1 50 [])
request_irq-pci_enable_device_example =
    request_irq-pci_enable_device answers only_msi 200 256 259 (260 ∷ []) selected ready true attach
      1 50 [] refl (λ z. absurd (omega arith)) refl _ enables (omega arith) (λ q. (q, refl))
      (omega arith) tt tt
