-- ===== src/Pci/Removal/Tests.antt =====
-- A managed device with a mapped region of ports, and the driver for virtual CAN.
use dev_can_linux.Base.{
  ℕ, ◌≡◌, refl, sym, subst, Bool, true, false, Option, none, some, List, [], ◌∷◌, arith, ◌==◌,
}
use dev_can_linux.Links.{write}
use dev_can_linux.Links.Laws.{IsList}
use dev_can_linux.Pci.{Selected}
use dev_can_linux.Pci.Spaces.{Region, io_region, mem_region, no_spaces}
use dev_can_linux.Pci.Blocks.{Blocks}
use dev_can_linux.Pci.Blocks.Released.{is_managed_in, failing-none}
use dev_can_linux.Pci.Capability.Setup.{pci_ok, Library}
use dev_can_linux.Pci.Enable.{PciDev}
use dev_can_linux.Pci.Removal.{Selection, Removal, remove_all_driver_selections}
use dev_can_linux.Pci.Removal.Removed.{UnmapsOnly, AllReleased, AllAttached}
use dev_can_linux.Pci.Removal.Ended.{Kept, Done, remove_all_driver_selections-Done}

abbrev remove : Selected → PciDev → Blocks → Option (PciDev × Blocks)
remove x d s = some (d, s)

remove-UnmapsOnly : UnmapsOnly remove
remove-UnmapsOnly x d s xs h = (
  d,
  s,
  is_managed_in [],
  refl,
  record { list = subst (IsList s.links) (sym (failing-none s.block xs)) h; same = refl },
  refl,
  refl,
  λ m. (refl, refl),
)

abbrev library : Selected → Library
library x = record {
  find_capid = λ c. none;
  find_xtnd_capid = λ p c. none;
  read_cap = λ i. (pci_ok, 0);
  read_xtnd_cap = λ i. (pci_ok, 0);
  msix_nirq = λ c. 0;
  msi_nirq = λ c. 0;
  set_irq_entry = λ i. pci_ok;
  set_nirq = λ n. pci_ok;
  cap_enable = λ c. pci_ok;
  get_irq_mask = pci_ok;
  cap_isenabled = λ c. true;
  cap_disable = λ c. pci_ok;
}

abbrev finds : ℕ → Bool
finds hdl = hdl == 9

abbrev ports : Region
ports = record { addr = 4096; size = 32; type = io_region }

abbrev device : (hdl : ℕ) (ba : List Region) (is_managed : Bool) → PciDev
device hdl ba is_managed = record {
  hdl = hdl;
  subsystem_vendor = 0;
  subsystem_device = 0;
  devfn = 0;
  caps = record { pcie_cap = 0; msi_cap = 0; is_msi = false; is_msix = false; calls = [] };
  ba = ba;
  irq = 5;
  is_managed = is_managed;
  spaces = no_spaces;
  groups = record { block = 100; groups = []; map_to = [] };
  detached = [];
}

abbrev selections : List Selection
selections =
    record {
      selected = record { vendor = 5118; device = 50437; driver = 1 };
      pdev = device 9 (ports ∷ []) true;
    }
    ∷ record { selected = record { vendor = 0; device = 0; driver = 6 }; pdev = device 0 [] false }
    ∷ []

abbrev nowhere : ℕ → ℕ
nowhere i = 0

abbrev running : Removal
running = record {
  blocks = record {
    links = record { root = 1; prev = write nowhere 2 1; next = write nowhere 1 2 };
    block =
        write
          (λ i. record {
            addr = 90000;
            size = 128;
            region = record { addr = 65536; size = 128; type = mem_region };
            is_managed = false;
          })
          1 (record { addr = 4096; size = 32; region = ports; is_managed = true });
    unmaps = [];
  };
  disabled = [];
  freed = [];
}

running-IsList : IsList running.blocks.links (1 ∷ 2 ∷ [])
running-IsList = record {
  distinct = ((omega arith, tt), (tt, tt));
  tail = 2;
  linked = (refl, omega arith, refl, (refl, omega arith, refl, (refl, refl)));
}

selections-AllAttached : AllAttached finds selections
selections-AllAttached = ((λ m. (refl, omega arith)), ((λ m. absurd (cc)), tt))

remove_all_driver_selections-Done_example :
    (t : Removal) × (ys : List ℕ) × (remove_all_driver_selections remove library finds 3 3
        selections running
      ≡ some t)
    × Kept (1 ∷ 2 ∷ []) ys running.blocks t.blocks
    × AllReleased selections running.blocks.block ys
    × Done selections running t
remove_all_driver_selections-Done_example =
    remove_all_driver_selections-Done library finds remove 3 3 selections running (1 ∷ 2 ∷ [])
      remove-UnmapsOnly selections-AllAttached running-IsList ((refl, tt), (tt, tt)) (omega arith)
      (omega arith)
