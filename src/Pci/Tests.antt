-- ===== src/Pci/Tests.antt =====
-- A bus with two devices of which one is supported.
use dev_can_linux.Base.{
  ℕ, ◌≡◌, refl, ◌+◌, true, false, Option, none, some, List, [], ◌∷◌, ◌++◌, arith, if◌then◌else◌,
}
use dev_can_linux.Options.{DeviceConfig}
use dev_can_linux.Pci.{DeviceId, Selected, BusFunction, process_driver_selection}
use dev_can_linux.Pci.Selection.{AllStored, process_driver_selection-wanted}
use dev_can_linux.Pci.Spaces.{Region, io_region, mem_region}
use dev_can_linux.Pci.Capability.{
  Found, is_enabled, disable_all, disabled_caps, search_stage, search_cap,
}

abbrev tables : List (List DeviceId)
tables = (record { vendor = 5118; device = 50437 } ∷ []) ∷ []

abbrev bus : List BusFunction
bus = record { vid = some 32902; did = some 1 } ∷ record { vid = some 5118; did = some 50437 } ∷ []

process_driver_selection-wanted_example :
    (xs : List Selected) × (process_driver_selection tables [] 3 true bus
      ≡ some (xs ++ (if true then record { vendor = 0; device = 0; driver = 6 } ∷ [] else [])))
    × AllStored tables [] bus xs
process_driver_selection-wanted_example =
    process_driver_selection-wanted tables [] 3 true bus ((32902, refl), ((5118, refl), tt))
      (omega arith)

abbrev regions : List Region
regions =
    record { addr = 4096; size = 32; type = io_region }
    ∷ record { addr = 65536; size = 128; type = mem_region }
    ∷ []

abbrev map_ports : (size addr : ℕ) → Option ℕ
map_ports size addr = some addr

abbrev map_memory : (size addr : ℕ) → Option ℕ
map_memory size addr = some (addr + 1048576)

abbrev memory_region : Region
memory_region = record { addr = 65536; size = 128; type = mem_region }

abbrev enable_msix : List DeviceConfig
enable_msix = record { vid = 5118; did = 50437; cap = some 17 } ∷ []

abbrev has_both : ℕ → Option ℕ
has_both c = some c

abbrev msix_found : Found
msix_found = record { capid = 17; index = 17; is_pcie_cap = false }

msix_chosen : search_cap (disabled_caps enable_msix [] 5118 50437) none has_both ≡ some msix_found
unfolding search_cap search_stage disabled_caps disable_all is_enabled
msix_chosen = refl
