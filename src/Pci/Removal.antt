-- ===== src/Pci/Removal.antt =====
-- `remove_all_driver_selections` of src/include/pci.h: at the end of the program the drivers are removed,
-- and what the functions for managed devices took is given back. The `remove` of a driver and the PCI
-- library are parameters.
pub mod Removed
pub mod Ended
mod Tests
use dev_can_linux.Base.{
  ℕ, Bool, true, false, not, ◌&&◌, Option, none, some, List, [], ◌∷◌, ◌++◌, ◌==◌, if◌then◌else◌,
}
use dev_can_linux.Pci.{Selected}
use dev_can_linux.Pci.Blocks.{Blocks, unmap_regions}
use dev_can_linux.Pci.Capability.Setup.{Library}
use dev_can_linux.Pci.Enable.{PciDev, pci_disable_device}

-- `driver_selection_t`: the device that has been selected, with its `pdev`.
pub record Selection : Type 0 where
  pub selected : Selected
  pub pdev : PciDev

-- The mapped blocks, the devices that have been disabled, and the selections that have been freed.
pub record Removal : Type 0 where
  pub blocks : Blocks
  pub disabled : List PciDev
  pub freed : List Selected

-- Only the driver for virtual CAN has a vendor or a device of zero.
unfoldable pub is_on_bus : Selected → Bool
is_on_bus x = not (x.vendor == 0) && not (x.device == 0)

unfoldable pub unmap_selection : (rounds fuel : ℕ) → Selected → PciDev → Blocks → Option Blocks
unmap_selection rounds fuel x d s = if is_on_bus x then unmap_regions rounds fuel d.ba s else some s

-- The library for a device, and whether `pci_bdf` finds the device of a handle.
module _ (library : Selected → Library) (finds : (hdl : ℕ) → Bool) where
  unfoldable pub disable_managed : Selected → PciDev → List PciDev
  disable_managed x d =
      if is_on_bus x && d.is_managed
      then pci_disable_device (library x) (finds d.hdl) d ∷ []
      else []

-- A driver's `remove`, `none` for a fault.
module _ (remove : Selected → PciDev → Blocks → Option (PciDev × Blocks))
    (library : Selected → Library) (finds : (hdl : ℕ) → Bool) where
  -- The body of the loop.
  unfoldable pub remove_selection : (rounds fuel : ℕ) → Selection → Removal → Option Removal
  remove_selection rounds fuel x s = elim (remove x.selected x.pdev s.blocks) [
    | none ↦ none
    | some (d, b) ↦ elim (unmap_selection rounds fuel x.selected d b) [
      | none ↦ none
      | some c ↦ some (record {
        blocks = c;
        disabled = s.disabled ++ disable_managed library finds x.selected d;
        freed = s.freed ++ (x.selected ∷ []);
      })
    ]
  ]

  -- The list of the selections, from its root on.
  unfoldable pub remove_all_driver_selections :
      (rounds fuel : ℕ) → List Selection → Removal → Option Removal
  remove_all_driver_selections rounds fuel [] s = some s
  remove_all_driver_selections rounds fuel (x ∷ xs) s = elim (remove_selection rounds fuel x s) [
    | none ↦ none
    | some t ↦ remove_all_driver_selections rounds fuel xs t
  ]
