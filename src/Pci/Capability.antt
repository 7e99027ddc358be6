-- ===== src/Pci/Capability.antt =====
-- `msix_init` of src/pci-capability.c: which of the capabilities MSI and MSI-X a device uses.
pub mod Allowed
pub mod Setup
pub mod Uses
pub mod Undone
mod Tests
use dev_can_linux.Base.{
  ℕ, zero, suc, Bool, true, false, not, ◌&&◌, ◌||◌, Option, none, some, List, [], ◌∷◌, ◌==◌,
  if◌then◌else◌,
}
use dev_can_linux.Options.{DeviceConfig}

-- CAPID_MSI and CAPID_MSIX
abbrev pub capid_msi : ℕ
capid_msi = 5

abbrev pub capid_msix : ℕ
capid_msix = 17

abbrev pub has_cap : Option ℕ → ℕ → Bool
has_cap none cap = false
has_cap (some c) cap = c == cap

-- The loops over the devices with a capability that -e enables.
unfoldable pub is_enabled : List DeviceConfig → (vid did cap : ℕ) → Bool
is_enabled [] vid did cap = false
is_enabled (c ∷ cs) vid did cap =
    let rest = is_enabled cs vid did cap in
    if (c.vid == vid) && (c.did == did) && has_cap c.cap cap then true else rest

-- The variables `disabled_msi` and `disabled_msix`.
pub record Disabled : Type 0 where
  pub msi : Bool
  pub msix : Bool

-- A round of the loop over the devices with a capability that -d disables.
unfoldable pub disable_round : DeviceConfig → (vid did : ℕ) → Disabled → Disabled
disable_round c vid did s =
    if (c.vid == vid) && (c.did == did)
    then (if has_cap c.cap 5
        then (if s.msi then s else record s { msi = true })
        else if has_cap c.cap 17
        then (if s.msix then s else record s { msix = true })
        else s)
    else s

unfoldable pub disable_all : List DeviceConfig → (vid did : ℕ) → Disabled → Disabled
disable_all [] vid did s = s
disable_all (c ∷ cs) vid did s = disable_all cs vid did (disable_round c vid did s)

-- MSI is on and MSI-X is off unless the options say otherwise.
unfoldable pub disabled_caps : (enable disable : List DeviceConfig) → (vid did : ℕ) → Disabled
disabled_caps enable disable vid did = disable_all disable vid did (record {
  msi = if is_enabled enable vid did capid_msi then false else false;
  msix = if is_enabled enable vid did capid_msix then false else true;
})

-- A capability that has been found: its id, its index, and whether it is an extended one of PCIe.
pub record Found : Type 0 where
  pub capid : ℕ
  pub index : ℕ
  pub is_pcie_cap : Bool

-- One stage of the search: MSI-X, and if that is not found MSI. `find` is `none` for -1.
unfoldable pub search_stage : Disabled → (find : ℕ → Option ℕ) → Option (ℕ × ℕ)
search_stage s find =
    let msi : Option (ℕ × ℕ) =
      if s.msi
      then none
      else elim (find capid_msi) [ none ↦ none | some i ↦ some (capid_msi, i) ] in
    if s.msix then msi else elim (find capid_msix) [ none ↦ msi | some i ↦ some (capid_msix, i) ]

-- The extended capabilities, if the device has the capability PCIe, and then the regular ones.
unfoldable pub search_cap :
    Disabled → (extended : Option (ℕ → Option ℕ)) (regular : ℕ → Option ℕ) → Option Found
search_cap s extended regular =
    let second : Option Found = elim (search_stage s regular) [
      | none ↦ none
      | some (c, i) ↦ some (record { capid = c; index = i; is_pcie_cap = false })
    ] in
    elim extended [
      | none ↦ second
      | some find ↦ elim (search_stage s find) [
        | none ↦ second
        | some (c, i) ↦ some (record { capid = c; index = i; is_pcie_cap = true })
      ]
    ]
