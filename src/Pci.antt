-- ===== src/Pci.antt =====
-- src/pci.c, src/include/pci.h and src/pci-capability.c: the drivers for the devices on the bus, the
-- address spaces of the devices, and their capabilities. The PCI library of QNX is a parameter.
pub mod Drivers
pub mod Selection
pub mod Spaces
pub mod Capability
pub mod Blocks
pub mod Enable
pub mod Removal
mod Tests
use dev_can_linux.Base.{
  ℕ, zero, suc, ◌+◌, Bool, true, false, not, ◌&&◌, ◌||◌, Option, none, some, List, [], ◌∷◌, ◌++◌,
  get_elem?, ltb, ◌==◌, if◌then◌else◌,
}
use dev_can_linux.Options.{DeviceConfig}

-- An entry of an `id_table`; a vendor of zero ends the table.
pub record DeviceId : Type 0 where
  pub vendor : ℕ
  pub device : ℕ

unfoldable pub check_driver_support : List DeviceId → (vid did : ℕ) → Bool
check_driver_support [] vid did = false
check_driver_support (e ∷ table) vid did =
    let rest = check_driver_support table vid did in
    if e.vendor == 0 then false else if (e.vendor == vid) && (e.device == did) then true else rest

-- The drivers are numbers: their places in the chain of tests, and one behind for virtual CAN.
-- The first whose table has the device is detected.
unfoldable pub detect_driver : (driver : ℕ) → List (List DeviceId) → (vid did : ℕ) → Option ℕ
detect_driver k [] vid did = none
detect_driver k (table ∷ tables) vid did =
    let rest = detect_driver (suc k) tables vid did in
    if check_driver_support table vid did then some k else rest

-- Has -d disabled the whole device?
abbrev pub is_disabled : List DeviceConfig → (vid did : ℕ) → Bool
is_disabled [] vid did = false
is_disabled (c ∷ cs) vid did =
    let rest = is_disabled cs vid did in
    if (c.vid == vid) && (c.did == did) && elim c.cap [ none ↦ true | some x ↦ false ]
    then true
    else rest

-- `driver_selection_t`
pub record Selected : Type 0 where
  pub vendor : ℕ
  pub device : ℕ
  pub driver : ℕ

-- A function on the bus: what reading its vendor and its device gives, `none` for an error.
pub record BusFunction : Type 0 where
  pub vid : Option ℕ
  pub did : Option ℕ

module _ (tables : List (List DeviceId)) (disabled : List DeviceConfig) where
  -- What the body of the loop does for a function whose vendor can be read.
  unfoldable pub select_device : (vid : ℕ) → (did : Option ℕ) → List Selected → List Selected
  select_device vid none t = t
  select_device vid (some did) t = elim (detect_driver 0 tables vid did) [
    | none ↦ t
    | some k ↦
        if is_disabled disabled vid did
        then t
        else t ++ (record { vendor = vid; device = did; driver = k } ∷ [])
  ]

  -- The loop from index `idx` on, in at most `fuel` rounds: a function whose vendor cannot be read
  -- makes it go on with the same index.
  unfoldable pub select_from :
      (fuel : ℕ) → List BusFunction → (idx : ℕ) → List Selected → Option (List Selected)
  select_from zero bus idx t = none
  select_from (suc fuel) bus idx t = elim (get_elem? bus idx) [
    | none ↦ some t
    | some f ↦ elim f.vid [
      | none ↦ select_from fuel bus idx t
      | some vid ↦ select_from fuel bus (suc idx) (select_device vid f.did t)
    ]
  ]

  -- `process_driver_selection`, with the option -L.
  unfoldable pub process_driver_selection :
      (fuel : ℕ) (opt_l : Bool) → List BusFunction → Option (List Selected)
  process_driver_selection fuel opt_l bus = elim (select_from fuel bus 0 []) [
    | none ↦ none
    | some t ↦ some (if opt_l then t ++ (record { vendor = 0; device = 0; driver = 6 } ∷ []) else t)
  ]

-- `probe_all_driver_selections`: true is 0. A driver's `probe` that fails ends the loop.
unfoldable pub probe_all_driver_selections : (probe : Selected → Bool) → List Selected → Bool
probe_all_driver_selections probe [] = false
probe_all_driver_selections probe (d ∷ []) = probe d
probe_all_driver_selections probe (d ∷ e ∷ ds) =
    let rest = probe_all_driver_selections probe (e ∷ ds) in if probe d then rest else false
