-- ===== src/Pci/Capability/Allowed.antt =====
-- The options decide which capability may be used.
use dev_can_linux.Base.{
  ℕ, Bool, true, false, not, ◌&&◌, ◌||◌, Option, none, some, List, [], ◌∷◌, ◌≡◌, ◌⊎◌, refl, subst,
  inl, inr, Bool-cases, Option-cases, arith, ◌==◌, if◌then◌else◌,
}
use dev_can_linux.Options.{DeviceConfig}
use dev_can_linux.Pci.Capability.{
  capid_msi, capid_msix, has_cap, is_enabled, Disabled, disable_round, disable_all, disabled_caps,
  Found, search_stage, search_cap,
}

-- Is there an option for the device with the capability?
abbrev pub names_cap : List DeviceConfig → (vid did cap : ℕ) → Bool
names_cap [] vid did cap = false
names_cap (c ∷ cs) vid did cap =
    ((c.vid == vid) && (c.did == did) && has_cap c.cap cap) || names_cap cs vid did cap

module _ (vid did : ℕ) where
  is_enabled-names_cap :
      (cs : List DeviceConfig) (cap : ℕ) → is_enabled cs vid did cap ≡ names_cap cs vid did cap
  unfolding is_enabled
  is_enabled-names_cap [] cap = refl
  is_enabled-names_cap (c ∷ cs) cap = ground (arith, is_enabled-names_cap cs cap)

  disable_round-names :
      (c : DeviceConfig) (s : Disabled)
      → ((disable_round c vid did s).msi ≡ (s.msi || names_cap (c ∷ []) vid did 5))
        × ((disable_round c vid did s).msix ≡ (s.msix || names_cap (c ∷ []) vid did 17))
  unfolding disable_round
  disable_round-names c s = ground arith

  disable_all-names :
      (cs : List DeviceConfig) (s : Disabled)
      → ((disable_all cs vid did s).msi ≡ (s.msi || names_cap cs vid did 5))
        × ((disable_all cs vid did s).msix ≡ (s.msix || names_cap cs vid did 17))
  unfolding disable_all
  disable_all-names [] s = ground arith
  disable_all-names (c ∷ cs) s =
      let (m, x) = disable_round-names c s in
      let (ms, xs) = disable_all-names cs (disable_round c vid did s) in
      (ground (arith, m, ms), ground (arith, x, xs))

  -- MSI is off where -d says so, and MSI-X is off unless -e says otherwise and -d does not.
  disabled_caps-names :
      (enable disable : List DeviceConfig)
      → ((disabled_caps enable disable vid did).msi ≡ names_cap disable vid did 5)
        × ((disabled_caps enable disable vid did).msix
            ≡ (not (names_cap enable vid did 17) || names_cap disable vid did 17))
  unfolding disabled_caps
  disabled_caps-names enable disable =
      let s : Disabled = record {
        msi = if is_enabled enable vid did capid_msi then false else false;
        msix = if is_enabled enable vid did capid_msix then false else true;
      } in
      let (m, x) = disable_all-names disable s in
      let on = is_enabled-names_cap enable 17 in (ground (arith, m), ground (arith, x, on))

-- What a stage of the search finds is there, and is not disabled.
abbrev pub Finds : Disabled → (find : ℕ → Option ℕ) (capid index : ℕ) → Type 0
Finds s find capid index =
    ((capid ≡ 5) × (s.msi ≡ false) × (find 5 ≡ some index))
    ⊎ ((capid ≡ 17) × (s.msix ≡ false) × (find 17 ≡ some index))

search_stage-Finds :
    (s : Disabled) (find : ℕ → Option ℕ) (capid index : ℕ)
    → search_stage s find ≡ some (capid, index)
    → Finds s find capid index
unfolding search_stage
search_stage-Finds s find capid index e = elim (Option-cases (find 17)) [
  | inl n ↦ elim (Option-cases (find 5)) [
    | inl m ↦ absurd (ground arith)
    | inr (i, f) ↦ inl (ground arith)
  ]
  | inr (j, g) ↦ elim (Option-cases (find 5)) [
    | inl m ↦ inr (ground arith)
    | inr (i, f) ↦ elim (Bool-cases s.msix) [
      | inl off ↦ inl (ground arith)
      | inr on ↦ inr (ground arith)
    ]
  ]
]

-- The kind of the capabilities among which one is found.
abbrev pub searched :
    (extended : Option (ℕ → Option ℕ)) (regular : ℕ → Option ℕ) → Found → Option (ℕ → Option ℕ)
searched extended regular f = if f.is_pcie_cap then extended else some regular

-- The second stage, where the first has not found any.
regular-Finds :
    (s : Disabled) (extended : Option (ℕ → Option ℕ)) (regular : ℕ → Option ℕ) (f : Found)
    → search_cap s none regular ≡ some f
    → (find : ℕ → Option ℕ) × (searched extended regular f ≡ some find)
      × Finds s find f.capid f.index
unfolding search_cap
regular-Finds s extended regular f e = elim (Option-cases (search_stage s regular)) [
  | inl n ↦ absurd (ground arith)
  | inr ((c, i), p) ↦
      let same : record { capid = c; index = i; is_pcie_cap = false } ≡ f = ground arith in
      subst
        (λ f.
          (find : ℕ → Option ℕ) × (searched extended regular f ≡ some find)
          × Finds s find f.capid f.index)
        same (regular, refl, search_stage-Finds s regular c i p)
]

search_cap-searched :
    (s : Disabled) (extended : Option (ℕ → Option ℕ)) (regular : ℕ → Option ℕ) (f : Found)
    → search_cap s extended regular ≡ some f
    → (find : ℕ → Option ℕ) × (searched extended regular f ≡ some find)
      × Finds s find f.capid f.index
unfolding search_cap
search_cap-searched s none regular f e = regular-Finds s none regular f e
search_cap-searched s (some ext) regular f e = elim (Option-cases (search_stage s ext)) [
  | inl n ↦
      let second : search_cap s none regular ≡ some f = ground arith in
      regular-Finds s (some ext) regular f second
  | inr ((c, i), p) ↦
      let same : record { capid = c; index = i; is_pcie_cap = true } ≡ f = ground arith in
      subst
        (λ f.
          (find : ℕ → Option ℕ) × (searched (some ext) regular f ≡ some find)
          × Finds s find f.capid f.index)
        same (ext, refl, search_stage-Finds s ext c i p)
]

-- Where a capability is found for a device: it is found at its index among the capabilities of the
-- kind that it is said to be of; if it is MSI, no -d names MSI for the device; if it is MSI-X, an -e
-- names MSI-X for the device and no -d does.
pub search_cap-Finds :
    (vid did : ℕ) (enable disable : List DeviceConfig) (extended : Option (ℕ → Option ℕ))
    (regular : ℕ → Option ℕ) (f : Found)
    → search_cap (disabled_caps enable disable vid did) extended regular ≡ some f
    → (((f.capid ≡ 5) × (names_cap disable vid did 5 ≡ false))
        ⊎ ((f.capid ≡ 17)
            × (names_cap enable vid did 17 ≡ true)
            × (names_cap disable vid did 17 ≡ false)))
      × ((find : ℕ → Option ℕ) × (searched extended regular f ≡ some find)
          × (find f.capid ≡ some f.index))
unfolding search_cap
search_cap-Finds vid did enable disable extended regular f e =
    let (find, kind, found) =
      search_cap-searched (disabled_caps enable disable vid did) extended regular f e in
    let (msi, msix) = disabled_caps-names vid did enable disable in
    elim found [
      | inl (c, on, at) ↦ (inl (c, ground (arith, msi)), (find, kind, ground (arith, c, at)))
      | inr (c, on, at) ↦
          (inr (c, ground (arith, msix), ground (arith, msix)), (find, kind, ground (arith, c, at)))
    ]
