-- ===== src/Pci/Drivers.antt =====
-- What it means that a driver supports a device and that -d disables one, told without the loops of
-- src/pci.c.
use dev_can_linux.Base.{
  ℕ, zero, suc, ◌+◌, ◌≤◌, ◌<◌, ◌≡◌, ◌≢◌, refl, ap, ◌∙◌, subst, inl, inr, Bool-cases, true, false,
  ◌&&◌, Option-cases, none, some, List, [], ◌∷◌, get_elem?, arith, ◌==◌,
}
use dev_can_linux.Options.{DeviceConfig}
use dev_can_linux.Pci.{DeviceId, check_driver_support, detect_driver, is_disabled}

module _ (vid did : ℕ) where
  -- An entry of the table has the ids, and none up to it ends the table.
  abbrev pub Supports : List DeviceId → Type 0
  Supports table =
      (i : ℕ) × (e : DeviceId) × (get_elem? table i ≡ some e)
      × (e.vendor ≡ vid)
      × (e.device ≡ did)
      × ((j : ℕ) (x : DeviceId) → j ≤ i → get_elem? table j ≡ some x → x.vendor ≢ 0)

  -- No driver's table supports the device.
  abbrev pub Unsupported : List (List DeviceId) → Type 0
  Unsupported tables =
      (j : ℕ) (table : List DeviceId) → get_elem? tables j ≡ some table → ¬ (Supports table)

  -- The driver at `k` supports the device and none before it does.
  abbrev pub IsFirst : (k : ℕ) → List (List DeviceId) → Type 0
  IsFirst k tables =
      ((table : List DeviceId) × (get_elem? tables k ≡ some table) × Supports table)
      × ((j : ℕ) (table : List DeviceId)
          → j < k
          → get_elem? tables j ≡ some table
          → ¬ (Supports table))

  -- One of the options -d names the device, and no capability.
  abbrev pub IsDisabled : List DeviceConfig → Type 0
  IsDisabled cs =
      (i : ℕ) × (c : DeviceConfig) × (get_elem? cs i ≡ some c)
      × (c.vid ≡ vid)
      × (c.did ≡ did)
      × (c.cap ≡ none)

  Supports-later :
      (e : DeviceId) (table : List DeviceId) → e.vendor ≢ 0 → Supports table → Supports (e ∷ table)
  Supports-later e table ne (i, x, at, v, d, open_until) = (suc i, x, at, v, d, until)
    where
      until : (j : ℕ) (y : DeviceId) → j ≤ suc i → get_elem? (e ∷ table) j ≡ some y → y.vendor ≢ 0
      until zero y l f z = let same : e ≡ y = cc in ne (ap (λ w. w.vendor) same ∙ z)
      until (suc j) y l f z = open_until j y (omega (arith, l)) f z

  first_entry :
      (e : DeviceId) (table : List DeviceId)
      → e.vendor ≢ 0
      → (j : ℕ) (x : DeviceId) → j ≤ 0
      → get_elem? (e ∷ table) j ≡ some x
      → x.vendor ≢ 0
  first_entry e table ne zero x l f z = let same : e ≡ x = cc in ne (ap (λ w. w.vendor) same ∙ z)
  first_entry e table ne (suc j) x l f z = omega (arith, l)

  check-Supports :
      (table : List DeviceId) → check_driver_support table vid did ≡ true → Supports table
  unfolding check_driver_support
  check-Supports [] h = cc
  check-Supports (e ∷ table) h = elim (Bool-cases (e.vendor == 0)) [
    | inl ends ↦ absurd (ground (arith, h))
    | inr goes ↦
        let ne : e.vendor ≢ 0 = ground arith in
        elim (Bool-cases ((e.vendor == vid) && (e.device == did))) [
          | inl same ↦ (zero, e, refl, ground arith, ground arith, first_entry e table ne)
          | inr other ↦ Supports-later e table ne (check-Supports table (ground (arith, h)))
        ]
  ]

  check-false :
      (table : List DeviceId) → check_driver_support table vid did ≡ false → ¬ (Supports table)
  unfolding check_driver_support
  check-false [] h (i, e, at, v, d, open_until) = cc
  check-false (e ∷ table) h (zero, x, at, v, d, open_until) =
      let same : e ≡ x = cc in
      let ne : e.vendor ≢ 0 = open_until zero e (omega arith) refl in
      let v' : e.vendor ≡ vid = ap (λ w. w.vendor) same ∙ v in
      let d' : e.device ≡ did = ap (λ w. w.device) same ∙ d in
      absurd (ground (arith, h, ne, v', d'))
  check-false (e ∷ table) h (suc i, x, at, v, d, open_until) =
      let ne : e.vendor ≢ 0 = open_until zero e (omega arith) refl in
      check-false table (ground (arith, h, ne))
        (i, x, at, v, d, λ j y l f. open_until (suc j) y (omega (arith, l)) f)

  pub detect-none :
      (m : ℕ) (tables : List (List DeviceId))
      → detect_driver m tables vid did ≡ none
      → Unsupported tables
  unfolding detect_driver
  detect-none m [] h j table at = cc
  detect-none m (t ∷ tables) h zero table at = elim (Bool-cases (check_driver_support t vid did)) [
    | inl supported ↦ absurd (ground (arith, h))
    | inr unsupported ↦
        let same : t ≡ table = cc in subst (λ u. ¬ (Supports u)) same (check-false t unsupported)
  ]
  detect-none m (t ∷ tables) h (suc j) table at =
      elim (Bool-cases (check_driver_support t vid did)) [
        | inl supported ↦ absurd (ground (arith, h))
        | inr unsupported ↦ detect-none (suc m) tables (ground (arith, h)) j table at
      ]

  IsFirst-later :
      (t : List DeviceId) (j : ℕ) (tables : List (List DeviceId))
      → check_driver_support t vid did ≡ false
      → IsFirst j tables
      → IsFirst (suc j) (t ∷ tables)
  IsFirst-later t j tables unsupported (here, before) = (here, none_before)
    where
      none_before :
          (i : ℕ) (table : List DeviceId)
          → i < suc j
          → get_elem? (t ∷ tables) i ≡ some table
          → ¬ (Supports table)
      none_before zero table l at =
          let same : t ≡ table = cc in subst (λ u. ¬ (Supports u)) same (check-false t unsupported)
      none_before (suc i) table l at = before i table (omega (arith, l)) at

  pub detect-IsFirst :
      (m k : ℕ) (tables : List (List DeviceId))
      → detect_driver m tables vid did ≡ some k
      → (j : ℕ) × (k ≡ m + j) × IsFirst j tables
  unfolding detect_driver
  detect-IsFirst m k [] h = cc
  detect-IsFirst m k (t ∷ tables) h = elim (Bool-cases (check_driver_support t vid did)) [
    | inl supported ↦ (
      zero,
      ground (arith, h),
      ((t, refl, check-Supports t supported), λ j table l at. absurd (omega (arith, l))),
    )
    | inr unsupported ↦
        let (j, e, f) = detect-IsFirst (suc m) k tables (ground (arith, h)) in
        (suc j, omega (arith, e), IsFirst-later t j tables unsupported f)
  ]

  pub is_disabled-IsDisabled :
      (cs : List DeviceConfig) → is_disabled cs vid did ≡ true → IsDisabled cs
  is_disabled-IsDisabled [] h = cc
  is_disabled-IsDisabled (c ∷ cs) h = elim (Option-cases c.cap) [
    | inl whole ↦ elim (Bool-cases ((c.vid == vid) && (c.did == did))) [
      | inl same ↦ (zero, c, refl, ground arith, ground arith, whole)
      | inr other ↦
          let (i, x, at, v, d, w) = is_disabled-IsDisabled cs (ground (arith, h)) in
          (suc i, x, at, v, d, w)
    ]
    | inr (x, part) ↦
        let (i, y, at, v, d, w) = is_disabled-IsDisabled cs (ground (arith, h)) in
        (suc i, y, at, v, d, w)
  ]

  pub is_disabled-false :
      (cs : List DeviceConfig) → is_disabled cs vid did ≡ false → ¬ (IsDisabled cs)
  is_disabled-false [] h (i, c, at, v, d, w) = cc
  is_disabled-false (c ∷ cs) h (zero, x, at, v, d, whole) =
      let same : c ≡ x = cc in
      let v' : c.vid ≡ vid = ap (λ w. w.vid) same ∙ v in
      let d' : c.did ≡ did = ap (λ w. w.did) same ∙ d in
      let w : c.cap ≡ none = ap (λ w. w.cap) same ∙ whole in absurd (ground (arith, h, v', d', w))
  is_disabled-false (c ∷ cs) h (suc i, x, at, v, d, w) =
      is_disabled-false cs (ground (arith, h)) (i, x, at, v, d, w)
