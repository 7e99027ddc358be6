-- ===== src/Pci/Capability/Undone.antt =====
-- `msix_init` of src/pci-capability.c under the options, and `msix_uninit` behind it.
use dev_can_linux.Base.{
  ℕ, ◌≡◌, ◌≢◌, refl, sym, ap, ◌∙◌, subst, true, false, none, some, List, [], ◌∷◌, ◌++◌,
  append_assoc, ◌⊎◌, append-nil, arith, ◌==◌, if◌then◌else◌, inl, inr, Bool-cases, Option-cases,
}
use dev_can_linux.Options.{DeviceConfig}
use dev_can_linux.Pci.Capability.{Found, disabled_caps}
use dev_can_linux.Pci.Capability.Allowed.{names_cap, search_cap-Finds}
use dev_can_linux.Pci.Capability.Setup.{
  PciErr, pci_ok, Library, CapCall, disable_cap, free_cap, CapDev, logged, and_then, pcie_init,
  set_vectors, enable_msix, use_cap, find_cap, msix_init, pcie_uninit, msix_uninit,
}
use dev_can_linux.Pci.Capability.Uses.{and_then-ok, vector_calls, nvecs, Uses, msix-Uses, msi-Uses}

-- The kind of a capability that the options allow for a device.
abbrev pub Allows : (enable disable : List DeviceConfig) (vid did capid : ℕ) → Type 0
Allows enable disable vid did capid =
    ((capid ≡ 5) × (names_cap disable vid did 5 ≡ false))
    ⊎ ((capid ≡ 17) × (names_cap enable vid did 17 ≡ true) × (names_cap disable vid did 17 ≡ false))

module _ (lib : Library) where
  abbrev pub read_found : Found → PciErr × ℕ
  read_found f = if f.is_pcie_cap then lib.read_xtnd_cap f.index else lib.read_cap f.index

  set-Uses :
      (capid : ℕ) (d t : CapDev)
      → (capid ≡ 5) ⊎ (capid ≡ 17)
      → and_then (set_vectors lib capid d) (enable_msix lib capid) ≡ (pci_ok, t)
      → Uses lib capid d.msi_cap d t
  set-Uses capid d t (inl e) h =
      subst (λ c. Uses lib c d.msi_cap d t) (sym e)
        (msi-Uses lib d t
          (subst (λ c. and_then (set_vectors lib c d) (enable_msix lib c) ≡ (pci_ok, t)) e h))
  set-Uses capid d t (inr e) h =
      subst (λ c. Uses lib c d.msi_cap d t) (sym e)
        (msix-Uses lib d t
          (subst (λ c. and_then (set_vectors lib c d) (enable_msix lib c) ≡ (pci_ok, t)) e h))

  use_cap-Uses :
      (f : Found) (d t : CapDev)
      → (f.capid ≡ 5) ⊎ (f.capid ≡ 17)
      → use_cap lib f (record d { msi_cap = 0 }) ≡ (pci_ok, t)
      → ((read_found f).0 ≡ pci_ok) × Uses lib f.capid (read_found f).1 d t
  unfolding use_cap
  use_cap-Uses f d t kind h =
      let p = (read_found f).1 in
      let (ok, rest) =
        and_then-ok (read_found f).0 (record d { msi_cap = p })
          (λ e. and_then (set_vectors lib f.capid e) (enable_msix lib f.capid)) t h in
      let u = set-Uses f.capid (record d { msi_cap = p }) t kind rest in
      (
        ok,
        record {
          some_vectors = u.some_vectors;
          msi_cap = u.msi_cap;
          pcie_cap = u.pcie_cap;
          is_msix = u.is_msix;
          calls = u.calls;
        },
      )

  -- Where `msix_init` succeeds under -e and -d: it has found a capability that they allow, read and
  -- enabled it, and it has at least one vector; each vector of MSI-X is set to the interrupt of its own number, those of
  -- MSI all at once; the device points to the capability and knows which of the two it is.
  pub msix_init-Uses :
      (enable disable : List DeviceConfig) (vid did : ℕ) (d t : CapDev)
      → msix_init lib (disabled_caps enable disable vid did) d ≡ (pci_ok, t)
      → (f : Found) × (find_cap lib
            (disabled_caps enable disable vid did)
            (pcie_init lib d).1.pcie_cap
          ≡ some f)
        × Allows enable disable vid did f.capid
        × ((read_found f).0 ≡ pci_ok)
        × Uses lib f.capid (read_found f).1 (pcie_init lib d).1 t
  unfolding msix_init find_cap
  msix_init-Uses enable disable vid did d t h =
      let s = disabled_caps enable disable vid did in
      let e = (pcie_init lib d).1 in
      elim (Option-cases (find_cap lib s e.pcie_cap)) [
        | inl no_cap ↦ absurd (let g = rw (msix_init, no_cap) at h in cc)
        | inr (f, found) ↦
            let (allowed, _) =
              search_cap-Finds vid did enable disable
                (if e.pcie_cap == 0 then none else some (lib.find_xtnd_capid e.pcie_cap))
                lib.find_capid f found in
            let kind : (f.capid ≡ 5) ⊎ (f.capid ≡ 17) = elim allowed [
              | inl (k, _) ↦ inl k
              | inr (k, _, _) ↦ inr k
            ] in
            let (ok, u) = use_cap-Uses f e t kind (rw (msix_init, found) at h) in
            (f, found, allowed, ok, u)
      ]

  -- The calls by which a capability that is not NULL is given up.
  abbrev pub given_up : (cap : ℕ) → List CapCall
  given_up cap = if cap == 0 then [] else disable_cap cap ∷ free_cap cap ∷ []

  pcie_uninit_lem :
      (d : CapDev)
      → (d.pcie_cap ≢ 0 → lib.cap_isenabled d.pcie_cap ≡ true)
      → ((pcie_uninit lib d).pcie_cap ≡ 0)
        × ((pcie_uninit lib d).msi_cap ≡ d.msi_cap)
        × ((pcie_uninit lib d).calls ≡ d.calls ++ given_up d.pcie_cap)
  unfolding pcie_uninit logged
  pcie_uninit_lem d on = elim (Bool-cases (d.pcie_cap == 0)) [
    | inl z ↦
        let null : d.pcie_cap ≡ 0 = ground arith in
        rw (pcie_uninit, z) (null, refl, sym (append-nil d.calls))
    | inr z ↦
        let enabled = on (ground arith) in
        rw (pcie_uninit, z, enabled)
          (
            refl,
            refl,
            append_assoc d.calls (disable_cap d.pcie_cap ∷ []) (free_cap d.pcie_cap ∷ []),
          )
  ]

  msix_uninit_lem :
      (d : CapDev)
      → d.msi_cap ≢ 0
      → lib.cap_isenabled d.msi_cap ≡ true
      → (d.pcie_cap ≢ 0 → lib.cap_isenabled d.pcie_cap ≡ true)
      → ((msix_uninit lib d).msi_cap ≡ 0)
        × ((msix_uninit lib d).pcie_cap ≡ 0)
        × ((msix_uninit lib d).calls
            ≡ d.calls ++ (disable_cap d.msi_cap ∷ free_cap d.msi_cap ∷ given_up d.pcie_cap))
  unfolding msix_uninit logged
  msix_uninit_lem d there enabled on =
      let null : (d.msi_cap == 0) ≡ false = ground arith in
      let e = record d {
        msi_cap = 0;
        calls = (d.calls ++ (disable_cap d.msi_cap ∷ [])) ++ (free_cap d.msi_cap ∷ []);
      } in
      let (pcie, msi, calls) = pcie_uninit_lem e on in
      rw (msix_uninit, null, enabled)
        (
          msi,
          pcie,
          calls
              ∙ ap (λ c. c ++ given_up d.pcie_cap)
                  (append_assoc d.calls (disable_cap d.msi_cap ∷ []) (free_cap d.msi_cap ∷ []))
              ∙ append_assoc d.calls (disable_cap d.msi_cap ∷ free_cap d.msi_cap ∷ [])
                  (given_up d.pcie_cap),
        )

  -- `msix_uninit` behind an `msix_init` that has succeeded, where the library gives no capability that is NULL and
  -- says that those which it has enabled are enabled: the capability is disabled and given back once, and then
  -- that of PCIe, if there is one; both pointers are NULL.
  pub msix_uninit-msix_init :
      (enable disable : List DeviceConfig) (vid did : ℕ) (d t : CapDev)
      → msix_init lib (disabled_caps enable disable vid did) d ≡ (pci_ok, t)
      → t.msi_cap ≢ 0
      → lib.cap_isenabled t.msi_cap ≡ true
      → (t.pcie_cap ≢ 0 → lib.cap_isenabled t.pcie_cap ≡ true)
      → (capid : ℕ) × Allows enable disable vid did capid
        × ((msix_uninit lib t).msi_cap ≡ 0)
        × ((msix_uninit lib t).pcie_cap ≡ 0)
        × ((msix_uninit lib t).calls
            ≡ (pcie_init lib d).1.calls
              ++ (vector_calls capid t.msi_cap (nvecs lib capid t.msi_cap)
                  ++ (disable_cap t.msi_cap ∷ free_cap t.msi_cap ∷ given_up t.pcie_cap)))
  msix_uninit-msix_init enable disable vid did d t h there enabled on =
      let (f, _, allowed, _, u) = msix_init-Uses enable disable vid did d t h in
      let (msi, pcie, calls) = msix_uninit_lem t there enabled on in
      let undo = disable_cap t.msi_cap ∷ free_cap t.msi_cap ∷ given_up t.pcie_cap in
      (
        f.capid,
        allowed,
        msi,
        pcie,
        calls
            ∙ ap (λ c. c ++ undo)
                (u.calls
                  ∙ ap
                      (λ c.
                        (pcie_init lib d).1.calls ++ vector_calls f.capid c (nvecs lib f.capid c))
                      (sym u.msi_cap))
            ∙ append_assoc (pcie_init lib d).1.calls
                (vector_calls f.capid t.msi_cap (nvecs lib f.capid t.msi_cap)) undo,
      )
