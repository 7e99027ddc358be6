-- ===== src/Pci/Capability/Uses.antt =====
-- What `msix_init` of src/pci-capability.c leaves where it succeeds, and that `msix_uninit` undoes it.
use dev_can_linux.Base.{
  ℕ, zero, suc, ◌≤◌, ◌≡◌, refl, sym, ap, ◌∙◌, true, false, List, [], ◌∷◌, ◌++◌, append-nil,
  append_assoc, arith, ltb, ◌==◌, if◌then◌else◌, inl, inr, Bool-cases,
}
use dev_can_linux.Pci.Capability.{capid_msi, capid_msix}
use dev_can_linux.Pci.Capability.Setup.{
  PciErr, pci_ok, pci_enotsup, pci_ealready, pci_err, Library, CapCall, msix_set_irq_entry,
  msi_set_nirq, enable_cap, msix_unmask_irq_all, CapDev, logged, and_then, set_entries, set_vectors,
  masks_vectors, finish_msix, enable_msix,
}

pub and_then-ok :
    (r : PciErr) (d : CapDev) (f : CapDev → PciErr × CapDev) (t : CapDev)
    → and_then (r, d) f ≡ (pci_ok, t)
    → (r ≡ pci_ok) × (f d ≡ (pci_ok, t))
unfolding and_then
and_then-ok pci_ok d f t h = (refl, h)
and_then-ok pci_ealready d f t h = absurd (cc)
and_then-ok pci_enotsup d f t h = absurd (cc)
and_then-ok (pci_err e) d f t h = absurd (cc)

no_vectors :
    (d t : CapDev) (f : CapDev → PciErr × CapDev) → and_then (pci_enotsup, d) f ≡ (pci_ok, t) → ⊥
unfolding and_then
no_vectors d t f h = cc

-- Each entry of the table gets the vector of its own number.
abbrev pub entries : (cap n i : ℕ) → List CapCall
entries cap zero i = []
entries cap (suc n) i = msix_set_irq_entry cap i i ∷ entries cap n (suc i)

abbrev pub vector_calls : (capid cap n : ℕ) → List CapCall
vector_calls capid cap n =
    if capid == capid_msix
    then entries cap n 0 ++ (enable_cap cap ∷ msix_unmask_irq_all cap ∷ [])
    else msi_set_nirq cap n ∷ enable_cap cap ∷ []

module _ (lib : Library) where
  set_entries-ok :
      (n i : ℕ) (d t : CapDev)
      → set_entries lib n i d ≡ (pci_ok, t)
      → t ≡ record d { calls = d.calls ++ entries d.msi_cap n i }
  unfolding set_entries logged
  set_entries-ok zero i d t h =
      let same : d ≡ t = ap (λ x. x.1) h in
      sym same ∙ (λ j. record d { calls = sym (append-nil d.calls) j })
  set_entries-ok (suc n) i d t h =
      let c = msix_set_irq_entry d.msi_cap i i in
      let (ok, rest) =
        and_then-ok (lib.set_irq_entry i) (logged c d) (set_entries lib n (suc i)) t h in
      set_entries-ok n (suc i) (logged c d) t rest
      ∙ (λ j. record d { calls = append_assoc d.calls (c ∷ []) (entries d.msi_cap n (suc i)) j })

  -- How many vectors the capability has.
  abbrev pub nvecs : (capid cap : ℕ) → ℕ
  nvecs capid cap = if capid == capid_msix then lib.msix_nirq cap else lib.msi_nirq cap

  -- What the device is left with for a capability `cap` of this kind.
  pub record Uses (capid cap : ℕ) (d t : CapDev) : Type 0 where
    pub some_vectors : 1 ≤ nvecs capid cap
    pub msi_cap : t.msi_cap ≡ cap
    pub pcie_cap : t.pcie_cap ≡ d.pcie_cap
    pub is_msix : t.is_msix ≡ (capid == capid_msix)
    pub calls : t.calls ≡ d.calls ++ vector_calls capid cap (nvecs capid cap)

  -- The calls that are common to MSI and MSI-X.
  enable_msix-ok :
      (capid : ℕ) (d t : CapDev)
      → enable_msix lib capid d ≡ (pci_ok, t)
      → finish_msix lib capid (logged (enable_cap d.msi_cap) d) ≡ (pci_ok, t)
  unfolding enable_msix
  enable_msix-ok capid d t h =
      (and_then-ok (lib.cap_enable d.msi_cap) (logged (enable_cap d.msi_cap) d)
        (finish_msix lib capid) t h).1

  msix-finished :
      (d t : CapDev)
      → enable_msix lib capid_msix d ≡ (pci_ok, t)
      → t ≡ record d {
        is_msix = true;
        calls = d.calls ++ (enable_cap d.msi_cap ∷ msix_unmask_irq_all d.msi_cap ∷ []);
      }
  unfolding finish_msix logged
  msix-finished d t h =
      let done = ap (λ x. x.1) (enable_msix-ok capid_msix d t h) in
      sym done ∙ (λ j. record d {
        is_msix = true;
        calls =
            append_assoc d.calls (enable_cap d.msi_cap ∷ []) (msix_unmask_irq_all d.msi_cap ∷ []) j;
      })

  pub msix-Uses :
      (d t : CapDev)
      → and_then (set_vectors lib capid_msix d) (enable_msix lib capid_msix) ≡ (pci_ok, t)
      → Uses capid_msix d.msi_cap d t
  unfolding set_vectors
  msix-Uses d t h = elim (Bool-cases (ltb (lib.msix_nirq d.msi_cap) 1)) [
    | inl few ↦ absurd (no_vectors d t _ (rw few at h))
    | inr many ↦
        let x = set_entries lib (lib.msix_nirq d.msi_cap) 0 d in
        let (ok, rest) = and_then-ok x.0 x.1 (enable_msix lib capid_msix) t (rw many at h) in
        let set = set_entries-ok (lib.msix_nirq d.msi_cap) 0 d x.1 (λ j. (ok j, x.1)) in
        let done = msix-finished x.1 t rest in
        let cap = ap (λ y. y.msi_cap) set in
        record {
          some_vectors = ground arith;
          msi_cap = ap (λ y. y.msi_cap) done ∙ cap;
          pcie_cap = ap (λ y. y.pcie_cap) done ∙ ap (λ y. y.pcie_cap) set;
          is_msix = ap (λ y. y.is_msix) done;
          calls =
              ap (λ y. y.calls) done
              ∙ ap (λ y. y.calls ++ (enable_cap y.msi_cap ∷ msix_unmask_irq_all y.msi_cap ∷ [])) set
              ∙ append_assoc d.calls (entries d.msi_cap (lib.msix_nirq d.msi_cap) 0)
                  (enable_cap d.msi_cap ∷ msix_unmask_irq_all d.msi_cap ∷ []);
        }
  ]

  masks_vectors-ok :
      (r : PciErr) (d t : CapDev)
      → masks_vectors lib r d ≡ (pci_ok, t)
      → (t.is_msix ≡ false)
        × (t.msi_cap ≡ d.msi_cap)
        × (t.pcie_cap ≡ d.pcie_cap)
        × (t.calls ≡ d.calls)
  unfolding masks_vectors
  masks_vectors-ok pci_ok d t h =
      let e = ap (λ x. x.1) h in
      (
        ap (λ y. y.is_msix) (sym e),
        ap (λ y. y.msi_cap) (sym e),
        ap (λ y. y.pcie_cap) (sym e),
        ap (λ y. y.calls) (sym e),
      )
  masks_vectors-ok pci_enotsup d t h =
      let e = ap (λ x. x.1) h in
      (
        ap (λ y. y.is_msix) (sym e),
        ap (λ y. y.msi_cap) (sym e),
        ap (λ y. y.pcie_cap) (sym e),
        ap (λ y. y.calls) (sym e),
      )
  masks_vectors-ok pci_ealready d t h = absurd (cc)
  masks_vectors-ok (pci_err e) d t h = absurd (cc)

  pub msi-Uses :
      (d t : CapDev)
      → and_then (set_vectors lib capid_msi d) (enable_msix lib capid_msi) ≡ (pci_ok, t)
      → Uses capid_msi d.msi_cap d t
  unfolding set_vectors finish_msix logged
  msi-Uses d t h = elim (Bool-cases (ltb (lib.msi_nirq d.msi_cap) 1)) [
    | inl few ↦ absurd (no_vectors d t _ (rw few at h))
    | inr many ↦
        let n = lib.msi_nirq d.msi_cap in
        let set = logged (msi_set_nirq d.msi_cap n) d in
        let (ok, rest) =
          and_then-ok (lib.set_nirq n) set (enable_msix lib capid_msi) t (rw many at h) in
        let (off, cap, pcie, calls) =
          masks_vectors-ok lib.get_irq_mask (logged (enable_cap d.msi_cap) set) t
            (enable_msix-ok capid_msi set t rest) in
        record {
          some_vectors = ground arith;
          msi_cap = cap;
          pcie_cap = pcie;
          is_msix = off;
          calls =
              calls
              ∙ append_assoc d.calls (msi_set_nirq d.msi_cap n ∷ []) (enable_cap d.msi_cap ∷ []);
        }
  ]
