-- ===== src/Pci/Enable/Enabled.antt =====
-- What `pci_enable_device` of src/pci.c leaves where it succeeds.
use dev_can_linux.Base.{
  ℕ, ◌≡◌, ◌≢◌, refl, sym, ap, ◌∙◌, subst, true, false, none, some, List, [], ◌∷◌, arith, ◌==◌,
  if◌then◌else◌, inl, inr, ◌⊎◌, Bool-cases, Option-cases,
}
use dev_can_linux.Groups.{irq_group_add}
use dev_can_linux.Groups.Lookup.{member}
use dev_can_linux.Groups.Add.{IsLive, group_of, group_of-irq_group_add, irq_group_add-IsLive}
use dev_can_linux.Pci.Spaces.{Region, add_regions}
use dev_can_linux.Pci.Capability.{Disabled}
use dev_can_linux.Pci.Capability.Setup.{PciErr, pci_ok, pci_enotsup, pci_ealready, pci_err}
use dev_can_linux.Pci.Enable.{
  Answers, PciDev, then_dev, group_for, take_regions, add_irqs, take_irqs, take_caps, enable_found,
  pci_enable_device,
}

then_dev-ok :
    (r : PciErr) (d : PciDev) (f : PciDev → PciErr × PciDev) (t : PciDev)
    → then_dev (r, d) f ≡ (pci_ok, t)
    → (r ≡ pci_ok) × (f d ≡ (pci_ok, t))
unfolding then_dev
then_dev-ok pci_ok d f t h = (refl, h)
then_dev-ok pci_ealready d f t h = absurd (cc)
then_dev-ok pci_enotsup d f t h = absurd (cc)
then_dev-ok (pci_err e) d f t h = absurd (cc)

-- The regions, where they can be read, are all taken, and nothing else changes.
record TakesRegions (r : PciErr × List Region) (d t : PciDev) : Type 0 where
  regions : r.0 ≡ pci_ok → add_regions r.1 d.spaces ≡ (true, t.spaces)
  others : record t { ba = d.ba; spaces = d.spaces } ≡ d

module _ (a : Answers) (s : Disabled) (new : ℕ) where
  no_regions : (r : PciErr × List Region) (d t : PciDev) → d ≡ t → r.0 ≢ pci_ok → TakesRegions r d t
  no_regions r d t same fails = record {
    regions = λ e. absurd (fails e);
    others = λ i. record (sym same i) { ba = d.ba; spaces = d.spaces };
  }

  take_regions-ok :
      (r : PciErr × List Region) (d t : PciDev)
      → take_regions a s new r d ≡ (pci_ok, t)
      → TakesRegions r d t
  unfolding take_regions add_regions
  take_regions-ok (pci_ok, []) d t h =
      let same : d ≡ t = ap (λ x. x.1) h in
      record {
        regions = λ e i. (true, (same i).spaces);
        others = λ i. record (sym same i) { ba = d.ba; spaces = d.spaces };
      }
  take_regions-ok (pci_ok, r ∷ rs) d t h =
      let x = add_regions (r ∷ rs) d.spaces in
      let same : record d { ba = r ∷ rs; spaces = x.1 } ≡ t = ap (λ y. y.1) h in
      elim (Bool-cases x.0) [
        | inl goes ↦ record {
          regions = λ e i. (goes i, (same i).spaces);
          others = λ i. record (sym same i) { ba = d.ba; spaces = d.spaces };
        }
        | inr stops ↦ absurd (let refused = rw stops at (ap (λ y. y.0) h) in cc)
      ]
  take_regions-ok (pci_ealready, rs) d t h =
      no_regions (pci_ealready, rs) d t (ap (λ x. x.1) h) (λ e. cc)
  take_regions-ok (pci_enotsup, rs) d t h =
      no_regions (pci_enotsup, rs) d t (ap (λ x. x.1) h) (λ e. cc)
  take_regions-ok (pci_err e, rs) d t h = no_regions (pci_err e, rs) d t (ap (λ x. x.1) h) (λ e. cc)

  -- Interrupts that can be read are taken, and without any the device keeps the one that it has.
  add_irqs-cases :
      (r : PciErr × List ℕ) (d : PciDev)
      → ((add_irqs a s new r d ≡ d) × ((q : ℕ) (qs : List ℕ) → r ≢ (pci_ok, q ∷ qs)))
        ⊎ ((q : ℕ) × (qs : List ℕ) × (r ≡ (pci_ok, q ∷ qs))
            × (add_irqs a s new r d
                ≡ record d { irq = q; groups = irq_group_add new (group_for (q ∷ qs) d) d.groups }))
  unfolding add_irqs
  add_irqs-cases (pci_ok, []) d = inl (refl, λ q qs e. absurd (let f = ap (λ x. x.1) e in cc))
  add_irqs-cases (pci_ok, q ∷ qs) d = inr (q, qs, refl, refl)
  add_irqs-cases (pci_ealready, qs) d = inl (refl, λ p ps e. absurd (let f = ap (λ x. x.0) e in cc))
  add_irqs-cases (pci_enotsup, qs) d = inl (refl, λ p ps e. absurd (let f = ap (λ x. x.0) e in cc))
  add_irqs-cases (pci_err e, qs) d = inl (refl, λ p ps h. absurd (let f = ap (λ x. x.0) h in cc))

  take_irqs-ok :
      (d t : PciDev)
      → take_irqs a s new d ≡ (pci_ok, t)
      → ((q : ℕ) × (qs : List ℕ) × (a.read_irq ≡ (pci_ok, q ∷ qs))
          × (q ≢ 0)
          × (t ≡ record d { irq = q; groups = irq_group_add new (group_for (q ∷ qs) d) d.groups }))
        ⊎ ((t ≡ d) × (d.irq ≢ 0) × ((q : ℕ) (qs : List ℕ) → a.read_irq ≢ (pci_ok, q ∷ qs)))
  unfolding take_irqs
  take_irqs-ok d t h =
      let x = add_irqs a s new a.read_irq d in
      let same : x ≡ t = ap (λ y. y.1) h in
      elim (Bool-cases (x.irq == 0)) [
        | inl z ↦ absurd (let refused = rw z at (ap (λ y. y.0) h) in cc)
        | inr z ↦ elim (add_irqs-cases a.read_irq d) [
          | inl (kept, unread) ↦ inr (sym same ∙ kept, ground (arith, ap (λ y. y.irq) kept), unread)
          | inr (q, qs, read, e) ↦
              inl (q, qs, read, ground (arith, ap (λ y. y.irq) e), sym same ∙ e)
        ]
      ]

  -- The steps before the interrupts.
  enable_found-ok :
      (d t : PciDev)
      → (a.attach.1 ≡ 0 → a.attach.0 ≢ pci_ok)
      → enable_found a s new d ≡ (pci_ok, t)
      → (e : PciDev) × (take_irqs a s new e ≡ (pci_ok, t))
        × (e.hdl ≡ a.attach.1)
        × (a.attach.1 ≢ 0)
        × (e.irq ≡ d.irq)
        × (e.groups ≡ d.groups)
        × (a.read_ba.0 ≡ pci_ok → add_regions a.read_ba.1 d.spaces ≡ (true, e.spaces))
  unfolding enable_found take_caps
  enable_found-ok d t fails h = elim (Bool-cases (a.attach.1 == 0)) [
    | inl z ↦ absurd (fails (ground arith) (ap (λ y. y.0) (rw z at h)))
    | inr z ↦
        let one = record d { hdl = a.attach.1 } in
        let two = record one { subsystem_vendor = a.read_ssvid.1 } in
        let three = take_caps a s new (record two { subsystem_device = a.read_ssid.1 }) in
        let (_, after_vendor) = then_dev-ok a.read_ssvid.0 one _ t (rw z at h) in
        let (_, after_device) = then_dev-ok a.read_ssid.0 two _ t after_vendor in
        let x = take_regions a s new a.read_ba three in
        let (ok, rest) = then_dev-ok x.0 x.1 (take_irqs a s new) t after_device in
        let taken = take_regions-ok a.read_ba three x.1 (λ i. (ok i, x.1)) in
        (
          x.1,
          rest,
          ap (λ e. e.hdl) taken.others,
          ground arith,
          ap (λ e. e.irq) taken.others,
          ap (λ e. e.groups) taken.others,
          taken.regions,
        )
  ]

  -- What the interrupts leave.
  pub record HasGroup (irqs : List ℕ) (d t : PciDev) : Type 0 where
    pub has_irq : t.irq ≢ 0
    pub live : IsLive t.groups
    pub groups :
        (q : ℕ)
        → group_of q t.groups
          ≡ (if member q irqs then some (group_for irqs t) else group_of q d.groups)

  groups-HasGroup :
      (q : ℕ) (qs : List ℕ) (d e : PciDev)
      → q ≢ 0
      → IsLive e.groups
      → e.groups ≡ d.groups
      → HasGroup
          (q ∷ qs)
          d
          (record e { irq = q; groups = irq_group_add new (group_for (q ∷ qs) e) e.groups })
  unfolding group_for
  groups-HasGroup q qs d e not_zero live same = record {
    has_irq = not_zero;
    live = irq_group_add-IsLive new (group_for (q ∷ qs) e) e.groups live;
    groups = λ p.
        group_of-irq_group_add new p (group_for (q ∷ qs) e) e.groups live
        ∙ ap (λ g. if member p (q ∷ qs) then some (group_for (q ∷ qs) e) else group_of p g) same;
  }

  -- The loop: the first device is enabled and there is no second.
  found-ok :
      (bdf : ℕ) (d t : PciDev)
      → a.find 0 ≡ some bdf
      → pci_enable_device a s new d ≡ (pci_ok, t)
      → (enable_found a s new (record d { is_managed = false }) ≡ (pci_ok, t)) × (a.find 1 ≡ none)
  unfolding pci_enable_device
  found-ok bdf d t found h =
      let x = enable_found a s new (record d { is_managed = false }) in
      let (ok, rest) = then_dev-ok x.0 x.1 _ t (rw (pci_enable_device, found) at h) in
      elim (Option-cases (a.find 1)) [
        | inl alone ↦ ((λ i. (ok i, (ap (λ y. y.1) rest) i)), alone)
        | inr (b, two) ↦ absurd (let refused = rw two at (ap (λ y. y.0) rest) in cc)
      ]

  -- The interrupts have been read, or the device goes on with what it had, which is not 0.
  abbrev pub Taken : (d t : PciDev) → Type 0
  Taken d t =
      ((qs : List ℕ) × (a.read_irq ≡ (pci_ok, t.irq ∷ qs)) × HasGroup (t.irq ∷ qs) d t)
      ⊎ ((t.irq ≡ d.irq)
          × (d.irq ≢ 0)
          × (t.groups ≡ d.groups)
          × ((q : ℕ) (qs : List ℕ) → a.read_irq ≢ (pci_ok, q ∷ qs)))

  -- What the device is, where it can be used.
  pub record Enabled (d t : PciDev) : Type 0 where
    pub alone : a.find 1 ≡ none
    pub attached : t.hdl ≡ a.attach.1
    pub has_handle : t.hdl ≢ 0
    pub regions : a.read_ba.0 ≡ pci_ok → add_regions a.read_ba.1 d.spaces ≡ (true, t.spaces)
    pub irqs : Taken d t

  -- A device that is there, and whose handle is NULL only with an error: where `pci_enable_device`
  -- succeeds, the device is attached and there is no second one; its regions are taken if they can be
  -- read. Either its interrupts have been read, the first is its own and is not 0, and the map leads
  -- from each of them to a group with its handle and its capability, from others to the groups of
  -- before; or none could be read, no group is added, and it keeps the interrupt that it had
  -- before the call, which is not 0.
  pub pci_enable_device-Enabled :
      (bdf : ℕ) (d t : PciDev)
      → a.find 0 ≡ some bdf
      → (a.attach.1 ≡ 0 → a.attach.0 ≢ pci_ok)
      → IsLive d.groups
      → pci_enable_device a s new d ≡ (pci_ok, t)
      → Enabled d t
  pci_enable_device-Enabled bdf d t found fails live h =
      let (runs, alone) = found-ok bdf d t found h in
      let (e, took, hdl, there, kept_irq, kept_groups, regions) =
        enable_found-ok (record d { is_managed = false }) t fails runs in
      elim (take_irqs-ok e t took) [
        | inl (q, qs, read, not_zero, made) ↦
            let attached = ap (λ y. y.hdl) made ∙ hdl in
            record {
              alone = alone;
              attached = attached;
              has_handle = λ z. there (sym attached ∙ z);
              regions = λ r. regions r ∙ (λ i. (true, (sym made i).spaces));
              irqs = inl (
                qs,
                read ∙ (λ i. (pci_ok, (sym made i).irq ∷ qs)),
                subst (λ x. HasGroup (x.irq ∷ qs) d x) (sym made)
                    (groups-HasGroup q qs d e not_zero (subst IsLive (sym kept_groups) live)
                      kept_groups),
              );
            }
        | inr (same, not_zero, unread) ↦
            let attached = ap (λ y. y.hdl) same ∙ hdl in
            record {
              alone = alone;
              attached = attached;
              has_handle = λ z. there (sym attached ∙ z);
              regions = λ r. regions r ∙ (λ i. (true, (sym same i).spaces));
              irqs = inr (
                ap (λ y. y.irq) same ∙ kept_irq,
                (λ z. not_zero (kept_irq ∙ z)),
                ap (λ y. y.groups) same ∙ kept_groups,
                unread,
              );
            }
      ]
