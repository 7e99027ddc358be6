-- ===== src/Pci/Removal/Removed.antt =====
-- What `remove_all_driver_selections` leaves.
use dev_can_linux.Base.{
  ℕ, ◌<◌, ◌≡◌, ◌≢◌, refl, sym, ap, ◌∙◌, subst, Bool, true, false, ◌&&◌, Option, some, List, [], ◌∷◌,
  ◌++◌, map, arith, length, ◌==◌, if◌then◌else◌, inl, inr, Bool-cases,
}
use dev_can_linux.Links.Laws.{IsList}
use dev_can_linux.Pci.{Selected}
use dev_can_linux.Pci.Blocks.{Block, Blocks}
use dev_can_linux.Pci.Blocks.Laws.{NoneOf}
use dev_can_linux.Pci.Blocks.Unmapped.{AllApart, failing}
use dev_can_linux.Pci.Blocks.Released.{is_managed_in, failing-none, unmap_regions_lem}
use dev_can_linux.Pci.Capability.Setup.{Library}
use dev_can_linux.Pci.Enable.{PciDev, pci_disable_device}
use dev_can_linux.Pci.Removal.{Selection, is_on_bus, disable_managed, unmap_selection}

failing-fails :
    (test : Block → Bool) (f : ℕ → Block) (xs : List ℕ) → NoneOf test f (failing test f xs)
failing-fails test f [] = tt
failing-fails test f (x ∷ xs) = elim (Bool-cases (test (f x))) [
  | inl p ↦ rw p (failing-fails test f xs)
  | inr p ↦ rw p (p, failing-fails test f xs)
]

-- Of the blocks in a list, those have gone that pass the test.
pub record Left (test : Block → Bool) (xs : List ℕ) (s t : Blocks) : Type 0 where
  pub list : IsList t.links (failing test s.block xs)
  pub same : t.block ≡ s.block

pub unmap_selection_lem :
    (rounds fuel : ℕ) (x : Selected) (d : PciDev) (s : Blocks) (xs : List ℕ)
    → IsList s.links xs
    → AllApart s.block xs
    → length xs < rounds
    → length xs < fuel
    → (t : Blocks) × (test : Block → Bool) × (unmap_selection rounds fuel x d s ≡ some t)
      × Left test xs s t
      × (is_on_bus x ≡ true → NoneOf (is_managed_in d.ba) s.block (failing test s.block xs))
unfolding unmap_selection
unmap_selection_lem rounds fuel x d s xs h apart r f = elim (Bool-cases (is_on_bus x)) [
  | inl on ↦
      let (t, e, list, _, same) = unmap_regions_lem rounds fuel d.ba s xs h apart r f in
      (
        t,
        is_managed_in d.ba,
        rw on e,
        record { list = list; same = same },
        λ _. failing-fails (is_managed_in d.ba) s.block xs,
      )
  | inr off ↦ (
    s,
    is_managed_in [],
    rw off refl,
    record { list = subst (IsList s.links) (sym (failing-none s.block xs)) h; same = refl },
    λ on. absurd (cc),
  )
]

-- No block is left that is managed and of a region of one of the devices.
abbrev pub AllReleased : List Selection → (ℕ → Block) → List ℕ → Type 0
AllReleased [] f ys = Unit {0}
AllReleased (x ∷ xs) f ys =
    (is_on_bus x.selected ≡ true → NoneOf (is_managed_in x.pdev.ba) f ys) × AllReleased xs f ys

-- A driver's `remove` unmaps blocks only, and leaves a managed device attached.
abbrev pub UnmapsOnly : (Selected → PciDev → Blocks → Option (PciDev × Blocks)) → Type 0
UnmapsOnly remove =
    (x : Selected) (d : PciDev) (s : Blocks) (xs : List ℕ)
    → IsList s.links xs
    → (e : PciDev) × (t : Blocks) × (test : Block → Bool) × (remove x d s ≡ some (e, t))
      × Left test xs s t
      × (e.ba ≡ d.ba)
      × (e.is_managed ≡ d.is_managed)
      × (d.is_managed ≡ true → (e.hdl ≡ d.hdl) × (e.detached ≡ d.detached))

-- The handles that each of the devices has given back.
abbrev pub handles : List PciDev → List (List ℕ)
handles ds = map (λ d. d.detached) ds

abbrev pub is_disabled_at_end : Selection → Bool
is_disabled_at_end x = is_on_bus x.selected && x.pdev.is_managed

-- Each managed device gives its handle back once.
abbrev pub detaches : List Selection → List (List ℕ)
detaches [] = []
detaches (x ∷ xs) =
    if is_disabled_at_end x
    then (x.pdev.detached ++ (x.pdev.hdl ∷ [])) ∷ detaches xs
    else detaches xs

-- The managed devices are attached.
abbrev pub AllAttached : ((hdl : ℕ) → Bool) → List Selection → Type 0
AllAttached finds [] = Unit {0}
AllAttached finds (x ∷ xs) =
    (x.pdev.is_managed ≡ true → (finds x.pdev.hdl ≡ true) × (x.pdev.hdl ≢ 0)) × AllAttached finds xs

module _ (library : Selected → Library) (finds : (hdl : ℕ) → Bool) where
  pci_disable_device-detaches :
      (lib : Library) (d : PciDev)
      → finds d.hdl ≡ true
      → d.hdl ≢ 0
      → (pci_disable_device lib (finds d.hdl) d).detached ≡ d.detached ++ (d.hdl ∷ [])
  unfolding pci_disable_device
  pci_disable_device-detaches lib d found there =
      let not_null : (d.hdl == 0) ≡ false = ground arith in
      rw (pci_disable_device, found, not_null) refl

  pub disable_managed-detaches :
      (x : Selected) (d e : PciDev)
      → e.is_managed ≡ d.is_managed
      → (d.is_managed ≡ true → (e.hdl ≡ d.hdl) × (e.detached ≡ d.detached))
      → (d.is_managed ≡ true → (finds d.hdl ≡ true) × (d.hdl ≢ 0))
      → handles (disable_managed library finds x e)
        ≡ detaches (record { selected = x; pdev = d } ∷ [])
  unfolding disable_managed
  disable_managed-detaches x d e same keeps attached =
      elim (Bool-cases (is_on_bus x && d.is_managed)) [
        | inl both ↦
            let managed : d.is_managed ≡ true = ground arith in
            let (hdl, detached) = keeps managed in
            let (found, there) = attached managed in
            let both_e : (is_on_bus x && e.is_managed) ≡ true = rw same both in
            let given =
              pci_disable_device-detaches (library x) e (ap finds hdl ∙ found)
                (λ z. there (sym hdl ∙ z)) in
            rw (disable_managed, both_e, both)
              (ap (λ l. l ∷ []) (given ∙ (λ i. detached i ++ (hdl i ∷ []))))
        | inr single ↦
            let none_e : (is_on_bus x && e.is_managed) ≡ false = rw same single in
            rw (disable_managed, none_e, single) refl
      ]
