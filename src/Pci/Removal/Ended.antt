-- ===== src/Pci/Removal/Ended.antt =====
-- The whole loop of `remove_all_driver_selections`.
use dev_can_linux.Base.{
  ℕ, ◌<◌, ◌≤◌, ◌≡◌, refl, sym, ap, ◌∙◌, subst, Bool, Option, some, List, [], ◌∷◌, ◌++◌, append-nil,
  append_assoc, map, arith, length, inl, inr, Bool-cases,
}
use mathlib.Core.List.{map-append}
use dev_can_linux.Links.Laws.{IsList}
use dev_can_linux.Pci.{Selected}
use dev_can_linux.Pci.Blocks.{Block, Blocks}
use dev_can_linux.Pci.Blocks.Laws.{NoneOf}
use dev_can_linux.Pci.Blocks.Unmapped.{AllApart, AllApart-failing, NoneOf-failing, failing}
use dev_can_linux.Pci.Blocks.Released.{is_managed_in, length-failing}
use dev_can_linux.Pci.Capability.Setup.{Library}
use dev_can_linux.Pci.Enable.{PciDev}
use dev_can_linux.Pci.Removal.{
  Selection, Removal, disable_managed, remove_selection, remove_all_driver_selections,
}
use dev_can_linux.Pci.Removal.Removed.{
  Left, unmap_selection_lem, AllReleased, UnmapsOnly, handles, detaches, is_disabled_at_end,
  AllAttached, disable_managed-detaches,
}

-- The lists of blocks before and after: the blocks that have stayed.
pub record Kept (xs ys : List ℕ) (s t : Blocks) : Type 0 where
  pub list : IsList t.links ys
  pub same : t.block ≡ s.block
  pub apart : AllApart s.block ys
  pub fewer : length ys ≤ length xs
  pub others : (test : Block → Bool) → NoneOf test s.block xs → NoneOf test s.block ys

-- What has been done for the selections.
pub record Done (sels : List Selection) (s t : Removal) : Type 0 where
  pub detached : handles t.disabled ≡ handles s.disabled ++ detaches sels
  pub freed : t.freed ≡ s.freed ++ map (λ x. x.selected) sels

Left-Kept :
    (test : Block → Bool) (xs : List ℕ) (s t : Blocks)
    → AllApart s.block xs
    → Left test xs s t
    → Kept xs (failing test s.block xs) s t
Left-Kept test xs s t apart l = record {
  list = l.list;
  same = l.same;
  apart = AllApart-failing test s.block xs apart;
  fewer = length-failing test s.block xs;
  others = λ other. NoneOf-failing test s.block other xs;
}

Kept-then : (xs ys zs : List ℕ) (s t u : Blocks) → Kept xs ys s t → Kept ys zs t u → Kept xs zs s u
Kept-then xs ys zs s t u k l = record {
  list = l.list;
  same = l.same ∙ k.same;
  apart = subst (λ f. AllApart f zs) k.same l.apart;
  fewer = omega (arith, k.fewer, l.fewer);
  others = λ test h.
      subst (λ f. NoneOf test f zs) k.same
        (l.others test (subst (λ f. NoneOf test f ys) (sym k.same) (k.others test h)));
}

AllReleased-Kept :
    (sels : List Selection) (xs ys : List ℕ) (s t : Blocks)
    → Kept xs ys s t
    → AllReleased sels s.block xs
    → AllReleased sels s.block ys
AllReleased-Kept [] xs ys s t k h = tt
AllReleased-Kept (x ∷ sels) xs ys s t k (h, hs) =
    (λ on. k.others (is_managed_in x.pdev.ba) (h on), AllReleased-Kept sels xs ys s t k hs)

detaches-append : (xs ys : List Selection) → detaches (xs ++ ys) ≡ detaches xs ++ detaches ys
detaches-append [] ys = refl
detaches-append (x ∷ xs) ys = elim (Bool-cases (is_disabled_at_end x)) [
  | inl p ↦ rw p (ap (◌∷◌ (x.pdev.detached ++ (x.pdev.hdl ∷ []))) (detaches-append xs ys))
  | inr p ↦ rw p (detaches-append xs ys)
]

Done-then :
    (x : Selection) (xs : List Selection) (s t u : Removal)
    → Done (x ∷ []) s t
    → Done xs t u
    → Done (x ∷ xs) s u
Done-then x xs s t u d e = record {
  detached =
      e.detached
      ∙ ap (λ l. l ++ detaches xs) d.detached
      ∙ append_assoc (handles s.disabled) (detaches (x ∷ [])) (detaches xs)
      ∙ ap (◌++◌ (handles s.disabled)) (sym (detaches-append (x ∷ []) xs));
  freed =
      e.freed
      ∙ ap (λ l. l ++ map (λ y. y.selected) xs) d.freed
      ∙ append_assoc s.freed (x.selected ∷ []) (map (λ y. y.selected) xs);
}

module _ (library : Selected → Library) (finds : (hdl : ℕ) → Bool)
    (remove : Selected → PciDev → Blocks → Option (PciDev × Blocks)) where
  -- The body of the loop.
  remove_selection-Done :
      (rounds fuel : ℕ) (x : Selection) (s : Removal) (xs : List ℕ)
      → UnmapsOnly remove
      → AllAttached finds (x ∷ [])
      → IsList s.blocks.links xs
      → AllApart s.blocks.block xs
      → length xs < rounds
      → length xs < fuel
      → (t : Removal) × (ys : List ℕ) × (remove_selection remove library finds rounds fuel x s
          ≡ some t)
        × Kept xs ys s.blocks t.blocks
        × AllReleased (x ∷ []) s.blocks.block ys
        × Done (x ∷ []) s t
  unfolding remove_selection
  remove_selection-Done rounds fuel x s xs only (attached, _) list apart r f =
      let (d, b, test, removed, left, ba, managed, keeps) =
        only x.selected x.pdev s.blocks xs list in
      let k = Left-Kept test xs s.blocks b apart left in
      let ys = failing test s.blocks.block xs in
      let fewer = k.fewer in
      let (c, other, unmapped, left_c, released) =
        unmap_selection_lem rounds fuel x.selected d b ys k.list
          (subst (λ g. AllApart g ys) (sym k.same) k.apart) (omega (arith, fewer))
          (omega (arith, fewer)) in
      let l = Left-Kept other ys b c (subst (λ g. AllApart g ys) (sym k.same) k.apart) left_c in
      (
        _,
        failing other b.block ys,
        rw (remove_selection, removed) (rw unmapped refl),
        Kept-then xs ys (failing other b.block ys) s.blocks b c k l,
        (
          λ on.
              subst (λ g. NoneOf (is_managed_in x.pdev.ba) g (failing other b.block ys)) k.same
                (subst (λ rs. NoneOf (is_managed_in rs) b.block (failing other b.block ys)) ba
                  (released on)),
          tt,
        ),
        record {
          detached =
              map-append (λ e. e.detached) s.disabled (disable_managed library finds x.selected d)
              ∙ ap (◌++◌ (handles s.disabled)) (
                  disable_managed-detaches library finds x.selected x.pdev d managed keeps
                    attached);
          freed = refl;
        },
      )

  -- The drivers are removed in order, and the loops end, in as many rounds for each region as there
  -- are blocks and one more. Where no two blocks are mapped at the same address, the managed
  -- devices are attached, and `remove` of a driver unmaps blocks only and leaves a managed device
  -- attached: no managed block of a region of a device on the bus is left, and what is left is in
  -- order; each managed device on the bus gives its handle back once; each selection is freed once.
  pub remove_all_driver_selections-Done :
      (rounds fuel : ℕ) (sels : List Selection) (s : Removal) (xs : List ℕ)
      → UnmapsOnly remove
      → AllAttached finds sels
      → IsList s.blocks.links xs
      → AllApart s.blocks.block xs
      → length xs < rounds
      → length xs < fuel
      → (t : Removal) × (ys : List ℕ) × (remove_all_driver_selections remove library finds rounds
            fuel sels s
          ≡ some t)
        × Kept xs ys s.blocks t.blocks
        × AllReleased sels s.blocks.block ys
        × Done sels s t
  unfolding remove_all_driver_selections
  remove_all_driver_selections-Done rounds fuel [] s xs only attached list apart r f = (
    s,
    xs,
    refl,
    record { list = list; same = refl; apart = apart; fewer = omega arith; others = λ test h. h },
    tt,
    record { detached = sym (append-nil (handles s.disabled)); freed = sym (append-nil s.freed) },
  )
  remove_all_driver_selections-Done rounds fuel (x ∷ sels) s xs only (attached, others) list apart r
        f =
      let (t, ys, e, k, released, d) =
        remove_selection-Done rounds fuel x s xs only (attached, tt) list apart r f in
      let fewer = k.fewer in
      let (u, zs, g, l, rest, c) =
        remove_all_driver_selections-Done rounds fuel sels t ys only others k.list
          (subst (λ h. AllApart h ys) (sym k.same) k.apart) (omega (arith, fewer))
          (omega (arith, fewer)) in
      let still =
        AllReleased-Kept (x ∷ []) ys zs t.blocks u.blocks l
          (subst (λ h. AllReleased (x ∷ []) h ys) (sym k.same) released) in
      (
        u,
        zs,
        rw (remove_all_driver_selections, e) g,
        Kept-then xs ys zs s.blocks t.blocks u.blocks k l,
        subst (λ h. AllReleased (x ∷ sels) h zs) k.same (still.0, rest),
        Done-then x sels s t u d c,
      )
