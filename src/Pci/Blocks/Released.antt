-- ===== src/Pci/Blocks/Released.antt =====
-- The managed blocks of a device are unmapped when the drivers are removed.
use dev_can_linux.Base.{
  ℕ, ◌<◌, ◌≤◌, ◌≡◌, refl, sym, ap, ◌∙◌, subst, Bool, false, ◌||◌, some, List, [], ◌∷◌, ◌++◌,
  append-nil, append_assoc, arith, length, inl, inr, Bool-cases,
}
use dev_can_linux.Links.Laws.{IsList}
use dev_can_linux.Pci.Spaces.{Region}
use dev_can_linux.Pci.Blocks.{Block, Blocks, Unmap, is_managed_at, unmap_regions}
use dev_can_linux.Pci.Blocks.Unmapped.{
  AllApart, AllApart-failing, failing, unmaps_of, unmap_managed_lem,
}

abbrev pub is_managed_in : List Region → Block → Bool
is_managed_in [] b = false
is_managed_in (r ∷ rs) b = is_managed_at r.addr b || is_managed_in rs b

-- The calls for the blocks of a region, and then those for the blocks of the other regions.
abbrev pub unmaps_in : List Region → (ℕ → Block) → List ℕ → List Unmap
unmaps_in [] f xs = []
unmaps_in (r ∷ rs) f xs =
    unmaps_of (is_managed_at r.addr) f xs ++ unmaps_in rs f (failing (is_managed_at r.addr) f xs)

pub failing-none : (f : ℕ → Block) (xs : List ℕ) → failing (is_managed_in []) f xs ≡ xs
failing-none f [] = refl
failing-none f (x ∷ xs) = ap (◌∷◌ x) (failing-none f xs)

failing-both :
    (f : ℕ → Block) (r : Region) (rs : List Region) (xs : List ℕ)
    → failing (is_managed_in rs) f (failing (is_managed_at r.addr) f xs)
      ≡ failing (is_managed_in (r ∷ rs)) f xs
failing-both f r rs [] = refl
failing-both f r rs (x ∷ xs) = elim (Bool-cases (is_managed_at r.addr (f x))) [
  | inl p ↦ rw p (failing-both f r rs xs)
  | inr p ↦ rw p (rw (failing-both f r rs xs) refl)
]

pub length-failing :
    (test : Block → Bool) (f : ℕ → Block) (xs : List ℕ) → length (failing test f xs) ≤ length xs
length-failing test f [] = omega arith
length-failing test f (x ∷ xs) = ground (arith, length-failing test f xs)

-- The blocks themselves are left as they were.
pub unmap_regions_lem :
    (rounds fuel : ℕ) (rs : List Region) (s : Blocks) (xs : List ℕ)
    → IsList s.links xs
    → AllApart s.block xs
    → length xs < rounds
    → length xs < fuel
    → (t : Blocks) × (unmap_regions rounds fuel rs s ≡ some t)
      × IsList t.links (failing (is_managed_in rs) s.block xs)
      × (t.unmaps ≡ s.unmaps ++ unmaps_in rs s.block xs)
      × (t.block ≡ s.block)
unfolding unmap_regions
unmap_regions_lem rounds fuel [] s xs h apart r f = (
  s,
  refl,
  subst (IsList s.links) (sym (failing-none s.block xs)) h,
  sym (append-nil s.unmaps),
  refl,
)
unmap_regions_lem rounds fuel (q ∷ qs) s xs h apart r f =
    let test = is_managed_at q.addr in
    let left = failing test s.block xs in
    let fewer = length-failing test s.block xs in
    let (t, e, u) = unmap_managed_lem rounds fuel q.addr s xs h apart r f in
    let (v, d, k, calls, same) =
      unmap_regions_lem rounds fuel qs t left u.others
        (subst (λ b. AllApart b left) (sym u.same) (AllApart-failing test s.block xs apart))
        (omega (arith, fewer)) (omega (arith, fewer)) in
    (
      v,
      rw (unmap_regions, e) d,
      subst (IsList v.links)
          (ap (λ b. failing (is_managed_in qs) b left) u.same ∙ failing-both s.block q qs xs) k,
      calls
          ∙ ap (λ c. c ++ unmaps_in qs t.block left) u.calls
          ∙ append_assoc s.unmaps (unmaps_of test s.block xs) (unmaps_in qs t.block left)
          ∙ ap (λ b. s.unmaps ++ (unmaps_of test s.block xs ++ unmaps_in qs b left)) u.same,
      same ∙ u.same,
    )

-- The loops over the regions of a device end, in as many rounds for each region as there are blocks
-- and one more. Where no two blocks are mapped at the same address, exactly the managed blocks of these regions are
-- unmapped, each once, and the others stay in the list in order.
pub unmap_regions-releases :
    (rounds fuel : ℕ) (rs : List Region) (s : Blocks) (xs : List ℕ)
    → IsList s.links xs
    → AllApart s.block xs
    → length xs < rounds
    → length xs < fuel
    → (t : Blocks) × (unmap_regions rounds fuel rs s ≡ some t)
      × IsList t.links (failing (is_managed_in rs) s.block xs)
      × (t.unmaps ≡ s.unmaps ++ unmaps_in rs s.block xs)
unmap_regions-releases rounds fuel rs s xs h apart r f =
    let (t, e, k, calls, _) = unmap_regions_lem rounds fuel rs s xs h apart r f in (t, e, k, calls)
