-- ===== src/Pci/Blocks/Unmapped.antt =====
-- Blocks are unmapped.
use dev_can_linux.Base.{
  ℕ, zero, suc, ◌<◌, ◌≡◌, ◌≢◌, refl, sym, ap, ◌∙◌, subst, Bool, true, false, some, List, [], ◌∷◌,
  ◌++◌, append-nil, append_assoc, arith, length, ◌==◌, if◌then◌else◌, inl, inr, Bool-cases,
}
use dev_can_linux.Links.Segment.{Segment-split}
use dev_can_linux.Links.Laws.{IsList}
use dev_can_linux.Pci.Blocks.{
  Block, Blocks, Unmap, maps_at, is_managed_at, get_block, get_managed_block, take_out,
  remove_block, unmap_block, pci_iounmap, unmap_managed,
}
use dev_can_linux.Pci.Blocks.Laws.{
  first, NoneOf, First-cases, search_blocks-Segment, take_out-IsList,
}

-- No two blocks are mapped at the same address.
abbrev pub AllApart : (ℕ → Block) → List ℕ → Type 0
AllApart f [] = Unit {0}
AllApart f (x ∷ xs) = NoneOf (maps_at (f x).addr) f xs × AllApart f xs

NoneOf-drop :
    (test : Block → Bool) (f : ℕ → Block) (xs : List ℕ) (n : ℕ) (ys : List ℕ)
    → NoneOf test f (xs ++ (n ∷ ys))
    → (test (f n) ≡ false) × NoneOf test f (xs ++ ys)
NoneOf-drop test f [] n ys (h, hs) = (h, hs)
NoneOf-drop test f (x ∷ xs) n ys (h, hs) = let (a, b) = NoneOf-drop test f xs n ys hs in (a, (h, b))

AllApart-drop :
    (f : ℕ → Block) (xs : List ℕ) (n : ℕ) (ys : List ℕ)
    → AllApart f (xs ++ (n ∷ ys))
    → AllApart f (xs ++ ys)
AllApart-drop f [] n ys (h, hs) = hs
AllApart-drop f (x ∷ xs) n ys (h, hs) =
    ((NoneOf-drop (maps_at (f x).addr) f xs n ys h).1, AllApart-drop f xs n ys hs)

first-maps_at :
    (f : ℕ → Block) (xs : List ℕ) (n : ℕ) (ys : List ℕ)
    → AllApart f (xs ++ (n ∷ ys))
    → first (maps_at (f n).addr) f (xs ++ (n ∷ ys)) ≡ n
first-maps_at f [] n ys h =
    let here : ((f n).addr == (f n).addr) ≡ true = ground arith in rw here refl
first-maps_at f (x ∷ xs) n ys (h, hs) =
    let (apart, _) = NoneOf-drop (maps_at (f x).addr) f xs n ys h in
    let other : ((f x).addr == (f n).addr) ≡ false = ground (arith, apart) in
    rw other (first-maps_at f xs n ys hs)

abbrev pub without : (n : ℕ) → Blocks → Blocks
without n s = record s {
  links = take_out n s.links;
  unmaps = s.unmaps ++ unmap_block n (s.block n);
}

-- The first block at an address is taken out, wherever it stands in the list.
remove_block_lem :
    (fuel n : ℕ) (s : Blocks) (xs ys : List ℕ)
    → IsList s.links (xs ++ (n ∷ ys))
    → first (maps_at (s.block n).addr) s.block (xs ++ (n ∷ ys)) ≡ n
    → length (xs ++ (n ∷ ys)) < fuel
    → n ≢ 0
    → remove_block fuel (s.block n).addr s ≡ some (n, record s { links = take_out n s.links })
unfolding remove_block get_block
remove_block_lem fuel n s xs ys h found_first f there =
    let found =
      search_blocks-Segment fuel (maps_at (s.block n).addr) s (xs ++ (n ∷ ys)) 0 s.links.root h.tail
        h.linked f
      ∙ ap some found_first in
    let not_null : (n == 0) ≡ false = ground arith in
    rw (remove_block, get_block, found) (rw not_null refl)

pub pci_iounmap_lem :
    (fuel n : ℕ) (s : Blocks) (xs ys : List ℕ)
    → IsList s.links (xs ++ (n ∷ ys))
    → first (maps_at (s.block n).addr) s.block (xs ++ (n ∷ ys)) ≡ n
    → length (xs ++ (n ∷ ys)) < fuel
    → pci_iounmap fuel (s.block n).addr s ≡ some (without n s)
unfolding pci_iounmap
pci_iounmap_lem fuel n s xs ys h found_first f =
    let (_, _, _, (_, there, _, _)) =
      Segment-split s.links xs (n ∷ ys) 0 s.links.root h.tail 0 h.linked in
    let not_null : (n == 0) ≡ false = ground arith in
    rw (pci_iounmap, remove_block_lem fuel n s xs ys h found_first f there) (rw not_null refl)

-- The nodes whose blocks fail a test, and those whose blocks pass it.
abbrev pub failing : (Block → Bool) → (ℕ → Block) → List ℕ → List ℕ
failing test f [] = []
failing test f (x ∷ xs) = let rest = failing test f xs in if test (f x) then rest else x ∷ rest

abbrev pub unmaps_of : (Block → Bool) → (ℕ → Block) → List ℕ → List Unmap
unmaps_of test f [] = []
unmaps_of test f (x ∷ xs) =
    let rest = unmaps_of test f xs in if test (f x) then unmap_block x (f x) ++ rest else rest

module _ (test : Block → Bool) (f : ℕ → Block) where
  failing-NoneOf : (xs : List ℕ) → NoneOf test f xs → failing test f xs ≡ xs
  failing-NoneOf [] h = refl
  failing-NoneOf (x ∷ xs) (h, hs) = rw h (ap (◌∷◌ x) (failing-NoneOf xs hs))

  unmaps_of-NoneOf : (xs : List ℕ) → NoneOf test f xs → unmaps_of test f xs ≡ []
  unmaps_of-NoneOf [] h = refl
  unmaps_of-NoneOf (x ∷ xs) (h, hs) = rw h (unmaps_of-NoneOf xs hs)

  failing-drop :
      (xs : List ℕ) (n : ℕ) (ys : List ℕ)
      → test (f n) ≡ true
      → failing test f (xs ++ (n ∷ ys)) ≡ failing test f (xs ++ ys)
  failing-drop [] n ys h = rw h refl
  failing-drop (x ∷ xs) n ys h = rw (failing-drop xs n ys h) refl

  unmaps_of-first :
      (xs : List ℕ) (n : ℕ) (ys : List ℕ)
      → NoneOf test f xs
      → test (f n) ≡ true
      → unmaps_of test f (xs ++ (n ∷ ys)) ≡ unmap_block n (f n) ++ unmaps_of test f (xs ++ ys)
  unmaps_of-first [] n ys out h = rw h refl
  unmaps_of-first (x ∷ xs) n ys (out, rest) h = rw out (unmaps_of-first xs n ys rest h)

  pub NoneOf-failing :
      (other : Block → Bool) (xs : List ℕ) → NoneOf other f xs → NoneOf other f (failing test f xs)
  NoneOf-failing other [] h = tt
  NoneOf-failing other (x ∷ xs) (h, hs) = elim (Bool-cases (test (f x))) [
    | inl p ↦ rw p (NoneOf-failing other xs hs)
    | inr p ↦ rw p (h, NoneOf-failing other xs hs)
  ]

  pub AllApart-failing : (xs : List ℕ) → AllApart f xs → AllApart f (failing test f xs)
  AllApart-failing [] h = tt
  AllApart-failing (x ∷ xs) (h, hs) = elim (Bool-cases (test (f x))) [
    | inl p ↦ rw p (AllApart-failing xs hs)
    | inr p ↦ rw p (NoneOf-failing (maps_at (f x).addr) xs h, AllApart-failing xs hs)
  ]

-- What has become of the list `xs` of `s` where the blocks that pass the test were unmapped.
pub record Unmapped (test : Block → Bool) (s t : Blocks) (xs : List ℕ) : Type 0 where
  pub others : IsList t.links (failing test s.block xs)
  pub same : t.block ≡ s.block
  pub calls : t.unmaps ≡ s.unmaps ++ unmaps_of test s.block xs

length-drop :
    (xs : List ℕ) (n : ℕ) (ys : List ℕ) → length (xs ++ (n ∷ ys)) ≡ suc (length (xs ++ ys))
length-drop [] n ys = refl
length-drop (x ∷ xs) n ys = ap suc (length-drop xs n ys)

-- A round of the loop.
module _ (rounds fuel a : ℕ) (s t : Blocks) (xs : List ℕ) (n : ℕ) (ys : List ℕ) where
  unmap_managed-round :
      IsList s.links (xs ++ (n ∷ ys))
      → AllApart s.block (xs ++ (n ∷ ys))
      → length (xs ++ (n ∷ ys)) < fuel
      → get_managed_block fuel a s ≡ some n
      → unmap_managed rounds fuel a (without n s) ≡ some t
      → unmap_managed (suc rounds) fuel a s ≡ some t
  unfolding unmap_managed
  unmap_managed-round h apart f found rest =
      let (_, _, _, (_, there, _, _)) =
        Segment-split s.links xs (n ∷ ys) 0 s.links.root h.tail 0 h.linked in
      let not_null : (n == 0) ≡ false = ground arith in
      rw (unmap_managed, found)
        (rw (not_null, pci_iounmap_lem fuel n s xs ys h (first-maps_at s.block xs n ys apart) f)
          rest)

  Unmapped-round :
      (test : Block → Bool)
      → NoneOf test s.block xs
      → test (s.block n) ≡ true
      → Unmapped test (without n s) t (xs ++ ys)
      → Unmapped test s t (xs ++ (n ∷ ys))
  Unmapped-round test others p u = record {
    others = subst (IsList t.links) (sym (failing-drop test s.block xs n ys p)) u.others;
    same = u.same;
    calls =
        u.calls
        ∙ append_assoc s.unmaps (unmap_block n (s.block n)) _
        ∙ ap (◌++◌ s.unmaps) (sym (unmaps_of-first test s.block xs n ys others p));
  }

pub unmap_managed_lem :
    (rounds fuel a : ℕ) (s : Blocks) (xs : List ℕ)
    → IsList s.links xs
    → AllApart s.block xs
    → length xs < rounds
    → length xs < fuel
    → (t : Blocks) × (unmap_managed rounds fuel a s ≡ some t) × Unmapped (is_managed_at a) s t xs
unfolding unmap_managed get_managed_block
unmap_managed_lem zero fuel a s xs h apart r f = elim r [ ]
unmap_managed_lem (suc rounds) fuel a s xs h apart r f =
    let test = is_managed_at a in
    let search = search_blocks-Segment fuel test s xs 0 s.links.root h.tail h.linked f in
    let searched : get_managed_block fuel a s ≡ some (first test s.block xs) = search in
    elim (First-cases test s.block xs) [
      | inl (none_of, e) ↦ (
        s,
        rw (unmap_managed, searched) (rw e refl),
        record {
          others = subst (IsList s.links) (sym (failing-NoneOf test s.block xs none_of)) h;
          same = refl;
          calls =
              sym (
                ap (◌++◌ s.unmaps) (unmaps_of-NoneOf test s.block xs none_of)
                ∙ append-nil s.unmaps);
        },
      )
      | inr i ↦
          let n = i.node in
          let whole = i.before ++ (n ∷ i.behind) in
          let h_whole = subst (IsList s.links) i.whole h in
          let apart_whole = subst (AllApart s.block) i.whole apart in
          let size : length xs ≡ suc (length (i.before ++ i.behind)) =
            ap length i.whole ∙ length-drop i.before n i.behind in
          let (t, e, u) =
            unmap_managed_lem rounds fuel a (without n s) (i.before ++ i.behind)
              (take_out-IsList n i.before i.behind h_whole)
              (AllApart-drop s.block i.before n i.behind apart_whole) (omega (arith, size))
              (omega (arith, size)) in
          (
            t,
            unmap_managed-round rounds fuel a s t i.before n i.behind h_whole apart_whole
                (subst (λ zs. length zs < fuel) i.whole f) (search ∙ ap some i.found) e,
            subst (Unmapped test s t) (sym i.whole) (
                Unmapped-round rounds fuel a s t i.before n i.behind test i.none_before i.passes u),
          )
    ]
